-- ===== src/Linker/Protection/Restored.antt =====
-- restoreProtections as a whole: each page gets what the segments on it ask for.
use so_load.Base.{
  ℕ, suc, ◌+◌, ◌-◌, ◌*◌, ◌/◌, ◌^◌, ◌≤◌, ◌<◌, ◌≡◌, refl, ap, ◌∙◌, false, List, [], ◌∷◌, some, All,
  leb, ◌==◌, ==_iff, if◌then◌else◌, arith, Bool-cases, inl, inr,
}
use so_load.Base.Words.{sub64}
use so_load.Image.{ElfImage, ElfPhdr, pt_load}
use so_load.Linker.Pages.{page_start, page_end}
use so_load.Linker.Segments.{Prot, Space, segment_prot}
use so_load.Linker.Library.{no_access}
use so_load.Linker.Protection.{
  start_in, end_in, address_range, collect_prots, is_no_access, protect_pages, restore_protections,
}
use so_load.Linker.Protection.Covered.{with_range, add_pages-with_range, protect_pages_at}

module _ (ps : ℕ) (image : ElfImage) (start num : ℕ) where
  -- The protections of the segments that a page lies on, put together.
  unfoldable pub covered : List ElfPhdr → (ℕ → Prot) → ℕ → Prot
  covered [] prots i = prots i
  covered (phdr ∷ phdrs) prots i =
      let taken =
        covered phdrs
          (with_range ps start num (page_start ps (start_in image phdr))
            (page_end ps (end_in image phdr)) (segment_prot phdr.p_flags) prots)
          i in
      let skipped = covered phdrs prots i in if phdr.p_type == pt_load then taken else skipped

  -- A PT_LOAD segment that starts a number of pages behind `start`, and ends at most `n` pages later, with
  -- a page to spare.
  abbrev pub IsOnPages : ℕ → ElfPhdr → Type 0
  IsOnPages n phdr =
      phdr.p_type ≡ 1
      → (a : ℕ) × (page_start ps (start_in image phdr) ≡ start + a * ps)
        × (page_end ps (end_in image phdr) + ps ≤ 2 ^ 64)
        × (page_end ps (end_in image phdr) ≤ start + (a + n) * ps)

  collect_prots-covered :
      (n : ℕ) (phdrs : List ElfPhdr) (prots : ℕ → Prot)
      → 0 < ps
      → All (IsOnPages n) phdrs
      → (after : ℕ → Prot) × (collect_prots ps (suc n) image start num phdrs prots ≡ some after)
        × ((i : ℕ) → after i ≡ covered phdrs prots i)
  unfolding collect_prots covered
  collect_prots-covered n [] prots pos all = (prots, refl, λ i. refl)
  collect_prots-covered n (phdr ∷ phdrs) prots pos all =
      elim (Bool-cases (phdr.p_type == pt_load)) [
        | inr other ↦
            let (after, run, value) = collect_prots-covered n phdrs prots pos all.1 in
            (after, rw other run, λ i. rw other (value i))
        | inl load ↦
            let (a, place, fits, enough) = all.0 ((==_iff phdr.p_type 1).0 load) in
            let end = page_end ps (end_in image phdr) in
            let prot = segment_prot phdr.p_flags in
            let (mid, first, set) =
              add_pages-with_range ps start num end prot n a prots pos fits enough in
            let set' : mid ≡ with_range ps start num (start + a * ps) end prot prots =
              λ k i. set i k in
            let (after, run, value) = collect_prots-covered n phdrs mid pos all.1 in
            (
              after,
              rw (load, place, first) run,
              λ i. rw (load, place) (value i ∙ ap (λ p. covered phdrs p i) set'),
            )
      ]

-- For an image whose segments span a range that is not empty, start a whole number of pages behind
-- its first page and end at least a page below 2 ^ 64, and with a round more than a segment may have
-- pages: restoreProtections ends, and each address of the pages from the lowest to the highest
-- segment has the protections of all the segments on its page, put together, or, where no segment on
-- its page gives a protection, the one it had.
pub restore_protections-covered :
    (ps n : ℕ) (image : ElfImage) (space : Space) (lo hi num j x : ℕ)
    → address_range image image.phdrs (2 ^ 64 - 1) 0 ≡ (lo, hi)
    → lo < hi
    → sub64 (page_end ps hi) (page_start ps lo) / ps ≡ num
    → 0 < ps
    → page_start ps lo + num * ps ≤ 2 ^ 64
    → All (IsOnPages ps image (page_start ps lo) num n) image.phdrs
    → j < num
    → page_start ps lo + j * ps ≤ x
    → x < page_start ps lo + j * ps + ps
    → (after : Space) × (restore_protections ps (suc n) image space ≡ some after)
      × (after.prot x ≡ (
          let prot = covered ps image (page_start ps lo) num image.phdrs (λ i. no_access) j in
          if is_no_access prot then space.prot x else prot))
unfolding restore_protections
restore_protections-covered ps n image space lo hi num j x range some_size pages pos fits all low
      first last =
    let start = page_start ps lo in
    let (prots, run, value) =
      collect_prots-covered ps image start num n image.phdrs (λ i. no_access) pos all in
    let sized : leb hi lo ≡ false = ground (arith, some_size) in
    let some_pages : (num == 0) ≡ false = ground (arith, low) in
    let at =
      protect_pages_at ps start prots num 0 j x space
        (let same = ap (λ (y : ℕ). start + y * ps) (let e : 0 + num ≡ num = omega arith in e) in
          omega (arith, fits, same))
        pos (omega arith) (omega (arith, low)) first last in
    (
      protect_pages ps start prots num 0 space,
      rw (range, pages, sized, some_pages, run, restore_protections) refl,
      at ∙ ap (λ p. if is_no_access p then space.prot x else p) (value j),
    )

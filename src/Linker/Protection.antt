-- ===== src/Linker/Protection.antt =====
-- restoreProtections of src/linker.cpp, and makeWritable of link.
pub mod Covered
pub mod Restored
use so_load.Base.{
  ℕ, zero, suc, ◌+◌, ◌-◌, ◌*◌, ◌/◌, ◌^◌, Bool, true, false, not, ◌&&◌, ◌||◌, List, [], ◌∷◌, Option,
  none, some, ◌>>=◌, ltb, leb, ◌==◌, if◌then◌else◌,
}
use so_load.Base.Words.{u64, sub64}
use so_load.Image.{ElfImage, ElfPhdr, pt_load, at_vaddr}
use so_load.Linker.Pages.{page_start, page_end}
use so_load.Linker.Segments.{Prot, Space, has_bit, segment_prot, protect_range}
use so_load.Linker.Library.{no_access}

abbrev pub start_in : ElfImage → ElfPhdr → ℕ
unfolding at_vaddr
start_in image phdr = at_vaddr image phdr.p_vaddr

abbrev pub end_in : ElfImage → ElfPhdr → ℕ
unfolding at_vaddr
end_in image phdr = u64 (at_vaddr image phdr.p_vaddr + phdr.p_memsz)

-- min_addr and max_addr.
unfoldable pub address_range : ElfImage → List ElfPhdr → ℕ → ℕ → ℕ × ℕ
address_range image [] lo hi = (lo, hi)
address_range image (phdr ∷ phdrs) lo hi =
    let first = start_in image phdr in
    let end = end_in image phdr in
    let skipped = address_range image phdrs lo hi in
    let taken =
      address_range image phdrs (if ltb first lo then first else lo)
        (if ltb hi end then end else hi) in
    if phdr.p_type == pt_load then taken else skipped

abbrev pub or_prot : Prot → Prot → Prot
or_prot p q = record {
  read = p.read || q.read;
  write = p.write || q.write;
  exec = p.exec || q.exec;
}

-- `page_prots[idx] |= prot`.
unfoldable pub add_prot : ℕ → Prot → (ℕ → Prot) → ℕ → Prot
add_prot idx prot prots i = if i == idx then or_prot (prots i) prot else prots i

-- The loop over the pages of a segment; `none` is a use of all rounds.
unfoldable pub add_pages : ℕ → ℕ → ℕ → ℕ → Prot → ℕ → ℕ → (ℕ → Prot) → Option (ℕ → Prot)
unfolding add_prot
add_pages page_size start num zero prot cur end prots = none
add_pages page_size start num (suc rounds) prot cur end prots =
    let idx = sub64 cur start / page_size in
    let on =
      add_pages page_size start num rounds prot (u64 (cur + page_size)) end
        (if ltb idx num then add_prot idx prot prots else prots) in
    if ltb cur end then on else some prots

-- The loop over the segments.
unfoldable pub collect_prots :
    ℕ → ℕ → ElfImage → ℕ → ℕ → List ElfPhdr → (ℕ → Prot) → Option (ℕ → Prot)
collect_prots page_size rounds image start num [] prots = some prots
collect_prots page_size rounds image start num (phdr ∷ phdrs) prots =
    let skipped = collect_prots page_size rounds image start num phdrs prots in
    let taken : Option (ℕ → Prot) =
      add_pages page_size start num rounds (segment_prot phdr.p_flags)
        (page_start page_size (start_in image phdr)) (page_end page_size (end_in image phdr)) prots
      >>= (λ prots'. collect_prots page_size rounds image start num phdrs prots') in
    if phdr.p_type == pt_load then taken else skipped

abbrev pub is_no_access : Prot → Bool
is_no_access p = not (p.read || p.write || p.exec)

-- The loop that calls mprotect, from page `i` on for `n` pages.
unfoldable pub protect_pages : ℕ → ℕ → (ℕ → Prot) → ℕ → ℕ → Space → Space
unfolding protect_range
protect_pages page_size start prots zero i space = space
protect_pages page_size start prots (suc n) i space =
    protect_pages page_size start prots n (i + 1) (
      if is_no_access (prots i)
      then space
      else protect_range (u64 (start + i * page_size)) page_size (prots i) space)

-- restoreProtections.
unfoldable pub restore_protections : ℕ → ℕ → ElfImage → Space → Option Space
unfolding address_range collect_prots protect_pages
restore_protections page_size rounds image space =
    let (lo, hi) = address_range image image.phdrs (2 ^ 64 - 1) 0 in
    let start = page_start page_size lo in
    let num = sub64 (page_end page_size hi) start / page_size in
    if leb hi lo
    then some space
    else if num == 0
    then some space
    else collect_prots page_size rounds image start num image.phdrs (λ i. no_access)
      >>= (λ prots. some (protect_pages page_size start prots num 0 space))

-- makeWritable.
unfoldable pub make_writable : ℕ → ElfImage → List ElfPhdr → Space → Space
unfolding protect_range page_start page_end at_vaddr
make_writable page_size image [] space = space
make_writable page_size image (phdr ∷ phdrs) space =
    let first = page_start page_size (at_vaddr image phdr.p_vaddr) in
    let len =
      sub64 (page_end page_size (u64 (phdr.p_vaddr + phdr.p_memsz)))
        (page_start page_size phdr.p_vaddr) in
    let prot : Prot = record { read = true; write = true; exec = has_bit phdr.p_flags 1 } in
    make_writable page_size image phdrs (
      if not (phdr.p_type == pt_load) || has_bit phdr.p_flags 2
      then space
      else protect_range first len prot space)

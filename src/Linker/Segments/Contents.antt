-- ===== src/Linker/Segments/Contents.antt =====
-- What loadSegment leaves in memory.
use so_load.Base.{
  ℕ, ◌+◌, ◌-◌, ◌^◌, ◌≤◌, ◌<◌, ◌≡◌, ◌⊎◌, inl, inr, refl, ap, ◌∙◌, min, true, ◌&&◌, some, ltb, ◌==◌,
  if◌then◌else◌, arith, Bool-cases,
}
use so_load.Base.Words.{u64, sub64}
use so_load.Image.{ElfPhdr}
use so_load.Linker.Pages.{page_end}
use so_load.Linker.Segments.{
  Prot, Space, Kernel, has_bit, segment_prot, loading_prot, SegmentLayout, within, map_range,
  zero_range, protect_range, placed, map_file_part, map_bss, zero_tail, add_exec, fill_segment,
}

-- The layout of a segment without wrap-around, whose address and offset lie at the same distance
-- from the starts of their pages.
pub record IsLaid (k : Kernel) (phdr : ElfPhdr) (l : SegmentLayout) : Type 0 where
  pub part : ℕ
  pub start : l.seg_start ≡ l.pg_start + part
  pub offset : phdr.p_offset ≡ l.file_page + part
  pub file_end : l.file_end ≡ l.seg_start + phdr.p_filesz
  pub seg_end : l.seg_end ≡ l.seg_start + phdr.p_memsz
  pub file_inside : part + phdr.p_filesz ≤ l.file_len
  pub stop : page_end k.page_size l.file_end ≡ l.pg_start + l.file_len
  pub pages : l.pg_start + l.file_len ≤ l.pg_end
  pub inside : l.seg_end ≤ l.pg_end
  pub small : l.pg_end < 2 ^ 64
  pub whole : phdr.p_filesz ≡ phdr.p_memsz → l.pg_end ≡ l.pg_start + l.file_len
  pub filled : phdr.p_filesz ≤ phdr.p_memsz
  pub zeroed : phdr.p_filesz < phdr.p_memsz → has_bit phdr.p_flags 2 ≡ true

pointwise {ℓ} : {A : Type ℓ} {f g : ℕ → A} → ((a : ℕ) → f a ≡ g a) → f ≡ g
pointwise h = λ i a. h a i

module _ (k : Kernel) (file : ℕ → ℕ) (phdr : ElfPhdr) (l : SegmentLayout) where
  abbrev with_file : (ℕ → ℕ) → ℕ → ℕ
  with_file bytes = within l.pg_start l.file_len (λ a. file (l.file_page + (a - l.pg_start))) bytes

  abbrev with_bss : (ℕ → ℕ) → ℕ → ℕ
  with_bss bytes =
      within (l.pg_start + l.file_len) (l.pg_end - (l.pg_start + l.file_len)) (λ a. 0) bytes

  abbrev file_prot : (ℕ → Prot) → ℕ → Prot
  file_prot prot = within l.pg_start l.file_len (λ a. loading_prot phdr) prot

  abbrev bss_prot : (ℕ → Prot) → ℕ → Prot
  bss_prot prot =
      within (l.pg_start + l.file_len) (l.pg_end - (l.pg_start + l.file_len))
        (λ a. loading_prot phdr) prot

  abbrev with_tail : (ℕ → ℕ) → ℕ → ℕ
  with_tail bytes =
      if has_bit phdr.p_flags 2
      then within l.file_end (min (l.pg_start + l.file_len - l.file_end) (l.seg_end - l.file_end))
          (λ a. 0) bytes
      else bytes

  loading_write : (loading_prot phdr).write ≡ has_bit phdr.p_flags 2
  loading_write = elim (Bool-cases (has_bit phdr.p_flags 2 && has_bit phdr.p_flags 1)) [
    | inl both ↦ rw both refl
    | inr not_both ↦ rw not_both refl
  ]

  map_file_part-with_file :
      (space : Space)
      → ((a n : ℕ) → k.mmap_fixed a n ≡ true)
      → (after : Space) × (map_file_part k file phdr l space ≡ some after)
        × (after.bytes ≡ with_file space.bytes)
        × (after.prot ≡ file_prot space.prot)
  unfolding map_file_part map_range within
  map_file_part-with_file space ok = elim (Bool-cases (l.file_len == 0)) [
    | inl empty ↦ (
      space,
      rw empty refl,
      pointwise (λ a. ground (arith, empty)),
      pointwise (λ a. ground (arith, empty)),
    )
    | inr some_part ↦
        let made =
          map_range l.pg_start l.file_len (λ a. file (l.file_page + (a - l.pg_start)))
            (loading_prot phdr) space in
        (made, rw (some_part, ok l.pg_start l.file_len) refl, refl, refl)
  ]

  map_bss-with_bss :
      (space : Space)
      → ((a n : ℕ) → k.mmap_fixed a n ≡ true)
      → IsLaid k phdr l
      → (after : Space) × (map_bss k file phdr l space ≡ placed after)
        × (after.bytes ≡ with_bss space.bytes)
        × (after.prot ≡ bss_prot space.prot)
  unfolding map_bss map_range within
  map_bss-with_bss space ok laid =
      let addr : u64 (l.pg_start + l.file_len) ≡ l.pg_start + l.file_len =
        omega (arith, laid.pages, laid.small) in
      elim (Bool-cases (ltb (l.pg_start + l.file_len) l.pg_end)) [
        | inl bss ↦
            let short : phdr.p_filesz < phdr.p_memsz =
              ground (arith, bss, laid.whole, laid.filled) in
            let made =
              map_range (l.pg_start + l.file_len) (l.pg_end - (l.pg_start + l.file_len)) (λ a. 0)
                (loading_prot phdr) space in
            let writable = loading_write ∙ laid.zeroed short in
            (
              made,
              rw
                  (
                    addr,
                    bss,
                    ok (l.pg_start + l.file_len) (l.pg_end - (l.pg_start + l.file_len)),
                    writable,
                  )
                  refl,
              refl,
              refl,
            )
        | inr none_left ↦ (
          space,
          rw (addr, none_left) refl,
          pointwise (λ a. ground (arith, none_left)),
          pointwise (λ a. ground (arith, none_left)),
        )
      ]

  zero_tail-with_tail :
      (space : Space)
      → IsLaid k phdr l
      → (zero_tail k file phdr l space).bytes ≡ with_tail space.bytes
  unfolding zero_tail zero_range within
  zero_tail-with_tail space laid =
      let len : sub64 (page_end k.page_size l.file_end) l.file_end
          ≡ l.pg_start + l.file_len - l.file_end =
        omega
          (arith, laid.stop, laid.start, laid.file_end, laid.file_inside, laid.pages, laid.small) in
      elim (Bool-cases (has_bit phdr.p_flags 2)) [
        | inl writable ↦ elim (Bool-cases (ltb l.file_end l.seg_end)) [
          | inl bss ↦ rw (writable, bss, len) refl
          | inr full ↦ rw (writable, full) (pointwise (λ a. ground (arith, full)))
        ]
        | inr read_only ↦ rw read_only refl
      ]

  -- The bytes of the pages: the file's, then zeros to the segment's end.
  filled_bytes :
      (space : Space) (i : ℕ)
      → IsLaid k phdr l
      → i < phdr.p_memsz
      → with_tail (with_bss (with_file space.bytes)) (l.seg_start + i)
        ≡ (if ltb i phdr.p_filesz then file (phdr.p_offset + i) else 0)
  unfolding within
  filled_bytes space i laid h =
      let place : l.file_page + (l.seg_start + i - l.pg_start) ≡ phdr.p_offset + i =
        omega (arith, laid.start, laid.offset) in
      let same = ap file place in
      ground (
        arith, h, same, laid.start, laid.file_end, laid.seg_end, laid.file_inside, laid.inside,
        laid.filled, laid.zeroed,
      )

  filled_frame :
      (space : Space) (a : ℕ)
      → IsLaid k phdr l
      → (a < l.pg_start) ⊎ (l.pg_end ≤ a)
      → with_tail (with_bss (with_file space.bytes)) a ≡ space.bytes a
  unfolding within
  filled_frame space a laid (inl below) =
      ground (arith, below, laid.start, laid.file_end, laid.seg_end)
  filled_frame space a laid (inr above) =
      ground (arith, above, laid.start, laid.file_end, laid.seg_end, laid.pages, laid.inside)

  add_exec_bytes : (space : Space) → (add_exec k file phdr l space).bytes ≡ space.bytes
  unfolding add_exec protect_range
  add_exec_bytes space = pointwise (λ a. ground arith)

  add_exec_prot :
      (space : Space) (a : ℕ)
      → IsLaid k phdr l
      → l.pg_start ≤ a
      → a < l.pg_end
      → space.prot a ≡ loading_prot phdr
      → (add_exec k file phdr l space).prot a ≡ segment_prot phdr.p_flags
  unfolding add_exec protect_range within
  add_exec_prot space a laid low high e =
      let len : sub64 l.pg_end l.pg_start ≡ l.pg_end - l.pg_start =
        omega (arith, laid.small, low, high) in
      elim (Bool-cases (has_bit phdr.p_flags 2 && has_bit phdr.p_flags 1)) [
        | inl both ↦ rw (both, len) (ground (arith, low, high))
        | inr not_both ↦ let e' = rw not_both at e in rw not_both e'
      ]

  zero_tail_prot : (space : Space) → (zero_tail k file phdr l space).prot ≡ space.prot
  unfolding zero_tail zero_range
  zero_tail_prot space = pointwise (λ a. ground arith)

  covered_prot :
      (space : Space) (a : ℕ)
      → IsLaid k phdr l
      → l.pg_start ≤ a
      → a < l.pg_end
      → bss_prot (file_prot space.prot) a ≡ loading_prot phdr
  unfolding within
  covered_prot space a laid low high = ground (arith, low, high)

  -- The pages hold the file's bytes and then zeros, under the segment's protection, and nothing
  -- else changes.
  pub record IsFilled (space after : Space) : Type 0 where
    pub contents :
        (i : ℕ)
        → i < phdr.p_memsz
        → after.bytes (l.seg_start + i)
          ≡ (if ltb i phdr.p_filesz then file (phdr.p_offset + i) else 0)
    pub frame : (a : ℕ) → (a < l.pg_start) ⊎ (l.pg_end ≤ a) → after.bytes a ≡ space.bytes a
    pub protection :
        (a : ℕ) → l.pg_start ≤ a → a < l.pg_end → after.prot a ≡ segment_prot phdr.p_flags

  pub fill_segment-IsFilled :
      (space : Space)
      → ((a n : ℕ) → k.mmap_fixed a n ≡ true)
      → IsLaid k phdr l
      → (after : Space) × (fill_segment k file phdr l space ≡ placed after) × IsFilled space after
  unfolding fill_segment
  fill_segment-IsFilled space ok laid =
      let (s1, mapped, bytes1, prot1) = map_file_part-with_file space ok in
      let (s2, bss, bytes2, prot2) = map_bss-with_bss s1 ok laid in
      let s3 = zero_tail k file phdr l s2 in
      let after = add_exec k file phdr l s3 in
      let bytes : after.bytes ≡ with_tail (with_bss (with_file space.bytes)) =
        add_exec_bytes s3
        ∙ zero_tail-with_tail s2 laid
        ∙ ap with_tail (bytes2 ∙ ap with_bss bytes1) in
      let prot : s3.prot ≡ bss_prot (file_prot space.prot) =
        zero_tail_prot s2 ∙ prot2 ∙ ap bss_prot prot1 in
      (
        after,
        rw (mapped, bss, fill_segment) refl,
        record {
          contents = λ i h. ap (λ f. f (l.seg_start + i)) bytes ∙ filled_bytes space i laid h;
          frame = λ a h. ap (λ f. f a) bytes ∙ filled_frame space a laid h;
          protection = λ a low high.
              add_exec_prot s3 a laid low high
                (ap (λ f. f a) prot ∙ covered_prot space a laid low high);
        },
      )

-- ===== src/Linker/Library/Mapped.antt =====
-- What loadSegment maps, and which addresses are mapped when the segments are loaded.
use so_load.Base.{
  ℕ, ◌+◌, ◌-◌, ◌^◌, ◌≤◌, ◌<◌, ◌≡◌, ap, sym, ◌∙◌, Bool, true, List, [], ◌∷◌, some, All, arith, ltb,
  ◌==◌, ==_iff, Bool-cases, Option-cases, inl, inr,
}
use so_load.Base.Words.{u64}
use so_load.Image.{ElfPhdr, pt_load}
use so_load.Linker.Segments.{
  Space, Kernel, SegmentLayout, SegmentLoad, placed, failed, fault, loading_prot, segment_layout,
  within, map_range, zero_range, protect_range, map_file_part, map_bss, zero_tail, add_exec,
  fill_segment, load_segment,
}
use so_load.Linker.Library.{load_segments}

-- The ranges that loadSegment maps, the part from the file and all the pages, lie between the base and the size
-- behind it.
abbrev pub IsInside : Kernel → ℕ → ℕ → ℕ → ElfPhdr → Type 0
IsInside k base size bias phdr =
    phdr.p_type ≡ 1
    → let l = segment_layout k.page_size phdr bias in
      (base ≤ l.pg_start) × (l.pg_start + l.file_len ≤ base + size) × (l.pg_end ≤ base + size)

-- In the space that a load leaves the reservation is mapped, and otherwise what was mapped before.
abbrev pub Keeps : (ℕ → Bool) → SegmentLoad → Type 0
Keeps mapped (placed space) = space.mapped ≡ mapped
Keeps mapped (failed space) = space.mapped ≡ mapped
Keeps mapped fault = Unit {0}

-- A range inside one that is mapped.
within_twice :
    (base size start len : ℕ) (m : ℕ → Bool)
    → base ≤ start
    → start + len ≤ base + size
    → within start len (λ a. true) (within base size (λ a. true) m) ≡ within base size (λ a. true) m
unfolding within
within_twice base size start len m low high = λ i a. at a i
  where
    at :
        (a : ℕ)
        → within start len (λ b. true) (within base size (λ b. true) m) a
          ≡ within base size (λ b. true) m a
    at a = ground (arith, low, high)

module _ (k : Kernel) (file : ℕ → ℕ) (phdr : ElfPhdr) (l : SegmentLayout) where
  zero_tail_mapped : (space : Space) → (zero_tail k file phdr l space).mapped ≡ space.mapped
  unfolding zero_tail zero_range
  zero_tail_mapped space = ground arith

  add_exec_mapped : (space : Space) → (add_exec k file phdr l space).mapped ≡ space.mapped
  unfolding add_exec protect_range
  add_exec_mapped space = ground arith

module _ (k : Kernel) (file : ℕ → ℕ) (base size : ℕ) (m : ℕ → Bool)
    (room : base + size < 2 ^ 64) where
  module _ (phdr : ElfPhdr) (l : SegmentLayout) (low : base ≤ l.pg_start)
      (file_high : l.pg_start + l.file_len ≤ base + size) (high : l.pg_end ≤ base + size) where
    map_file_part-Keeps :
        (space after : Space)
        → space.mapped ≡ within base size (λ a. true) m
        → map_file_part k file phdr l space ≡ some after
        → after.mapped ≡ within base size (λ a. true) m
    unfolding map_file_part map_range
    map_file_part-Keeps space after reserved e = elim (Bool-cases (l.file_len == 0)) [
      | inl empty ↦
          let e' = rw (empty, map_file_part) at e in
          let same : space ≡ after = cc in ap (λ (x : Space). x.mapped) (sym same) ∙ reserved
      | inr some_file ↦ elim (Bool-cases (k.mmap_fixed l.pg_start l.file_len)) [
        | inr refused ↦ absurd (let e' = rw (some_file, refused, map_file_part) at e in cc)
        | inl made ↦
            let e' = rw (some_file, made, map_file_part) at e in
            let same : after.mapped ≡ within l.pg_start l.file_len (λ a. true) space.mapped = cc in
            same
            ∙ ap (within l.pg_start l.file_len (λ a. true)) reserved
            ∙ within_twice base size l.pg_start l.file_len m low file_high
      ]
    ]

    map_bss-Keeps :
        (space : Space)
        → space.mapped ≡ within base size (λ a. true) m
        → Keeps (within base size (λ a. true) m) (map_bss k file phdr l space)
    unfolding map_bss map_range
    map_bss-Keeps space reserved =
        let bss = u64 (l.pg_start + l.file_len) in
        let len = l.pg_end - bss in
        elim (Bool-cases (ltb bss l.pg_end)) [
          | inr none_left ↦ rw (none_left, map_bss) reserved
          | inl some_left ↦ elim (Bool-cases (k.mmap_fixed bss len)) [
            | inr refused ↦ rw (some_left, refused, map_bss) reserved
            | inl made ↦ elim (Bool-cases (loading_prot phdr).write) [
              | inr read_only ↦ rw (some_left, made, read_only, map_bss) tt
              | inl writable ↦
                  rw (some_left, made, writable, map_bss)
                    (ap (within bss len (λ a. true)) reserved
                      ∙ within_twice base size bss len m (omega (arith, low, file_high, room))
                          (ground (arith, some_left, high)))
            ]
          ]
        ]

    fill_segment-Keeps :
        (space : Space)
        → space.mapped ≡ within base size (λ a. true) m
        → Keeps (within base size (λ a. true) m) (fill_segment k file phdr l space)
    unfolding fill_segment
    fill_segment-Keeps space reserved = elim (Option-cases (map_file_part k file phdr l space)) [
      | inl refused ↦ rw (refused, fill_segment) reserved
      | inr (with_file, mapped) ↦
          rw (mapped, fill_segment)
            (go (map_bss k file phdr l with_file)
              (map_bss-Keeps with_file (map_file_part-Keeps space with_file reserved mapped)))
    ]
      where
        go :
            (load : SegmentLoad)
            → Keeps (within base size (λ a. true) m) load
            → Keeps (within base size (λ a. true) m) (elim load [
              | placed whole ↦ placed (add_exec k file phdr l (zero_tail k file phdr l whole))
              | failed partly ↦ failed partly
              | fault ↦ fault
            ])
        go (placed whole) h =
            add_exec_mapped k file phdr l (zero_tail k file phdr l whole)
            ∙ zero_tail_mapped k file phdr l whole
            ∙ h
        go (failed partly) h = h
        go fault h = tt

  -- Whatever becomes of the segments, what is mapped beside the reservation is what was.
  pub load_segments-Keeps :
      (phdrs : List ElfPhdr) (bias : ℕ) (space : Space)
      → All (IsInside k base size bias) phdrs
      → space.mapped ≡ within base size (λ a. true) m
      → Keeps (within base size (λ a. true) m) (load_segments k file phdrs bias space)
  unfolding load_segments load_segment
  load_segments-Keeps [] bias space inside reserved = reserved
  load_segments-Keeps (phdr ∷ phdrs) bias space inside reserved =
      elim (Bool-cases (phdr.p_type == pt_load)) [
        | inr other ↦
            rw (other, load_segments) (load_segments-Keeps phdrs bias space inside.1 reserved)
        | inl load ↦
            let (low, file_high, high) = inside.0 ((==_iff phdr.p_type 1).0 load) in
            rw (load, load_segments)
              (go (λ space' h. load_segments-Keeps phdrs bias space' inside.1 h)
                (load_segment k file phdr bias space)
                (fill_segment-Keeps phdr (segment_layout k.page_size phdr bias) low file_high high
                  space reserved))
      ]
    where
      go :
          ((space' : Space)
            → space'.mapped ≡ within base size (λ a. true) m
            → Keeps (within base size (λ a. true) m) (load_segments k file phdrs bias space'))
          → (load : SegmentLoad) → Keeps (within base size (λ a. true) m) load
          → Keeps (within base size (λ a. true) m) (elim load [
            | placed space' ↦ load_segments k file phdrs bias space'
            | failed space' ↦ failed space'
            | fault ↦ fault
          ])
      go later (placed space') h = later space' h
      go later (failed space') h = h
      go later fault h = tt

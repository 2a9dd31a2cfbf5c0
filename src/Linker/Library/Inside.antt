-- ===== src/Linker/Library/Inside.antt =====
-- The segments of a library lie in the range that getLoadSize has reserved for them.
use mathlib.Core.Path.{subst}
use so_load.Base.{
  ℕ, zero, suc, ◌+◌, ◌-◌, ◌^◌, ◌≤◌, ◌≡◌, List, [], ◌∷◌, some, get_elem?, All, arith, ap, ◌∙◌, ltb,
  if◌then◌else◌,
}
use so_load.Base.Words.{u64, sub64}
use so_load.Base.Bits.{one_le_pow}
use so_load.Image.{ElfPhdr}
use so_load.Linker.Pages.{
  page_start, page_end, floor_page, IsPage, floor_page_bounds, floor_page_add, floor_page-IsPage,
}
use so_load.Linker.Segments.{Kernel, segment_layout}
use so_load.Linker.Segments.Layout.{past_page, floor_page_mono, past_page_bounds, start_of, end_of}
use so_load.Linker.Segments.Layout.{IsLoadable, segment_layout-IsLaid}
use so_load.Linker.Library.Mapped.{IsInside}
use so_load.Linker.Library.{load_extent, get_load_size}

load_extent_widens :
    (phdrs : List ElfPhdr) (lo hi : ℕ)
    → ((load_extent phdrs lo hi).0 ≤ lo) × (hi ≤ (load_extent phdrs lo hi).1)
unfolding load_extent
load_extent_widens [] lo hi = (omega arith, omega arith)
load_extent_widens (phdr ∷ phdrs) lo hi =
    let end = u64 (phdr.p_vaddr + phdr.p_memsz) in
    let taken =
      load_extent_widens phdrs (if ltb phdr.p_vaddr lo then phdr.p_vaddr else lo)
        (if ltb hi end then end else hi) in
    let skipped = load_extent_widens phdrs lo hi in ground (arith, taken, skipped)

load_extent_covers :
    (phdrs : List ElfPhdr) (i lo hi : ℕ) (phdr : ElfPhdr)
    → get_elem? phdrs i ≡ some phdr
    → phdr.p_type ≡ 1
    → ((load_extent phdrs lo hi).0 ≤ phdr.p_vaddr)
      × (u64 (phdr.p_vaddr + phdr.p_memsz) ≤ (load_extent phdrs lo hi).1)
unfolding load_extent
load_extent_covers [] i lo hi phdr e kind = cc
load_extent_covers (q ∷ phdrs) zero lo hi phdr e kind =
    let end = u64 (q.p_vaddr + q.p_memsz) in
    let same : q ≡ phdr = cc in
    let wide =
      load_extent_widens phdrs (if ltb q.p_vaddr lo then q.p_vaddr else lo)
        (if ltb hi end then end else hi) in
    let vaddr : q.p_vaddr ≡ phdr.p_vaddr = ap (λ (x : ElfPhdr). x.p_vaddr) same in
    let memsz : q.p_memsz ≡ phdr.p_memsz = ap (λ (x : ElfPhdr). x.p_memsz) same in
    let type : q.p_type ≡ phdr.p_type = ap (λ (x : ElfPhdr). x.p_type) same in
    ground (arith, wide, vaddr, memsz, type, kind)
load_extent_covers (q ∷ phdrs) (suc i) lo hi phdr e kind =
    let end = u64 (q.p_vaddr + q.p_memsz) in
    let taken =
      load_extent_covers phdrs i (if ltb q.p_vaddr lo then q.p_vaddr else lo)
        (if ltb hi end then end else hi) phdr e kind in
    let skipped = load_extent_covers phdrs i lo hi phdr e kind in ground (arith, taken, skipped)

load_extent_bounded :
    (phdrs : List ElfPhdr) (lo hi bound : ℕ)
    → All (λ phdr. phdr.p_vaddr + phdr.p_memsz ≤ bound) phdrs
    → hi ≤ bound
    → (load_extent phdrs lo hi).1 ≤ bound
unfolding load_extent
load_extent_bounded [] lo hi bound all h = h
load_extent_bounded (q ∷ phdrs) lo hi bound all h =
    let end = u64 (q.p_vaddr + q.p_memsz) in
    let here = all.0 in
    let taken =
      load_extent_bounded phdrs (if ltb q.p_vaddr lo then q.p_vaddr else lo)
        (if ltb hi end then end else hi) bound all.1 (ground (arith, here, h)) in
    let skipped = load_extent_bounded phdrs lo hi bound all.1 h in ground (arith, taken, skipped)

segment_layout_inside :
    (k : Kernel) (e base i : ℕ) (phdrs : List ElfPhdr) (phdr : ElfPhdr)
    → k.page_size ≡ 2 ^ e
    → e ≤ 63
    → All (λ q. q.p_vaddr + q.p_memsz ≤ 2 ^ 64 - 2 ^ e) phdrs
    → IsPage e base
    → base + (get_load_size k.page_size phdrs).0 + 2 ^ e ≤ 2 ^ 64
    → get_elem? phdrs i ≡ some phdr
    → phdr.p_type ≡ 1
    → let l = segment_layout k.page_size phdr (sub64 base (get_load_size k.page_size phdrs).1) in
      (base ≤ l.pg_start) × (l.pg_end ≤ base + (get_load_size k.page_size phdrs).0)
unfolding get_load_size segment_layout
segment_layout_inside k e base i phdrs phdr size small all page room here kind =
    let pos = one_le_pow e in
    let lo = (load_extent phdrs (2 ^ 64 - 1) 0).0 in
    let hi = (load_extent phdrs (2 ^ 64 - 1) 0).1 in
    let (lo_low, hi_high) = load_extent_covers phdrs i (2 ^ 64 - 1) 0 phdr here kind in
    let hi_fits = load_extent_bounded phdrs (2 ^ 64 - 1) 0 (2 ^ 64 - 2 ^ e) all (omega arith) in
    let fits = each phdrs i all here in
    let a = start_of k e size small lo (omega (arith, lo_low, fits, pos)) in
    let b = end_of k e size small hi (omega (arith, hi_fits, pos)) in
    let v = phdr.p_vaddr in
    let m = floor_page e lo in
    let d = v - m in
    let last = 2 ^ e - 1 in
    let (m_low, m_high, m_split) = floor_page_bounds e lo in
    let (h_low, h_high, h_split) = floor_page_bounds e (hi + last) in
    let tail : past_page e (v + phdr.p_memsz) ≡ m + past_page e (d + phdr.p_memsz) =
      ap (floor_page e) (
        let same : v + phdr.p_memsz + last ≡ m + (d + phdr.p_memsz + last) =
          omega (arith, m_low, lo_low) in
        same)
      ∙ floor_page_add e m (d + phdr.p_memsz + last) (floor_page-IsPage e lo) in
    let below =
      floor_page_mono e (v + phdr.p_memsz + last) (hi + last) (omega (arith, hi_high, fits, pos)) in
    let space : sub64 (page_end k.page_size hi) (page_start k.page_size lo) ≡ past_page e hi - m =
      omega (arith, a, b, h_low, hi_fits, m_low, lo_low, hi_high, fits, pos, below, tail) in
    let long = past_page_bounds e (d + phdr.p_memsz) in
    let start : u64 (v + sub64 base (page_start k.page_size lo)) ≡ base + d =
      omega (arith, a, space, room, m_low, lo_low, below, tail, long, fits, pos) in
    let first : page_start k.page_size (u64 (v + sub64 base (page_start k.page_size lo)))
        ≡ base + floor_page e d =
      ap (page_start k.page_size) start
      ∙ start_of k e size small (base + d) (omega (arith, space, room, below, tail, long, pos))
      ∙ floor_page_add e base d page in
    let ends : u64 (u64 (v + sub64 base (page_start k.page_size lo)) + phdr.p_memsz)
        ≡ base + (d + phdr.p_memsz) =
      omega (arith, start, space, room, below, tail, long, pos) in
    let final : page_end k.page_size
          (u64 (u64 (v + sub64 base (page_start k.page_size lo)) + phdr.p_memsz))
        ≡ base + past_page e (d + phdr.p_memsz) =
      ap (page_end k.page_size) ends
      ∙ end_of k e size small (base + (d + phdr.p_memsz))
          (omega (arith, space, room, below, tail, long))
      ∙ ap (floor_page e) (
          let same : base + (d + phdr.p_memsz) + last ≡ base + (d + phdr.p_memsz + last) =
            omega arith in
          same)
      ∙ floor_page_add e base (d + phdr.p_memsz + last) page in
    (omega (arith, first), omega (arith, final, space, below, tail))
  where
    each :
        (qs : List ElfPhdr) (j : ℕ)
        → All (λ q. q.p_vaddr + q.p_memsz ≤ 2 ^ 64 - 2 ^ e) qs
        → get_elem? qs j ≡ some phdr
        → phdr.p_vaddr + phdr.p_memsz ≤ 2 ^ 64 - 2 ^ e
    each [] j all' at = cc
    each (q ∷ qs) zero all' at =
        let same : q ≡ phdr = cc in subst (λ x. x.p_vaddr + x.p_memsz ≤ 2 ^ 64 - 2 ^ e) same all'.0
    each (q ∷ qs) (suc j) all' at = each qs j all'.1 at

-- With pages of 2 ^ e bytes, segments that end at least a page before the end of the address space,
-- and a base at the start of a page, behind which there is room for the size that getLoadSize
-- computes and a page: the ranges that loadSegment maps for a segment with the bias of this base,
-- the part from the file and the pages up to the segment's end, lie between the base and that size
-- behind it. The segment is not larger in the file than in memory, fits the file with a page to
-- spare, and its address and offset agree within a page.
pub get_load_size-IsInside :
    (k : Kernel) (e base i : ℕ) (phdrs : List ElfPhdr) (phdr : ElfPhdr)
    → k.page_size ≡ 2 ^ e
    → All (λ q. q.p_vaddr + q.p_memsz ≤ 2 ^ 64 - 2 ^ e) phdrs
    → IsPage e base
    → base + (get_load_size k.page_size phdrs).0 + 2 ^ e ≤ 2 ^ 64
    → get_elem? phdrs i ≡ some phdr
    → IsLoadable e phdr (sub64 base (get_load_size k.page_size phdrs).1)
    → IsInside k base
        (get_load_size k.page_size phdrs).0
        (sub64 base (get_load_size k.page_size phdrs).1)
        phdr
get_load_size-IsInside k e base i phdrs phdr size all page room here h kind =
    let (low, high) =
      segment_layout_inside k e base i phdrs phdr size h.exponent all page room here kind in
    let laid =
      segment_layout-IsLaid k e phdr (sub64 base (get_load_size k.page_size phdrs).1) size h in
    (low, omega (arith, laid.pages, high), high)

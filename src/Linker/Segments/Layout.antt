-- ===== src/Linker/Segments/Layout.antt =====
-- The layout of a segment, from what an ELF file says of it, and loadSegment on it.
use native.Mathlib.Nat.{le-div_iff_mul-le, mul-le-mul_right}
use so_load.Base.{ℕ, ◌+◌, ◌-◌, ◌/◌, ◌^◌, ◌%◌, ◌≤◌, ◌<◌, ◌≡◌, ap, sym, ◌∙◌, true, arith}
use so_load.Base.Words.{u64, sub64}
use so_load.Base.Bits.{one_le_pow}
use so_load.Image.{ElfPhdr}
use so_load.Linker.Pages.{
  page_start, page_end, floor_page, floor_page_bounds, floor_page_add, floor_page-IsPage,
  page_start-floor_page, page_end-floor_page,
}
use so_load.Linker.Segments.{Space, Kernel, has_bit, segment_layout, placed, load_segment}
use so_load.Linker.Segments.Contents.{IsLaid, IsFilled, fill_segment-IsFilled}

-- A segment that fits the address space and the file with a page to spare, whose address and offset
-- agree within a page, which is not larger in the file than in memory, and which can be written
-- where memory is larger.
pub record IsLoadable (e : ℕ) (phdr : ElfPhdr) (bias : ℕ) : Type 0 where
  pub exponent : e ≤ 63
  pub fits_space : u64 (phdr.p_vaddr + bias) + phdr.p_memsz + 2 ^ e < 2 ^ 64
  pub fits_file : phdr.p_offset + phdr.p_filesz + 2 ^ e < 2 ^ 64
  pub congruent : u64 (phdr.p_vaddr + bias) % 2 ^ e ≡ phdr.p_offset % 2 ^ e
  pub filled : phdr.p_filesz ≤ phdr.p_memsz
  pub zeroed : phdr.p_filesz < phdr.p_memsz → has_bit phdr.p_flags 2 ≡ true

-- The end of the page behind `n` bytes from `part` bytes into a page.
abbrev pub past_page : ℕ → ℕ → ℕ
past_page e n = floor_page e (n + (2 ^ e - 1))

pub past_page_bounds : (e n : ℕ) → n ≤ past_page e n
past_page_bounds e n =
    let (low, high, whole) = floor_page_bounds e (n + (2 ^ e - 1)) in
    omega (arith, high, one_le_pow e)

pub floor_page_mono : (e a b : ℕ) → a ≤ b → floor_page e a ≤ floor_page e b
floor_page_mono e a b h =
    let (low, high, whole) = floor_page_bounds e a in
    mul-le-mul_right (2 ^ e) (
      (le-div_iff_mul-le {k = 2 ^ e} {x = a / 2 ^ e} {y = b} (one_le_pow e)).1
        (omega (arith, low, h)))

-- From the start of a page the end of a later one is as far as from 0.
pub past_page_add :
    (e a part n : ℕ)
    → floor_page e a + part ≡ a
    → past_page e (a + n) ≡ floor_page e a + past_page e (part + n)
past_page_add e a part n split =
    let pos = one_le_pow e in
    ap (floor_page e) (
      let same : a + n + (2 ^ e - 1) ≡ floor_page e a + (part + n + (2 ^ e - 1)) =
        omega (arith, split, pos) in
      same)
    ∙ floor_page_add e (floor_page e a) (part + n + (2 ^ e - 1)) (floor_page-IsPage e a)

module _ (k : Kernel) (e : ℕ) where
  pub start_of :
      k.page_size ≡ 2 ^ e
      → e ≤ 63
      → (a : ℕ) → a < 2 ^ 64
      → page_start k.page_size a ≡ floor_page e a
  start_of size small a fits =
      ap (λ p. page_start p a) size ∙ page_start-floor_page e a (omega (arith, small)) fits

  pub end_of :
      k.page_size ≡ 2 ^ e
      → e ≤ 63
      → (a : ℕ) → a + 2 ^ e ≤ 2 ^ 64
      → page_end k.page_size a ≡ past_page e a
  end_of size small a fits =
      ap (λ p. page_end p a) size ∙ page_end-floor_page e a (omega (arith, small)) fits

module _ (k : Kernel) (e : ℕ) (phdr : ElfPhdr) (bias : ℕ) where
  pub segment_layout-IsLaid :
      k.page_size ≡ 2 ^ e
      → IsLoadable e phdr bias
      → IsLaid k phdr (segment_layout k.page_size phdr bias)
  unfolding segment_layout
  segment_layout-IsLaid size h =
      let s = u64 (phdr.p_vaddr + bias) in
      let o = phdr.p_offset in
      let part = s % 2 ^ e in
      let pos = one_le_pow e in
      let (s_low, s_high, s_split) = floor_page_bounds e s in
      let (o_low, o_high, o_split) = floor_page_bounds e o in
      let o_split' : floor_page e o + part ≡ o = omega (arith, o_split, h.congruent) in
      let file_end : u64 (s + phdr.p_filesz) ≡ s + phdr.p_filesz =
        omega (arith, h.fits_space, h.filled) in
      let seg_end : u64 (s + phdr.p_memsz) ≡ s + phdr.p_memsz = omega (arith, h.fits_space) in
      let o_end : u64 (o + phdr.p_filesz) ≡ o + phdr.p_filesz = omega (arith, h.fits_file) in
      let n = past_page e (part + phdr.p_filesz) in
      let m = past_page e (part + phdr.p_memsz) in
      let a = start_of k e size h.exponent s (omega arith) in
      let b = start_of k e size h.exponent o (omega (arith, h.fits_file)) in
      let seg_page : page_end k.page_size (u64 (s + phdr.p_memsz)) ≡ floor_page e s + m =
        ap (page_end k.page_size) seg_end
        ∙ end_of k e size h.exponent (s + phdr.p_memsz) (omega (arith, h.fits_space))
        ∙ past_page_add e s part phdr.p_memsz s_split in
      let stop : page_end k.page_size (u64 (s + phdr.p_filesz)) ≡ floor_page e s + n =
        ap (page_end k.page_size) file_end
        ∙ end_of k e size h.exponent (s + phdr.p_filesz) (omega (arith, h.fits_space, h.filled))
        ∙ past_page_add e s part phdr.p_filesz s_split in
      let file_stop : page_end k.page_size (u64 (o + phdr.p_filesz)) ≡ floor_page e o + n =
        ap (page_end k.page_size) o_end
        ∙ end_of k e size h.exponent (o + phdr.p_filesz) (omega (arith, h.fits_file))
        ∙ past_page_add e o part phdr.p_filesz o_split' in
      let (n_low, n_high, n_split) = floor_page_bounds e (part + phdr.p_filesz + (2 ^ e - 1)) in
      let (m_low, m_high, m_split) = floor_page_bounds e (part + phdr.p_memsz + (2 ^ e - 1)) in
      let len : sub64 (page_end k.page_size (u64 (o + phdr.p_filesz))) (page_start k.page_size o)
          ≡ n =
        omega (arith, file_stop, b, o_low, n_low, o_split', h.fits_file, pos) in
      let n_m =
        floor_page_mono e (part + phdr.p_filesz + (2 ^ e - 1)) (part + phdr.p_memsz + (2 ^ e - 1))
          (omega (arith, h.filled)) in
      record {
        part = part;
        start = omega (arith, a, s_split);
        offset = omega (arith, b, o_split');
        file_end = file_end;
        seg_end = seg_end;
        file_inside = omega (arith, len, past_page_bounds e (part + phdr.p_filesz));
        stop = omega (arith, stop, len, a);
        pages = omega (arith, a, len, seg_page, n_m);
        inside =
            omega (arith, seg_end, seg_page, s_split, past_page_bounds e (part + phdr.p_memsz));
        small = omega (arith, seg_page, m_low, s_split, h.fits_space, pos);
        whole = λ same.
            let ends : m ≡ n = ap (λ (f : ℕ). past_page e (part + f)) (sym same) in
            omega (arith, seg_page, ends, a, len);
        filled = h.filled;
        zeroed = h.zeroed;
      }

-- Where mmap succeeds, loadSegment maps a segment that the address space and the file have room for
-- and whose address and offset agree within a page: each of its bytes is the file's, or 0 behind
-- the part from the file; all its pages have the protection of its flags; no byte outside its pages
-- changes.
pub load_segment-IsFilled :
    (k : Kernel) (file : ℕ → ℕ) (e : ℕ) (phdr : ElfPhdr) (bias : ℕ) (space : Space)
    → k.page_size ≡ 2 ^ e
    → ((a n : ℕ) → k.mmap_fixed a n ≡ true)
    → IsLoadable e phdr bias
    → (after : Space) × (load_segment k file phdr bias space ≡ placed after)
      × IsFilled k file phdr (segment_layout k.page_size phdr bias) space after
unfolding load_segment
load_segment-IsFilled k file e phdr bias space size ok h =
    fill_segment-IsFilled k file phdr (segment_layout k.page_size phdr bias) space ok
      (segment_layout-IsLaid k e phdr bias size h)

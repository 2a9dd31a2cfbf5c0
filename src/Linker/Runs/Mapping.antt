-- ===== src/Linker/Runs/Mapping.antt =====
-- A library with two segments, and the theorems on its loading.
mod Loading
mod Protecting
use so_load.Linker.Library.Mapped.{IsInside}
use mathlib.Core.Path.{subst}
use so_load.Base.Words.{sub64}
use so_load.Base.{
  ℕ, zero, suc, ◌-◌, ◌<◌, Bool, Option, ◌&&◌, not, ltb, ◌==◌, ==_iff, if◌then◌else◌, sym, ap, ◌∙◌,
  All, Bool-cases, inl, inr,
}
use so_load.Base.{◌+◌, ◌^◌, ◌%◌, ◌≤◌, ◌≡◌, refl, arith, true, false, List, [], ◌∷◌, none, some}
use so_load.Image.{ElfEhdr, ElfPhdr}
use so_load.Image.Runs.{sample_image}
use so_load.Linker.{LoadedDep}
use so_load.Linker.Pages.{page_start, page_end}
use so_load.Linker.Segments.{Kernel, Space, placed, load_segment, segment_layout}
use so_load.Linker.Segments.Contents.{IsFilled}
use so_load.Linker.Segments.Layout.{IsLoadable, load_segment-IsFilled}
use so_load.Linker.Library.{
  ElfFile, Process, loaded, no_access, load_extent, get_load_size, load_library_manually,
}
use so_load.Linker.Library.Outcome.{IsKernel, StaysInside, IsClean, load_library_manually-IsClean}
use so_load.Linker.Library.Inside.{get_load_size-IsInside}
use so_load.Linker.Library.Empty.{load_library_manually_empty}

-- Nothing is mapped at the `n` addresses from `start` on.
unfoldable all_free : (ℕ → Bool) → ℕ → ℕ → Bool
all_free m start zero = true
all_free m start (suc n) = not (m (start + n)) && all_free m start n

-- Small reservations go to one place, where it is free.
unfoldable reserve_small : (ℕ → Bool) → ℕ → Option ℕ
unfolding all_free
reserve_small m n = if ltb n 0x10000 && all_free m 0x40000000 n then some 0x40000000 else none

abbrev kernel : Kernel
kernel = record { page_size = 2 ^ 12; mmap_fixed = λ a n. true; mmap_reserve = reserve_small }

all_free_at :
    (m : ℕ → Bool) (start n a : ℕ)
    → all_free m start n ≡ true
    → start ≤ a
    → a < start + n
    → m a ≡ false
unfolding all_free
all_free_at m start zero a e low high = absurd (omega (arith, low, high))
all_free_at m start (suc n) a e low high = elim (Bool-cases (a == start + n)) [
  | inl last ↦
      let same : a ≡ start + n = (==_iff a (start + n)).0 last in ap m same ∙ ground (arith, e)
  | inr other ↦ all_free_at m start n a (ground (arith, e)) low (ground (arith, other, low, high))
]

kernel_answers :
    (m : ℕ → Bool) (n base : ℕ)
    → reserve_small m n ≡ some base
    → (base ≡ 0x40000000) × (n < 0x10000) × (all_free m 0x40000000 n ≡ true)
unfolding reserve_small
kernel_answers m n base e = elim (Bool-cases (ltb n 0x10000)) [
  | inr large ↦ let e' = rw large at e in cc
  | inl small ↦ elim (Bool-cases (all_free m 0x40000000 n)) [
    | inr taken ↦ let e' = rw (small, taken) at e in cc
    | inl free ↦
        let e' = rw (small, free) at e in
        let place : 0x40000000 ≡ base = cc in (sym place, ground (arith, small), free)
  ]
]

kernel-IsKernel : IsKernel kernel
kernel-IsKernel = record {
  free = λ m n base a e low high.
      let (place, small, free) = kernel_answers m n base e in
      all_free_at m 0x40000000 n a free (omega (arith, place, low)) (omega (arith, place, high));
  room = λ m n base e.
      let (place, small, free) = kernel_answers m n base e in omega (arith, place, small);
}

-- Code, and data with 0x1000 bytes of zeros.
abbrev code_segment : ElfPhdr
code_segment = record {
  p_type = 1;
  p_flags = 5;
  p_offset = 0;
  p_vaddr = 0;
  p_filesz = 0x1234;
  p_memsz = 0x1234;
  p_align = 0x1000;
}

abbrev data_segment : ElfPhdr
data_segment = record {
  p_type = 1;
  p_flags = 6;
  p_offset = 0x2100;
  p_vaddr = 0x3100;
  p_filesz = 0x234;
  p_memsz = 0x1234;
  p_align = 0x1000;
}

abbrev segments : List ElfPhdr
segments = code_segment ∷ data_segment ∷ []

abbrev empty_space : Space
empty_space = record { bytes = λ a. 0; prot = λ a. no_access; mapped = λ a. false }

abbrev process : Process
process = record { space = empty_space; open_fds = 0 }

abbrev new_dep : LoadedDep
new_dep = record { image = none; is_manual_load = false; map_base = 0; map_size = 0 }

data_segment-IsLoadable : IsLoadable 12 data_segment 0x40000000
data_segment-IsLoadable = record {
  exponent = omega arith;
  fits_space = omega arith;
  fits_file = omega arith;
  congruent = refl;
  filled = omega arith;
  zeroed = λ h. refl;
}

load_segment-IsFilled_example :
    (after : Space) × (load_segment kernel (λ o. o % 256) data_segment 0x40000000 empty_space
      ≡ placed after)
    × IsFilled kernel
        (λ o. o % 256)
        data_segment
        (segment_layout (2 ^ 12) data_segment 0x40000000)
        empty_space
        after
load_segment-IsFilled_example =
    load_segment-IsFilled kernel (λ o. o % 256) 12 data_segment 0x40000000 empty_space refl
      (λ a n. refl) data_segment-IsLoadable

-- The pages from 0 to 0x5000.
get_load_size-IsInside_example : IsInside kernel 0x40000000 0x5000 0x40000000 data_segment
unfolding get_load_size page_start page_end load_extent
get_load_size-IsInside_example =
    get_load_size-IsInside kernel 12 0x40000000 1 segments data_segment refl
      (omega arith, (omega arith, tt)) refl (omega arith) refl data_segment-IsLoadable

-- A file with those segments, and one with none.
abbrev eh : ElfEhdr
eh = record sample_image.header { e_phnum = 2 }

abbrev library_file : ElfFile
library_file = record {
  ehdr = some eh;
  phdrs_at = λ offset count. some segments;
  contents = λ o. o % 256;
}

segments-IsInside :
    All
      (IsInside kernel 0x40000000
        (get_load_size (2 ^ 12) segments).0
        (sub64 0x40000000 (get_load_size (2 ^ 12) segments).1))
      segments
unfolding get_load_size segment_layout page_start page_end load_extent
segments-IsInside = (
  (λ load. (omega arith, omega arith, omega arith)),
  ((λ load. (omega arith, omega arith, omega arith)), tt),
)

library_file-StaysInside :
    (files : List ℕ → Option ElfFile)
    → ((path : List ℕ) (file : ElfFile) → files path ≡ some file → library_file ≡ file)
    → StaysInside kernel files
library_file-StaysInside files only path file eh' phdrs m base opened header table reserved =
    let same : some segments ≡ some phdrs =
      ap (λ (f : ElfFile). f.phdrs_at eh'.e_phoff eh'.e_phnum) (only path file opened) ∙ table in
    let these : segments ≡ phdrs = cc in
    let place = (kernel_answers m (get_load_size (2 ^ 12) phdrs).0 base reserved).0 in
    subst
      (λ (ps : List ElfPhdr).
        All
          (IsInside kernel base (get_load_size (2 ^ 12) ps).0
            (sub64 base (get_load_size (2 ^ 12) ps).1))
          ps)
      these
      (subst
        (λ (b : ℕ).
          All
            (IsInside kernel b (get_load_size (2 ^ 12) segments).0
              (sub64 b (get_load_size (2 ^ 12) segments).1))
            segments)
        (sym place) segments-IsInside)

load_library_manually-IsClean_example :
    IsClean process (load_library_manually kernel (λ path. some library_file) [] new_dep process)
load_library_manually-IsClean_example =
    load_library_manually-IsClean kernel kernel-IsKernel (λ path. some library_file) [] new_dep
      process
      (library_file-StaysInside (λ path. some library_file)
        (λ path file opened. let same : library_file ≡ file = cc in same))

abbrev note_segment : ElfPhdr
note_segment = record code_segment { p_type = 4 }

abbrev empty_file : ElfFile
empty_file = record library_file { phdrs_at = λ offset count. some (note_segment ∷ []) }

load_library_manually_empty_example :
    (after : Process) × (load_library_manually kernel (λ path. some empty_file) [] new_dep process
      ≡ loaded 0x40000000
          (record new_dep { map_size = 0x1000; is_manual_load = true; map_base = 0x40000000 })
          after)
unfolding reserve_small
load_library_manually_empty_example =
    load_library_manually_empty kernel (λ path. some empty_file) [] new_dep process 12 0x40000000
      empty_file eh (note_segment ∷ []) refl (omega arith) refl refl refl
      ((λ e. omega (arith, e)), tt) refl

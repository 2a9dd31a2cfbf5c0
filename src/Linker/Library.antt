-- ===== src/Linker/Library.antt =====
-- getLoadSize and loadLibraryManually of src/linker.cpp. The files are a parameter.
pub mod Mapped
pub mod Outcome
pub mod Inside
pub mod Empty
use so_load.Base.{
  ℕ, zero, suc, ◌+◌, ◌-◌, ◌^◌, Bool, true, false, not, ◌&&◌, List, [], ◌∷◌, Option, none, some, ltb,
  ◌==◌, if◌then◌else◌,
}
use so_load.Base.Words.{u64, sub64}
use so_load.Image.{ElfEhdr, ElfPhdr, pt_load}
use so_load.Linker.{LoadedDep}
use so_load.Linker.Pages.{page_start, page_end}
use so_load.Linker.Segments.{
  Prot, Space, Kernel, map_range, within, SegmentLoad, placed, failed, fault, load_segment,
}

-- The lowest address and the highest end of the PT_LOAD segments.
unfoldable pub load_extent : List ElfPhdr → ℕ → ℕ → ℕ × ℕ
load_extent [] lo hi = (lo, hi)
load_extent (phdr ∷ phdrs) lo hi =
    let end = u64 (phdr.p_vaddr + phdr.p_memsz) in
    let skipped = load_extent phdrs lo hi in
    let taken =
      load_extent phdrs (if ltb phdr.p_vaddr lo then phdr.p_vaddr else lo)
        (if ltb hi end then end else hi) in
    if phdr.p_type == pt_load then taken else skipped

-- getLoadSize: the size, and min_vaddr.
unfoldable pub get_load_size : ℕ → List ElfPhdr → ℕ × ℕ
unfolding load_extent
get_load_size page_size phdrs =
    let (lo, hi) = load_extent phdrs (2 ^ 64 - 1) 0 in
    let start = page_start page_size lo in (sub64 (page_end page_size hi) start, start)

-- What pread gives of a file: the header and the program headers, where they are there in full, and
-- the bytes by their offset.
pub record ElfFile : Type 0 where
  pub ehdr : Option ElfEhdr
  pub phdrs_at : ℕ → ℕ → Option (List ElfPhdr)
  pub contents : ℕ → ℕ

-- The process: its memory, and how many descriptors the loader has open.
pub record Process : Type 0 where
  pub space : Space
  pub open_fds : ℕ

abbrev pub no_access : Prot
no_access = record { read = false; write = false; exec = false }

unfoldable pub reserve : ℕ → ℕ → Process → Process
unfolding map_range
reserve base size p = record p { space = map_range base size (λ a. 0) no_access p.space }

-- All pages of the range go; their bytes stay here, and nothing reads them.
unfoldable pub munmap : ℕ → ℕ → Process → Process
unfolding within
munmap base size p = record p {
  space = record p.space { mapped = within base size (λ a. false) p.space.mapped };
}

abbrev pub open_file : Process → Process
open_file p = record p { open_fds = p.open_fds + 1 }

abbrev pub close_file : Process → Process
close_file p = record p { open_fds = p.open_fds - 1 }

-- The loop over the segments.
unfoldable pub load_segments : Kernel → (ℕ → ℕ) → List ElfPhdr → ℕ → Space → SegmentLoad
load_segments k file [] bias space = placed space
load_segments k file (phdr ∷ phdrs) bias space =
    let skipped = load_segments k file phdrs bias space in
    let taken : SegmentLoad = elim (load_segment k file phdr bias space) [
      | placed space' ↦ load_segments k file phdrs bias space'
      | failed space' ↦ failed space'
      | fault ↦ fault
    ] in
    if phdr.p_type == pt_load then taken else skipped

-- How loadLibraryManually ends, with the LoadedDep that it fills.
pub data LibraryLoad : Type 0 where
  loaded : (base : ℕ) → LoadedDep → Process → LibraryLoad
  not_loaded : LoadedDep → Process → LibraryLoad
  crashed : LibraryLoad

-- The segments of a library whose place is reserved.
unfoldable pub place_segments :
    Kernel → ElfFile → List ElfPhdr → ℕ → ℕ → LoadedDep → Process → LibraryLoad
unfolding load_segments reserve munmap
place_segments k file phdrs base min_vaddr dep p =
    let reserved = reserve base dep.map_size p in
    elim (load_segments k file.contents phdrs (sub64 base min_vaddr) reserved.space) [
      | placed space ↦
          loaded base (record dep { is_manual_load = true; map_base = base })
            (close_file (record reserved { space = space }))
      | failed space ↦
          not_loaded dep (close_file (munmap base dep.map_size (record reserved { space = space })))
      | fault ↦ crashed
    ]

-- Behind the program headers.
unfoldable pub map_library : Kernel → ElfFile → List ElfPhdr → LoadedDep → Process → LibraryLoad
map_library k file phdrs dep p =
    let (size, min_vaddr) = get_load_size k.page_size phdrs in
    let sized : LoadedDep = record dep { map_size = size } in
    if size == 0
    then not_loaded sized (close_file p)
    else elim (k.mmap_reserve p.space.mapped size) [
      | none ↦ not_loaded sized (close_file p)
      | some base ↦ place_segments k file phdrs base min_vaddr sized p
    ]

-- loadLibraryManually.
unfoldable pub load_library_manually :
    Kernel → (List ℕ → Option ElfFile) → List ℕ → LoadedDep → Process → LibraryLoad
load_library_manually k files path dep p = elim (files path) [
  | none ↦ not_loaded dep p
  | some file ↦ elim file.ehdr [
    | none ↦ not_loaded dep (close_file (open_file p))
    | some eh ↦ elim (file.phdrs_at eh.e_phoff eh.e_phnum) [
      | none ↦ not_loaded dep (close_file (open_file p))
      | some phdrs ↦ map_library k file phdrs dep (open_file p)
    ]
  ]
]

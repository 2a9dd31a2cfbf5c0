-- ===== src/Linker/Segments.antt =====
-- loadSegment of src/linker.cpp. An address space is the byte and the protection at each address, and
-- whether the address is mapped; the kernel's answers and the files are parameters.
pub mod Contents
pub mod Layout
use so_load.Base.{
  ℕ, zero, suc, ◌+◌, ◌-◌, ◌^◌, min, Bool, true, false, not, ◌&&◌, ◌||◌, List, [], ◌∷◌, Option, none,
  some, ltb, leb, ◌==◌, if◌then◌else◌, bit_and,
}
use so_load.Base.Words.{u64, sub64}
use so_load.Image.{ElfEhdr, ElfPhdr, pt_load}
use so_load.Linker.{LoadedDep}
use so_load.Linker.Pages.{page_start, page_end}

-- PROT_READ, PROT_WRITE and PROT_EXEC.
pub record Prot : Type 0 where
  pub read : Bool
  pub write : Bool
  pub exec : Bool

pub record Space : Type 0 where
  pub bytes : ℕ → ℕ
  pub prot : ℕ → Prot
  pub mapped : ℕ → Bool

-- sysconf's page size, and the answers of mmap: whether a mapping at a fixed place is made, and
-- where a reservation goes, given the addresses that are mapped.
pub record Kernel : Type 0 where
  pub page_size : ℕ
  pub mmap_fixed : ℕ → ℕ → Bool
  pub mmap_reserve : (ℕ → Bool) → ℕ → Option ℕ

abbrev pub has_bit : ℕ → ℕ → Bool
has_bit flags bit = not (bit_and flags bit == 0)

-- PF_R, PF_W and PF_X.
abbrev pub segment_prot : ℕ → Prot
segment_prot flags = record {
  read = has_bit flags 4;
  write = has_bit flags 2;
  exec = has_bit flags 1;
}

-- The variables that loadSegment computes first.
pub record SegmentLayout : Type 0 where
  pub seg_start : ℕ
  pub seg_end : ℕ
  pub file_end : ℕ
  pub pg_start : ℕ
  pub pg_end : ℕ
  pub file_page : ℕ
  pub file_len : ℕ

unfoldable pub segment_layout : ℕ → ElfPhdr → ℕ → SegmentLayout
segment_layout page_size phdr bias =
    let seg_start = u64 (phdr.p_vaddr + bias) in
    let seg_end = u64 (seg_start + phdr.p_memsz) in
    let file_page = page_start page_size phdr.p_offset in
    record {
      seg_start = seg_start;
      seg_end = seg_end;
      file_end = u64 (seg_start + phdr.p_filesz);
      pg_start = page_start page_size seg_start;
      pg_end = page_end page_size seg_end;
      file_page = file_page;
      file_len = sub64 (page_end page_size (u64 (phdr.p_offset + phdr.p_filesz))) file_page;
    }

-- A function that is `inside` from `start` on for `len` addresses.
unfoldable pub within {ℓ} : {A : Type ℓ} → ℕ → ℕ → (ℕ → A) → (ℕ → A) → ℕ → A
within start len inside outside a =
    if leb start a && ltb a (start + len) then inside a else outside a

unfoldable pub map_range : ℕ → ℕ → (ℕ → ℕ) → Prot → Space → Space
unfolding within
map_range start len contents prot space = record {
  bytes = within start len contents space.bytes;
  prot = within start len (λ a. prot) space.prot;
  mapped = within start len (λ a. true) space.mapped;
}

-- memset of 0, and mprotect.
unfoldable pub zero_range : ℕ → ℕ → Space → Space
unfolding within
zero_range start len space = record space { bytes = within start len (λ a. 0) space.bytes }

unfoldable pub protect_range : ℕ → ℕ → Prot → Space → Space
unfolding within
protect_range start len prot space = record space { prot = within start len (λ a. prot) space.prot }

-- How loadSegment ends; `fault` is a write to memory that cannot be written.
pub data SegmentLoad : Type 0 where
  placed failed : Space → SegmentLoad
  fault : SegmentLoad

-- The protection while the segment is filled.
abbrev pub loading_prot : ElfPhdr → Prot
loading_prot phdr =
    let prot = segment_prot phdr.p_flags in
    if prot.write && prot.exec then record prot { exec = false } else prot

module _ (k : Kernel) (file : ℕ → ℕ) (phdr : ElfPhdr) (l : SegmentLayout) where
  unfoldable pub map_file_part : Space → Option Space
  unfolding map_range
  map_file_part space =
      if l.file_len == 0
      then some space
      else if k.mmap_fixed l.pg_start l.file_len
      then some (
          map_range l.pg_start l.file_len (λ a. file (l.file_page + (a - l.pg_start)))
            (loading_prot phdr) space)
      else none

  unfoldable pub map_bss : Space → SegmentLoad
  unfolding map_range
  map_bss space =
      let bss_addr = u64 (l.pg_start + l.file_len) in
      let bss_size = l.pg_end - bss_addr in
      if ltb bss_addr l.pg_end
      then (if k.mmap_fixed bss_addr bss_size
          then (if (loading_prot phdr).write
              then placed (map_range bss_addr bss_size (λ a. 0) (loading_prot phdr) space)
              else fault)
          else failed space)
      else placed space

  unfoldable pub zero_tail : Space → Space
  unfolding zero_range page_end
  zero_tail space =
      if has_bit phdr.p_flags 2 && ltb l.file_end l.seg_end
      then zero_range l.file_end
          (min (sub64 (page_end k.page_size l.file_end) l.file_end) (l.seg_end - l.file_end)) space
      else space

  unfoldable pub add_exec : Space → Space
  unfolding protect_range
  add_exec space =
      let prot = segment_prot phdr.p_flags in
      if prot.write && prot.exec
      then protect_range l.pg_start (sub64 l.pg_end l.pg_start) prot space
      else space

  -- loadSegment, behind its first variables.
  unfoldable pub fill_segment : Space → SegmentLoad
  unfolding map_file_part map_bss zero_tail add_exec
  fill_segment space = elim (map_file_part space) [
    | none ↦ failed space
    | some with_file ↦ elim (map_bss with_file) [
      | placed whole ↦ placed (add_exec (zero_tail whole))
      | failed partly ↦ failed partly
      | fault ↦ fault
    ]
  ]

-- loadSegment; `file` is the byte at each offset of the file, 0 behind its end.
unfoldable pub load_segment : Kernel → (ℕ → ℕ) → ElfPhdr → ℕ → Space → SegmentLoad
unfolding fill_segment
load_segment k file phdr bias space =
    fill_segment k file phdr (segment_layout k.page_size phdr bias) space

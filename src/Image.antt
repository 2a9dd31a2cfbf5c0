-- ===== src/Image.antt =====
-- include/elf_image.hpp: the records of <elf.h> that the loader reads, and the class ElfImage.
-- Pointers are addresses, with 0 for nullptr; a table that a pointer leads to is the list of its
-- entries. `self` is the address of the ElfImage object, by which others tell images apart.
pub mod Header
pub mod Hash
pub mod Lookup
pub mod Sound
pub mod Search
pub mod Runs
use so_load.Base.{ℕ, ◌+◌, List, Option, bit_and}
use so_load.Base.Words.{sub64, u64, ◌>>>◌}

pub record ElfEhdr : Type 0 where
  pub e_ident : List ℕ
  pub e_type : ℕ
  pub e_machine : ℕ
  pub e_phoff : ℕ
  pub e_shoff : ℕ
  pub e_phnum : ℕ
  pub e_shnum : ℕ
  pub e_shstrndx : ℕ

pub record ElfPhdr : Type 0 where
  pub p_type : ℕ
  pub p_flags : ℕ
  pub p_offset : ℕ
  pub p_vaddr : ℕ
  pub p_filesz : ℕ
  pub p_memsz : ℕ
  pub p_align : ℕ

pub record ElfSym : Type 0 where
  pub st_name : ℕ
  pub st_info : ℕ
  pub st_shndx : ℕ
  pub st_value : ℕ
  pub st_size : ℕ

-- The gnu_* members: the counts of the table's header and the arrays behind it.
pub record GnuTable : Type 0 where
  pub gnu_nbucket : ℕ
  pub gnu_symndx : ℕ
  pub gnu_bloom_size : ℕ
  pub gnu_shift2 : ℕ
  pub gnu_bloom_filter : List ℕ
  pub gnu_bucket : List ℕ
  pub gnu_chain : List ℕ

-- nbucket_, bucket_ and chain_.
pub record HashTable : Type 0 where
  pub nbucket : ℕ
  pub bucket : List ℕ
  pub chain : List ℕ

pub record ElfImage : Type 0 where
  pub self : ℕ
  pub path : List ℕ
  pub base : ℕ
  pub bias : ℕ
  pub header : ElfEhdr
  pub phdrs : List ElfPhdr
  pub dynsym_start : Option (List ElfSym)
  pub dynsym_count : ℕ
  pub strtab_start : Option (List ℕ)
  pub elf_table : Option HashTable
  pub gnu_table : Option GnuTable
  pub symtab_start : Option (List ElfSym)
  pub symtab_count : ℕ
  pub symtab_strtab : Option (List ℕ)
  pub tls_segment : Option ElfPhdr
  pub tls_mod_id : ℕ
  pub init_func : ℕ
  pub fini_func : ℕ
  pub init_array : Option (List ℕ)
  pub init_array_count : ℕ
  pub fini_array : Option (List ℕ)
  pub fini_array_count : ℕ
  pub eh_frame : ℕ
  pub eh_frame_hdr : Option (List ℕ)
  pub eh_frame_hdr_addr : ℕ
  pub eh_frame_hdr_size : ℕ

-- p_type values.
abbrev pub pt_load : ℕ
pt_load = 1

-- base + vaddr - bias, as the code computes it on uintptr_t.
unfoldable pub at_vaddr : ElfImage → ℕ → ℕ
at_vaddr image vaddr = sub64 (u64 (image.base + vaddr)) image.bias

-- elf_st_type and elf_st_bind.
unfoldable pub elf_st_type : ℕ → ℕ
elf_st_type info = bit_and info 0xf

unfoldable pub elf_st_bind : ℕ → ℕ
elf_st_bind info = info >>> 4

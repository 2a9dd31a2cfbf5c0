-- ===== src/Linker/Tables.antt =====
-- The dynamic table that processRelocations of src/linker.cpp reads, and its loops over the RELA
-- and REL tables. What is done for each relocation is a parameter, on any state.
pub mod Entries
use so_load.Base.{
  ℕ, zero, suc, ◌/◌, ◌%◌, ◌^◌, Bool, true, false, not, ◌&&◌, ◌||◌, List, [], ◌∷◌, Option, none,
  some, ◌>>=◌, ◌==◌, if◌then◌else◌,
}
use so_load.Image.{ElfImage, ElfPhdr, at_vaddr}

pub record ElfDyn : Type 0 where
  pub d_tag : ℕ
  pub d_un : ℕ

pub record ElfRela : Type 0 where
  pub r_offset : ℕ
  pub r_info : ℕ
  pub r_addend : ℕ

pub record ElfRel : Type 0 where
  pub r_offset : ℕ
  pub r_info : ℕ

-- The local variables that the scan of the dynamic table sets; a pointer is an address, 0 for
-- nullptr.
pub record DynamicTables : Type 0 where
  pub rela : ℕ
  pub rela_sz : ℕ
  pub rela_ent : ℕ
  pub rel : ℕ
  pub rel_sz : ℕ
  pub rel_ent : ℕ
  pub relr : ℕ
  pub relr_sz : ℕ
  pub jmprel : ℕ
  pub jmprel_sz : ℕ
  pub pltrel_type : ℕ
  pub dynsym : ℕ
  pub dynstr : ℕ
  pub android_reloc : ℕ
  pub android_reloc_sz : ℕ
  pub is_android_rela : Bool

abbrev pub no_tables : DynamicTables
no_tables = record {
  rela = 0;
  rela_sz = 0;
  rela_ent = 0;
  rel = 0;
  rel_sz = 0;
  rel_ent = 0;
  relr = 0;
  relr_sz = 0;
  jmprel = 0;
  jmprel_sz = 0;
  pltrel_type = 0;
  dynsym = 0;
  dynstr = 0;
  android_reloc = 0;
  android_reloc_sz = 0;
  is_android_rela = false;
}

-- The values of DT_ANDROID_RELA, DT_ANDROID_RELASZ, DT_ANDROID_REL and DT_ANDROID_RELSZ, which are
-- those of <elf.h> or, where it has none, the ones of src/linker.cpp.
pub record AndroidTags : Type 0 where
  pub rela : ℕ
  pub relasz : ℕ
  pub rel : ℕ
  pub relsz : ℕ

abbrev pub fallback_tags : AndroidTags
fallback_tags = record {
  rela = 0x6000000f;
  relasz = 0x60000011;
  rel = 0x6000000d;
  relsz = 0x60000010;
}

-- The switch on d_tag, without DT_ANDROID_RELRENT. pltrel_type is an int.
unfoldable pub visit_entry : AndroidTags → ElfImage → ElfDyn → DynamicTables → DynamicTables
visit_entry tags image d t =
    let ptr = at_vaddr image d.d_un in
    if d.d_tag == 7
    then record t { rela = ptr }
    else if d.d_tag == 8
    then record t { rela_sz = d.d_un }
    else if d.d_tag == 9
    then record t { rela_ent = d.d_un }
    else if d.d_tag == 17
    then record t { rel = ptr }
    else if d.d_tag == 18
    then record t { rel_sz = d.d_un }
    else if d.d_tag == 19
    then record t { rel_ent = d.d_un }
    else if d.d_tag == 36
    then record t { relr = ptr }
    else if d.d_tag == 35
    then record t { relr_sz = d.d_un }
    else if d.d_tag == 23
    then record t { jmprel = ptr }
    else if d.d_tag == 2
    then record t { jmprel_sz = d.d_un }
    else if d.d_tag == 20
    then record t { pltrel_type = d.d_un % 2 ^ 32 }
    else if d.d_tag == 6
    then record t { dynsym = ptr }
    else if d.d_tag == 5
    then record t { dynstr = ptr }
    else if d.d_tag == tags.rela
    then record t { android_reloc = ptr; is_android_rela = true }
    else if d.d_tag == tags.relasz || d.d_tag == tags.relsz
    then record t { android_reloc_sz = d.d_un }
    else if d.d_tag == tags.rel
    then record t { android_reloc = ptr }
    else if d.d_tag == 0x6fffe000
    then record t { relr = ptr }
    else if d.d_tag == 0x6fffe001
    then record t { relr_sz = d.d_un }
    else t

-- How the scan ends: with the tables, with the return for a wrong size of RELR entries, or behind
-- the end of the table.
pub data Scan : Type 0 where
  found : DynamicTables → Scan
  wrong_entry overrun : Scan

unfoldable pub scan_dynamic : AndroidTags → ElfImage → List ElfDyn → DynamicTables → Scan
unfolding visit_entry
scan_dynamic tags image [] t = overrun
scan_dynamic tags image (d ∷ ds) t =
    let rest = scan_dynamic tags image ds (visit_entry tags image d t) in
    if d.d_tag == 0
    then found t
    else if d.d_tag == 0x6fffe003 && not (d.d_un == 8)
    then wrong_entry
    else rest

-- The first segment with p_type PT_DYNAMIC.
unfoldable pub find_dynamic : List ElfPhdr → Option ElfPhdr
find_dynamic [] = none
find_dynamic (phdr ∷ phdrs) =
    let rest = find_dynamic phdrs in if phdr.p_type == 2 then some phdr else rest

-- The entries below `n`; `none` is a read behind the table.
unfoldable pub first_entries {ℓ} : {A : Type ℓ} → ℕ → List A → Option (List A)
first_entries zero entries = some []
first_entries (suc n) [] = none
first_entries (suc n) (e ∷ entries) = first_entries n entries >>= (λ es. some (e ∷ es))

module _ {ℓ} {S : Type ℓ} (apply : ℕ → ℕ → ℕ → S → Option S) where
  -- The loop over RELA entries: `apply` gets r_offset, r_info and r_addend.
  unfoldable pub apply_all : List ElfRela → S → Option S
  apply_all [] st = some st
  apply_all (r ∷ rs) st = apply r.r_offset r.r_info r.r_addend st >>= (λ st'. apply_all rs st')

  -- The loop over REL entries, whose addend is passed as 0.
  unfoldable pub apply_all_rel : List ElfRel → S → Option S
  apply_all_rel [] st = some st
  apply_all_rel (r ∷ rs) st = apply r.r_offset r.r_info 0 st >>= (λ st'. apply_all_rel rs st')

  -- A table of `size` bytes: the number of its entries is the size over `ent`, and they are read
  -- one behind the other.
  unfoldable pub rela_table : ℕ → ℕ → List ElfRela → S → Option S
  unfolding apply_all
  rela_table size ent table st = first_entries (size / ent) table >>= (λ rs. apply_all rs st)

  unfoldable pub rel_table : ℕ → ℕ → List ElfRel → S → Option S
  unfolding apply_all_rel
  rel_table size ent table st = first_entries (size / ent) table >>= (λ rs. apply_all_rel rs st)

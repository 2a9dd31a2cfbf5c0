-- ===== src/Linker/Relocate.antt =====
-- processRelocations of src/linker.cpp: the tables of one image, one after the other.
pub mod Log
pub mod Loops
pub mod Magic
pub mod Replay
pub mod Order
pub mod Asked
pub mod Served
pub mod Frame
pub mod Coherent
pub mod Owned
use so_load.Base.{
  ℕ, ◌+◌, ◌-◌, ◌*◌, ◌/◌, ◌%◌, ◌^◌, Bool, true, false, not, ◌&&◌, ◌||◌, List, [], ◌∷◌, Option, none,
  some, ◌>>=◌, ◌==◌, ltb, if◌then◌else◌,
}
use so_load.Base.Words.{sub64}
use so_load.Image.{ElfImage, ElfSym, at_vaddr}
use so_load.Linker.Relocation.{Surroundings, Relocation, Relocating, process_relocation}
use so_load.Linker.Relr.{process_relr}
use so_load.Linker.Tables.{
  ElfDyn, ElfRela, ElfRel, DynamicTables, no_tables, found, wrong_entry, overrun, scan_dynamic,
  find_dynamic, first_entries, rela_table, rel_table,
}
use so_load.Linker.Packed.{Packed, done, rejected, broken, endless, process_packed}

-- The tables that stand at an address; no relocation writes to them.
pub record Contents : Type 0 where
  pub dyn_at : ℕ → List ElfDyn
  pub rela_at : ℕ → List ElfRela
  pub rel_at : ℕ → List ElfRel
  pub words_at : ℕ → List ℕ
  pub bytes_at : ℕ → List ℕ
  pub syms_at : ℕ → List ElfSym

-- The arguments that processRelocation gets for r_offset, r_info and the addend.
abbrev pub entry_relocation : Contents → ℕ → DynamicTables → Bool → ℕ → ℕ → ℕ → Relocation
entry_relocation contents load_bias t is_rela offset info addend = record {
  sym_idx = info / 2 ^ 32;
  type = info % 2 ^ 32;
  offset = offset;
  addend = addend;
  load_bias = load_bias;
  dynsym = contents.syms_at t.dynsym;
  dynstr = contents.bytes_at t.dynstr;
  is_rela = is_rela;
}

unfoldable pub relocate_entry :
    Surroundings → Contents → ℕ → DynamicTables → Bool → ℕ → ℕ → ℕ → Relocating → Option Relocating
unfolding process_relocation
relocate_entry s contents load_bias t is_rela offset info addend st =
    process_relocation s (entry_relocation contents load_bias t is_rela offset info addend) st

unfoldable pub relocate_words : ℕ → List ℕ → Relocating → Relocating
unfolding process_relr
relocate_words load_bias entries st = record st {
  memory = process_relr load_bias 0 entries st.memory;
}

-- What is left after the packed table, and whether the PLT follows: a wrong magic is a return.
abbrev pub judged {ℓ} : {S : Type ℓ} → S → Packed S → Packed (Bool × S)
judged st (done st') = done (true, st')
judged st rejected = done (false, st)
judged st broken = broken
judged st endless = endless

abbrev pub ended {ℓ} : {S : Type ℓ} → Option S → Packed S
ended none = broken
ended (some st) = done st

-- What is done for a relocation and for the RELR entries is a parameter here, on any state.
module _ {ℓ} {S : Type ℓ} (apply : Bool → ℕ → ℕ → ℕ → S → Option S) (relr : List ℕ → S → S)
    (contents : Contents) (t : DynamicTables) where
  unfoldable pub relocate_relr : S → Option S
  relocate_relr st =
      if not (t.relr == 0) && not (t.relr_sz == 0)
      then first_entries (t.relr_sz / 8) (contents.words_at t.relr)
        >>= (λ entries. some (relr entries st))
      else some st

  unfoldable pub relocate_rela : S → Option S
  relocate_rela st =
      if not (t.rela == 0) && not (t.rela_sz == 0)
      then rela_table (apply true) t.rela_sz (if t.rela_ent == 0 then 24 else t.rela_ent)
          (contents.rela_at t.rela) st
      else some st

  unfoldable pub relocate_rel : S → Option S
  relocate_rel st =
      if not (t.rel == 0) && not (t.rel_sz == 0)
      then rel_table (apply false) t.rel_sz (if t.rel_ent == 0 then 16 else t.rel_ent)
          (contents.rel_at t.rel) st
      else some st

  unfoldable pub relocate_plt : S → Option S
  relocate_plt st =
      if not (t.jmprel == 0) && not (t.jmprel_sz == 0)
      then (if t.pltrel_type == 7
          then rela_table (apply true) t.jmprel_sz 24 (contents.rela_at t.jmprel) st
          else rel_table (apply false) t.jmprel_sz 16 (contents.rel_at t.jmprel) st)
      else some st

  -- The tables before the packed one.
  unfoldable pub relocate_plain : S → Option S
  unfolding relocate_relr relocate_rela relocate_rel
  relocate_plain st = relocate_relr st >>= relocate_rela >>= relocate_rel

  -- A stream without its bytes is a read behind the table.
  unfoldable pub relocate_packed : ℕ → S → Packed (Bool × S)
  relocate_packed rounds st =
      if not (t.android_reloc == 0) && ltb 4 t.android_reloc_sz
      then elim (first_entries t.android_reloc_sz (contents.bytes_at t.android_reloc)) [
        | none ↦ broken
        | some bytes ↦
            judged st (process_packed (apply t.is_android_rela) t.is_android_rela rounds bytes st)
      ]
      else done (true, st)

  -- What follows the packed table.
  abbrev pub go_on : Packed (Bool × S) → Packed S
  go_on (done (true, st)) = ended (relocate_plt st)
  go_on (done (false, st)) = done st
  go_on rejected = rejected
  go_on broken = broken
  go_on endless = endless

  unfoldable pub relocate_rest : ℕ → S → Packed S
  unfolding relocate_packed relocate_plt
  relocate_rest rounds st = go_on (relocate_packed rounds st)

  unfoldable pub relocate_tables : ℕ → S → Packed S
  unfolding relocate_plain relocate_rest
  relocate_tables rounds st =
      if t.dynsym == 0 || t.dynstr == 0
      then done st
      else elim (relocate_plain st) [ none ↦ broken | some st' ↦ relocate_rest rounds st' ]

-- processRelocations; `rounds` bounds the loop over the packed groups.
unfoldable pub process_relocations :
    Surroundings → Contents → ElfImage → ℕ → Relocating → Packed Relocating
unfolding find_dynamic scan_dynamic relocate_entry relocate_words relocate_tables
process_relocations s contents image rounds st = elim (find_dynamic image.phdrs) [
  | none ↦ done st
  | some phdr ↦
      elim (scan_dynamic s.android_tags image (contents.dyn_at (at_vaddr image phdr.p_vaddr))
        no_tables) [
          | found t ↦
              let load_bias = sub64 image.base image.bias in
              relocate_tables (relocate_entry s contents load_bias t) (relocate_words load_bias)
                contents t rounds st
          | wrong_entry ↦ done st
          | overrun ↦ broken
        ]
]

-- ===== src/Linker/Relocate/Served.antt =====
-- processRelocations as a whole against what an image's tables ask for.
use so_load.Base.{
  ℕ, ◌*◌, ◌-◌, ◌/◌, ◌%◌, ◌^◌, ◌≡◌, ◌≢◌, refl, ap, ◌∙◌, Bool, List, [], ◌∷◌, ◌++◌, Option, some,
  ◌>>=◌, All, arith,
}
use so_load.Base.Words.{sub64, ◌>>>◌}
use so_load.Image.{ElfImage, ElfPhdr, at_vaddr}
use so_load.Linker.Relocation.{Surroundings, Relocation, Relocating, process_relocation}
use so_load.Linker.Relr.{relr_offsets, relocate_all, process_relr-relr_offsets}
use so_load.Linker.Tables.{
  ElfDyn, ElfRela, AndroidTags, DynamicTables, no_tables, found, scan_dynamic, find_dynamic,
}
use so_load.Linker.Tables.Entries.{IsDistinct, tables_in, scan_dynamic-tables_in}
use so_load.Linker.Relocate.{Contents, ended, relocate_entry, relocate_words, process_relocations}
use so_load.Linker.Relocate.Log.{Step, entry, words, replay}
use so_load.Linker.Relocate.Asked.{asked, IsWhole, IsPacked, tables_run}

-- The image has a PT_DYNAMIC segment, with a table that ends behind the entries `ds`.
pub record HasDynamic (tags : AndroidTags) (contents : Contents) (image : ElfImage)
    (ds : List ElfDyn) : Type 0 where
  pub before : List ElfPhdr
  pub phdr : ElfPhdr
  pub behind : List ElfPhdr
  pub phdrs : image.phdrs ≡ before ++ (phdr ∷ behind)
  pub first : All (λ p. p.p_type ≢ 2) before
  pub kind : phdr.p_type ≡ 2
  pub last : ElfDyn
  pub more : List ElfDyn
  pub table : contents.dyn_at (at_vaddr image phdr.p_vaddr) ≡ ds ++ (last ∷ more)
  pub null : last.d_tag ≡ 0
  pub ahead : All (λ d. d.d_tag ≢ 0) ds
  pub sized : All (λ d. d.d_tag ≡ 0x6fffe003 → d.d_un ≡ 8) ds
  pub tags_apart : IsDistinct tags

-- An entry's relocation: the symbol's index is the upper half of r_info, and the type the lower.
abbrev pub requested : Contents → ℕ → DynamicTables → Bool → ElfRela → Relocation
requested contents load_bias t is_rela r = record {
  sym_idx = r.r_info >>> 32;
  type = r.r_info - 2 ^ 32 * (r.r_info >>> 32);
  offset = r.r_offset;
  addend = r.r_addend;
  load_bias = load_bias;
  dynsym = contents.syms_at t.dynsym;
  dynstr = contents.bytes_at t.dynstr;
  is_rela = is_rela;
}

module _ (s : Surroundings) (contents : Contents) (load_bias : ℕ) (t : DynamicTables) where
  -- What is to be done for a step of the list.
  unfoldable pub serve : Step → Relocating → Option Relocating
  serve (entry is_rela r) st = process_relocation s (requested contents load_bias t is_rela r) st
  serve (words offsets) st =
      some (record st { memory = relocate_all load_bias (relr_offsets 0 offsets) st.memory })

  unfoldable pub serve_all : List Step → Relocating → Option Relocating
  unfolding serve
  serve_all [] st = some st
  serve_all (x ∷ xs) st = serve x st >>= (λ st'. serve_all xs st')

  pub replay-serve_all :
      (xs : List Step) (st : Relocating)
      → replay (relocate_entry s contents load_bias t) (relocate_words load_bias) xs st
        ≡ serve_all xs st
  unfolding replay serve_all relocate_entry relocate_words serve
  replay-serve_all [] st = refl
  replay-serve_all (entry is_rela r ∷ xs) st =
      let type : r.r_info % 2 ^ 32 ≡ r.r_info - 2 ^ 32 * (r.r_info / 2 ^ 32) = omega arith in
      (λ i.
        process_relocation s (record (requested contents load_bias t is_rela r) { type = type i })
          st
        >>= (λ st'. replay-serve_all xs st' i))
  replay-serve_all (words offsets ∷ xs) st =
      ap
        (λ m.
          replay (relocate_entry s contents load_bias t) (relocate_words load_bias) xs
            (record st { memory = m }))
        (process_relr-relr_offsets load_bias 0 offsets st.memory)
      ∙ replay-serve_all xs
          (record st { memory = relocate_all load_bias (relr_offsets 0 offsets) st.memory })

find_dynamic_at :
    (before : List ElfPhdr) (phdr : ElfPhdr) (behind : List ElfPhdr)
    → All (λ p. p.p_type ≢ 2) before
    → phdr.p_type ≡ 2
    → find_dynamic (before ++ (phdr ∷ behind)) ≡ some phdr
unfolding find_dynamic
find_dynamic_at [] phdr behind first kind = ground (arith, kind)
find_dynamic_at (p ∷ before) phdr behind first kind =
    let other = first.0 in
    let rest = find_dynamic_at before phdr behind first.1 kind in ground (arith, other, rest)

-- For an image with a dynamic table that DT_NULL ends, with a symbol and a string table, RELR entries
-- of 8 bytes where DT_ANDROID_RELRENT says their size, and tables as long as their sizes say, whose
-- packed stream, if it has one, is the reference encoding of fewer groups of RELA entries than there
-- are rounds, and with DT_ANDROID tags apart from each other and from the others: processRelocations
-- adds the load bias to the words that the RELR table lists, and then processes the entries of RELA,
-- REL, the groups and the PLT in this order, each with the symbol index of the upper half of r_info
-- and the type of the lower, where each table is the one that the last entry with its tag gives; it
-- breaks where one of them does.
pub process_relocations-serve_all :
    (s : Surroundings) (contents : Contents) (image : ElfImage) (rounds : ℕ) (ds : List ElfDyn)
    (packed : List ElfRela) (st : Relocating)
    → HasDynamic s.android_tags contents image ds
    → IsWhole contents (tables_in s.android_tags image ds)
    → IsPacked contents (tables_in s.android_tags image ds) rounds packed
    → process_relocations s contents image rounds st
      ≡ ended (
          serve_all s contents
            (sub64 image.base image.bias)
            (tables_in s.android_tags image ds)
            (asked contents (tables_in s.android_tags image ds) packed)
            st)
unfolding process_relocations
process_relocations-serve_all s contents image rounds ds packed st h whole stream =
    let t = tables_in s.android_tags image ds in
    let load_bias = sub64 image.base image.bias in
    let dynamic : find_dynamic image.phdrs ≡ some h.phdr =
      ap find_dynamic h.phdrs ∙ find_dynamic_at h.before h.phdr h.behind h.first h.kind in
    let scanned : scan_dynamic s.android_tags image
          (contents.dyn_at (at_vaddr image h.phdr.p_vaddr)) no_tables
        ≡ found t =
      ap (λ table. scan_dynamic s.android_tags image table no_tables) h.table
      ∙ scan_dynamic-tables_in s.android_tags image ds h.more h.last h.tags_apart h.ahead h.sized
          h.null in
    rw (dynamic, scanned, process_relocations)
      (tables_run (relocate_entry s contents load_bias t) (relocate_words load_bias) contents t
          whole rounds packed st stream
        ∙ ap ended (replay-serve_all s contents load_bias t (asked contents t packed) st))

-- ===== src/Linker/Runs/Images.antt =====
-- An image with a RELR table, a RELA table, a packed stream and a PLT, and the theorems on it.
use so_load.Base.{◌++◌, inr}
use so_load.Linker.Memory.{read_word}
use so_load.Linker.Tables.{DynamicTables, fallback_tags}
use so_load.Linker.Tables.Entries.{tables_in, last_value}
use so_load.Linker.Relocate.Asked.{asked, take, IsWhole, IsPacked}
use so_load.Linker.Relocate.Served.{HasDynamic, serve_all, process_relocations-serve_all}
use so_load.Base.{
  ℕ, ◌==◌, if◌then◌else◌, ◌+◌, ◌^◌, ◌≡◌, refl, arith, true, List, [], ◌∷◌, Option, none, some, All,
  length,
}
use so_load.Base.Int.{pos, negsuc}
use so_load.Image.{ElfImage, ElfPhdr, at_vaddr}
use so_load.Sleb128.{decode, decode_unsigned}
use so_load.Image.Runs.{sample_image}
use so_load.Linker.Cache.{IsCoherent, empty-IsCoherent}
use so_load.Linker.Relocation.{Relocating, bind_symbol, bind_found}
use so_load.Linker.Symbols.{find_symbol_cached}
use so_load.Image.Lookup.{c_string}
use so_load.Sleb128.Spec.{uleb, sleb}
use so_load.Linker.Runs.{resolution, surroundings, before, small_linker, weak_function}
use so_load.Linker.Tables.{
  ElfDyn, ElfRela, apply_all, find_dynamic, scan_dynamic, first_entries, rela_table, visit_entry,
}
use so_load.Linker.Packed.{
  Packed, done, rejected, broken, endless, group_addend, has_flag, next_group, packed_groups,
  process_stream, process_packed, next_unsigned, next_signed, read_group, read_reloc,
  relocate_group,
}
use so_load.Linker.Packed.Format.{
  each, shared, PackedGroup, IsGroup, count, encode_groups, encode_group, group_flags,
  encode_entries, encode_stream, encode_numbered, expand,
}
use so_load.Linker.Packed.RoundTrip.{process_packed-encode_stream, process_packed_truncated}
use so_load.Linker.Relocate.{
  Contents, ended, relocate_entry, relocate_words, process_relocations, relocate_tables,
  relocate_packed, relocate_plain, relocate_plt, relocate_rel, relocate_rela, relocate_relr,
  relocate_rest,
}
use so_load.Linker.Relr.{relr_offsets, bit_offsets}
use so_load.Linker.Relocate.Log.{Step, entry, words}
use so_load.Linker.Relocate.Frame.{
  IsApart, IsApartFrom, process_relocations_frame, process_relocations-relative,
}
use so_load.Linker.Relocate.Coherent.{process_relocations-IsCoherent}
use so_load.Linker.Relocate.Owned.{IsOwned, addresses, process_relocations-IsOwned}

-- A step on a list of targets.
abbrev collect : ℕ → ℕ → ℕ → List ℕ → Option (List ℕ)
collect offset info addend seen = some (offset ∷ (info ∷ (addend ∷ seen)))

-- Two relative relocations that share their info, 16 apart, with addends of their own, and one with
-- its own info and the addend before it.
abbrev relative : ℕ → ℕ → ElfRela
relative offset addend = record { r_offset = offset; r_info = 1027; r_addend = addend }

abbrev groups : List PackedGroup
groups =
    record {
      by_offset = some (pos 16);
      by_info = some 1027;
      addends = each;
      entries =
          record { offset_delta = pos 0; info = 0; addend_delta = pos 0x300 }
          ∷ record { offset_delta = pos 0; info = 0; addend_delta = negsuc 0xFF }
          ∷ [];
    }
    ∷ record {
      by_offset = none;
      by_info = none;
      addends = shared (pos 8);
      entries = record { offset_delta = pos 0x100; info = 1027; addend_delta = pos 0 } ∷ [];
    }
    ∷ []

groups-IsGroup : All IsGroup groups
groups-IsGroup = (
  record {
    offset_fits = omega arith;
    info_fits = omega arith;
    addends_fit = tt;
    entries_fit =
        ((omega arith, omega arith, omega arith), ((omega arith, omega arith, omega arith), tt));
    nonempty = omega arith;
  },
  (
    record {
      offset_fits = tt;
      info_fits = tt;
      addends_fit = omega arith;
      entries_fit = ((omega arith, omega arith, omega arith), tt);
      nonempty = omega arith;
    },
    tt,
  ),
)

expanded :
    expand (pos 0x1000) groups
    ≡ relative 0x1010 0x300 ∷ relative 0x1020 0x200 ∷ relative 0x1120 0x208 ∷ []
unfolding expand
expanded = refl

process_packed-encode_stream_example :
    process_packed collect true 3 (encode_stream (pos 0x1000) groups []) []
    ≡ done (0x1120 ∷ 1027 ∷ 0x208 ∷ 0x1020 ∷ 1027 ∷ 0x200 ∷ 0x1010 ∷ 1027 ∷ 0x300 ∷ [])
unfolding expand apply_all count
process_packed-encode_stream_example =
    process_packed-encode_stream collect (pos 0x1000) groups [] 3 [] (omega arith) groups-IsGroup
      (omega arith) (omega arith)

process_packed_truncated_example :
    process_packed collect true 3 (encode_numbered 4 (pos 0x1000) groups []) [] ≡ endless
unfolding expand apply_all count
process_packed_truncated_example =
    process_packed_truncated collect 4 (pos 0x1000) groups 3 [] (omega arith) groups-IsGroup
      (omega arith) (omega arith) (omega arith)

-- The tables of an image at 0x70000.
abbrev dynamic : List ElfDyn
unfolding encode_stream encode_numbered
dynamic =
    record { d_tag = 6; d_un = 0x100 }
    ∷ record { d_tag = 5; d_un = 0x200 }
    ∷ record { d_tag = 36; d_un = 0x300 }
    ∷ record { d_tag = 35; d_un = 16 }
    ∷ record { d_tag = 7; d_un = 0x400 }
    ∷ record { d_tag = 8; d_un = 24 }
    ∷ record { d_tag = 0x6000000f; d_un = 0x600 }
    ∷ record { d_tag = 0x60000011; d_un = length (encode_stream (pos 0x1000) groups []) }
    ∷ record { d_tag = 23; d_un = 0x500 }
    ∷ record { d_tag = 2; d_un = 24 }
    ∷ record { d_tag = 20; d_un = 7 }
    ∷ []

-- The PLT has a jump slot for "b".
abbrev slot : ElfRela
slot = record { r_offset = 0x3000; r_info = 2 ^ 32 + 1026; r_addend = 0 }

abbrev contents : Contents
unfolding dynamic
contents = record {
  dyn_at = λ a. dynamic ++ (record { d_tag = 0; d_un = 0 } ∷ []);
  rela_at = λ a. if a == 0x70400 then relative 0x2000 0x30 ∷ [] else slot ∷ [];
  rel_at = λ a. [];
  words_at = λ a. 0x1000 ∷ 0xB ∷ [];
  bytes_at =
      λ a. if a == 0x70200 then 0 ∷ 97 ∷ 0 ∷ 98 ∷ 0 ∷ [] else encode_stream (pos 0x1000) groups [];
  syms_at = λ a. weak_function 0 0 ∷ weak_function 3 0 ∷ [];
}

abbrev dynamic_segment : ElfPhdr
dynamic_segment = record {
  p_type = 2;
  p_flags = 6;
  p_offset = 0x5000;
  p_vaddr = 0x5000;
  p_filesz = 0xC0;
  p_memsz = 0xC0;
  p_align = 8;
}

abbrev relocated_image : ElfImage
relocated_image = record sample_image { phdrs = dynamic_segment ∷ [] }

abbrev log : List Step
log =
    words (0x1000 ∷ 0xB ∷ [])
    ∷ entry true (relative 0x2000 0x30)
    ∷ entry true (relative 0x1010 0x300)
    ∷ entry true (relative 0x1020 0x200)
    ∷ entry true (relative 0x1120 0x208)
    ∷ entry true slot
    ∷ []

abbrev tables : DynamicTables
unfolding tables_in
tables = tables_in fallback_tags relocated_image dynamic

abbrev packed : List ElfRela
packed = relative 0x1010 0x300 ∷ relative 0x1020 0x200 ∷ relative 0x1120 0x208 ∷ []

has_dynamic : HasDynamic surroundings.android_tags contents relocated_image dynamic
unfolding contents surroundings dynamic
has_dynamic = record {
  before = [];
  phdr = dynamic_segment;
  behind = [];
  phdrs = refl;
  first = tt;
  kind = refl;
  last = record { d_tag = 0; d_un = 0 };
  more = [];
  table = refl;
  null = refl;
  ahead = (
    λ e. omega (arith, e),
    (
      λ e. omega (arith, e),
      (
        λ e. omega (arith, e),
        (
          λ e. omega (arith, e),
          (
            λ e. omega (arith, e),
            (
              λ e. omega (arith, e),
              (
                λ e. omega (arith, e),
                (
                  λ e. omega (arith, e),
                  (λ e. omega (arith, e), (λ e. omega (arith, e), (λ e. omega (arith, e), tt))),
                ),
              ),
            ),
          ),
        ),
      ),
    ),
  );
  sized = (
    λ e. omega (arith, e),
    (
      λ e. omega (arith, e),
      (
        λ e. omega (arith, e),
        (
          λ e. omega (arith, e),
          (
            λ e. omega (arith, e),
            (
              λ e. omega (arith, e),
              (
                λ e. omega (arith, e),
                (
                  λ e. omega (arith, e),
                  (λ e. omega (arith, e), (λ e. omega (arith, e), (λ e. omega (arith, e), tt))),
                ),
              ),
            ),
          ),
        ),
      ),
    ),
  );
  tags_apart = record {
    low = (omega arith, omega arith, omega arith, omega arith);
    high = (omega arith, omega arith, omega arith, omega arith);
    rela_apart = (omega arith, omega arith, omega arith);
    rel_apart = (omega arith, omega arith);
  };
}

tables-IsWhole : IsWhole contents tables
unfolding contents tables_in last_value dynamic at_vaddr
tables-IsWhole = record {
  symbols = (omega arith, omega arith);
  relr = λ h. omega arith;
  rela = λ h. omega arith;
  rel = λ h. omega arith;
  plt_rela = λ h k. omega arith;
  plt_rel = λ h k. omega arith;
}

tables-IsPacked : IsPacked contents tables 3 packed
unfolding contents tables_in last_value dynamic at_vaddr first_entries expand count encode_numbered
    encode_stream uleb sleb encode_groups encode_group group_flags encode_entries
tables-IsPacked = inr (record {
  is_rela = refl;
  there = (omega arith, omega arith);
  first = pos 0x1000;
  groups = groups;
  behind = [];
  stream = refl;
  first_fits = omega arith;
  groups_fit = groups-IsGroup;
  count_fits = omega arith;
  enough = omega arith;
  stands_for = refl;
})

log_asked : asked contents tables packed ≡ log
unfolding asked contents tables_in last_value dynamic at_vaddr take
log_asked = refl

abbrev result : Packed Relocating → Relocating
result (done st) = st
result rejected = before
result broken = before
result endless = before

abbrev after : Relocating
after = result (process_relocations surroundings contents relocated_image 3 before)

run_ends : process_relocations surroundings contents relocated_image 3 before ≡ done after
unfolding process_relocations contents surroundings relocate_entry relocate_words decode
    decode_unsigned count encode_numbered encode_stream group_addend has_flag next_group
    packed_groups process_stream process_packed next_unsigned next_signed read_group read_reloc
    relocate_group relocate_tables relocate_packed relocate_plain relocate_plt relocate_rel
    relocate_rela relocate_relr relocate_rest apply_all find_dynamic scan_dynamic first_entries
    rela_table visit_entry at_vaddr uleb sleb encode_groups encode_group group_flags encode_entries
    bind_symbol c_string find_symbol_cached bind_found
run_ends = refl

process_relocations-serve_all_example :
    process_relocations surroundings contents relocated_image 3 before
    ≡ ended (serve_all surroundings contents 0x70000 tables log before)
unfolding asked contents tables_in last_value dynamic at_vaddr take surroundings
process_relocations-serve_all_example =
    process_relocations-serve_all surroundings contents relocated_image 3 dynamic packed before
      has_dynamic tables-IsWhole tables-IsPacked

process_relocations-IsCoherent_example : IsCoherent resolution after.linker
unfolding surroundings
process_relocations-IsCoherent_example =
    process_relocations-IsCoherent surroundings contents relocated_image 3 before after
      (empty-IsCoherent resolution small_linker refl) run_ends

nothing_made : IsOwned before
unfolding addresses
nothing_made = refl

process_relocations-IsOwned_example : IsOwned after
process_relocations-IsOwned_example =
    process_relocations-IsOwned surroundings contents relocated_image 3 before after nothing_made
      run_ends

-- What follows the RELA table.
abbrev later : List Step
later =
    entry true (relative 0x1010 0x300)
    ∷ entry true (relative 0x1020 0x200)
    ∷ entry true (relative 0x1120 0x208)
    ∷ entry true slot
    ∷ []

later-IsApart : All (IsApart 0x70000 0x72010) later
later-IsApart = (omega arith, (omega arith, (omega arith, (omega arith, tt))))

log-IsApart : All (IsApart 0x70000 0x72010) log
unfolding relr_offsets bit_offsets
log-IsApart = ((omega arith, (omega arith, (omega arith, tt))), (omega arith, later-IsApart))

process_relocations_frame_example : after.memory 0x72010 ≡ before.memory 0x72010
unfolding asked contents tables_in last_value dynamic at_vaddr take surroundings
process_relocations_frame_example =
    process_relocations_frame surroundings contents relocated_image 3 dynamic packed 0x72010 before
      after has_dynamic tables-IsWhole tables-IsPacked log-IsApart run_ends

later-IsApartFrom : All (IsApartFrom 0x70000 0x72000) later
later-IsApartFrom = (
  (λ i low. omega (arith, low)),
  (
    (λ i low. omega (arith, low)),
    ((λ i low. omega (arith, low)), ((λ i low. omega (arith, low)), tt)),
  ),
)

process_relocations-relative_example : read_word 0x72000 after.memory ≡ 0x70030
unfolding asked contents tables_in last_value dynamic at_vaddr take surroundings
process_relocations-relative_example =
    process_relocations-relative surroundings contents relocated_image 3 dynamic packed
      (words (0x1000 ∷ 0xB ∷ []) ∷ []) later (relative 0x2000 0x30) before after has_dynamic
      tables-IsWhole tables-IsPacked log_asked refl later-IsApartFrom run_ends

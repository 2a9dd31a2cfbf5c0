-- ===== src/Linker/Relocate/Order.antt =====
-- processRelocations as a whole: what it does is the replay of a list that the image gives.
use so_load.Base.{ℕ, ◌≡◌, refl, ap, ◌⊎◌, ◌∙◌, List, [], Option, none, some, Option-cases, inl, inr}
use so_load.Base.Words.{sub64}
use so_load.Image.{ElfImage, at_vaddr}
use so_load.Linker.Relocation.{Surroundings, Relocating}
use so_load.Linker.Tables.{
  AndroidTags, DynamicTables, Scan, no_tables, found, wrong_entry, overrun, find_dynamic,
  scan_dynamic,
}
use so_load.Linker.Packed.{Packed, done}
use so_load.Linker.Relocate.{
  Contents, relocate_entry, relocate_words, relocate_tables, process_relocations,
}
use so_load.Linker.Relocate.Log.{Step, note_entry, note_words, replay}
use so_load.Linker.Relocate.Replay.{relocate_tables-IsLogged}

-- The dynamic table of an image, when it has one that the scan goes through.
unfoldable pub tables_of : AndroidTags → Contents → ElfImage → DynamicTables
tables_of tags contents image = elim (find_dynamic image.phdrs) [
  | none ↦ no_tables
  | some phdr ↦
      elim (scan_dynamic tags image (contents.dyn_at (at_vaddr image phdr.p_vaddr)) no_tables) [
        | found t ↦ t
        | wrong_entry ↦ no_tables
        | overrun ↦ no_tables
      ]
]

-- What the tables of an image list, in order, whatever is done with it.
unfoldable pub listed : AndroidTags → Contents → ElfImage → ℕ → Packed (List Step)
unfolding tables_of
listed tags contents image rounds =
    relocate_tables note_entry note_words contents (tables_of tags contents image) rounds []

-- What the linker does for a step of an image's list.
unfoldable pub run_steps :
    Surroundings → Contents → ElfImage → List Step → Relocating → Option Relocating
unfolding tables_of
run_steps s contents image =
    let load_bias = sub64 image.base image.bias in
    replay (relocate_entry s contents load_bias (tables_of s.android_tags contents image))
      (relocate_words load_bias)

Scan-cases :
    (scan : Scan)
    → ((t : DynamicTables) × (scan ≡ found t)) ⊎ ((scan ≡ wrong_entry) ⊎ (scan ≡ overrun))
Scan-cases (found t) = inl (t, refl)
Scan-cases wrong_entry = inr (inl refl)
Scan-cases overrun = inr (inr refl)

abbrev run_tables :
    Surroundings → Contents → ElfImage → ℕ → DynamicTables → Relocating → Packed Relocating
run_tables s contents image rounds t st =
    let load_bias = sub64 image.base image.bias in
    relocate_tables (relocate_entry s contents load_bias t) (relocate_words load_bias) contents t
      rounds st

without_tables :
    (s : Surroundings) (contents : Contents) (image : ElfImage) (rounds : ℕ) (st : Relocating)
    → run_tables s contents image rounds no_tables st ≡ done st
unfolding relocate_tables
without_tables s contents image rounds st = refl

-- The scan finds the tables, or there is nothing to do.
with_tables :
    (s : Surroundings) (contents : Contents) (image : ElfImage) (rounds : ℕ)
    (before after : Relocating)
    → process_relocations s contents image rounds before ≡ done after
    → run_tables s contents image rounds (tables_of s.android_tags contents image) before
      ≡ done after
unfolding process_relocations tables_of
with_tables s contents image rounds before after e =
    let run = λ (t : DynamicTables). run_tables s contents image rounds t before in
    let nothing = without_tables s contents image rounds before in
    elim (Option-cases (find_dynamic image.phdrs)) [
      | inl absent ↦
          let here : tables_of s.android_tags contents image ≡ no_tables =
            rw (absent, tables_of) refl in
          let e' = rw (absent, process_relocations) at e in ap run here ∙ nothing ∙ e'
      | inr (phdr, dynamic) ↦
          elim (Scan-cases (
            scan_dynamic s.android_tags image (contents.dyn_at (at_vaddr image phdr.p_vaddr))
              no_tables)) [
                | inl (t, scanned) ↦
                    let here : tables_of s.android_tags contents image ≡ t =
                      rw (dynamic, scanned, tables_of) refl in
                    let e' = rw (dynamic, scanned, process_relocations) at e in ap run here ∙ e'
                | inr (inl refused) ↦
                    let here : tables_of s.android_tags contents image ≡ no_tables =
                      rw (dynamic, refused, tables_of) refl in
                    let e' = rw (dynamic, refused, process_relocations) at e in
                    ap run here ∙ nothing ∙ e'
                | inr (inr past) ↦
                    absurd (let e' = rw (dynamic, past, process_relocations) at e in cc)
              ]
    ]

-- A run of processRelocations that ends has done what the image's tables list, in order and
-- nothing else; the list does not depend on the memory, the linker or the answers of the symbol
-- search.
pub process_relocations_log :
    (s : Surroundings) (contents : Contents) (image : ElfImage) (rounds : ℕ)
    (before after : Relocating)
    → process_relocations s contents image rounds before ≡ done after
    → (log : List Step) × (listed s.android_tags contents image rounds ≡ done log)
      × (run_steps s contents image log before ≡ some after)
unfolding listed run_steps
process_relocations_log s contents image rounds before after e =
    let load_bias = sub64 image.base image.bias in
    let t = tables_of s.android_tags contents image in
    let logged =
      relocate_tables-IsLogged (relocate_entry s contents load_bias t) (relocate_words load_bias)
        contents t rounds before after (with_tables s contents image rounds before after e) in
    (logged.log, logged.noted [], logged.run)

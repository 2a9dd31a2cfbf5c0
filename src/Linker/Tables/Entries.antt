-- ===== src/Linker/Tables/Entries.antt =====
-- What the scan of the dynamic table finds: for each of its variables, the last entry with a tag.
use so_load.Base.{
  ℕ, ◌%◌, ◌^◌, ◌<◌, ◌≡◌, ◌≢◌, refl, ap, ◌∙◌, Bool, true, false, ◌||◌, List, [], ◌∷◌, ◌++◌, Option,
  none, some, All, ◌==◌, if◌then◌else◌, arith, Bool-cases, Option-cases, inl, inr,
}
use so_load.Image.{ElfImage, at_vaddr}
use so_load.Linker.Tables.{
  ElfDyn, DynamicTables, AndroidTags, no_tables, visit_entry, found, scan_dynamic,
}

-- The value of the last entry whose tag is one of `p`.
unfoldable pub last_value : (ℕ → Bool) → List ElfDyn → Option ℕ
last_value p [] = none
last_value p (d ∷ ds) = elim (last_value p ds) [
  | some v ↦ some v
  | none ↦ if p d.d_tag then some d.d_un else none
]

-- The tags of DT_ANDROID_* are in the range for the system, and apart from each other.
pub record IsDistinct (tags : AndroidTags) : Type 0 where
  pub low : (36 < tags.rela) × (36 < tags.relasz) × (36 < tags.rel) × (36 < tags.relsz)
  pub high :
      (tags.rela < 0x6fffe000)
      × (tags.relasz < 0x6fffe000)
      × (tags.rel < 0x6fffe000)
      × (tags.relsz < 0x6fffe000)
  pub rela_apart : (tags.rela ≢ tags.relasz) × (tags.rela ≢ tags.rel) × (tags.rela ≢ tags.relsz)
  pub rel_apart : (tags.rel ≢ tags.relasz) × (tags.rel ≢ tags.relsz)

-- A variable with `otherwise` where there is no entry for it.
abbrev from_last : {A : Type 0} → A → (ℕ → A) → Option ℕ → A
from_last otherwise give last = elim last [ none ↦ otherwise | some v ↦ give v ]

-- The tables of a dynamic table, by the numbers that the ELF specification gives the tags.
unfoldable pub tables_in : AndroidTags → ElfImage → List ElfDyn → DynamicTables
tables_in tags image ds =
    let last = λ (p : ℕ → Bool). last_value p ds in
    let pointer = from_last 0 (at_vaddr image) in
    let number = from_last 0 (λ v. v) in
    record {
      rela = pointer (last (λ t. t == 7));
      rela_sz = number (last (λ t. t == 8));
      rela_ent = number (last (λ t. t == 9));
      rel = pointer (last (λ t. t == 17));
      rel_sz = number (last (λ t. t == 18));
      rel_ent = number (last (λ t. t == 19));
      relr = pointer (last (λ t. t == 36 || t == 0x6fffe000));
      relr_sz = number (last (λ t. t == 35 || t == 0x6fffe001));
      jmprel = pointer (last (λ t. t == 23));
      jmprel_sz = number (last (λ t. t == 2));
      pltrel_type = from_last 0 (λ v. v % 2 ^ 32) (last (λ t. t == 20));
      dynsym = pointer (last (λ t. t == 6));
      dynstr = pointer (last (λ t. t == 5));
      android_reloc = pointer (last (λ t. t == tags.rela || t == tags.rel));
      android_reloc_sz = number (last (λ t. t == tags.relasz || t == tags.relsz));
      is_android_rela = from_last false (λ v. true) (last (λ t. t == tags.rela));
    }

unfoldable visit_all : AndroidTags → ElfImage → List ElfDyn → DynamicTables → DynamicTables
unfolding visit_entry
visit_all tags image [] t = t
visit_all tags image (d ∷ ds) t = visit_all tags image ds (visit_entry tags image d t)

module _ (tags : AndroidTags) (image : ElfImage) where
  -- A variable that the entries with the tags `p` set, and no other.
  visit_all_field :
      {A : Type 0} (field : DynamicTables → A) (p : ℕ → Bool) (give : ℕ → A)
      → ((d : ElfDyn) (t : DynamicTables)
          → field (visit_entry tags image d t) ≡ (if p d.d_tag then give d.d_un else field t))
      → (ds : List ElfDyn) (t : DynamicTables)
      → field (visit_all tags image ds t)
        ≡ elim (last_value p ds) [ none ↦ field t | some v ↦ give v ]
  unfolding visit_all last_value
  visit_all_field field p give sets [] t = refl
  visit_all_field field p give sets (d ∷ ds) t =
      visit_all_field field p give sets ds (visit_entry tags image d t)
      ∙ elim (Option-cases (last_value p ds)) [
        | inr (v, later) ↦ rw later refl
        | inl nothing ↦ elim (Bool-cases (p d.d_tag)) [
          | inl here ↦ rw (nothing, here) (sets d t ∙ (rw here refl))
          | inr other ↦ rw (nothing, other) (sets d t ∙ (rw other refl))
        ]
      ]

  module _ (apart : IsDistinct tags) (d : ElfDyn) (t : DynamicTables) where
    sets_rela :
        (visit_entry tags image d t).rela ≡ (if d.d_tag == 7 then at_vaddr image d.d_un else t.rela)
    unfolding visit_entry
    sets_rela = ground (arith, apart.low, apart.high)

    sets_rela_sz :
        (visit_entry tags image d t).rela_sz ≡ (if d.d_tag == 8 then d.d_un else t.rela_sz)
    unfolding visit_entry
    sets_rela_sz = ground (arith, apart.low, apart.high)

    sets_rela_ent :
        (visit_entry tags image d t).rela_ent ≡ (if d.d_tag == 9 then d.d_un else t.rela_ent)
    unfolding visit_entry
    sets_rela_ent = ground (arith, apart.low, apart.high)

    sets_rel :
        (visit_entry tags image d t).rel ≡ (if d.d_tag == 17 then at_vaddr image d.d_un else t.rel)
    unfolding visit_entry
    sets_rel = ground (arith, apart.low, apart.high)

    sets_rel_sz : (visit_entry tags image d t).rel_sz ≡ (if d.d_tag == 18 then d.d_un else t.rel_sz)
    unfolding visit_entry
    sets_rel_sz = ground (arith, apart.low, apart.high)

    sets_rel_ent :
        (visit_entry tags image d t).rel_ent ≡ (if d.d_tag == 19 then d.d_un else t.rel_ent)
    unfolding visit_entry
    sets_rel_ent = ground (arith, apart.low, apart.high)

    sets_relr :
        (visit_entry tags image d t).relr
        ≡ (if d.d_tag == 36 || d.d_tag == 0x6fffe000 then at_vaddr image d.d_un else t.relr)
    unfolding visit_entry
    sets_relr = ground (arith, apart.low, apart.high, apart.rela_apart, apart.rel_apart)

    sets_relr_sz :
        (visit_entry tags image d t).relr_sz
        ≡ (if d.d_tag == 35 || d.d_tag == 0x6fffe001 then d.d_un else t.relr_sz)
    unfolding visit_entry
    sets_relr_sz = ground (arith, apart.low, apart.high, apart.rela_apart, apart.rel_apart)

    sets_jmprel :
        (visit_entry tags image d t).jmprel
        ≡ (if d.d_tag == 23 then at_vaddr image d.d_un else t.jmprel)
    unfolding visit_entry
    sets_jmprel = ground (arith, apart.low, apart.high)

    sets_jmprel_sz :
        (visit_entry tags image d t).jmprel_sz ≡ (if d.d_tag == 2 then d.d_un else t.jmprel_sz)
    unfolding visit_entry
    sets_jmprel_sz = ground (arith, apart.low, apart.high)

    sets_pltrel_type :
        (visit_entry tags image d t).pltrel_type
        ≡ (if d.d_tag == 20 then d.d_un % 2 ^ 32 else t.pltrel_type)
    unfolding visit_entry
    sets_pltrel_type = ground (arith, apart.low, apart.high)

    sets_dynsym :
        (visit_entry tags image d t).dynsym
        ≡ (if d.d_tag == 6 then at_vaddr image d.d_un else t.dynsym)
    unfolding visit_entry
    sets_dynsym = ground (arith, apart.low, apart.high)

    sets_dynstr :
        (visit_entry tags image d t).dynstr
        ≡ (if d.d_tag == 5 then at_vaddr image d.d_un else t.dynstr)
    unfolding visit_entry
    sets_dynstr = ground (arith, apart.low, apart.high)

    sets_android_reloc : (visit_entry tags image d t).android_reloc ≡ (
        if d.d_tag == tags.rela || d.d_tag == tags.rel
        then at_vaddr image d.d_un
        else t.android_reloc)
    unfolding visit_entry
    sets_android_reloc = ground (arith, apart.low, apart.high, apart.rela_apart, apart.rel_apart)

    sets_android_reloc_sz :
        (visit_entry tags image d t).android_reloc_sz
        ≡ (if d.d_tag == tags.relasz || d.d_tag == tags.relsz then d.d_un else t.android_reloc_sz)
    unfolding visit_entry
    sets_android_reloc_sz = ground (arith, apart.low, apart.high, apart.rela_apart, apart.rel_apart)

    sets_is_android_rela :
        (visit_entry tags image d t).is_android_rela
        ≡ (if d.d_tag == tags.rela then true else t.is_android_rela)
    unfolding visit_entry
    sets_is_android_rela = ground (arith, apart.low, apart.high, apart.rela_apart, apart.rel_apart)

  -- What the switch leaves behind a list of entries.
  visit_all-tables_in :
      IsDistinct tags
      → (ds : List ElfDyn) → visit_all tags image ds no_tables ≡ tables_in tags image ds
  unfolding tables_in
  visit_all-tables_in apart ds =
      let visited =
        λ (A : Type 0) (field : DynamicTables → A) (p : ℕ → Bool) (give : ℕ → A)
            (sets : (d : ElfDyn) (t : DynamicTables)
              → field (visit_entry tags image d t) ≡ (if p d.d_tag then give d.d_un else field t)).
          visit_all_field field p give sets ds no_tables in
      λ i. record {
        rela = visited ℕ (λ t. t.rela) (λ t. t == 7) (at_vaddr image) (sets_rela apart) i;
        rela_sz = visited ℕ (λ t. t.rela_sz) (λ t. t == 8) (λ v. v) (sets_rela_sz apart) i;
        rela_ent = visited ℕ (λ t. t.rela_ent) (λ t. t == 9) (λ v. v) (sets_rela_ent apart) i;
        rel = visited ℕ (λ t. t.rel) (λ t. t == 17) (at_vaddr image) (sets_rel apart) i;
        rel_sz = visited ℕ (λ t. t.rel_sz) (λ t. t == 18) (λ v. v) (sets_rel_sz apart) i;
        rel_ent = visited ℕ (λ t. t.rel_ent) (λ t. t == 19) (λ v. v) (sets_rel_ent apart) i;
        relr =
            visited ℕ (λ t. t.relr) (λ t. t == 36 || t == 0x6fffe000) (at_vaddr image)
              (sets_relr apart) i;
        relr_sz =
            visited ℕ (λ t. t.relr_sz) (λ t. t == 35 || t == 0x6fffe001) (λ v. v)
              (sets_relr_sz apart) i;
        jmprel = visited ℕ (λ t. t.jmprel) (λ t. t == 23) (at_vaddr image) (sets_jmprel apart) i;
        jmprel_sz = visited ℕ (λ t. t.jmprel_sz) (λ t. t == 2) (λ v. v) (sets_jmprel_sz apart) i;
        pltrel_type =
            visited ℕ (λ t. t.pltrel_type) (λ t. t == 20) (λ v. v % 2 ^ 32) (sets_pltrel_type apart)
              i;
        dynsym = visited ℕ (λ t. t.dynsym) (λ t. t == 6) (at_vaddr image) (sets_dynsym apart) i;
        dynstr = visited ℕ (λ t. t.dynstr) (λ t. t == 5) (at_vaddr image) (sets_dynstr apart) i;
        android_reloc =
            visited ℕ (λ t. t.android_reloc) (λ t. t == tags.rela || t == tags.rel) (at_vaddr image)
              (sets_android_reloc apart) i;
        android_reloc_sz =
            visited ℕ (λ t. t.android_reloc_sz) (λ t. t == tags.relasz || t == tags.relsz) (λ v. v)
              (sets_android_reloc_sz apart) i;
        is_android_rela =
            visited Bool (λ t. t.is_android_rela) (λ t. t == tags.rela) (λ v. true)
              (sets_is_android_rela apart) i;
      }

  -- The scan of a table that DT_NULL ends finds the last entries before it, unless a DT_ANDROID_RELRENT
  -- has another value than 8.
  pub scan_dynamic-tables_in :
      (ds more : List ElfDyn) (end : ElfDyn)
      → IsDistinct tags
      → All (λ d. d.d_tag ≢ 0) ds
      → All (λ d. d.d_tag ≡ 0x6fffe003 → d.d_un ≡ 8) ds
      → end.d_tag ≡ 0
      → scan_dynamic tags image (ds ++ (end ∷ more)) no_tables ≡ found (tables_in tags image ds)
  unfolding scan_dynamic visit_all
  scan_dynamic-tables_in ds more end apart ahead sized last =
      go ds no_tables ahead sized ∙ ap found (visit_all-tables_in apart ds)
    where
      go :
          (es : List ElfDyn) (t : DynamicTables)
          → All (λ d. d.d_tag ≢ 0) es
          → All (λ d. d.d_tag ≡ 0x6fffe003 → d.d_un ≡ 8) es
          → scan_dynamic tags image (es ++ (end ∷ more)) t ≡ found (visit_all tags image es t)
      go [] t all all' = ground (arith, last)
      go (e ∷ es) t all all' =
          let here = all.0 in
          let size = all'.0 in
          let rest = go es (visit_entry tags image e t) all.1 all'.1 in
          ground (arith, here, size, rest)

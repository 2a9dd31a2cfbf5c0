-- ===== src/Linker/Relocate/Asked.antt =====
-- What the tables of an image ask for, written down from the tables, and what the loops of
-- processRelocations make of them.
use so_load.Base.{
  ℕ, zero, suc, ◌/◌, ◌<◌, ◌≤◌, ◌≡◌, ◌≢◌, refl, ap, sym, ◌∙◌, ◌⊎◌, inl, inr, Bool, true, false, not,
  ◌&&◌, ◌||◌, List, [], ◌∷◌, ◌++◌, map, Option, none, some, ◌>>=◌, >>=_assoc, >>=_cong, All, length,
  ltb, ◌==◌, if◌then◌else◌, arith, Bool-cases,
}
use so_load.Base.Int.{ℤ, IsI64}
use so_load.Base.Words.{IsU64}
use so_load.Linker.Tables.{
  DynamicTables, ElfRela, ElfRel, first_entries, apply_all, apply_all_rel, rela_table, rel_table,
}
use so_load.Linker.Packed.{done, broken, process_packed}
use so_load.Linker.Packed.Format.{PackedGroup, IsGroup, count, encode_stream, expand}
use so_load.Linker.Packed.Groups.{ending}
use so_load.Linker.Packed.RoundTrip.{process_packed-encode_stream}
use so_load.Linker.Relocate.{
  Contents, ended, judged, go_on, relocate_relr, relocate_rela, relocate_rel, relocate_plain,
  relocate_packed, relocate_plt, relocate_rest, relocate_tables,
}
use so_load.Linker.Relocate.Log.{Step, entry, words, replay, replay-append}

-- A REL entry has no addend of its own.
abbrev pub without_addend : ElfRel → ElfRela
without_addend r = record { r_offset = r.r_offset; r_info = r.r_info; r_addend = 0 }

unfoldable pub take {ℓ} : {A : Type ℓ} → ℕ → List A → List A
take zero xs = []
take (suc n) [] = []
take (suc n) (x ∷ xs) = x ∷ take n xs

-- The entries of a table at an address with a size in bytes: a null pointer or a size of 0 stands
-- for no table. An entry size of 0 stands for the one that the format has.
abbrev entries {ℓ} : {A : Type ℓ} → ℕ → ℕ → ℕ → List A → List A
entries at size each table = if at == 0 || size == 0 then [] else take (size / each) table

abbrev pub or_else : ℕ → ℕ → ℕ
or_else given otherwise = if given == 0 then otherwise else given

-- What the tables ask for, in order: the RELR table, RELA, REL, the packed stream and the PLT.
-- `packed` is what the stream stands for.
unfoldable plain_asked : Contents → DynamicTables → List Step
plain_asked contents t =
    (if t.relr == 0 || t.relr_sz == 0
      then []
      else words (take (t.relr_sz / 8) (contents.words_at t.relr)) ∷ [])
    ++ (map (entry true)
          (entries t.rela t.rela_sz (or_else t.rela_ent 24) (contents.rela_at t.rela))
        ++ map (λ r. entry false (without_addend r))
            (entries t.rel t.rel_sz (or_else t.rel_ent 16) (contents.rel_at t.rel)))

unfoldable plt_asked : Contents → DynamicTables → List Step
plt_asked contents t =
    if t.pltrel_type == 7
    then map (entry true) (entries t.jmprel t.jmprel_sz 24 (contents.rela_at t.jmprel))
    else map (λ r. entry false (without_addend r))
        (entries t.jmprel t.jmprel_sz 16 (contents.rel_at t.jmprel))

unfoldable pub asked : Contents → DynamicTables → List ElfRela → List Step
unfolding plain_asked plt_asked take
asked contents t packed =
    plain_asked contents t ++ (map (entry true) packed ++ plt_asked contents t)

-- The tables have as many entries as their sizes say.
pub record IsWhole (contents : Contents) (t : DynamicTables) : Type 0 where
  pub symbols : (t.dynsym ≢ 0) × (t.dynstr ≢ 0)
  pub relr : t.relr ≢ 0 → t.relr_sz / 8 ≤ length (contents.words_at t.relr)
  pub rela : t.rela ≢ 0 → t.rela_sz / or_else t.rela_ent 24 ≤ length (contents.rela_at t.rela)
  pub rel : t.rel ≢ 0 → t.rel_sz / or_else t.rel_ent 16 ≤ length (contents.rel_at t.rel)
  pub plt_rela :
      t.jmprel ≢ 0 → t.pltrel_type ≡ 7 → t.jmprel_sz / 24 ≤ length (contents.rela_at t.jmprel)
  pub plt_rel :
      t.jmprel ≢ 0 → t.pltrel_type ≢ 7 → t.jmprel_sz / 16 ≤ length (contents.rel_at t.jmprel)

-- The stream of an image with one is the encoding of groups of RELA entries, with fewer groups than
-- there are rounds.
pub record IsEncoded (contents : Contents) (t : DynamicTables) (rounds : ℕ) (packed : List ElfRela)
    : Type 0 where
  pub is_rela : t.is_android_rela ≡ true
  pub there : (t.android_reloc ≢ 0) × (4 < t.android_reloc_sz)
  pub first : ℤ
  pub groups : List PackedGroup
  pub behind : List ℕ
  pub stream :
      first_entries t.android_reloc_sz (contents.bytes_at t.android_reloc)
      ≡ some (encode_stream first groups behind)
  pub first_fits : IsI64 first
  pub groups_fit : All IsGroup groups
  pub count_fits : IsU64 (count groups)
  pub enough : length groups < rounds
  pub stands_for : expand first groups ≡ packed

abbrev pub IsPacked : Contents → DynamicTables → ℕ → List ElfRela → Type 0
IsPacked contents t rounds packed =
    (((t.android_reloc ≡ 0) ⊎ (t.android_reloc_sz ≤ 4)) × (packed ≡ []))
    ⊎ IsEncoded contents t rounds packed

first_entries-take {ℓ} :
    {A : Type ℓ} (n : ℕ) (table : List A)
    → n ≤ length table
    → first_entries n table ≡ some (take n table)
unfolding first_entries take
first_entries-take zero table h = refl
first_entries-take (suc n) [] h = absurd (omega (arith, h))
first_entries-take (suc n) (x ∷ xs) h =
    ap (λ m. m >>= (λ es. some (x ∷ es))) (first_entries-take n xs (omega (arith, h)))

guard : (a b : ℕ) → (not (a == 0) && not (b == 0)) ≡ not (a == 0 || b == 0)
guard a b = ground arith

module _ {ℓ} {S : Type ℓ} (apply : Bool → ℕ → ℕ → ℕ → S → Option S) (relr : List ℕ → S → S) where
  replay_rela :
      (is_rela : Bool) (rs : List ElfRela) (st : S)
      → apply_all (apply is_rela) rs st ≡ replay apply relr (map (entry is_rela) rs) st
  unfolding apply_all replay
  replay_rela is_rela [] st = refl
  replay_rela is_rela (r ∷ rs) st =
      ap (λ f. apply is_rela r.r_offset r.r_info r.r_addend st >>= f)
        (λ i st'. replay_rela is_rela rs st' i)

  replay_rel :
      (rs : List ElfRel) (st : S)
      → apply_all_rel (apply false) rs st
        ≡ replay apply relr (map (λ r. entry false (without_addend r)) rs) st
  unfolding apply_all_rel replay
  replay_rel [] st = refl
  replay_rel (r ∷ rs) st =
      ap (λ f. apply false r.r_offset r.r_info 0 st >>= f) (λ i st'. replay_rel rs st' i)

  -- A RELA or REL table at `at`, if there is one.
  rela_there :
      (at size each : ℕ) (table : List ElfRela) (st : S)
      → (at ≢ 0 → size / each ≤ length table)
      → (if not (at == 0) && not (size == 0)
          then rela_table (apply true) size each table st
          else some st)
        ≡ replay apply relr (map (entry true) (entries at size each table)) st
  unfolding rela_table replay
  rela_there at size each table st whole = elim (Bool-cases (at == 0 || size == 0)) [
    | inl nothing ↦ rw (guard at size, nothing) refl
    | inr there ↦
        let read = first_entries-take (size / each) table (whole (ground (arith, there))) in
        rw (guard at size, there, read) (replay_rela true (take (size / each) table) st)
  ]

  rel_there :
      (at size each : ℕ) (table : List ElfRel) (st : S)
      → (at ≢ 0 → size / each ≤ length table)
      → (if not (at == 0) && not (size == 0)
          then rel_table (apply false) size each table st
          else some st)
        ≡ replay apply relr
            (map (λ r. entry false (without_addend r)) (entries at size each table))
            st
  unfolding rel_table replay
  rel_there at size each table st whole = elim (Bool-cases (at == 0 || size == 0)) [
    | inl nothing ↦ rw (guard at size, nothing) refl
    | inr there ↦
        let read = first_entries-take (size / each) table (whole (ground (arith, there))) in
        rw (guard at size, there, read) (replay_rel (take (size / each) table) st)
  ]

  replay_three :
      (xs ys zs : List Step) (st : S)
      → (replay apply relr xs st
          >>= (λ st'. replay apply relr ys st')
          >>= (λ st'. replay apply relr zs st'))
        ≡ replay apply relr (xs ++ (ys ++ zs)) st
  replay_three xs ys zs st =
      >>=_assoc (replay apply relr xs st) _ _
      ∙ >>=_cong (replay apply relr xs st) _ _ (λ st'. sym (replay-append apply relr ys zs st'))
      ∙ sym (replay-append apply relr xs (ys ++ zs) st)

  module _ (contents : Contents) (t : DynamicTables) (whole : IsWhole contents t) where
    relr_there :
        (st : S)
        → relocate_relr apply relr contents t st
          ≡ replay apply relr
              (if t.relr == 0 || t.relr_sz == 0
                then []
                else words (take (t.relr_sz / 8) (contents.words_at t.relr)) ∷ [])
              st
    unfolding relocate_relr replay
    relr_there st = elim (Bool-cases (t.relr == 0 || t.relr_sz == 0)) [
      | inl nothing ↦ rw (guard t.relr t.relr_sz, nothing) refl
      | inr there ↦
          let read =
            first_entries-take (t.relr_sz / 8) (contents.words_at t.relr)
              (whole.relr (ground (arith, there))) in
          rw (guard t.relr t.relr_sz, there, read) refl
    ]

    plain_run :
        (st : S)
        → relocate_plain apply relr contents t st ≡ replay apply relr (plain_asked contents t) st
    unfolding relocate_plain relocate_rela relocate_rel plain_asked
    plain_run st =
        let rela = rela_there t.rela t.rela_sz (or_else t.rela_ent 24) (contents.rela_at t.rela) in
        let rel = rel_there t.rel t.rel_sz (or_else t.rel_ent 16) (contents.rel_at t.rel) in
        (λ i. relr_there st i >>= (λ st'. rela st' whole.rela i) >>= (λ st'. rel st' whole.rel i))
        ∙ replay_three _ _ _ st

    plt_run :
        (st : S)
        → relocate_plt apply relr contents t st ≡ replay apply relr (plt_asked contents t) st
    unfolding relocate_plt plt_asked
    plt_run st = elim (Bool-cases (t.pltrel_type == 7)) [
      | inl rela ↦ rw rela (
          rela_there t.jmprel t.jmprel_sz 24 (contents.rela_at t.jmprel) st
            (λ there. whole.plt_rela there (ground (arith, rela))))
      | inr rel ↦ rw rel (
          rel_there t.jmprel t.jmprel_sz 16 (contents.rel_at t.jmprel) st
            (λ there. whole.plt_rel there (ground (arith, rel))))
    ]

    rest_run :
        (rounds : ℕ) (packed : List ElfRela) (st : S)
        → IsPacked contents t rounds packed
        → relocate_rest apply relr contents t rounds st
          ≡ ended (replay apply relr (map (entry true) packed ++ plt_asked contents t) st)
    unfolding relocate_rest relocate_packed
    rest_run rounds packed st (inl (absent, nothing)) =
        let off : (not (t.android_reloc == 0) && ltb 4 t.android_reloc_sz) ≡ false =
          ground (arith, absent) in
        rw (off, nothing) (ap ended (plt_run st))
    rest_run rounds packed st (inr h) =
        let there = h.there in
        let on : (not (t.android_reloc == 0) && ltb 4 t.android_reloc_sz) ≡ true =
          ground (arith, there) in
        let run =
          ap (λ b. process_packed (apply b) b rounds (encode_stream h.first h.groups h.behind) st)
            h.is_rela
          ∙ process_packed-encode_stream (apply true) h.first h.groups h.behind rounds st
              h.first_fits h.groups_fit h.count_fits h.enough
          ∙ ap (λ p. ending done (apply_all (apply true) p st)) h.stands_for in
        rw (on, h.stream, run)
          (go (apply_all (apply true) packed st)
            ∙ ap (λ m. ended (m >>= (λ st'. replay apply relr (plt_asked contents t) st')))
                (replay_rela true packed st)
            ∙ ap ended (
                sym (replay-append apply relr (map (entry true) packed) (plt_asked contents t) st)))
      where
        go :
            (m : Option S)
            → go_on apply relr contents t (judged st (ending done m))
              ≡ ended (m >>= (λ st'. replay apply relr (plt_asked contents t) st'))
        go none = refl
        go (some st') = ap ended (plt_run st')

    -- The loops do what the tables ask for.
    pub tables_run :
        (rounds : ℕ) (packed : List ElfRela) (st : S)
        → IsPacked contents t rounds packed
        → relocate_tables apply relr contents t rounds st
          ≡ ended (replay apply relr (asked contents t packed) st)
    unfolding relocate_tables asked
    tables_run rounds packed st h =
        let symbols = whole.symbols in
        let named : (t.dynsym == 0 || t.dynstr == 0) ≡ false = ground (arith, symbols) in
        let rest = map (entry true) packed ++ plt_asked contents t in
        rw named (
          ap
            (λ m. elim m [
              | none ↦ broken
              | some st' ↦ relocate_rest apply relr contents t rounds st'
            ])
            (plain_run st)
          ∙ go (replay apply relr (plain_asked contents t) st)
          ∙ ap ended (sym (replay-append apply relr (plain_asked contents t) rest st)))
      where
        go :
            (m : Option S)
            → (elim m [ none ↦ broken | some st' ↦ relocate_rest apply relr contents t rounds st' ])
              ≡ ended (
                  m >>= (λ st'.
                    replay apply relr (map (entry true) packed ++ plt_asked contents t) st'))
        go none = refl
        go (some st') = rest_run rounds packed st' h

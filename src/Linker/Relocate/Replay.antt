-- ===== src/Linker/Relocate/Replay.antt =====
-- Every run of processRelocations that ends does what it is given, in order: it is the replay of
-- the log that the tables give by themselves.
use mathlib.Core.List.{append-nil}
use mathlib.Core.Path.{subst}
use so_load.Base.{
  ℕ, ◌/◌, ◌≡◌, sym, ◌∙◌, ap, Bool, true, false, not, ◌&&◌, ◌||◌, List, [], ◌++◌, Option, none, some,
  ◌>>=◌, >>=-eq-some, ◌==◌, ltb, if◌then◌else◌, Option-cases, inl, inr,
}
use so_load.Linker.Tables.{DynamicTables, first_entries}
use so_load.Linker.Packed.{process_packed, done, broken}
use so_load.Linker.Relocate.{
  Contents, relocate_relr, relocate_rela, relocate_rel, relocate_plt, relocate_plain,
  relocate_packed, relocate_rest, relocate_tables, ended, judged, go_on,
}
use so_load.Linker.Relocate.Log.{
  note_entry, note_words, replay, IsLogged, start-IsLogged, seq-IsLogged, given-IsLogged,
  if-IsLogged, words-IsLogged,
}
use so_load.Linker.Relocate.Magic.{Packed-cases, process_packed_rejected}
use so_load.Linker.Relocate.Loops.{rela_table-IsLogged, rel_table-IsLogged, process_packed-IsLogged}

module _ {ℓ} {S : Type ℓ} (apply : Bool → ℕ → ℕ → ℕ → S → Option S) (relr : List ℕ → S → S) where
  module _ (contents : Contents) (t : DynamicTables) where
    relocate_plain-IsLogged :
        (st st' : S)
        → relocate_plain apply relr contents t st ≡ some st'
        → IsLogged apply relr some st st' (relocate_plain note_entry note_words contents t)
    unfolding relocate_plain relocate_relr relocate_rela relocate_rel
    relocate_plain-IsLogged st st' e =
        let (st2, twice, last) =
          >>=-eq-some
            (relocate_relr apply relr contents t st >>= relocate_rela apply relr contents t) _ e in
        let (st1, first, second) = >>=-eq-some (relocate_relr apply relr contents t st) _ twice in
        seq-IsLogged apply relr (λ m. m >>= relocate_rel note_entry note_words contents t)
          (seq-IsLogged apply relr (λ m. m >>= relocate_rela note_entry note_words contents t)
            (if-IsLogged apply relr some (not (t.relr == 0) && not (t.relr_sz == 0)) first
              (λ run.
                let (entries, read, same) =
                  >>=-eq-some (first_entries (t.relr_sz / 8) (contents.words_at t.relr)) _ run in
                let states : relr entries st ≡ st1 = cc in
                given-IsLogged apply relr
                  (λ m acc. m >>= (λ entries. some (note_words entries acc))) read
                  (subst (λ x. IsLogged apply relr some st x (λ acc. some (note_words entries acc)))
                    states (words-IsLogged apply relr entries st)))
              (λ same. start-IsLogged apply relr some (let h : st ≡ st1 = cc in h)))
            (if-IsLogged apply relr some (not (t.rela == 0) && not (t.rela_sz == 0)) second
              (λ run.
                rela_table-IsLogged apply relr true t.rela_sz
                  (if t.rela_ent == 0 then 24 else t.rela_ent) (contents.rela_at t.rela) st1 st2
                  run)
              (λ same. start-IsLogged apply relr some (let h : st1 ≡ st2 = cc in h))))
          (if-IsLogged apply relr some (not (t.rel == 0) && not (t.rel_sz == 0)) last
            (λ run.
              rel_table-IsLogged apply relr false t.rel_sz
                (if t.rel_ent == 0 then 16 else t.rel_ent) (contents.rel_at t.rel) st2 st' run)
            (λ same. start-IsLogged apply relr some (let h : st2 ≡ st' = cc in h)))

    relocate_plt-IsLogged :
        (st st' : S)
        → relocate_plt apply relr contents t st ≡ some st'
        → IsLogged apply relr some st st' (relocate_plt note_entry note_words contents t)
    unfolding relocate_plt
    relocate_plt-IsLogged st st' e =
        if-IsLogged apply relr some (not (t.jmprel == 0) && not (t.jmprel_sz == 0)) e
          (λ run.
            if-IsLogged apply relr some (t.pltrel_type == 7) run
              (λ rela.
                rela_table-IsLogged apply relr true t.jmprel_sz 24 (contents.rela_at t.jmprel) st
                  st' rela)
              (λ rel.
                rel_table-IsLogged apply relr false t.jmprel_sz 16 (contents.rel_at t.jmprel) st st'
                  rel))
          (λ same. start-IsLogged apply relr some (let h : st ≡ st' = cc in h))

    judged-IsLogged :
        (b : Bool) (rounds : ℕ) (bytes : List ℕ) (further : Bool) (st st' : S)
        → judged st (process_packed (apply b) b rounds bytes st) ≡ done (further, st')
        → IsLogged apply relr
            (λ l. done (further, l))
            st
            st'
            (λ acc. judged acc (process_packed (note_entry b) b rounds bytes acc))
    unfolding replay
    judged-IsLogged b rounds bytes further st st' e =
        elim (Packed-cases (process_packed (apply b) b rounds bytes st)) [
          | inl (inl (st1, ran)) ↦
              let e' = rw ran at e in
              let yes_further : true ≡ further = cc in
              let states : st1 ≡ st' = cc in
              let first = process_packed-IsLogged apply relr b b rounds bytes st st1 ran in
              record {
                log = first.log;
                noted = λ acc.
                    ap (judged acc) (first.noted acc)
                    ∙ ap (λ f. done (f, acc ++ first.log)) yes_further;
                run = first.run ∙ ap some states;
              }
          | inl (inr wrong) ↦
              let e' = rw wrong at e in
              let no_further : false ≡ further = cc in
              let states : st ≡ st' = cc in
              record {
                log = [];
                noted = λ acc.
                    ap (judged acc)
                      (process_packed_rejected (apply b) (note_entry b) b rounds bytes st acc wrong)
                    ∙ ap (λ f. done (f, acc)) no_further
                    ∙ ap (λ l. done (further, l)) (sym (append-nil acc));
                run = ap some states;
              }
          | inr (inl stopped) ↦ absurd (let e' = rw stopped at e in cc)
          | inr (inr long) ↦ absurd (let e' = rw long at e in cc)
        ]

    relocate_packed-IsLogged :
        (rounds : ℕ) (further : Bool) (st st' : S)
        → relocate_packed apply relr contents t rounds st ≡ done (further, st')
        → IsLogged apply relr
            (λ l. done (further, l))
            st
            st'
            (relocate_packed note_entry note_words contents t rounds)
    unfolding relocate_packed
    relocate_packed-IsLogged rounds further st st' e =
        if-IsLogged apply relr (λ l. done (further, l))
          (not (t.android_reloc == 0) && ltb 4 t.android_reloc_sz) e
          (λ run.
            elim (Option-cases
              (first_entries t.android_reloc_sz (contents.bytes_at t.android_reloc))) [
                | inl past ↦ absurd (let run' = rw past at run in cc)
                | inr (bytes, read) ↦ rw read (
                    judged-IsLogged t.is_android_rela rounds bytes further st st'
                      (let run' = rw read at run in run'))
              ])
          (λ same.
            let yes_further : true ≡ further = cc in
            let states : st ≡ st' = cc in
            given-IsLogged apply relr (λ f acc. done (f, acc)) yes_further
              (start-IsLogged apply relr (λ l. done (further, l)) states))

    relocate_rest-IsLogged :
        (rounds : ℕ) (st st' : S)
        → relocate_rest apply relr contents t rounds st ≡ done st'
        → IsLogged apply relr done st st' (relocate_rest note_entry note_words contents t rounds)
    unfolding relocate_rest
    relocate_rest-IsLogged rounds st st' e =
        elim (Packed-cases (relocate_packed apply relr contents t rounds st)) [
          | inl (inl ((further, st1), ran)) ↦
              seq-IsLogged apply relr (go_on note_entry note_words contents t)
                (relocate_packed-IsLogged rounds further st st1 ran)
                (goes_on further st1 (let e' = rw ran at e in e'))
          | inl (inr wrong) ↦ absurd (let e' = rw wrong at e in cc)
          | inr (inl stopped) ↦ absurd (let e' = rw stopped at e in cc)
          | inr (inr long) ↦ absurd (let e' = rw long at e in cc)
        ]
      where
        goes_on :
            (further : Bool) (st1 : S)
            → go_on apply relr contents t (done (further, st1)) ≡ done st'
            → IsLogged apply relr done st1 st'
                (λ acc. go_on note_entry note_words contents t (done (further, acc)))
        goes_on false st1 e' = start-IsLogged apply relr done (let h : st1 ≡ st' = cc in h)
        goes_on true st1 e' = elim (Option-cases (relocate_plt apply relr contents t st1)) [
          | inl stopped ↦ absurd (let e'' = rw stopped at e' in cc)
          | inr (st2, ran) ↦
              let e'' = rw ran at e' in
              let states : st2 ≡ st' = cc in
              seq-IsLogged apply relr ended (relocate_plt-IsLogged st1 st2 ran)
                (start-IsLogged apply relr done states)
        ]

    -- A finished run on an image's tables is the replay of the log that the tables give.
    pub relocate_tables-IsLogged :
        (rounds : ℕ) (st st' : S)
        → relocate_tables apply relr contents t rounds st ≡ done st'
        → IsLogged apply relr done st st' (relocate_tables note_entry note_words contents t rounds)
    unfolding relocate_tables
    relocate_tables-IsLogged rounds st st' e =
        if-IsLogged apply relr done (t.dynsym == 0 || t.dynstr == 0) e
          (λ same. start-IsLogged apply relr done (let h : st ≡ st' = cc in h))
          (λ run. elim (Option-cases (relocate_plain apply relr contents t st)) [
            | inl stopped ↦ absurd (let run' = rw stopped at run in cc)
            | inr (st1, ran) ↦
                seq-IsLogged apply relr
                  (λ m. elim m [
                    | none ↦ broken
                    | some l ↦ relocate_rest note_entry note_words contents t rounds l
                  ])
                  (relocate_plain-IsLogged st st1 ran)
                  (relocate_rest-IsLogged rounds st1 st' (let run' = rw ran at run in run'))
          ])

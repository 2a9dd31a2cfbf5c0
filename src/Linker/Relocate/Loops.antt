-- ===== src/Linker/Relocate/Loops.antt =====
-- The loops of processRelocations write down what they do: those over the RELA and REL tables, and
-- those over the packed stream.
use so_load.Base.{
  ℕ, zero, suc, ◌+◌, ◌/◌, ◌≡◌, Bool, ◌&&◌, List, [], ◌∷◌, Option, none, some, ◌>>=◌, >>=-eq-some,
  ◌==◌, leb, Option-cases, inl, inr,
}
use so_load.Base.Words.{u64}
use so_load.Linker.Tables.{
  ElfRela, ElfRel, apply_all, apply_all_rel, rela_table, rel_table, first_entries,
}
use so_load.Linker.Packed.{
  Cursor, Group, next_signed, next_unsigned, read_group, read_reloc, relocate_group, next_group,
  packed_groups, process_stream, process_packed, done, broken,
}
use so_load.Linker.Relocate.Log.{
  note_entry, IsLogged, start-IsLogged, seq-IsLogged, given-IsLogged, if-IsLogged, entry-IsLogged,
}

module _ {ℓ} {S : Type ℓ} (apply : Bool → ℕ → ℕ → ℕ → S → Option S) (relr : List ℕ → S → S) where
  pub apply_all-IsLogged :
      (b : Bool) (rs : List ElfRela) (st st' : S)
      → apply_all (apply b) rs st ≡ some st'
      → IsLogged apply relr some st st' (apply_all (note_entry b) rs)
  unfolding apply_all
  apply_all-IsLogged b [] st st' e =
      start-IsLogged apply relr some (let same : st ≡ st' = cc in same)
  apply_all-IsLogged b (r ∷ rs) st st' e =
      let (mid, first, second) = >>=-eq-some (apply b r.r_offset r.r_info r.r_addend st) _ e in
      seq-IsLogged apply relr (λ m. m >>= (λ l. apply_all (note_entry b) rs l))
        (entry-IsLogged apply relr b r.r_offset r.r_info r.r_addend st mid first)
        (apply_all-IsLogged b rs mid st' second)

  pub apply_all_rel-IsLogged :
      (b : Bool) (rs : List ElfRel) (st st' : S)
      → apply_all_rel (apply b) rs st ≡ some st'
      → IsLogged apply relr some st st' (apply_all_rel (note_entry b) rs)
  unfolding apply_all_rel
  apply_all_rel-IsLogged b [] st st' e =
      start-IsLogged apply relr some (let same : st ≡ st' = cc in same)
  apply_all_rel-IsLogged b (r ∷ rs) st st' e =
      let (mid, first, second) = >>=-eq-some (apply b r.r_offset r.r_info 0 st) _ e in
      seq-IsLogged apply relr (λ m. m >>= (λ l. apply_all_rel (note_entry b) rs l))
        (entry-IsLogged apply relr b r.r_offset r.r_info 0 st mid first)
        (apply_all_rel-IsLogged b rs mid st' second)

  pub rela_table-IsLogged :
      (b : Bool) (size ent : ℕ) (table : List ElfRela) (st st' : S)
      → rela_table (apply b) size ent table st ≡ some st'
      → IsLogged apply relr some st st' (rela_table (note_entry b) size ent table)
  unfolding rela_table
  rela_table-IsLogged b size ent table st st' e =
      let (rs, read, run) = >>=-eq-some (first_entries (size / ent) table) _ e in
      given-IsLogged apply relr (λ m acc. m >>= (λ rs. apply_all (note_entry b) rs acc)) read
        (apply_all-IsLogged b rs st st' run)

  pub rel_table-IsLogged :
      (b : Bool) (size ent : ℕ) (table : List ElfRel) (st st' : S)
      → rel_table (apply b) size ent table st ≡ some st'
      → IsLogged apply relr some st st' (rel_table (note_entry b) size ent table)
  unfolding rel_table
  rel_table-IsLogged b size ent table st st' e =
      let (rs, read, run) = >>=-eq-some (first_entries (size / ent) table) _ e in
      given-IsLogged apply relr (λ m acc. m >>= (λ rs. apply_all_rel (note_entry b) rs acc)) read
        (apply_all_rel-IsLogged b rs st st' run)

  pub relocate_group-IsLogged :
      (b r : Bool) (g : Group) (n : ℕ) (c c' : Cursor) (st st' : S)
      → relocate_group (apply b) r g n c st ≡ some (c', st')
      → IsLogged apply relr (λ l. some (c', l)) st st' (relocate_group (note_entry b) r g n c)
  unfolding relocate_group
  relocate_group-IsLogged b r g zero c c' st st' e =
      let cursors : c ≡ c' = cc in
      let states : st ≡ st' = cc in
      given-IsLogged apply relr (λ k acc. some (k, acc)) cursors
        (start-IsLogged apply relr (λ l. some (c', l)) states)
  relocate_group-IsLogged b r g (suc n) c c' st st' e =
      let (q, read, rest) = >>=-eq-some (read_reloc r g c) _ e in
      let (mid, first, second) = >>=-eq-some (apply b q.1.r_offset q.0 q.1.addend st) _ rest in
      given-IsLogged apply relr
        (λ m acc. m >>= (λ q.
          note_entry b q.1.r_offset q.0 q.1.addend acc
          >>= (λ l. relocate_group (note_entry b) r g n q.1 l)))
        read
        (seq-IsLogged apply relr (λ m. m >>= (λ l. relocate_group (note_entry b) r g n q.1 l))
          (entry-IsLogged apply relr b q.1.r_offset q.0 q.1.addend st mid first)
          (relocate_group-IsLogged b r g n q.1 c' mid st' second))

  pub next_group-IsLogged :
      (b r : Bool) (size : ℕ) (c c' : Cursor) (st st' : S)
      → next_group (apply b) r c st ≡ some (size, c', st')
      → IsLogged apply relr (λ l. some (size, c', l)) st st' (next_group (note_entry b) r c)
  unfolding next_group
  next_group-IsLogged b r size c c' st st' e =
      let (g, read, rest) = >>=-eq-some (read_group r c) _ e in
      let (q, group, last) = >>=-eq-some (relocate_group (apply b) r g.0 g.0.size g.1 st) _ rest in
      let sizes : g.0.size ≡ size = cc in
      let cursors : q.0 ≡ c' = cc in
      let states : q.1 ≡ st' = cc in
      given-IsLogged apply relr
        (λ m acc. m >>= (λ g.
          relocate_group (note_entry b) r g.0 g.0.size g.1 acc
          >>= (λ q. some (g.0.size, q.0, q.1))))
        read
        (seq-IsLogged apply relr (λ m. m >>= (λ q. some (g.0.size, q.0, q.1)))
          (relocate_group-IsLogged b r g.0 g.0.size g.1 q.0 st q.1 group)
          (given-IsLogged apply relr (λ n acc. some (n, q.0, acc)) sizes
            (given-IsLogged apply relr (λ k acc. some (size, k, acc)) cursors
              (start-IsLogged apply relr (λ l. some (size, c', l)) states))))

  pub packed_groups-IsLogged :
      (b r : Bool) (rounds num i : ℕ) (c : Cursor) (st st' : S)
      → packed_groups (apply b) r rounds num i c st ≡ done st'
      → IsLogged apply relr done st st' (packed_groups (note_entry b) r rounds num i c)
  unfolding packed_groups
  packed_groups-IsLogged b r zero num i c st st' e = cc
  packed_groups-IsLogged b r (suc rounds) num i c st st' e =
      if-IsLogged apply relr done (leb num i) e
        (λ same. start-IsLogged apply relr done (let states : st ≡ st' = cc in states))
        (λ more. elim (Option-cases (next_group (apply b) r c st)) [
          | inl none_left ↦ absurd (let more' = rw none_left at more in cc)
          | inr ((size, c', mid), group) ↦
              seq-IsLogged apply relr
                (λ m. elim m [
                  | none ↦ broken
                  | some (size, c', l) ↦
                      packed_groups (note_entry b) r rounds num (u64 (i + size)) c' l
                ])
                (next_group-IsLogged b r size c c' st mid group)
                (packed_groups-IsLogged b r rounds num (u64 (i + size)) c' mid st'
                  (let more' = rw group at more in more'))
        ])

  pub process_stream-IsLogged :
      (b r : Bool) (rounds : ℕ) (bytes : List ℕ) (st st' : S)
      → process_stream (apply b) r rounds bytes st ≡ done st'
      → IsLogged apply relr done st st' (process_stream (note_entry b) r rounds bytes)
  unfolding process_stream
  process_stream-IsLogged b r rounds bytes st st' e =
      let start : Cursor = record { dec = record { current = bytes }; r_offset = 0; addend = 0 } in
      elim (Option-cases (next_unsigned start)) [
        | inl broken_off ↦ absurd (let e' = rw (broken_off, process_stream) at e in cc)
        | inr ((num, c), counted) ↦ elim (Option-cases (next_signed c)) [
          | inl broken_off ↦ absurd (let e' = rw (counted, broken_off, process_stream) at e in cc)
          | inr ((offset, c'), first) ↦
              rw (counted, first, process_stream)
                (packed_groups-IsLogged b r rounds num 0 (record c' { r_offset = offset }) st st'
                  (let e' = rw (counted, first, process_stream) at e in e'))
        ]
      ]

  pub process_packed-IsLogged :
      (b r : Bool) (rounds : ℕ) (bytes : List ℕ) (st st' : S)
      → process_packed (apply b) r rounds bytes st ≡ done st'
      → IsLogged apply relr done st st' (process_packed (note_entry b) r rounds bytes)
  unfolding process_packed
  process_packed-IsLogged b r rounds (x ∷ y ∷ z ∷ w ∷ v ∷ bytes) st st' e =
      if-IsLogged apply relr done (x == 65 && y == 80 && z == 83 && w == 50) e
        (λ magic. process_stream-IsLogged b r rounds (v ∷ bytes) st st' magic) (λ wrong. cc)
  process_packed-IsLogged b r rounds [] st st' e =
      start-IsLogged apply relr done (let h : st ≡ st' = cc in h)
  process_packed-IsLogged b r rounds (x ∷ []) st st' e =
      start-IsLogged apply relr done (let h : st ≡ st' = cc in h)
  process_packed-IsLogged b r rounds (x ∷ y ∷ []) st st' e =
      start-IsLogged apply relr done (let h : st ≡ st' = cc in h)
  process_packed-IsLogged b r rounds (x ∷ y ∷ z ∷ []) st st' e =
      start-IsLogged apply relr done (let h : st ≡ st' = cc in h)
  process_packed-IsLogged b r rounds (x ∷ y ∷ z ∷ w ∷ []) st st' e =
      start-IsLogged apply relr done (let h : st ≡ st' = cc in h)

-- ===== src/Linker/Packed/Groups.antt =====
-- The two loops over packed groups: on encoded groups they do what the relocations do that the
-- groups stand for.
use so_load.Base.{
  ℕ, zero, suc, ◌+◌, ◌<◌, ◌≤◌, ◌≡◌, refl, ap, sym, ◌∙◌, true, false, List, [], ◌∷◌, ◌++◌, Option,
  none, some, ◌>>=◌, >>=-some, >>=_assoc, >>=_cong, length, All, leb, arith,
}
use so_load.Base.Words.{u64, IsU64}
use so_load.Base.Int.{ℤ}
use so_load.Linker.Packed.{Cursor, relocate_group, next_group, packed_groups, Packed, done, broken}
use so_load.Linker.Packed.Format.{
  Entry, Addends, PackedGroup, encode_entries, encode_group, encode_groups, count, start_addend,
  entry_reloc, expand_entries, expand_groups, FitsEntry, IsGroup,
}
use so_load.Linker.Tables.{apply_all, ElfRela}
use so_load.Linker.Packed.Readings.{at, group_of, head, read_reloc-encode, read_group-encode}

-- What the loop makes of an answer, when it ends as `last` says.
abbrev pub ending {ℓ} : {S : Type ℓ} → (S → Packed S) → Option S → Packed S
ending last none = broken
ending last (some st) = last st

module _ {ℓ} {S : Type ℓ} (apply : ℕ → ℕ → ℕ → S → Option S) where
  apply_all-append :
      (rs qs : List ElfRela) (st : S)
      → apply_all apply (rs ++ qs) st ≡ (apply_all apply rs st >>= (λ st'. apply_all apply qs st'))
  unfolding apply_all
  apply_all-append [] qs st = refl
  apply_all-append (r ∷ rs) qs st =
      >>=_cong (apply r.r_offset r.r_info r.r_addend st) _ _ (apply_all-append rs qs)
      ∙ sym (>>=_assoc (apply r.r_offset r.r_info r.r_addend st) _ _)

  relocate_group-encode :
      (o : Option ℤ) (i : Option ℕ) (a : Addends) (all es : List Entry) (rest : List ℕ)
      (offset addend : ℕ) (st : S)
      → All FitsEntry es
      → let g = group_of o i a all in
        let q = expand_entries g es offset addend in
        relocate_group apply true
          (head g)
          (length es)
          (at (encode_entries g es rest) offset addend)
          st
        ≡ (apply_all apply q.0 st >>= (λ st'. some (at rest q.1 q.2, st')))
  unfolding relocate_group encode_entries expand_entries apply_all
  relocate_group-encode o i a all [] rest offset addend st h = refl
  relocate_group-encode o i a all (e ∷ es) rest offset addend st h =
      let g = group_of o i a all in
      let r = entry_reloc g e offset addend in
      >>=-some _ (read_reloc-encode o i a all e (encode_entries g es rest) offset addend h.0)
      ∙ >>=_cong (apply r.r_offset r.r_info r.r_addend st) _ _
          (λ st'. relocate_group-encode o i a all es rest r.r_offset r.r_addend st' h.1)
      ∙ sym (>>=_assoc (apply r.r_offset r.r_info r.r_addend st) _ _)

  next_group-encode :
      (g : PackedGroup) (rest : List ℕ) (offset addend : ℕ) (st : S)
      → IsGroup g
      → IsU64 (length g.entries)
      → let q = expand_entries g g.entries offset (start_addend g.addends addend) in
        next_group apply true (at (encode_group g rest) offset addend) st
        ≡ (apply_all apply q.0 st >>= (λ st'. some (length g.entries, at rest q.1 q.2, st')))
  unfolding next_group
  next_group-encode g rest offset addend st h short =
      let start = start_addend g.addends addend in
      let q = expand_entries g g.entries offset start in
      >>=-some _
        (read_group-encode g.by_offset g.by_info g.addends g.entries rest offset addend h short)
      ∙ ap (λ m. m >>= (λ p. some (length g.entries, p.0, p.1)))
          (relocate_group-encode g.by_offset g.by_info g.addends g.entries g.entries rest offset
            start st h.entries_fit)
      ∙ >>=_assoc (apply_all apply q.0 st) _ _

  pub packed_groups_step :
      (num rounds i : ℕ) (c : Cursor) (st : S)
      → leb num i ≡ false
      → packed_groups apply true (suc rounds) num i c st ≡ (elim (next_group apply true c st) [
        | none ↦ broken
        | some (size, c', st') ↦ packed_groups apply true rounds num (u64 (i + size)) c' st'
      ])
  unfolding packed_groups
  packed_groups_step num rounds i c st left = rw left refl

  pub packed_groups_end :
      (num rounds i : ℕ) (c : Cursor) (st : S)
      → num ≤ i
      → packed_groups apply true (suc rounds) num i c st ≡ done st
  unfolding packed_groups
  packed_groups_end num rounds i c st past =
      let all : leb num i ≡ true = ground arith in rw all refl

  after_group :
      (last : S → Packed S) (m : Option S) (size : ℕ) (c : Cursor) (k : ℕ → Cursor → S → Packed S)
      (f : S → Option S)
      → ((st : S) → k size c st ≡ ending last (f st))
      → (elim (◌>>=◌ {B = ℕ × Cursor × S} m (λ st. some (size, c, st))) [
        | none ↦ broken
        | some (size', c', st') ↦ k size' c' st'
      ])
        ≡ ending last (m >>= f)
  after_group last none size c k f h = refl
  after_group last (some st) size c k f h = h st

  -- The loop goes over the groups and does behind them what it does there.
  pub packed_groups-encode :
      (last : S → Packed S) (num : ℕ) (gs : List PackedGroup) (rest : List ℕ)
      (rounds i offset addend : ℕ) (st : S)
      → All IsGroup gs
      → i + count gs ≤ num
      → IsU64 num
      → length gs < rounds
      → ((r o a : ℕ) (st' : S)
          → packed_groups apply true (suc r) num (i + count gs) (at rest o a) st' ≡ last st')
      → packed_groups apply true rounds num i (at (encode_groups gs rest) offset addend) st
        ≡ ending last (apply_all apply (expand_groups gs offset addend) st)
  unfolding encode_groups expand_groups apply_all count
  packed_groups-encode last num gs rest zero i offset addend st all e fits enough end =
      absurd (omega (arith, enough))
  packed_groups-encode last num [] rest (suc rounds) i offset addend st all e fits enough end =
      let here : i + 0 ≡ i = omega arith in
      ap (λ j. packed_groups apply true (suc rounds) num j (at rest offset addend) st) (sym here)
      ∙ end rounds offset addend st
  packed_groups-encode last num (g ∷ gs) rest (suc rounds) i offset addend st all e fits enough
        end =
      let (h, hs) = all in
      let size = length g.entries in
      let q = expand_entries g g.entries offset (start_addend g.addends addend) in
      let later = expand_groups gs q.1 q.2 in
      let on : u64 (i + size) + count gs ≡ i + (size + count gs) = omega (arith, e, fits) in
      packed_groups_step num rounds i (at (encode_groups (g ∷ gs) rest) offset addend) st
        (ground (arith, e, h.nonempty))
      ∙ rw (next_group-encode g (encode_groups gs rest) offset addend st h (omega (arith, e, fits)))
          (after_group last (apply_all apply q.0 st) size (at (encode_groups gs rest) q.1 q.2)
              (λ n c st'. packed_groups apply true rounds num (u64 (i + n)) c st')
              (apply_all apply later)
              (λ st'.
                packed_groups-encode last num gs rest rounds (u64 (i + size)) q.1 q.2 st' hs
                  (omega (arith, e, fits)) fits (omega (arith, enough))
                  (λ r o a st''.
                    ap (λ j. packed_groups apply true (suc r) num j (at rest o a) st'') on
                    ∙ end r o a st''))
            ∙ ap (ending last) (sym (apply_all-append q.0 later st)))

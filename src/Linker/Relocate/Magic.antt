-- ===== src/Linker/Relocate/Magic.antt =====
-- A packed stream is rejected for its magic alone, whatever is done for its relocations.
use so_load.Base.{
  ◌⊎◌, ◌≢◌, arith, ℕ, zero, suc, ◌+◌, ◌≡◌, refl, Bool, ◌&&◌, List, [], ◌∷◌, Option, ◌==◌,
  Bool-cases, Option-cases, inl, inr,
}
use so_load.Base.Words.{u64}
use so_load.Linker.Packed.{
  Cursor, next_signed, next_unsigned, next_group, packed_groups, process_stream, process_packed,
  Packed, done, rejected, broken, endless,
}

pub Packed-cases {ℓ} :
    {S : Type ℓ} (p : Packed S)
    → (((st : S) × (p ≡ done st)) ⊎ (p ≡ rejected)) ⊎ ((p ≡ broken) ⊎ (p ≡ endless))
Packed-cases (done st) = inl (inl (st, refl))
Packed-cases rejected = inl (inr refl)
Packed-cases broken = inr (inl refl)
Packed-cases endless = inr (inr refl)

-- The magic is judged before anything else, and is all that is rejected.
module _ {ℓ κ} {S : Type ℓ} {T : Type κ} (apply : ℕ → ℕ → ℕ → S → Option S)
    (apply' : ℕ → ℕ → ℕ → T → Option T) (r : Bool) where
  packed_groups_accept :
      (rounds num i : ℕ) (c : Cursor) (st : S) → packed_groups apply r rounds num i c st ≢ rejected
  unfolding packed_groups
  packed_groups_accept zero num i c st e = cc
  packed_groups_accept (suc rounds) num i c st e = elim (Option-cases (next_group apply r c st)) [
    | inl stopped ↦ ground (arith, stopped, e)
    | inr ((size, c', mid), group) ↦
        let later = packed_groups_accept rounds num (u64 (i + size)) c' mid in
        ground (arith, e, group, later)
  ]

  process_stream_accept :
      (rounds : ℕ) (bytes : List ℕ) (st : S) → process_stream apply r rounds bytes st ≢ rejected
  unfolding process_stream
  process_stream_accept rounds bytes st e =
      let start : Cursor = record { dec = record { current = bytes }; r_offset = 0; addend = 0 } in
      elim (Option-cases (next_unsigned start)) [
        | inl stopped ↦ let e' = rw (stopped, process_stream) at e in cc
        | inr ((num, c), counted) ↦ elim (Option-cases (next_signed c)) [
          | inl stopped ↦ let e' = rw (counted, stopped, process_stream) at e in cc
          | inr ((offset, c'), first) ↦
              packed_groups_accept rounds num 0 (record c' { r_offset = offset }) st
                (let e' = rw (counted, first, process_stream) at e in e')
        ]
      ]

  pub process_packed_rejected :
      (rounds : ℕ) (bytes : List ℕ) (st : S) (st' : T)
      → process_packed apply r rounds bytes st ≡ rejected
      → process_packed apply' r rounds bytes st' ≡ rejected
  unfolding process_packed
  process_packed_rejected rounds (x ∷ y ∷ z ∷ w ∷ v ∷ bytes) st st' e =
      elim (Bool-cases (x == 65 && y == 80 && z == 83 && w == 50)) [
        | inl magic ↦
            absurd (process_stream_accept rounds (v ∷ bytes) st (let e' = rw magic at e in e'))
        | inr wrong ↦ rw wrong refl
      ]
  process_packed_rejected rounds [] st st' e = cc
  process_packed_rejected rounds (x ∷ []) st st' e = cc
  process_packed_rejected rounds (x ∷ y ∷ []) st st' e = cc
  process_packed_rejected rounds (x ∷ y ∷ z ∷ []) st st' e = cc
  process_packed_rejected rounds (x ∷ y ∷ z ∷ w ∷ []) st st' e = cc

-- ===== src/Linker/Packed/RoundTrip.antt =====
-- The packed stream read back: what the loop does on an encoded stream is what the relocations do
-- that it stands for, one after the other.
use mathlib.Core.Path.{subst}
use so_load.Base.{
  ℕ, zero, suc, ◌+◌, ◌%◌, ◌/◌, ◌<◌, ◌≤◌, ◌≡◌, refl, ap, sym, ◌∙◌, true, List, [], ◌∷◌, ◌++◌, Option,
  length, All, ltb, arith, Bool-cases, inl, inr,
}
use so_load.Base.Words.{u64, IsU64}
use so_load.Base.Int.{ℤ, pattern64, IsI64}
use so_load.Sleb128.{decode_unsigned}
use so_load.Sleb128.Spec.{uleb, sleb}
use so_load.Linker.Packed.{
  has_flag, next_unsigned, next_group, packed_groups, process_stream, process_packed, Packed, done,
  endless,
}
use so_load.Linker.Packed.Format.{
  PackedGroup, encode_groups, count, encode_numbered, encode_stream, expand, IsGroup,
}
use so_load.Linker.Tables.{apply_all}
use so_load.Linker.Packed.Readings.{at, next_unsigned-uleb, next_signed-sleb}
use so_load.Linker.Packed.Groups.{
  ending, packed_groups-encode, packed_groups_step, packed_groups_end,
}

-- An encoded number has a byte.
uleb-cons : (n : ℕ) → (b : ℕ) × (bs : List ℕ) × (uleb 9 n ≡ b ∷ bs)
unfolding uleb
uleb-cons n = elim (Bool-cases (ltb n 128)) [
  | inl t ↦ (n, [], rw t refl)
  | inr f ↦ (128 + n % 128, uleb 8 (n / 128), rw f refl)
]

module _ {ℓ} {S : Type ℓ} (apply : ℕ → ℕ → ℕ → S → Option S) where
  process_stream-encode :
      (last : S → Packed S) (num : ℕ) (first : ℤ) (gs : List PackedGroup) (rest : List ℕ)
      (rounds : ℕ) (st : S)
      → IsI64 first
      → All IsGroup gs
      → count gs ≤ num
      → IsU64 num
      → length gs < rounds
      → ((r o a : ℕ) (st' : S)
          → packed_groups apply true (suc r) num (count gs) (at rest o a) st' ≡ last st')
      → process_stream apply true rounds (uleb 9 num ++ (sleb 9 first ++ encode_groups gs rest)) st
        ≡ ending last (apply_all apply (expand first gs) st)
  unfolding process_stream expand
  process_stream-encode last num first gs rest rounds st fits all few short enough end =
      let start : count gs ≡ 0 + count gs = omega arith in
      rw
        (
          next_unsigned-uleb 0 0 num (sleb 9 first ++ encode_groups gs rest) short,
          next_signed-sleb 0 0 first (encode_groups gs rest) fits,
          process_stream,
        )
        (packed_groups-encode apply last num gs rest rounds 0 (pattern64 first) 0 st all
          (omega (arith, few)) short enough
          (λ r o a st'.
            ap (λ j. packed_groups apply true (suc r) num j (at rest o a) st') (sym start)
            ∙ end r o a st'))

  process_packed-encode_numbered :
      (last : S → Packed S) (num : ℕ) (first : ℤ) (gs : List PackedGroup) (rest : List ℕ)
      (rounds : ℕ) (st : S)
      → IsI64 first
      → All IsGroup gs
      → count gs ≤ num
      → IsU64 num
      → length gs < rounds
      → ((r o a : ℕ) (st' : S)
          → packed_groups apply true (suc r) num (count gs) (at rest o a) st' ≡ last st')
      → process_packed apply true rounds (encode_numbered num first gs rest) st
        ≡ ending last (apply_all apply (expand first gs) st)
  unfolding process_packed encode_numbered expand
  process_packed-encode_numbered last num first gs rest rounds st fits all few short enough end =
      let (b, bs, e) = uleb-cons num in
      let tail = sleb 9 first ++ encode_groups gs rest in
      rw e (
        subst
          (λ l.
            process_stream apply true rounds (l ++ tail) st
            ≡ ending last (apply_all apply (expand first gs) st))
          e (process_stream-encode last num first gs rest rounds st fits all few short enough end))

  -- A stream that encodes groups of relocations with addends is relocated as if each relocation
  -- were given by itself, one after the other, with one round for each group and one more; what
  -- follows the stream does not matter.
  pub process_packed-encode_stream :
      (first : ℤ) (gs : List PackedGroup) (rest : List ℕ) (rounds : ℕ) (st : S)
      → IsI64 first
      → All IsGroup gs
      → IsU64 (count gs)
      → length gs < rounds
      → process_packed apply true rounds (encode_stream first gs rest) st
        ≡ ending done (apply_all apply (expand first gs) st)
  unfolding encode_stream
  process_packed-encode_stream first gs rest rounds st fits all short enough =
      process_packed-encode_numbered done (count gs) first gs rest rounds st fits all (omega arith)
        short enough
        (λ r o a st'.
          packed_groups_end apply (count gs) r (count gs) (at rest o a) st' (omega arith))

  -- At the end of the bytes each further group is empty.
  exhausted :
      (rounds num i offset addend : ℕ) (st : S)
      → i < num
      → IsU64 num
      → packed_groups apply true rounds num i (at [] offset addend) st ≡ endless
  unfolding packed_groups next_group next_unsigned decode_unsigned has_flag
  exhausted zero num i offset addend st h fits = refl
  exhausted (suc rounds) num i offset addend st h fits =
      let same : u64 (i + 0) ≡ i = omega (arith, h, fits) in
      packed_groups_step apply num rounds i (at [] offset addend) st (ground (arith, h))
      ∙ ap (λ j. packed_groups apply true rounds num j (at [] offset 0) st) same
      ∙ exhausted rounds num i offset 0 st h fits

  -- A stream whose header counts more relocations than its groups hold, and which ends behind its
  -- groups, is never finished: when its relocations are done, the loop goes on with empty groups
  -- for as many rounds as it is given, unless a relocation stops it.
  pub process_packed_truncated :
      (num : ℕ) (first : ℤ) (gs : List PackedGroup) (rounds : ℕ) (st : S)
      → IsI64 first
      → All IsGroup gs
      → count gs < num
      → IsU64 num
      → length gs < rounds
      → process_packed apply true rounds (encode_numbered num first gs []) st
        ≡ ending (λ st'. endless) (apply_all apply (expand first gs) st)
  process_packed_truncated num first gs rounds st fits all more short enough =
      process_packed-encode_numbered (λ st'. endless) num first gs [] rounds st fits all
        (omega (arith, more)) short enough
        (λ r o a st'. exhausted (suc r) num (count gs) o a st' more short)

-- ===== src/Sleb128/Bounds.antt =====
-- How far the decoders go on arbitrary bytes: ten at most, and never past the end.
use so_load.Base.{
  ℕ, suc, ◌+◌, ◌-◌, ◌*◌, ◌^◌, ◌≤◌, ◌<◌, ◌≡◌, refl, inl, inr, List, [], ◌∷◌, Option, none, some,
  length, arith, leb, leb→le, Bool-cases, ◌==◌, false,
}
use native.Mathlib.Nat.{one-le-pow}
use so_load.Base.Words.{u64, ◌<<<◌, IsU64}
use so_load.Base.Bits.{bit_or-small}
use so_load.Base.{bit_and, bit_or}
use so_load.Sleb128.{
  Sleb128Decoder, Groups, truncated, overlong, complete, read_groups, sign_extend, finish, decode,
  decode_unsigned,
}

-- What a run of the loop from `n` bytes, with `j` groups behind it, may come to.
abbrev Reads : ℕ → ℕ → Groups → Type 0
Reads n j truncated = n + j ≤ 10
Reads n j overlong = 10 < n + j
Reads n j (complete value shift byte rest) =
    IsU64 value × (length rest < n) × (n + j ≤ length rest + 10)

or_small : (value b s : ℕ) → IsU64 value → IsU64 (bit_or value (u64 (bit_and b 0x7f <<< s)))
or_small value b s v = bit_or-small 64 value _ v (omega arith)

not_full : (s : ℕ) → leb 64 s ≡ false → s < 64
not_full s e = ground arith

Reads-suc : (n j : ℕ) (g : Groups) → Reads n (j + 1) g → Reads (suc n) j g
Reads-suc n j truncated r = omega arith
Reads-suc n j overlong r = omega arith
Reads-suc n j (complete value shift byte rest) r = omega arith

read_groups-Reads :
    (bs : List ℕ) (value s j : ℕ)
    → s ≡ 7 * j
    → j ≤ 10
    → IsU64 value
    → Reads (length bs) j (read_groups bs value s)
unfolding read_groups
read_groups-Reads [] value s j e h v = omega arith
read_groups-Reads (b ∷ bs) value s j e h v = elim (Bool-cases (leb 64 s)) [
  | inl full ↦ rw full (omega (arith, leb→le 64 s full))
  | inr room ↦ elim (Bool-cases (bit_and b 0x80 == 0)) [
    | inl final ↦
        rw (room, final) (or_small value b s v, omega arith, omega (arith, not_full s room))
    | inr more ↦
        rw (room, more)
          (Reads-suc _ j _ (
            read_groups-Reads bs _ (s + 7) (j + 1) (omega arith) (omega (arith, not_full s room))
              (or_small value b s v)))
  ]
]

-- A value that is answered fits 64 bits. The bytes that are left are fewer, unless there were
-- none, and at most ten were taken.
abbrev pub Takes : List ℕ → Option (ℕ × Sleb128Decoder) → Type 0
Takes bs none = 10 < length bs
Takes bs (some (v, d)) =
    IsU64 v × (length d.current ≤ length bs - 1) × (length bs ≤ length d.current + 10)

finish-Takes :
    (adjust : ℕ → ℕ → ℕ → ℕ)
    → ((value shift byte : ℕ) → IsU64 value → IsU64 (adjust value shift byte))
    → (bs : List ℕ) (g : Groups) → Reads (length bs) 0 g
    → Takes bs (finish adjust g)
unfolding finish
finish-Takes adjust keep bs truncated r = omega arith
finish-Takes adjust keep bs overlong r = omega arith
finish-Takes adjust keep bs (complete value shift byte rest) (v, less, few) =
    (keep value shift byte v, omega arith, omega arith)

sign_extend-small : (value shift byte : ℕ) → IsU64 value → IsU64 (sign_extend value shift byte)
unfolding sign_extend
sign_extend-small value shift byte v =
    ground (arith, bit_or-small 64 value (2 ^ 64 - 2 ^ shift) v, one-le-pow shift 2)

-- With the signed shifts and the negation of the decoder taken modulo 2 ^ 64, on any bytes both
-- decoders answer a 64-bit value after taking at most ten bytes, and at least one where there is
-- one, or, on more than ten bytes only, shift by 64 bits or more, which is `none`.
pub decode-Takes :
    (d : Sleb128Decoder) → Takes d.current (decode d) × Takes d.current (decode_unsigned d)
unfolding decode decode_unsigned
decode-Takes d =
    let reads = read_groups-Reads d.current 0 0 0 refl (omega arith) (omega arith) in
    (
      finish-Takes sign_extend sign_extend-small d.current _ reads,
      finish-Takes _ (λ value shift byte v. v) d.current _ reads,
    )

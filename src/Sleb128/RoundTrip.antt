-- ===== src/Sleb128/RoundTrip.antt =====
-- The decoders read back what the reference encodings write.
use native.Mathlib.Nat.{pow-suc}
use so_load.Base.{
  ℕ, zero, suc, ◌+◌, ◌-◌, ◌*◌, ◌/◌, ◌%◌, ◌^◌, ◌≤◌, ◌<◌, ◌≡◌, refl, inl, inr, List, [], ◌∷◌, ◌++◌,
  some, length, arith, ltb, Bool-cases, tests,
}
use so_load.Base.Words.{IsU64}
use so_load.Base.Bits.{pow_add}
use so_load.Base.Int.{ℤ, pos, negsuc, pattern64, IsI64}
use so_load.Sleb128.{decode, decode_unsigned}
use so_load.Sleb128.Spec.{IsNumeral, payload, last_byte, uleb, sleb}
use so_load.Sleb128.Total.{decode_unsigned_numeral, decode_numeral, pow_mono}

IsNumeral-cons : (b : ℕ) (bs : List ℕ) → 128 ≤ b → b < 256 → IsNumeral bs → IsNumeral (b ∷ bs)
IsNumeral-cons b [] lo hi w = elim w [ ]
IsNumeral-cons b (c ∷ bs) lo hi w = (lo, hi, w)

last_byte-cons : (b : ℕ) (bs : List ℕ) → IsNumeral bs → last_byte (b ∷ bs) ≡ last_byte bs
last_byte-cons b [] w = elim w [ ]
last_byte-cons b (c ∷ bs) w = refl

-- The reference encoding of `n` is a numeral that stands for `n`.
uleb-IsNumeral :
    (k n : ℕ)
    → n < 128 ^ suc k
    → IsNumeral (uleb k n) × (length (uleb k n) ≤ suc k) × (payload (uleb k n) ≡ n)
unfolding uleb payload
uleb-IsNumeral zero n h = (omega arith, omega arith, omega arith)
uleb-IsNumeral (suc k) n h =
    let (shape, short, value) = uleb-IsNumeral k (n / 128) (omega (arith, pow-suc 128 (suc k))) in
    ground (arith, IsNumeral-cons (128 + n % 128) (uleb k (n / 128)) (omega arith) (omega arith))

-- `decodeUnsigned` reads back every uint64_t, and leaves what follows its encoding.
pub decode_unsigned-uleb :
    (n : ℕ) (rest : List ℕ)
    → IsU64 n
    → decode_unsigned (record { current = uleb 9 n ++ rest }) ≡ some (n, record { current = rest })
decode_unsigned-uleb n rest h =
    let (shape, short, value) = uleb-IsNumeral 9 n (omega arith) in
    ground (arith, decode_unsigned_numeral (uleb 9 n) rest shape short)

-- The reference encoding of a signed number: its groups, and the sign in the last byte.
abbrev Signed : ℤ → List ℕ → Type 0
Signed (pos n) bs = (payload bs ≡ n) × (last_byte bs < 64)
Signed (negsuc n) bs = (payload bs + n + 1 ≡ 2 ^ (7 * length bs)) × (64 ≤ last_byte bs)

abbrev magnitude : ℤ → ℕ
magnitude (pos n) = n
magnitude (negsuc n) = n

pow_seven : (n : ℕ) → 2 ^ (7 * suc n) ≡ 128 * 2 ^ (7 * n)
pow_seven n = let e : 7 * suc n ≡ 7 * n + 7 = omega arith in rw e (omega (arith, pow_add (7 * n) 7))

Signed-cons_pos :
    (n : ℕ) (bs : List ℕ)
    → IsNumeral bs
    → Signed (pos (n / 128)) bs
    → Signed (pos n) ((128 + n % 128) ∷ bs)
unfolding payload
Signed-cons_pos n bs w (value, sign) = (omega arith, rw (last_byte-cons (128 + n % 128) bs w) sign)

Signed-cons_negsuc :
    (n : ℕ) (bs : List ℕ)
    → IsNumeral bs
    → Signed (negsuc (n / 128)) bs
    → Signed (negsuc n) ((255 - n % 128) ∷ bs)
unfolding payload
Signed-cons_negsuc n bs w (value, sign) =
    (omega (arith, pow_seven (length bs)), rw (last_byte-cons (255 - n % 128) bs w) sign)

sleb-Signed :
    (k : ℕ) (z : ℤ)
    → magnitude z < 64 * 128 ^ k
    → IsNumeral (sleb k z) × (length (sleb k z) ≤ suc k) × Signed z (sleb k z)
unfolding sleb payload
sleb-Signed zero (pos n) h = (omega arith, omega arith, (omega arith, omega arith))
sleb-Signed zero (negsuc n) h = (omega arith, omega arith, (omega arith, omega arith))
sleb-Signed (suc k) (pos n) h = elim (Bool-cases (ltb n 64)) [
  | inl small ↦ rw small (omega tests, omega arith, (omega tests, omega tests))
  | inr large ↦
      let (shape, short, signed) = sleb-Signed k (pos (n / 128)) (omega (arith, pow-suc 128 k)) in
      rw large (
        IsNumeral-cons (128 + n % 128) _ (omega arith) (omega arith) shape,
        omega arith,
        Signed-cons_pos n _ shape signed,
      )
]
sleb-Signed (suc k) (negsuc n) h = elim (Bool-cases (ltb n 64)) [
  | inl small ↦ rw small (omega tests, omega arith, (omega tests, omega tests))
  | inr large ↦
      let (shape, short, signed) =
        sleb-Signed k (negsuc (n / 128)) (omega (arith, pow-suc 128 k)) in
      rw large (
        IsNumeral-cons (255 - n % 128) _ (omega arith) (omega arith) shape,
        omega arith,
        Signed-cons_negsuc n _ shape signed,
      )
]

-- `decode` reads back every int64_t as its bit pattern, and leaves what follows its encoding.
pub decode-sleb :
    (z : ℤ) (rest : List ℕ)
    → IsI64 z
    → decode (record { current = sleb 9 z ++ rest }) ≡ some (pattern64 z, record { current = rest })
decode-sleb (pos n) rest h =
    let (shape, short, (value, sign)) = sleb-Signed 9 (pos n) (omega arith) in
    ground (arith, decode_numeral (sleb 9 (pos n)) rest shape short)
decode-sleb (negsuc n) rest h =
    let bs = sleb 9 (negsuc n) in
    let (shape, short, (value, sign)) = sleb-Signed 9 (negsuc n) (omega arith) in
    ground (arith, decode_numeral bs rest shape short, pow_mono (7 * length bs) 70)

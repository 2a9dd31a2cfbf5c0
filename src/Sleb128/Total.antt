-- ===== src/Sleb128/Total.antt =====
-- What the decoders do on any bytes: the value of a complete number, the bytes that they take.
use native.Mathlib.Nat.{one-le-pow, add-mod, mod-lt, mod-eq_of_lt, pow-le-pow_right}
use so_load.Base.{
  ℕ, suc, ◌+◌, ◌-◌, ◌*◌, ◌/◌, ◌%◌, ◌^◌, ◌≤◌, ◌<◌, ◌≡◌, refl, ap, ◌∙◌, List, [], ◌∷◌, ◌++◌, some,
  length, arith, bit_and, bit_or, ltb, if◌then◌else◌,
}
use native.Mathlib.Decide.{dec_le}
use so_load.Base.Words.{u64, ◌<<<◌}
use so_load.Base.Bits.{bit_and_low, bit_and_high, bit_or_above, mod-shift, mul-mod-mul, pow_add}
use so_load.Sleb128.{complete, read_groups, sign_extend, decode, decode_unsigned}
use so_load.Sleb128.Spec.{IsNumeral, payload, last_byte}

-- The three masks on a byte, as arithmetic.
pub group_bits : (b : ℕ) → bit_and b 0x7f ≡ b % 128
group_bits b = bit_and_low 7 b

pub top_bit : (b : ℕ) → bit_and b 0x80 ≡ b / 128 % 2 * 128
top_bit b = bit_and_high 7 b 1 ∙ ap (λ (t : ℕ). t * 128) (bit_and_low 1 (b / 128))

pub sign_bit : (b : ℕ) → bit_and b 0x40 ≡ b / 64 % 2 * 64
sign_bit b = bit_and_high 6 b 1 ∙ ap (λ (t : ℕ). t * 64) (bit_and_low 1 (b / 64))

-- The groups below bit `s` and one more: the word has `t` bits left.
or_group :
    (s t value b : ℕ)
    → t + s ≡ 64
    → value < 2 ^ s
    → bit_or value (u64 (bit_and b 0x7f <<< s)) ≡ value + b % 128 % 2 ^ t * 2 ^ s
or_group s t value b e h = ground (
  arith,
  group_bits b,
  ap (λ (w : ℕ). b % 128 * 2 ^ s % 2 ^ w) e,
  mod-shift s t (b % 128),
  bit_or_above s value (b % 128 % 2 ^ t),
)

read_last :
    (b : ℕ) (rest : List ℕ) (value s t : ℕ)
    → t + s ≡ 64
    → s < 64
    → value < 2 ^ s
    → b < 128
    → read_groups (b ∷ rest) value s ≡ complete (value + b % 2 ^ t * 2 ^ s) (s + 7) b rest
unfolding read_groups
read_last b rest value s t e h v p = ground (arith, or_group s t value b e v, top_bit b)

read_inner :
    (b : ℕ) (rest : List ℕ) (value s t : ℕ)
    → t + s ≡ 64
    → s < 64
    → value < 2 ^ s
    → 128 ≤ b
    → b < 256
    → read_groups (b ∷ rest) value s ≡ read_groups rest (value + b % 128 % 2 ^ t * 2 ^ s) (s + 7)
unfolding read_groups
read_inner b rest value s t e h v p q = ground (arith, or_group s t value b e v, top_bit b)

-- What is read so far stays below the next bit.
group_fits : (b u : ℕ) → b < 128 → b % 2 ^ (u + 7) ≡ b
group_fits b u h = mod-eq_of_lt (omega (arith, pow_add u 7, one-le-pow u 2 (omega arith)))

next_bound : (value b s : ℕ) → value < 2 ^ s → b < 128 → value + b * 2 ^ s < 2 ^ (s + 7)
next_bound value b s v p = grind (arith, pow_add s 7)

-- One group off the front of the payload.
payload_step :
    (value b p s u : ℕ)
    → b < 128
    → value + b * 2 ^ s + p % 2 ^ u * 2 ^ (s + 7) ≡ value + (b + 128 * p) % 2 ^ (u + 7) * 2 ^ s
payload_step value b p s u h = omega (
  arith,
  pow_add u 7,
  ap (λ (w : ℕ). p % 2 ^ u * w) (pow_add s 7),
  ap (λ (w : ℕ). w * 2 ^ s) split,
)
  where
    split : (b + 128 * p) % 2 ^ (u + 7) ≡ b + p % 2 ^ u * 128
    split = ground (
      arith,
      pow_add u 7,
      mul-mod-mul p (2 ^ u) 128,
      one-le-pow u 2,
      mod-lt p {m = 2 ^ u},
      add-mod b (p * 128) (2 ^ u * 128),
      mod-eq_of_lt {n = b + p % 2 ^ u * 128} {m = 2 ^ u * 128},
      mod-eq_of_lt {n = b} {m = 2 ^ u * 128},
    )

-- A complete numeral of at most ten bytes, wherever it starts.
read_numeral :
    (bs rest : List ℕ) (value s t j : ℕ)
    → t + s ≡ 64
    → s ≡ 7 * j
    → j + length bs ≤ 10
    → value < 2 ^ s
    → IsNumeral bs
    → read_groups (bs ++ rest) value s
      ≡ complete (value + payload bs % 2 ^ t * 2 ^ s) (s + 7 * length bs) (last_byte bs) rest
unfolding payload
read_numeral [] rest value s t j e ej hj v w = elim w [ ]
read_numeral (b ∷ []) rest value s t j e ej hj v w =
    ground (arith, read_last b rest value s t e (omega arith) v w)
read_numeral (b ∷ c ∷ bs) rest value s t j e ej hj v (lo, hi, w) =
    let u = t - 7 in
    let g = b % 128 in
    ground (
      arith,
      read_inner b (c ∷ bs ++ rest) value s t e (omega arith) v lo hi,
      group_fits g u,
      next_bound value g s v,
      payload_step value g (payload (c ∷ bs)) s u,
      read_numeral (c ∷ bs) rest (value + g * 2 ^ s) (s + 7) u (j + 1) (omega arith) (omega arith),
    )

pub payload_bound : (bs : List ℕ) → payload bs < 2 ^ (7 * length bs)
unfolding payload
payload_bound [] = omega arith
payload_bound (b ∷ bs) = ground (
  arith,
  payload_bound bs,
  pow_add (7 * length bs) 7,
  ap (λ (w : ℕ). 2 ^ w) (let e : 7 * suc (length bs) ≡ 7 * length bs + 7 = omega arith in e),
)

pub last_byte_small : (bs : List ℕ) → IsNumeral bs → last_byte bs < 128
last_byte_small [] w = elim w [ ]
last_byte_small (b ∷ []) w = w
last_byte_small (b ∷ c ∷ bs) (lo, hi, w) = last_byte_small (c ∷ bs) w

-- A complete ULEB128 number of at most ten bytes is read as its value modulo 2 ^ 64, and what
-- follows it is left alone.
pub decode_unsigned_numeral :
    (bs rest : List ℕ)
    → IsNumeral bs
    → length bs ≤ 10
    → decode_unsigned (record { current = bs ++ rest })
      ≡ some (payload bs % 2 ^ 64, record { current = rest })
unfolding decode_unsigned
decode_unsigned_numeral bs rest w h =
    ground (arith, read_numeral bs rest 0 0 64 0 refl refl (omega arith) (omega arith) w)

-- The two's complement reading of a signed number of at most ten groups.
abbrev pub signed_payload : List ℕ → ℕ
signed_payload bs =
    (payload bs + (if ltb (last_byte bs) 64 then 0 else 2 ^ 70 - 2 ^ (7 * length bs))) % 2 ^ 64

pub pow_mono : (s t : ℕ) → s ≤ t → 2 ^ s ≤ 2 ^ t
pow_mono s t h = pow-le-pow_right (omega arith) h

-- The ones from bit `s` up.
or_ones :
    (value s t : ℕ)
    → t + s ≡ 64
    → value < 2 ^ s
    → bit_or value (2 ^ 64 - 2 ^ s) ≡ value + (2 ^ 64 - 2 ^ s)
or_ones value s t e h =
    let whole : 2 ^ t ≡ 2 ^ t - 1 + 1 = omega (arith, one-le-pow t 2 (omega arith)) in
    ground (
      arith,
      bit_or_above s value (2 ^ t - 1) h,
      pow_add t s,
      ap (λ (w : ℕ). 2 ^ w) e,
      ap (λ (w : ℕ). w * 2 ^ s) whole,
    )

sign_extend_lem :
    (value n byte : ℕ)
    → n ≤ 9
    → value < 2 ^ (7 * n)
    → byte < 128
    → sign_extend value (7 * n) byte
      ≡ (value + (if ltb byte 64 then 0 else 2 ^ 70 - 2 ^ (7 * n))) % 2 ^ 64
unfolding sign_extend
sign_extend_lem value n byte h v p =
    ground (
      arith,
      sign_bit byte,
      or_ones value (7 * n) (64 - 7 * n) (omega arith) v,
      pow_mono (7 * n) 63,
    )

sign_extend_ten : (value byte : ℕ) → sign_extend value 70 byte ≡ value
unfolding sign_extend
sign_extend_ten value byte = refl

-- A complete SLEB128 number of at most ten bytes is read as its two's complement pattern.
pub decode_numeral :
    (bs rest : List ℕ)
    → IsNumeral bs
    → length bs ≤ 10
    → decode (record { current = bs ++ rest }) ≡ some (signed_payload bs, record { current = rest })
unfolding decode
decode_numeral bs rest w h = elim (dec_le (length bs) 9) [
  | yes short ↦ ground (
    arith,
    read_numeral bs rest 0 0 64 0 refl refl (omega arith) (omega arith) w,
    payload_bound bs,
    pow_mono (7 * length bs) 63,
    last_byte_small bs w,
    sign_extend_lem (payload bs) (length bs) (last_byte bs) short,
  )
  | no long ↦
      let ten : length bs ≡ 10 = omega arith in
      ground (
        arith,
        read_numeral bs rest 0 0 64 0 refl refl (omega arith) (omega arith) w,
        ap (λ (n : ℕ). 7 * n) ten,
        ap (λ (n : ℕ). 2 ^ (7 * n)) ten,
        sign_extend_ten (payload bs % 2 ^ 64) (last_byte bs),
      )
]

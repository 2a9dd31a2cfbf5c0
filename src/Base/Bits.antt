-- ===== src/Base/Bits.antt =====
-- Laws of `&`, `|` and `^` at variables: one binary digit at a time, then split at any bit.
use Prim.Native.Nat.{
  ℕ, zero, suc, ◌+◌, ◌-◌, ◌*◌, ◌/◌, ◌%◌, ◌^◌, ◌≤◌, ◌<◌, min, max, bit_and, bit_or, bit_xor, digits,
  differ, bitwise, bit_and-bitwise, bit_or-bitwise, bit_xor-bitwise,
}
use mathlib.Core.Path.{◌≡◌, refl, ap, ◌∙◌}
use native.Mathlib.Omega.{arith}
use native.Mathlib.Nat.{
  pow-suc, one-le-pow, add-suc, mod-eq-sub-div-mul, mul-div-mul_right, div-add-mod', mod-lt,
  mod-eq_of_lt, div-lt_iff_lt-mul,
}

-- The count of digits to go does not matter once it is no smaller than the first operand.
module _ (end : ℕ → ℕ) (on_digit : ℕ → ℕ → ℕ) where
  count_free :
      (x i : ℕ)
      → x ≤ i
      → (j : ℕ) → x ≤ j
      → (y : ℕ) → digits end on_digit i x y ≡ digits end on_digit j x y
  count_free zero zero hi zero hj y = refl
  count_free zero zero hi (suc j) hj y = refl
  count_free zero (suc i) hi zero hj y = refl
  count_free zero (suc i) hi (suc j) hj y = refl
  count_free (suc x) zero hi j hj y = absurd (omega arith)
  count_free (suc x) (suc i) hi zero hj y = absurd (omega arith)
  count_free (suc x) (suc i) hi (suc j) hj y =
      ap (λ (w : ℕ). w * 2 + on_digit (suc x % 2) (y % 2))
        (count_free (suc x / 2) i (omega arith) j (omega arith) (y / 2))

  first_digit :
      (x y : ℕ)
      → bitwise end on_digit (suc x) y
        ≡ bitwise end on_digit (suc x / 2) (y / 2) * 2 + on_digit (suc x % 2) (y % 2)
  first_digit x y =
      let half : suc x / 2 ≤ x = omega arith in
      ap (λ (w : ℕ). w * 2 + on_digit (suc x % 2) (y % 2))
        (count_free (suc x / 2) x half (suc x / 2) (omega arith) (y / 2))

-- Each operation, one digit at a time.
abbrev HalvesBy : (ℕ → ℕ → ℕ) → (ℕ → ℕ → ℕ) → Type 0
HalvesBy op digit = (x y : ℕ) → op x y ≡ op (x / 2) (y / 2) * 2 + digit (x % 2) (y % 2)

differ_lem : (a b : ℕ) → a < 2 → b < 2 → differ a b ≡ (a + b) % 2
differ_lem zero b p q = omega arith
differ_lem (suc zero) zero p q = refl
differ_lem (suc zero) (suc zero) p q = refl
differ_lem (suc zero) (suc (suc b)) p q = absurd (omega arith)
differ_lem (suc (suc a)) b p q = absurd (omega arith)

pub bit_and_step : HalvesBy bit_and min
bit_and_step = elim [
  | zero ↦ λ y. rw (bit_and-bitwise 0 y, bit_and-bitwise 0 (y / 2)) (omega arith)
  | suc x ↦ λ y. simp bit_and-bitwise (first_digit (λ d. 0) min x y)
]

pub bit_or_step : HalvesBy bit_or max
bit_or_step = elim [
  | zero ↦ λ y. rw (bit_or-bitwise 0 y, bit_or-bitwise 0 (y / 2)) (omega arith)
  | suc x ↦ λ y. simp bit_or-bitwise (first_digit (λ d. d) max x y)
]

unfoldable pub xor_digit : ℕ → ℕ → ℕ
xor_digit a b = (a + b) % 2

pub bit_xor_step : HalvesBy bit_xor xor_digit
unfolding xor_digit
bit_xor_step = elim [
  | zero ↦ λ y. rw (bit_xor-bitwise 0 y, bit_xor-bitwise 0 (y / 2)) (omega arith)
  | suc x ↦ λ y. simp bit_xor-bitwise (
      omega (
        arith,
        first_digit (λ d. d) differ x y,
        differ_lem (suc x % 2) (y % 2) (omega arith) (omega arith),
      ))
]

double_pow : (a k : ℕ) → a * 2 ^ suc k ≡ 2 * (a * 2 ^ k)
double_pow a k = omega (arith, ap (λ (t : ℕ). a * t) (pow-suc 2 k))

-- An operation that works digit by digit works on the two halves of a split at bit `k` alone.
module _ (op : ℕ → ℕ → ℕ) (digit : ℕ → ℕ → ℕ) (step : HalvesBy op digit)
    (digit_small : (a b : ℕ) → a < 2 → b < 2 → digit a b < 2) (digit_zero : digit 0 0 ≡ 0) where
  op_zero : op 0 0 ≡ 0
  op_zero = omega (arith, step 0 0, digit_zero)

  split_op :
      (k a x b y : ℕ)
      → x < 2 ^ k
      → y < 2 ^ k
      → op (a * 2 ^ k + x) (b * 2 ^ k + y) ≡ op a b * 2 ^ k + op x y
  split_op zero a x b y p q = ground (arith, op_zero)
  split_op (suc k) a x b y p q = ground (
    arith,
    step (a * 2 ^ suc k + x) (b * 2 ^ suc k + y),
    step x y,
    double_pow a k,
    double_pow b k,
    double_pow (op a b) k,
    split_op k a (x / 2) b (y / 2) (omega arith) (omega arith),
  )

  op_small : (k x y : ℕ) → x < 2 ^ k → y < 2 ^ k → op x y < 2 ^ k
  op_small zero x y p q = ground (arith, op_zero)
  op_small (suc k) x y p q = omega (
    arith,
    pow-suc 2 k,
    step x y,
    digit_small (x % 2) (y % 2) (omega arith) (omega arith),
    op_small k (x / 2) (y / 2) (omega arith) (omega arith),
  )

pub split-bit_and :
    (k a x b y : ℕ)
    → x < 2 ^ k
    → y < 2 ^ k
    → bit_and (a * 2 ^ k + x) (b * 2 ^ k + y) ≡ bit_and a b * 2 ^ k + bit_and x y
split-bit_and = split_op bit_and min bit_and_step (λ a b p q. omega arith) refl

pub split-bit_or :
    (k a x b y : ℕ)
    → x < 2 ^ k
    → y < 2 ^ k
    → bit_or (a * 2 ^ k + x) (b * 2 ^ k + y) ≡ bit_or a b * 2 ^ k + bit_or x y
split-bit_or = split_op bit_or max bit_or_step (λ a b p q. omega arith) refl

pub split-bit_xor :
    (k a x b y : ℕ)
    → x < 2 ^ k
    → y < 2 ^ k
    → bit_xor (a * 2 ^ k + x) (b * 2 ^ k + y) ≡ bit_xor a b * 2 ^ k + bit_xor x y
unfolding xor_digit
split-bit_xor = split_op bit_xor xor_digit bit_xor_step (λ a b p q. omega arith) refl

pub bit_xor-small : (k x y : ℕ) → x < 2 ^ k → y < 2 ^ k → bit_xor x y < 2 ^ k
unfolding xor_digit
bit_xor-small = op_small bit_xor xor_digit bit_xor_step (λ a b p q. omega arith) refl

pub bit_or-small : (k x y : ℕ) → x < 2 ^ k → y < 2 ^ k → bit_or x y < 2 ^ k
bit_or-small = op_small bit_or max bit_or_step (λ a b p q. omega arith) refl

pub zero-bit_or : (b : ℕ) → bit_or 0 b ≡ b
zero-bit_or b = bit_or-bitwise 0 b

pub zero-bit_and : (b : ℕ) → bit_and 0 b ≡ 0
zero-bit_and b = bit_and-bitwise 0 b

-- By induction on a bound, since the step goes from `a / 2` to `a`.
bit_or-zero_below : (n a : ℕ) → a ≤ n → bit_or a 0 ≡ a
bit_or-zero_below n zero h = refl
bit_or-zero_below zero (suc a) h = absurd (omega arith)
bit_or-zero_below (suc n) (suc a) h =
    omega (arith, bit_or_step (suc a) 0, bit_or-zero_below n (suc a / 2) (omega arith))

bit_and-zero_below : (n a : ℕ) → a ≤ n → bit_and a 0 ≡ 0
bit_and-zero_below n zero h = refl
bit_and-zero_below zero (suc a) h = absurd (omega arith)
bit_and-zero_below (suc n) (suc a) h =
    omega (arith, bit_and_step (suc a) 0, bit_and-zero_below n (suc a / 2) (omega arith))

pub bit_or-zero : (a : ℕ) → bit_or a 0 ≡ a
bit_or-zero a = bit_or-zero_below a a (omega arith)

pub bit_and-zero : (a : ℕ) → bit_and a 0 ≡ 0
bit_and-zero a = bit_and-zero_below a a (omega arith)

-- `x | (b << k)` is a sum when `x` fits below bit `k`.
pub bit_or_above : (k x b : ℕ) → x < 2 ^ k → bit_or x (b * 2 ^ k) ≡ x + b * 2 ^ k
bit_or_above k x b p =
    ground
      (arith, split-bit_or k 0 x b 0 p (one-le-pow k 2 (omega arith)), zero-bit_or b, bit_or-zero x)

-- A mask of `k` ones takes the remainder.
bit_and-ones : (k x : ℕ) → x < 2 ^ k → bit_and x (2 ^ k - 1) ≡ x
bit_and-ones zero x p = ground (arith, zero-bit_and 0)
bit_and-ones (suc k) x p =
    ground
      (arith, pow-suc 2 k, one-le-pow k 2, bit_and_step x (2 ^ suc k - 1), bit_and-ones k (x / 2))

pub bit_and_low : (k a : ℕ) → bit_and a (2 ^ k - 1) ≡ a % 2 ^ k
bit_and_low k a = ground (
  arith,
  one-le-pow k 2,
  split-bit_and k (a / 2 ^ k) (a % 2 ^ k) 0 (2 ^ k - 1),
  bit_and-zero (a / 2 ^ k),
  bit_and-ones k (a % 2 ^ k),
)

-- A mask that is clear below bit `k` drops those bits.
pub bit_and_high : (k a c : ℕ) → bit_and a (c * 2 ^ k) ≡ bit_and (a / 2 ^ k) c * 2 ^ k
bit_and_high k a c =
    ground
      (arith, one-le-pow k 2, split-bit_and k (a / 2 ^ k) (a % 2 ^ k) c 0, bit_and-zero (a % 2 ^ k))

pub pow_add : (s t : ℕ) → 2 ^ (s + t) ≡ 2 ^ s * 2 ^ t
pow_add s zero = ground arith
pow_add s (suc t) =
    ground (arith, double_pow (2 ^ s) t, pow_add s t, pow-suc 2 (s + t), add-suc s t)

-- A common factor of both sides of `%`.
pub mul-mod-mul : (a m k : ℕ) → 0 < k → a * k % (m * k) ≡ a % m * k
mul-mod-mul a m k h = ground (
  arith,
  mod-eq-sub-div-mul (a * k) (m * k),
  mul-div-mul_right a m h,
  ap (λ (t : ℕ). t * k) (div-add-mod' a m),
)

-- A shifted value cut at the width `t + s`.
pub mod-shift : (s t a : ℕ) → a * 2 ^ s % 2 ^ (t + s) ≡ a % 2 ^ t * 2 ^ s
mod-shift s t a = rw (pow_add t s) (mul-mod-mul a (2 ^ t) (2 ^ s) (one-le-pow s 2 (omega arith)))

-- `a & ~(2 ^ k - 1)` on a word of 64 bits rounds down to a multiple of 2 ^ k.
pub bit_and_round : (k a : ℕ) → k ≤ 64 → a < 2 ^ 64 → bit_and a (2 ^ 64 - 2 ^ k) ≡ a / 2 ^ k * 2 ^ k
bit_and_round k a h p =
    let t = 64 - k in
    let width : 2 ^ 64 ≡ 2 ^ t * 2 ^ k =
      ap (λ (w : ℕ). 2 ^ w) (let e : 64 ≡ t + k = omega arith in e) ∙ pow_add t k in
    let ones : 2 ^ t ≡ 2 ^ t - 1 + 1 = omega (arith, one-le-pow t 2 (omega arith)) in
    let small : a / 2 ^ k < 2 ^ t =
      (div-lt_iff_lt-mul {k = 2 ^ k} {x = a} {y = 2 ^ t} (one-le-pow k 2 (omega arith))).1
        (omega arith) in
    ground (
      arith,
      width,
      ap (λ (w : ℕ). w * 2 ^ k) ones,
      bit_and_high k a (2 ^ t - 1),
      bit_and_low t (a / 2 ^ k),
      mod-eq_of_lt small,
    )

-- Rounding up by the same mask.
pub round_up_bounds :
    (k size : ℕ)
    → (size ≤ (size + (2 ^ k - 1)) / 2 ^ k * 2 ^ k)
      × ((size + (2 ^ k - 1)) / 2 ^ k * 2 ^ k ≤ size + (2 ^ k - 1))
round_up_bounds k size = omega (
  arith,
  one-le-pow k 2 (omega arith),
  div-add-mod' (size + (2 ^ k - 1)) (2 ^ k),
  mod-lt (size + (2 ^ k - 1)) (one-le-pow k 2 (omega arith)),
)

pub one_le_pow : (k : ℕ) → 1 ≤ 2 ^ k
one_le_pow k = one-le-pow k 2 (omega arith)

bit_xor-zero_below : (n a : ℕ) → a ≤ n → bit_xor a 0 ≡ a
unfolding xor_digit
bit_xor-zero_below n zero h = refl
bit_xor-zero_below zero (suc a) h = absurd (omega arith)
bit_xor-zero_below (suc n) (suc a) h =
    omega (arith, bit_xor_step (suc a) 0, bit_xor-zero_below n (suc a / 2) (omega arith))

pub bit_xor-zero : (a : ℕ) → bit_xor a 0 ≡ a
bit_xor-zero a = bit_xor-zero_below a a (omega arith)

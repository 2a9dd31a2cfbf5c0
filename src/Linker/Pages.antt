-- ===== src/Linker/Pages.antt =====
-- pageStart and pageEnd of src/linker.cpp, on page sizes that are powers of two.
use native.Mathlib.Nat.{div-add-mod', mod-lt, mul-div_left, add-mul, add-mul-div_right}
use so_load.Base.{ℕ, ◌+◌, ◌-◌, ◌*◌, ◌/◌, ◌%◌, ◌^◌, ◌≤◌, ◌<◌, ◌≡◌, bit_and, arith, ap, ◌∙◌}
use so_load.Base.Words.{u64}
use so_load.Base.Bits.{bit_and_round, one_le_pow}

-- addr & ~(pageSize() - 1).
unfoldable pub page_start : ℕ → ℕ → ℕ
page_start page_size addr = bit_and addr (2 ^ 64 - page_size)

unfoldable pub page_end : ℕ → ℕ → ℕ
unfolding page_start
page_end page_size addr = page_start page_size (u64 (addr + (page_size - 1)))

-- Rounding down, as arithmetic.
abbrev pub floor_page : ℕ → ℕ → ℕ
floor_page k a = a / 2 ^ k * 2 ^ k

abbrev pub IsPage : ℕ → ℕ → Type 0
IsPage k a = floor_page k a ≡ a

pub floor_page_bounds :
    (k a : ℕ)
    → (floor_page k a ≤ a) × (a < floor_page k a + 2 ^ k) × (floor_page k a + a % 2 ^ k ≡ a)
floor_page_bounds k a =
    let whole = div-add-mod' a (2 ^ k) in
    let part = mod-lt a {m = 2 ^ k} (one_le_pow k) in
    (omega (arith, whole), omega (arith, whole, part), whole)

pub floor_page_add : (k d a : ℕ) → IsPage k d → floor_page k (d + a) ≡ d + floor_page k a
floor_page_add k d a page =
    let q = d / 2 ^ k in
    let sum : d + a ≡ a + q * 2 ^ k = omega (arith, page) in
    ap (λ (x : ℕ). x / 2 ^ k * 2 ^ k) sum
    ∙ ap (λ (x : ℕ). x * 2 ^ k) (add-mul-div_right a q (one_le_pow k))
    ∙ add-mul (a / 2 ^ k) q (2 ^ k)
    ∙ (omega (arith, page))

pub floor_page-IsPage : (k a : ℕ) → IsPage k (floor_page k a)
floor_page-IsPage k a = ap (λ (q : ℕ). q * 2 ^ k) (mul-div_left (a / 2 ^ k) (one_le_pow k))

pub page_start-floor_page : (k a : ℕ) → k ≤ 64 → a < 2 ^ 64 → page_start (2 ^ k) a ≡ floor_page k a
unfolding page_start
page_start-floor_page k a small fits = bit_and_round k a small fits

pub page_end-floor_page :
    (k a : ℕ) → k ≤ 64 → a + 2 ^ k ≤ 2 ^ 64 → page_end (2 ^ k) a ≡ floor_page k (a + (2 ^ k - 1))
unfolding page_end
page_end-floor_page k a small fits =
    let pos = one_le_pow k in
    let same : u64 (a + (2 ^ k - 1)) ≡ a + (2 ^ k - 1) = omega (arith, fits, pos) in
    ap (page_start (2 ^ k)) same
    ∙ page_start-floor_page k (a + (2 ^ k - 1)) small (omega (arith, fits, pos))

-- ===== src/Linker/Protection/Covered.antt =====
-- The protection of each page after restoreProtections.
use native.Mathlib.Nat.{add-mul, mul-div_left, mul-le-mul_right}
use so_load.Base.{
  ℕ, zero, suc, ◌+◌, ◌*◌, ◌/◌, ◌^◌, ◌≤◌, ◌<◌, ◌≡◌, inl, inr, refl, ap, ◌∙◌, true, false, ◌&&◌, some,
  ltb, leb, if◌then◌else◌, arith, Bool-cases, ltb→lt,
}
use so_load.Base.Words.{u64, sub64}
use so_load.Linker.Segments.{Prot, Space, within, protect_range}
use so_load.Linker.Protection.{or_prot, add_prot, add_pages, is_no_access, protect_pages}

-- The pages are apart.
later_page : (ps i j : ℕ) → i < j → i * ps + ps ≤ j * ps
later_page ps i j h =
    let more = mul-le-mul_right {m = i + 1} {n = j} ps (omega (arith, h)) in
    omega (arith, more, add-mul i 1 ps)

-- The rule for a page: it gets the protection when its address lies in the range.
abbrev pub with_range : ℕ → ℕ → ℕ → ℕ → ℕ → Prot → (ℕ → Prot) → ℕ → Prot
with_range ps start num cur end prot prots i =
    if leb cur (start + i * ps) && ltb (start + i * ps) end && ltb i num
    then or_prot (prots i) prot
    else prots i

module _ (ps start num end : ℕ) (prot : Prot) where
  -- With the first page in the range put apart.
  first_page :
      (a i : ℕ) (prots : ℕ → Prot)
      → 0 < ps
      → start + a * ps < end
      → with_range ps start num
          (start + (a + 1) * ps)
          end
          prot
          (if ltb a num then add_prot a prot prots else prots)
          i
        ≡ with_range ps start num (start + a * ps) end prot prots i
  unfolding add_prot
  first_page a i prots pos inside =
      let next : (a + 1) * ps ≡ a * ps + ps = omega (arith, add-mul a 1 ps) in
      elim (Bool-cases (ltb i a)) [
        | inl before ↦
            let far = later_page ps i a (ltb→lt i a before) in
            ground (arith, before, far, next, pos)
        | inr not_before ↦ elim (Bool-cases (ltb a i)) [
          | inl behind ↦
              let far = later_page ps a i (ltb→lt a i behind) in
              ground (arith, behind, far, next, pos)
          | inr not_behind ↦
              let same : i ≡ a = ground (arith, not_before, not_behind) in
              let place : i * ps ≡ a * ps = ap (λ (x : ℕ). x * ps) same in
              ground (arith, same, place, next, pos, inside)
        ]
      ]

  add_pages_past :
      (n a : ℕ) (prots : ℕ → Prot)
      → ltb (start + a * ps) end ≡ false
      → add_pages ps start num (suc n) prot (start + a * ps) end prots ≡ some prots
  unfolding add_pages
  add_pages_past n a prots past = rw past refl

  add_pages_step :
      (n a : ℕ) (prots : ℕ → Prot)
      → 0 < ps
      → end + ps ≤ 2 ^ 64
      → ltb (start + a * ps) end ≡ true
      → add_pages ps start num (suc n) prot (start + a * ps) end prots
        ≡ add_pages ps start num n prot
            (start + (a + 1) * ps)
            end
            (if ltb a num then add_prot a prot prots else prots)
  unfolding add_pages
  add_pages_step n a prots pos fits more =
      let inside = ltb→lt (start + a * ps) end more in
      let distance : sub64 (start + a * ps) start ≡ a * ps = omega (arith, fits, inside) in
      let idx : sub64 (start + a * ps) start / ps ≡ a =
        ap (λ (x : ℕ). x / ps) distance ∙ mul-div_left a pos in
      let next : u64 (start + a * ps + ps) ≡ start + (a + 1) * ps =
        omega (arith, fits, inside, add-mul a 1 ps) in
      rw (more, idx, next) refl

  pub add_pages-with_range :
      (n a : ℕ) (prots : ℕ → Prot)
      → 0 < ps
      → end + ps ≤ 2 ^ 64
      → end ≤ start + (a + n) * ps
      → (after : ℕ → Prot) × (add_pages ps start num (suc n) prot (start + a * ps) end prots
          ≡ some after)
        × ((i : ℕ) → after i ≡ with_range ps start num (start + a * ps) end prot prots i)
  add_pages-with_range zero a prots pos fits enough =
      let none_left : a + 0 ≡ a = omega arith in
      let same = ap (λ (x : ℕ). x * ps) none_left in
      let past : ltb (start + a * ps) end ≡ false = ground (arith, enough, same) in
      (prots, add_pages_past zero a prots past, λ i. ground (arith, past))
  add_pages-with_range (suc n) a prots pos fits enough =
      let one = if ltb a num then add_prot a prot prots else prots in
      let sum : a + suc n ≡ a + 1 + n = omega arith in
      let same = ap (λ (x : ℕ). x * ps) sum in
      let later = add_pages-with_range n (a + 1) one pos fits (omega (arith, enough, same)) in
      elim (Bool-cases (ltb (start + a * ps) end)) [
        | inr past ↦ (prots, add_pages_past (suc n) a prots past, λ i. ground (arith, past))
        | inl more ↦
            let (after, run, value) = later in
            (
              after,
              add_pages_step (suc n) a prots pos fits more ∙ run,
              λ i. value i ∙ first_page a i prots pos (ltb→lt (start + a * ps) end more),
            )
      ]

module _ (ps start : ℕ) (prots : ℕ → Prot) where
  protect_pages_before :
      (n i x : ℕ) (space : Space)
      → start + (i + n) * ps ≤ 2 ^ 64
      → 0 < ps
      → x < start + i * ps
      → (protect_pages ps start prots n i space).prot x ≡ space.prot x
  unfolding protect_pages within
  protect_pages_before zero i x space fits pos h = refl
  protect_pages_before (suc n) i x space fits pos h =
      let sum : i + suc n ≡ i + 1 + n = omega arith in
      let same = ap (λ (y : ℕ). y * ps) sum in
      let next = later_page ps i (i + 1) (omega arith) in
      let far = later_page ps i (i + suc n) (omega arith) in
      let place : u64 (start + i * ps) ≡ start + i * ps = omega (arith, fits, far, pos) in
      let rest =
        protect_pages_before n (i + 1) x
          (if is_no_access (prots i)
            then space
            else protect_range (u64 (start + i * ps)) ps (prots i) space)
          (omega (arith, fits, same)) pos (omega (arith, h, next)) in
      rest ∙ ground (arith, place, h)

  pub protect_pages_at :
      (n i j x : ℕ) (space : Space)
      → start + (i + n) * ps ≤ 2 ^ 64
      → 0 < ps
      → i ≤ j
      → j < i + n
      → start + j * ps ≤ x
      → x < start + j * ps + ps
      → (protect_pages ps start prots n i space).prot x
        ≡ (if is_no_access (prots j) then space.prot x else prots j)
  unfolding protect_pages within
  protect_pages_at zero i j x space fits pos low high first last = absurd (omega (arith, low, high))
  protect_pages_at (suc n) i j x space fits pos low high first last =
      let sum : i + suc n ≡ i + 1 + n = omega arith in
      let same = ap (λ (y : ℕ). y * ps) sum in
      let next = later_page ps i (i + 1) (omega arith) in
      let far = later_page ps i (i + suc n) (omega arith) in
      let place : u64 (start + i * ps) ≡ start + i * ps = omega (arith, fits, far, pos) in
      let space' =
        if is_no_access (prots i)
        then space
        else protect_range (u64 (start + i * ps)) ps (prots i) space in
      elim (Bool-cases (ltb i j)) [
        | inl before ↦
            let apart = later_page ps i j (ltb→lt i j before) in
            protect_pages_at n (i + 1) j x space' (omega (arith, fits, same)) pos
              (let l = ltb→lt i j before in omega (arith, l)) (omega (arith, high)) first last
            ∙ ground (arith, place, apart, first)
        | inr not_before ↦
            let here : i ≡ j = ground (arith, low, not_before) in
            let at : i * ps ≡ j * ps = ap (λ (y : ℕ). y * ps) here in
            let value : prots i ≡ prots j = ap prots here in
            protect_pages_before n (i + 1) x space' (omega (arith, fits, same)) pos
              (omega (arith, last, at, next))
            ∙ ground (arith, place, at, first, last, value)
      ]

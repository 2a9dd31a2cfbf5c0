-- ===== src/Base/Slots.antt =====
-- Fixed arrays of slots: the search loop `for (i = start; i < N; i++) if (p(a[i])) { ...; break; }`,
-- and predicates on a slot together with its index.
use so_load.Base.Tests.{leb→le, leb, if◌then◌else◌, Bool-cases}
use so_load.Base.Lists.{length, get_elem?, set, replicate}
use Prim.Native.Nat.{ℕ, zero, suc, ◌+◌, ◌≤◌, ◌<◌}
use mathlib.Core.Path.{◌≡◌, ap, refl, subst}
use native.Mathlib.Nat.{add-zero}
use mathlib.Core.Logic.{inl, inr}
use mathlib.Core.Bool.{Bool, true, false, ◌&&◌}
use mathlib.Core.List.{List, [], ◌∷◌}
use mathlib.Core.Option.{Option, none, some}
use native.Mathlib.Omega.{arith}

module _ {ℓ} {A : Type ℓ} where
  -- `i` is the index of the first item.
  unfoldable pub find_slot : (A → Bool) → ℕ → ℕ → List A → Option ℕ
  find_slot p start i [] = none
  find_slot p start i (x ∷ xs) = if leb start i && p x then some i else find_slot p start (suc i) xs

  abbrev pub AllFrom {κ} : (ℕ → A → Type κ) → ℕ → List A → Type κ
  AllFrom P i [] = Unit {κ}
  AllFrom P i (x ∷ xs) = P i x × AllFrom P (suc i) xs

  -- The slot that the search answers: the first one, at `start` or later, that passes the test.
  pub record Found (p : A → Bool) (start i : ℕ) (xs : List A) (k : ℕ) : Type ℓ where
    pub place : ℕ
    pub item : A
    pub index : k ≡ i + place
    pub late : start ≤ k
    pub inside : place < length xs
    pub holds : get_elem? xs place ≡ some item
    pub passes : p item ≡ true

  Found-cons :
      (p : A → Bool) (start i : ℕ) (x : A) (xs : List A) {k : ℕ}
      → Found p start (suc i) xs k
      → Found p start i (x ∷ xs) k
  Found-cons p start i x xs f = record {
    place = suc f.place;
    item = f.item;
    index = omega arith;
    late = f.late;
    inside = omega arith;
    holds = f.holds;
    passes = f.passes;
  }

  pub find_slot-Found :
      (p : A → Bool) (start i : ℕ) (xs : List A) {k : ℕ}
      → find_slot p start i xs ≡ some k
      → Found p start i xs k
  unfolding find_slot
  find_slot-Found p start i [] e = absurd (cc)
  find_slot-Found p start i (x ∷ xs) {k} e = elim (Bool-cases (leb start i && p x)) [
    | inl hit ↦
        let here : i ≡ k = ground arith in
        record {
          place = 0;
          item = x;
          index = omega arith;
          late = ground arith;
          inside = omega arith;
          holds = refl;
          passes = ground arith;
        }
    | inr miss ↦ Found-cons p start i x xs (find_slot-Found p start (suc i) xs (rw (miss) at e))
  ]

  -- A search that fails has seen every slot from `start` on fail the test.
  pub find_slot-none :
      (p : A → Bool) (start i : ℕ) (xs : List A)
      → find_slot p start i xs ≡ none
      → AllFrom (λ k x. start ≤ k → p x ≡ false) i xs
  unfolding find_slot
  find_slot-none p start i [] e = tt
  find_slot-none p start i (x ∷ xs) e = elim (Bool-cases (leb start i && p x)) [
    | inl hit ↦ absurd (let e' : some i ≡ none = rw (hit) at e in cc)
    | inr miss ↦ (λ h. ground arith, find_slot-none p start (suc i) xs (rw (miss) at e))
  ]

  -- Every slot keeps its property when one slot is written.
  pub AllFrom-set {κ} :
      (P : ℕ → A → Type κ) (i j k : ℕ) (xs : List A) (v : A)
      → k ≡ i + j
      → P k v
      → AllFrom P i xs
      → AllFrom P i (set xs j v)
  AllFrom-set P i j k [] v e h all = tt
  AllFrom-set P i zero k (x ∷ xs) v e h all =
      (subst (λ n. P n v) (let e' : k ≡ i = omega arith in e') h, all.1)
  AllFrom-set P i (suc j) k (x ∷ xs) v e h all =
      (all.0, AllFrom-set P (suc i) j k xs v (omega arith) h all.1)

  pub AllFrom-get {κ} :
      (P : ℕ → A → Type κ) (i j : ℕ) (xs : List A) {x : A}
      → AllFrom P i xs
      → get_elem? xs j ≡ some x
      → P (i + j) x
  AllFrom-get P i j [] all e = absurd (cc)
  AllFrom-get P i zero (y ∷ xs) {x} all e =
      subst (P (i + zero)) (let same : y ≡ x = cc in same) (rw add-zero all.0)
  AllFrom-get P i (suc j) (y ∷ xs) {x} all e =
      subst (λ n. P n x) (let n : suc i + j ≡ i + suc j = omega arith in n)
        (AllFrom-get P (suc i) j xs all.1 e)

  pub AllFrom-map {κ μ} :
      {P : ℕ → A → Type κ} {Q : ℕ → A → Type μ}
      → ((i : ℕ) (x : A) → P i x → Q i x)
      → (i : ℕ) (xs : List A) → AllFrom P i xs
      → AllFrom Q i xs
  AllFrom-map f i [] all = tt
  AllFrom-map f i (x ∷ xs) all = (f i x all.0, AllFrom-map f (suc i) xs all.1)

  -- The slot just written is the one that a search finds which found none before.
  pub find_slot-set :
      (p : A → Bool) (start i j : ℕ) (xs : List A) (v : A)
      → find_slot p start i xs ≡ none
      → p v ≡ true
      → start ≤ i + j
      → j < length xs
      → find_slot p start i (set xs j v) ≡ some (i + j)
  unfolding find_slot
  find_slot-set p start i j [] v e h late inside = absurd (omega arith)
  find_slot-set p start i zero (x ∷ xs) v e h late inside = ground arith
  find_slot-set p start i (suc j) (x ∷ xs) v e h late inside =
      elim (Bool-cases (leb start i && p x)) [
        | inl hit ↦ absurd (let e' : some i ≡ none = rw (hit) at e in cc)
        | inr miss ↦
            let e' : find_slot p start (suc i) xs ≡ none = rw (miss) at e in
            let next = find_slot-set p start (suc i) j xs v e' h (omega arith) (omega arith) in
            rw (miss, next) (ap some (let n : suc i + j ≡ i + suc j = omega arith in n))
      ]

  pub AllFrom-find_slot :
      (p : A → Bool) (start i : ℕ) (xs : List A)
      → AllFrom (λ k x. start ≤ k → p x ≡ false) i xs
      → find_slot p start i xs ≡ none
  unfolding find_slot
  AllFrom-find_slot p start i [] all = refl
  AllFrom-find_slot p start i (x ∷ xs) all = elim (Bool-cases (leb start i)) [
    | inl late ↦ rw (late, all.0 (leb→le start i late)) (AllFrom-find_slot p start (suc i) xs all.1)
    | inr early ↦ rw (early) (AllFrom-find_slot p start (suc i) xs all.1)
  ]

  pub set-set : (xs : List A) (j : ℕ) (v w : A) → set (set xs j v) j w ≡ set xs j w
  set-set [] j v w = refl
  set-set (x ∷ xs) zero v w = refl
  set-set (x ∷ xs) (suc j) v w = ap (λ (l : List A). x ∷ l) (set-set xs j v w)

  pub set-get : (xs : List A) (j : ℕ) (v : A) → get_elem? xs j ≡ some v → set xs j v ≡ xs
  set-get [] j v e = refl
  set-get (x ∷ xs) zero v e = cc
  set-get (x ∷ xs) (suc j) v e = ap (λ (l : List A). x ∷ l) (set-get xs j v e)

  pub AllFrom-replicate {κ} :
      (P : ℕ → A → Type κ) (a : A) → ((i : ℕ) → P i a) → (n i : ℕ) → AllFrom P i (replicate n a)
  AllFrom-replicate P a each zero i = tt
  AllFrom-replicate P a each (suc n) i = (each i, AllFrom-replicate P a each n (suc i))

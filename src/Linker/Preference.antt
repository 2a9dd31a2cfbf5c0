-- ===== src/Linker/Preference.antt =====
-- Which definition of a name findSymbol answers.
use so_load.Base.{
  ℕ, ◌≡◌, ◌∙◌, Bool, not, List, [], ◌∷◌, Option, none, some, ◌==◌, if◌then◌else◌, arith,
  Option-cases, inl, inr,
}
use so_load.Image.{ElfImage}
use so_load.Image.Lookup.{Lookup, found, missing, fault, endless, find_symbol_address}
use so_load.Linker.{Linker, SymbolLookup, no_symbol, valid}
use so_load.Linker.Symbols.{
  Resolution, stb_weak, stb_global, images, strong, broken, search_images, settle, find_symbol,
}

-- The definitions of a name in a list of images, in its order; `none` where a lookup breaks.
unfoldable pub definitions : Resolution → List ℕ → List ElfImage → Option (List SymbolLookup)
definitions r name [] = some []
definitions r name (image ∷ rest) = elim (definitions r name rest) [
  | none ↦ none
  | some later ↦ elim (find_symbol_address r.resolve r.rounds image name) [
    | missing ↦ some later
    | fault ↦ none
    | endless ↦ none
    | found address type bind ↦
        some (record { address = address; image = some image.self; bind = bind } ∷ later)
  ]
]

-- The first item that passes a test.
unfoldable pub first {ℓ} : {A : Type ℓ} → (A → Bool) → List A → Option A
first p [] = none
first p (x ∷ xs) = if p x then some x else first p xs

abbrev pub is_strong : SymbolLookup → Bool
is_strong s = not (s.bind == stb_weak)

-- Any strong definition before any weak one, the first of each kind; then the system's.
unfoldable pub preferred : List SymbolLookup → ℕ → SymbolLookup
unfolding first
preferred ds sys = elim (first is_strong ds) [
  | some s ↦ s
  | none ↦ elim (first valid ds) [
    | some s ↦ s
    | none ↦
        if sys == 0 then no_symbol else record { address = sys; image = none; bind = stb_global }
  ]
]

-- A search with a weak symbol in hand, and the definitions ahead.
abbrev preferred_with : SymbolLookup → List SymbolLookup → ℕ → SymbolLookup
preferred_with weak ds sys = elim (first is_strong ds) [
  | some s ↦ s
  | none ↦ if valid weak then weak else preferred ds sys
]

settle-definitions :
    (r : Resolution) (name : List ℕ) (sys : ℕ) (weak : SymbolLookup) (is : List ElfImage)
    (ds : List SymbolLookup)
    → definitions r name is ≡ some ds
    → settle sys (search_images r name weak is) ≡ some (preferred_with weak ds sys)
unfolding search_images definitions first preferred settle
settle-definitions r name sys weak [] ds e = ground (arith, e)
settle-definitions r name sys weak (image ∷ rest) ds e =
    elim (Option-cases (definitions r name rest)) [
      | inl cut ↦ absurd (let e' = rw (cut, definitions) at e in ground (arith, e'))
      | inr (later, there) ↦
          let ahead = λ (w : SymbolLookup). settle-definitions r name sys w rest later there in
          let e' = rw (there, definitions) at e in
          go (find_symbol_address r.resolve r.rounds image name) later ahead e'
    ]
  where
    go :
        (a : Lookup) (later : List SymbolLookup)
        → ((w : SymbolLookup)
            → settle sys (search_images r name w rest) ≡ some (preferred_with w later sys))
        → (elim a [
          | missing ↦ some later
          | fault ↦ none
          | endless ↦ none
          | found address type bind ↦
              some (record { address = address; image = some image.self; bind = bind } ∷ later)
        ])
          ≡ some ds
        → settle sys (elim a [
          | missing ↦ search_images r name weak rest
          | fault ↦ broken
          | endless ↦ broken
          | found address type bind ↦
              let here : SymbolLookup = record {
                address = address;
                image = some image.self;
                bind = bind;
              } in
              let on = search_images r name (if valid weak then weak else here) rest in
              if bind == stb_weak then on else strong here
        ])
          ≡ some (preferred_with weak ds sys)
    go missing later ahead e' = let here = ahead weak in ground (arith, e', here)
    go fault later ahead e' = absurd (ground (arith, e'))
    go endless later ahead e' = absurd (ground (arith, e'))
    go (found address type bind) later ahead e' =
        let one : SymbolLookup = record {
          address = address;
          image = some image.self;
          bind = bind;
        } in
        let kept = ahead weak in let taken = ahead one in ground (arith, e', kept, taken)

-- Where every image's lookup answers, find_symbol answers the first strong definition in the main
-- image and then the dependencies in their order; without one the first weak definition with an
-- address; without one dlsym's address, or no symbol.
pub find_symbol-preferred :
    (r : Resolution) (l : Linker) (name : List ℕ) (ds : List SymbolLookup)
    → definitions r name (images l) ≡ some ds
    → find_symbol r l name ≡ some (preferred ds (r.dlsym name))
unfolding find_symbol preferred
find_symbol-preferred r l name ds e =
    settle-definitions r name (r.dlsym name) no_symbol (images l) ds e ∙ ground arith

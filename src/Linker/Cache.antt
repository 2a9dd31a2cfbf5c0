-- ===== src/Linker/Cache.antt =====
-- The symbol cache of findSymbolCached: it answers what the search would, as long as every entry
-- was made by a search among the same images.
use mathlib.Core.Path.{subst}
use so_load.Base.{
  ℕ, ◌≡◌, refl, ap, ◌∙◌, List, [], ◌∷◌, some, arith, Option-cases, Bool-cases, inl, inr,
}
use so_load.Image.Lookup.{beq_bytes}
use so_load.Image.Sound.{beq_bytes-eq}
use so_load.Linker.{Linker, SymbolLookup, SymbolCacheEntry}
use so_load.Linker.Symbols.{
  Resolution, images, find_symbol, cache_find, cached, cache_entry, find_symbol_cached,
}

-- What a caller can tell of an answer from the cache: not the binding, and of a symbol without an
-- address nothing.
abbrev pub unbound : SymbolLookup → SymbolLookup
unbound s = cached (cache_entry s)

-- Each entry is the one that the search would make now.
abbrev pub IsCoherent : Resolution → Linker → Type 0
IsCoherent r l =
    (name : List ℕ) (e : SymbolCacheEntry)
    → cache_find l.symbol_cache name ≡ some e
    → (s : SymbolLookup) × (find_symbol r l name ≡ some s) × (e ≡ cache_entry s)

pub empty-IsCoherent : (r : Resolution) (l : Linker) → l.symbol_cache ≡ [] → IsCoherent r l
unfolding cache_find
empty-IsCoherent r l e name entry hit = absurd (let hit' = rw e at hit in ground (arith, hit'))

store-IsCoherent :
    (r : Resolution) (l : Linker) (name : List ℕ) (s : SymbolLookup)
    → find_symbol r l name ≡ some s
    → IsCoherent r l
    → IsCoherent r (record l { symbol_cache = (name, cache_entry s) ∷ l.symbol_cache })
unfolding cache_find find_symbol images
store-IsCoherent r l name s e coherent other entry hit = elim (Bool-cases (beq_bytes name other)) [
  | inl same ↦
      let names = beq_bytes-eq name other same in
      let hit' = rw (same, cache_find) at hit in (s, rw⁻¹ names e, ground (arith, hit'))
  | inr differs ↦ let hit' = rw (differs, cache_find) at hit in coherent other entry hit'
]

unbound_twice : (s : SymbolLookup) → unbound (unbound s) ≡ unbound s
unbound_twice s = ground arith

-- In a linker whose cache is coherent, the cached lookup of a name whose search answers gives the
-- same symbol up to its binding, and leaves a coherent cache.
pub find_symbol_cached-IsCoherent :
    (r : Resolution) (l : Linker) (name : List ℕ) (s : SymbolLookup)
    → IsCoherent r l
    → find_symbol r l name ≡ some s
    → (t : SymbolLookup) × (after : Linker) × (find_symbol_cached r l name ≡ some (t, after))
      × (unbound t ≡ unbound s)
      × IsCoherent r after
unfolding find_symbol_cached
find_symbol_cached-IsCoherent r l name s coherent e =
    elim (Option-cases (cache_find l.symbol_cache name)) [
      | inl new ↦ (
        s,
        record l { symbol_cache = (name, cache_entry s) ∷ l.symbol_cache },
        ground (arith, new, e),
        refl,
        store-IsCoherent r l name s e coherent,
      )
      | inr (entry, hit) ↦
          let (s', found, made) = coherent name entry hit in
          let same : s' ≡ s = ground (arith, found, e) in
          (
            cached entry,
            l,
            ground (arith, hit),
            ap unbound (ap cached made) ∙ unbound_twice s' ∙ ap unbound same,
            coherent,
          )
    ]

-- Whatever the cached lookup answers, it leaves a coherent cache.
pub find_symbol_cached_keeps :
    (r : Resolution) (l after : Linker) (name : List ℕ) (t : SymbolLookup)
    → IsCoherent r l
    → find_symbol_cached r l name ≡ some (t, after)
    → IsCoherent r after
unfolding find_symbol_cached
find_symbol_cached_keeps r l after name t coherent e =
    elim (Option-cases (cache_find l.symbol_cache name)) [
      | inr (entry, hit) ↦
          let same : l ≡ after = ground (arith, hit, e) in subst (IsCoherent r) same coherent
      | inl new ↦ elim (Option-cases (find_symbol r l name)) [
        | inl broken ↦ absurd (ground (arith, new, broken, e))
        | inr (s, found) ↦
            let made : record l { symbol_cache = (name, cache_entry s) ∷ l.symbol_cache } ≡ after =
              ground (arith, new, found, e) in
            subst (IsCoherent r) made (store-IsCoherent r l name s found coherent)
      ]
    ]

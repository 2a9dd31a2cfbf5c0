-- ===== src/Linker/Symbols.antt =====
-- findSymbol and findSymbolCached of src/linker.cpp.
use so_load.Base.{ℕ, List, [], ◌∷◌, Option, none, some, ◌==◌, if◌then◌else◌}
use so_load.Image.{ElfImage}
use so_load.Image.Lookup.{beq_bytes, found, missing, fault, endless, find_symbol_address}
use so_load.Linker.{Linker, LoadedDep, SymbolLookup, SymbolCacheEntry, no_symbol, valid}

abbrev pub stb_global : ℕ
stb_global = 1

abbrev pub stb_weak : ℕ
stb_weak = 2

-- What the linker calls and does not define: IFUNC resolvers, and dlsym(RTLD_DEFAULT, name), which
-- answers 0 for a name it does not know. `rounds` bounds the chain loop of each image.
pub record Resolution : Type 0 where
  pub resolve : ℕ → ℕ
  pub rounds : ℕ
  pub dlsym : List ℕ → ℕ

unfoldable pub dep_images : List LoadedDep → List ElfImage
dep_images [] = []
dep_images (dep ∷ deps) = elim dep.image [
  | none ↦ dep_images deps
  | some image ↦ image ∷ dep_images deps
]

-- The images in the order in which findSymbol asks them.
unfoldable pub images : Linker → List ElfImage
unfolding dep_images
images l = elim l.main_image [ none ↦ dep_images l.deps | some image ↦ image ∷ dep_images l.deps ]

-- How the search ends: at a strong symbol, past the last image with the weak symbol seen (or
-- none), or in a lookup that reads outside a table or does not answer.
pub data Search : Type 0 where
  strong : SymbolLookup → Search
  exhausted : SymbolLookup → Search
  broken : Search

unfoldable pub search_images : Resolution → List ℕ → SymbolLookup → List ElfImage → Search
unfolding find_symbol_address
search_images r name weak [] = exhausted weak
search_images r name weak (image ∷ rest) =
    elim (find_symbol_address r.resolve r.rounds image name) [
      | missing ↦ search_images r name weak rest
      | fault ↦ broken
      | endless ↦ broken
      | found address type bind ↦
          let here : SymbolLookup = record {
            address = address;
            image = some image.self;
            bind = bind;
          } in
          let on = search_images r name (if valid weak then weak else here) rest in
          if bind == stb_weak then on else strong here
    ]

-- What findSymbol makes of the search's end and of dlsym's address.
unfoldable pub settle : ℕ → Search → Option SymbolLookup
settle sys_addr broken = none
settle sys_addr (strong s) = some s
settle sys_addr (exhausted weak) =
    if valid weak
    then some weak
    else if sys_addr == 0
    then some no_symbol
    else some (record { address = sys_addr; image = none; bind = stb_global })

-- findSymbol; `none` where a lookup breaks.
unfoldable pub find_symbol : Resolution → Linker → List ℕ → Option SymbolLookup
unfolding images search_images settle
find_symbol r l name = settle (r.dlsym name) (search_images r name no_symbol (images l))

unfoldable pub cache_find : List (List ℕ × SymbolCacheEntry) → List ℕ → Option SymbolCacheEntry
unfolding beq_bytes
cache_find [] name = none
cache_find ((key, entry) ∷ rest) name =
    if beq_bytes key name then some entry else cache_find rest name

abbrev pub cached : SymbolCacheEntry → SymbolLookup
cached e = if e.found then record { address = e.address; image = e.image; bind = 0 } else no_symbol

abbrev pub cache_entry : SymbolLookup → SymbolCacheEntry
cache_entry s = record { address = s.address; image = s.image; found = valid s }

-- findSymbolCached: the answer and the linker with its cache.
unfoldable pub find_symbol_cached : Resolution → Linker → List ℕ → Option (SymbolLookup × Linker)
unfolding cache_find find_symbol
find_symbol_cached r l name = elim (cache_find l.symbol_cache name) [
  | some e ↦ some (cached e, l)
  | none ↦ elim (find_symbol r l name) [
    | none ↦ none
    | some s ↦ some (s, record l { symbol_cache = (name, cache_entry s) ∷ l.symbol_cache })
  ]
]

unfoldable pub clear_symbol_cache : Linker → Linker
clear_symbol_cache l = record l { symbol_cache = [] }

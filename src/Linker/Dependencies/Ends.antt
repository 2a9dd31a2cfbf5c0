-- ===== src/Linker/Dependencies/Ends.antt =====
-- The loop of loadDependencies ends, when the tables name finitely many libraries.
use so_load.Base.{
  ℕ, zero, suc, ◌+◌, ◌≤◌, ◌<◌, ◌≡◌, ◌≢◌, refl, ap, sym, ◌∙◌, true, false, List, [], ◌∷◌, some,
  get_elem?, length, All, if◌then◌else◌, arith, Bool-cases, Option-cases, inl, inr,
}
use so_load.Image.{ElfImage}
use so_load.Image.Lookup.{beq_bytes}
use so_load.Image.Sound.{beq_bytes-eq}
use so_load.Linker.{Linker, LoadedDep}
use so_load.Linker.Library.{
  Process, LibraryLoad, loaded, not_loaded, crashed, load_library_manually,
}
use so_load.Linker.Dependencies.Mappings.{Leaves}
use so_load.Linker.Dependencies.{
  Names, has_name, Loader, Loading, Load, went_on, gave_up, broken, endless, new_dep,
  find_library_path, is_loaded, collect_needed, system_image, adopt, take_up, load_by_hand,
  load_path, load_name, load_names, load_dependencies,
}
use so_load.Linker.Dependencies.Distinct.{
  IsDistinct, IsNames, beq_bytes_sym, load_name_keeps, collect_needed-IsNames,
}

-- A name is taken out of a list once.
unfoldable without : List ℕ → List (List ℕ) → List (List ℕ)
without name [] = []
without name (n ∷ names) =
    let rest = n ∷ without name names in if beq_bytes name n then names else rest

length-without :
    (name : List ℕ) (names : List (List ℕ))
    → has_name name names ≡ true
    → length names ≡ suc (length (without name names))
unfolding has_name without
length-without name [] e = cc
length-without name (n ∷ names) e = elim (Bool-cases (beq_bytes name n)) [
  | inl here ↦ rw here refl
  | inr other ↦
      let later = length-without name names (ground (arith, e, other)) in rw other (ap suc later)
]

has_name-without :
    (name other : List ℕ) (names : List (List ℕ))
    → beq_bytes other name ≡ false
    → has_name other names ≡ true
    → has_name other (without name names) ≡ true
unfolding has_name without
has_name-without name other [] apart e = cc
has_name-without name other (n ∷ names) apart e = elim (Bool-cases (beq_bytes name n)) [
  | inl here ↦
      let same = beq_bytes-eq name n here in
      let apart' : beq_bytes other n ≡ false = ap (beq_bytes other) (sym same) ∙ apart in
      rw here (ground (arith, e, apart'))
  | inr different ↦
      let later = has_name-without name other names apart in rw different (ground (arith, e, later))
]

-- Distinct names of a list are not more than the list has.
distinct_length :
    (xs names : List (List ℕ))
    → IsDistinct xs
    → All (λ x. has_name x names ≡ true) xs
    → length xs ≤ length names
unfolding IsDistinct has_name
distinct_length [] names distinct all = omega arith
distinct_length (x ∷ xs) names (new, distinct) (here, all) =
    let shorter = distinct_length xs (without x names) distinct (others xs new all) in
    omega (arith, shorter, length-without x names here)
  where
    others :
        (ys : List (List ℕ))
        → has_name x ys ≡ false
        → All (λ y. has_name y names ≡ true) ys
        → All (λ y. has_name y (without x names) ≡ true) ys
    others [] fresh all' = tt
    others (y ∷ ys) fresh all' =
        let apart : beq_bytes x y ≡ false = ground (arith, fresh) in
        (
          has_name-without x y names (beq_bytes_sym x y apart) all'.0,
          others ys (ground (arith, fresh)) all'.1,
        )

get_elem?_inside :
    (xs : List (List ℕ)) (i : ℕ) (x : List ℕ) → get_elem? xs i ≡ some x → i < length xs
get_elem?_inside [] i x e = cc
get_elem?_inside (y ∷ ys) zero x e = omega arith
get_elem?_inside (y ∷ ys) (suc i) x e =
    let later = get_elem?_inside ys i x e in omega (arith, later)

-- The names to load are among `known`, each once.
abbrev pub IsAmong : List (List ℕ) → Names → Type 0
IsAmong known ns = IsNames ns × All (λ name. has_name name known ≡ true) ns.to_load

module _ (env : Loader) where
  load_name_answers : (name : List ℕ) (st : Loading) → load_name env name st ≢ endless
  unfolding load_name load_path load_by_hand take_up adopt
  load_name_answers name st e = elim (Option-cases (find_library_path env.access name)) [
    | inl missing ↦ let e' = rw (missing, load_name) at e in cc
    | inr (path, there) ↦ elim (Bool-cases (is_loaded st.linker path)) [
      | inl known ↦ let e' = rw (there, known, load_name) at e in cc
      | inr new ↦ by_path path (let e' = rw (there, new, load_name) at e in e')
    ]
  ]
    where
      adopted :
          (path : List ℕ) (base : ℕ) (dep : LoadedDep) (st' : Loading)
          → adopt env path base dep st' ≢ endless
      adopted path base dep st' e' = elim (Option-cases (env.create path base)) [
        | inl refused ↦ let e'' = rw (refused, adopt) at e' in cc
        | inr (image, made) ↦ elim (Option-cases (collect_needed env.contents image st'.names)) [
          | inl past ↦ let e'' = rw (made, past, adopt) at e' in cc
          | inr (names, needed) ↦ let e'' = rw (made, needed, adopt) at e' in cc
        ]
      ]

      by_hand : (path : List ℕ) (load : LibraryLoad) → take_up env path st load ≢ endless
      by_hand path (loaded base dep process) e' =
          adopted path base dep (record st { process = process }) e'
      by_hand path (not_loaded dep process) e' = cc
      by_hand path crashed e' = cc

      by_path : (path : List ℕ) → load_path env path st ≢ endless
      by_path path e' = elim (Option-cases (system_image env path)) [
        | inl absent ↦
            by_hand path (load_library_manually env.kernel env.files path new_dep st.process)
              (let e'' = rw (absent, load_path) at e' in e'')
        | inr (image, present) ↦ let e'' = rw (present, load_path) at e' in cc
      ]

  module _ (known : List (List ℕ))
      (keeps : (path : List ℕ) (base : ℕ) (image : ElfImage) (ns after : Names)
        → env.create path base ≡ some image
        → IsAmong known ns
        → collect_needed env.contents image ns ≡ some after
        → IsAmong known after) where
    load_names_ends :
        (rounds i : ℕ) (st : Loading)
        → IsAmong known st.names
        → i ≤ length known
        → length known < rounds + i
        → load_names env rounds i st ≢ endless
    unfolding load_names
    load_names_ends zero i st among low high e = absurd (omega (arith, low, high))
    load_names_ends (suc rounds) i st (names, all) low high e =
        elim (Option-cases (get_elem? st.names.to_load i)) [
          | inl past ↦ let e' = rw (past, load_names) at e in cc
          | inr (name, here) ↦
              let inside = get_elem?_inside st.names.to_load i name here in
              let few = distinct_length st.names.to_load known names.distinct all in
              go
                (λ st' among'.
                  load_names_ends rounds (i + 1) st' among' (omega (arith, inside, few))
                    (omega (arith, high)))
                (load_name env name st) (load_name_answers name st)
                (load_name_keeps env (IsAmong known) keeps name st (names, all))
                (let e' = rw (here, load_names) at e in e')
        ]
      where
        go :
            ((st' : Loading)
              → IsAmong known st'.names
              → load_names env rounds (i + 1) st' ≢ endless)
            → (load : Load) → load ≢ endless
            → Leaves (λ x. IsAmong known x.names) load
            → (elim load [
              | went_on st' ↦ load_names env rounds (i + 1) st'
              | gave_up st' ↦ gave_up st'
              | broken ↦ broken
              | endless ↦ endless
            ])
              ≢ endless
        go later (went_on st') ends among' e' = later st' among' e'
        go later (gave_up st') ends among' e' = cc
        go later broken ends among' e' = cc
        go later endless ends among' e' = ends refl

-- When the tables of the main image and of every image that ElfImage::create makes name only
-- libraries of a list, the loop of loadDependencies ends within one round more than the list has
-- names.
pub load_dependencies_ends :
    (env : Loader) (rounds : ℕ) (image : ElfImage) (l : Linker) (p : Process)
    (known : List (List ℕ))
    → ((names : Names)
        → collect_needed env.contents image (record { loaded_names = []; to_load = [] })
          ≡ some names
        → All (λ name. has_name name known ≡ true) names.to_load)
    → ((path : List ℕ) (base : ℕ) (made : ElfImage) (ns after : Names)
        → env.create path base ≡ some made
        → All (λ name. has_name name known ≡ true) ns.to_load
        → collect_needed env.contents made ns ≡ some after
        → All (λ name. has_name name known ≡ true) after.to_load)
    → length known < rounds
    → load_dependencies env rounds image l p ≢ endless
unfolding load_dependencies IsDistinct has_name
load_dependencies_ends env rounds image l p known first keeps enough e =
    let empty : Names = record { loaded_names = []; to_load = [] } in
    let start : IsNames empty = record { same = λ name. refl; distinct = tt } in
    elim (Option-cases (collect_needed env.contents image empty)) [
      | inl past ↦ let e' = rw (past, load_dependencies) at e in cc
      | inr (names, needed) ↦
          load_names_ends env known
            (λ path base made ns after is_made among run. (
              collect_needed-IsNames env.contents made ns after among.0 run,
              keeps path base made ns after is_made among.1 run,
            ))
            rounds 0 (record { linker = l; process = p; names = names })
            (collect_needed-IsNames env.contents image empty names start needed, first names needed)
            (omega arith) (omega (arith, enough))
            (let e' = rw (needed, load_dependencies) at e in e')
    ]

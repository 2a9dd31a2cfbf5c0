-- ===== src/Linker/Dependencies/Distinct.antt =====
-- The names of the libraries to load: none is put on the list twice.
use mathlib.Core.Path.{subst}
use so_load.Base.{
  ◌==◌, ℕ, zero, suc, ◌+◌, ◌≡◌, ◌∙◌, refl, ap, sym, false, ◌||◌, List, [], ◌∷◌, ◌++◌, some,
  get_elem?, arith, Bool-cases, Option-cases, inl, inr, >>=-eq-some,
}
use so_load.Image.{ElfImage, at_vaddr}
use so_load.Image.Lookup.{beq_bytes, c_string}
use so_load.Image.Sound.{beq_bytes-eq, beq_bytes_refl}
use so_load.Linker.Tables.{ElfDyn, find_dynamic}
use so_load.Linker.Relocate.{Contents}
use so_load.Linker.Dependencies.{
  Names, has_name, add_name, find_strtab, add_needed, collect_from, collect_needed, Loader, Loading,
  Load, went_on, gave_up, broken, endless, new_dep, find_library_path, is_loaded, system_image,
  adopt, take_up, load_by_hand, load_path, load_name, load_names, load_dependencies,
}
use so_load.Linker.Dependencies.Mappings.{Leaves}
use so_load.Linker.{Linker, LoadedDep}
use so_load.Linker.Library.{
  Process, LibraryLoad, loaded, not_loaded, crashed, load_library_manually,
}

-- No name twice: each is missing among those before it.
unfoldable pub IsDistinct : List (List ℕ) → Type 0
IsDistinct [] = Unit {0}
IsDistinct (name ∷ names) = (has_name name names ≡ false) × IsDistinct names

-- The set and the list hold the same names, none twice.
pub record IsNames (ns : Names) : Type 0 where
  pub same : (name : List ℕ) → has_name name ns.loaded_names ≡ has_name name ns.to_load
  pub distinct : IsDistinct ns.to_load

pub beq_bytes_sym : (xs ys : List ℕ) → beq_bytes xs ys ≡ false → beq_bytes ys xs ≡ false
beq_bytes_sym xs ys differ = elim (Bool-cases (beq_bytes ys xs)) [
  | inl equal ↦
      let e = beq_bytes-eq ys xs equal in
      absurd
        (let same = ap (λ z. beq_bytes xs z) e in ground (arith, differ, same, beq_bytes_refl xs))
  | inr different ↦ different
]

has_name-snoc :
    (name new : List ℕ) (names : List (List ℕ))
    → has_name name (names ++ (new ∷ [])) ≡ (beq_bytes name new || has_name name names)
unfolding has_name
has_name-snoc name new [] = refl
has_name-snoc name new (n ∷ names) = let rest = has_name-snoc name new names in ground (arith, rest)

snoc-IsDistinct :
    (names : List (List ℕ)) (new : List ℕ)
    → IsDistinct names
    → has_name new names ≡ false
    → IsDistinct (names ++ (new ∷ []))
unfolding IsDistinct has_name
snoc-IsDistinct [] new all missing = (refl, tt)
snoc-IsDistinct (n ∷ names) new (first, rest) missing =
    let other : beq_bytes new n ≡ false = ground (arith, missing) in
    let later : has_name new names ≡ false = ground (arith, missing) in
    let apart = beq_bytes_sym new n other in
    let longer = has_name-snoc n new names in
    (ground (arith, longer, apart, first), snoc-IsDistinct names new rest later)

add_name-IsNames : (name : List ℕ) (ns : Names) → IsNames ns → IsNames (add_name name ns)
unfolding add_name
add_name-IsNames name ns h = elim (Bool-cases (has_name name ns.loaded_names)) [
  | inl known ↦ rw (known, add_name) h
  | inr new ↦
      rw (new, add_name)
        (record {
          same = λ other.
              ap (λ b. beq_bytes other name || b) (h.same other)
              ∙ sym (has_name-snoc other name ns.to_load);
          distinct = snoc-IsDistinct ns.to_load name h.distinct (sym (h.same name) ∙ new);
        })
]

add_needed-IsNames :
    (strtab : List ℕ) (dyn : List ElfDyn) (ns after : Names)
    → IsNames ns
    → add_needed strtab dyn ns ≡ some after
    → IsNames after
unfolding add_needed
add_needed-IsNames strtab [] ns after h e = cc
add_needed-IsNames strtab (d ∷ ds) ns after h e = elim (Bool-cases (d.d_tag == 0)) [
  | inl end ↦ let e' = rw end at e in let same : ns ≡ after = cc in subst IsNames same h
  | inr more ↦ elim (Bool-cases (d.d_tag == 1)) [
    | inl needed ↦
        let e' = rw (more, needed) at e in
        let (name, read, rest) = >>=-eq-some (c_string strtab d.d_un) _ e' in
        add_needed-IsNames strtab ds (add_name name ns) after (add_name-IsNames name ns h) rest
    | inr other ↦ let e' = rw (more, other) at e in add_needed-IsNames strtab ds ns after h e'
  ]
]

collect_from-IsNames :
    (contents : Contents) (image : ElfImage) (dyn : List ElfDyn) (ns after : Names)
    → IsNames ns
    → collect_from contents image dyn ns ≡ some after
    → IsNames after
unfolding collect_from
collect_from-IsNames contents image dyn ns after h e =
    let (strtab, found, rest) = >>=-eq-some (find_strtab image dyn) _ e in
    elim (Bool-cases (strtab == 0)) [
      | inl absent ↦
          let rest' = rw absent at rest in
          elim (Option-cases image.strtab_start) [
            | inl neither ↦
                let rest'' = rw neither at rest' in
                let same : ns ≡ after = cc in subst IsNames same h
            | inr (own, there) ↦
                add_needed-IsNames own dyn ns after h (let rest'' = rw there at rest' in rest'')
          ]
      | inr present ↦
          add_needed-IsNames (contents.bytes_at strtab) dyn ns after h
            (let rest' = rw present at rest in rest')
    ]

pub collect_needed-IsNames :
    (contents : Contents) (image : ElfImage) (ns after : Names)
    → IsNames ns
    → collect_needed contents image ns ≡ some after
    → IsNames after
unfolding collect_needed
collect_needed-IsNames contents image ns after h e = elim (Bool-cases (image.header.e_phoff == 0)) [
  | inl no_headers ↦
      let e' = rw no_headers at e in let same : ns ≡ after = cc in subst IsNames same h
  | inr headers ↦
      let e' = rw headers at e in
      elim (Option-cases (find_dynamic image.phdrs)) [
        | inl absent ↦
            let e'' = rw absent at e' in let same : ns ≡ after = cc in subst IsNames same h
        | inr (phdr, there) ↦
            collect_from-IsNames contents image (contents.dyn_at (at_vaddr image phdr.p_vaddr)) ns
              after h (let e'' = rw there at e' in e'')
      ]
]

-- Only the names of an image that was mapped are added.
abbrev pub KeepsNames : Loading → Type 0
KeepsNames st = IsNames st.names

-- What collectNeeded keeps for the images that are made, each round keeps.
module _ (env : Loader) (P : Names → Type 0)
    (keeps : (path : List ℕ) (base : ℕ) (image : ElfImage) (ns after : Names)
      → env.create path base ≡ some image
      → P ns
      → collect_needed env.contents image ns ≡ some after
      → P after) where
  adopt_keeps :
      (path : List ℕ) (base : ℕ) (dep : LoadedDep) (st : Loading)
      → P st.names
      → Leaves (λ x. P x.names) (adopt env path base dep st)
  unfolding adopt
  adopt_keeps path base dep st h = elim (Option-cases (env.create path base)) [
    | inl refused ↦ rw (refused, adopt) h
    | inr (image, made) ↦ elim (Option-cases (collect_needed env.contents image st.names)) [
      | inl past ↦ rw (made, past, adopt) tt
      | inr (names, needed) ↦
          rw (made, needed, adopt) (keeps path base image st.names names made h needed)
    ]
  ]

  pub load_name_keeps :
      (name : List ℕ) (st : Loading) → P st.names → Leaves (λ x. P x.names) (load_name env name st)
  unfolding load_name load_path load_by_hand take_up
  load_name_keeps name st h = elim (Option-cases (find_library_path env.access name)) [
    | inl missing ↦ rw (missing, load_name) h
    | inr (path, there) ↦ elim (Bool-cases (is_loaded st.linker path)) [
      | inl known ↦ rw (there, known, load_name) h
      | inr new ↦ rw (there, new, load_name) (by_path path)
    ]
  ]
    where
      by_hand :
          (path : List ℕ) (load : LibraryLoad) → Leaves (λ x. P x.names) (take_up env path st load)
      by_hand path (loaded base dep process) =
          adopt_keeps path base dep (record st { process = process }) h
      by_hand path (not_loaded dep process) = h
      by_hand path crashed = tt

      by_path : (path : List ℕ) → Leaves (λ x. P x.names) (load_path env path st)
      by_path path = elim (Option-cases (system_image env path)) [
        | inl absent ↦
            rw (absent, load_path)
              (by_hand path (load_library_manually env.kernel env.files path new_dep st.process))
        | inr (image, present) ↦ rw (present, load_path) h
      ]

  load_names_keeps :
      (rounds i : ℕ) (st : Loading)
      → P st.names
      → Leaves (λ x. P x.names) (load_names env rounds i st)
  unfolding load_names
  load_names_keeps zero i st h = tt
  load_names_keeps (suc rounds) i st h = elim (Option-cases (get_elem? st.names.to_load i)) [
    | inl past ↦ rw (past, load_names) h
    | inr (name, here) ↦
        rw (here, load_names)
          (go (load_names_keeps rounds (i + 1)) (load_name env name st) (load_name_keeps name st h))
  ]
    where
      go :
          ((st' : Loading)
            → P st'.names
            → Leaves (λ x. P x.names) (load_names env rounds (i + 1) st'))
          → (load : Load) → Leaves (λ x. P x.names) load
          → Leaves
              (λ x. P x.names)
              (elim load [
                | went_on st' ↦ load_names env rounds (i + 1) st'
                | gave_up st' ↦ gave_up st'
                | broken ↦ broken
                | endless ↦ endless
              ])
      go later (went_on st') h' = later st' h'
      go later (gave_up st') h' = h'
      go later broken h' = tt
      go later endless h' = tt

-- However loadDependencies ends, its list of libraries to load has the same names as its set, and
-- none of them twice.
pub load_dependencies-KeepsNames :
    (env : Loader) (rounds : ℕ) (image : ElfImage) (l : Linker) (p : Process)
    → Leaves KeepsNames (load_dependencies env rounds image l p)
unfolding load_dependencies IsDistinct has_name
load_dependencies-KeepsNames env rounds image l p =
    let empty : Names = record { loaded_names = []; to_load = [] } in
    let start : IsNames empty = record { same = λ name. refl; distinct = tt } in
    elim (Option-cases (collect_needed env.contents image empty)) [
      | inl past ↦ rw (past, load_dependencies) tt
      | inr (names, needed) ↦
          rw (needed, load_dependencies)
            (load_names_keeps env IsNames
              (λ path base image' ns after made.
                collect_needed-IsNames env.contents image' ns after)
              rounds 0 (record { linker = l; process = p; names = names })
              (collect_needed-IsNames env.contents image empty names start needed))
    ]

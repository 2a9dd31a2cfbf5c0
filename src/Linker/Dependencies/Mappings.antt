-- ===== src/Linker/Dependencies/Mappings.antt =====
-- What loadDependencies leaves mapped, on every path.
use so_load.Base.{
  ℕ, zero, suc, ◌+◌, ◌≤◌, ◌<◌, Bool, false, ◌≡◌, ◌∙◌, refl, ap, sym, true, List, [], ◌∷◌, ◌++◌,
  some, get_elem?, if◌then◌else◌, Bool-cases, Option-cases, inl, inr,
}
use so_load.Image.{ElfImage}
use so_load.Linker.{Linker, LoadedDep}
use so_load.Linker.Library.{
  Process, munmap, LibraryLoad, loaded, not_loaded, crashed, load_library_manually,
}
use so_load.Linker.Library.Outcome.{
  IsKernel, StaysInside, IsClean, load_library_manually-IsClean, within_undone,
}
use so_load.Linker.Segments.{within}
use so_load.Linker.Dependencies.{
  Names, Loader, Loading, Load, went_on, gave_up, broken, endless, new_dep, find_library_path,
  is_loaded, collect_needed, system_image, adopt, take_up, load_by_hand, load_path, load_name,
  load_names, load_dependencies,
}

-- What is mapped when the range of each dependency that was mapped is, beside what was before.
unfoldable pub held : List LoadedDep → (ℕ → Bool) → ℕ → Bool
unfolding within
held [] mapped = mapped
held (dep ∷ deps) mapped =
    held deps
      (if dep.is_manual_load then within dep.map_base dep.map_size (λ a. true) mapped else mapped)

held-append :
    (deps : List LoadedDep) (dep : LoadedDep) (mapped : ℕ → Bool)
    → held (deps ++ (dep ∷ [])) mapped ≡ (
        if dep.is_manual_load
        then within dep.map_base dep.map_size (λ a. true) (held deps mapped)
        else held deps mapped)
unfolding held
held-append [] dep mapped = refl
held-append (d ∷ deps) dep mapped = held-append deps dep _

-- An address is mapped if it was at the start or lies in the range of a dependency, and the open
-- descriptors are those at the start.
abbrev pub IsHeld : Process → Loading → Type 0
IsHeld start st =
    (st.process.space.mapped ≡ held st.linker.deps start.space.mapped)
    × (st.process.open_fds ≡ start.open_fds)

-- What holds however a round or the loop ends, where it leaves a state.
abbrev pub Leaves : (Loading → Type 0) → Load → Type 0
Leaves P (went_on st) = P st
Leaves P (gave_up st) = P st
Leaves P broken = Unit {0}
Leaves P endless = Unit {0}

module _ (env : Loader) (start : Process) (sound : IsKernel env.kernel)
    (stays : StaysInside env.kernel env.files) where
  adopt-IsHeld :
      (path : List ℕ) (base : ℕ) (dep : LoadedDep) (st : Loading)
      → st.process.space.mapped
        ≡ within base dep.map_size (λ a. true) (held st.linker.deps start.space.mapped)
      → ((a : ℕ)
          → base ≤ a
          → a < base + dep.map_size
          → held st.linker.deps start.space.mapped a ≡ false)
      → st.process.open_fds ≡ start.open_fds
      → dep.map_base ≡ base
      → Leaves (IsHeld start) (adopt env path base dep st)
  unfolding adopt munmap
  adopt-IsHeld path base dep st mappings free fds at = elim (Option-cases (env.create path base)) [
    | inl refused ↦
        rw (refused, adopt)
          (
            ap (within base dep.map_size (λ a. false)) mappings
                ∙ within_undone base dep.map_size (held st.linker.deps start.space.mapped) free,
            fds,
          )
    | inr (image, made) ↦ elim (Option-cases (collect_needed env.contents image st.names)) [
      | inl past ↦ rw (made, past, adopt) tt
      | inr (names, needed) ↦
          rw (made, needed, adopt)
            (
              mappings
                  ∙ ap
                      (λ b.
                        within b dep.map_size (λ a. true) (held st.linker.deps start.space.mapped))
                      (sym at)
                  ∙ sym (
                      held-append st.linker.deps
                        (record dep { image = some image; is_manual_load = true })
                        start.space.mapped),
              fds,
            )
    ]
  ]

  take_up-IsHeld :
      (path : List ℕ) (st : Loading) (load : LibraryLoad)
      → IsHeld start st
      → IsClean st.process load
      → Leaves (IsHeld start) (take_up env path st load)
  unfolding take_up
  take_up-IsHeld path st (loaded base dep process) (mappings, fds)
        (closed, one, free, at, by_hand) =
      adopt-IsHeld path base dep (record st { process = process })
        (one ∙ ap (within base dep.map_size (λ a. true)) mappings)
        (λ a low high. ap (λ m. m a) (sym mappings) ∙ free a low high) (closed ∙ fds) at
  take_up-IsHeld path st (not_loaded dep process) (mappings, fds) (closed, same) =
      (same ∙ mappings, closed ∙ fds)
  take_up-IsHeld path st crashed held clean = tt

  load_path-IsHeld :
      (path : List ℕ) (st : Loading)
      → IsHeld start st
      → Leaves (IsHeld start) (load_path env path st)
  unfolding load_path load_by_hand
  load_path-IsHeld path st (mappings, fds) = elim (Option-cases (system_image env path)) [
    | inl absent ↦
        rw (absent, load_path)
          (take_up-IsHeld path st
            (load_library_manually env.kernel env.files path new_dep st.process) (mappings, fds)
            (load_library_manually-IsClean env.kernel sound env.files path new_dep st.process
              stays))
    | inr (image, present) ↦
        rw (present, load_path)
          (
            mappings
                ∙ sym (
                    held-append st.linker.deps (record new_dep { image = some image })
                      start.space.mapped),
            fds,
          )
  ]

  load_name-IsHeld :
      (name : List ℕ) (st : Loading)
      → IsHeld start st
      → Leaves (IsHeld start) (load_name env name st)
  unfolding load_name
  load_name-IsHeld name st held_now = elim (Option-cases (find_library_path env.access name)) [
    | inl missing ↦ rw (missing, load_name) held_now
    | inr (path, there) ↦ elim (Bool-cases (is_loaded st.linker path)) [
      | inl known ↦ rw (there, known, load_name) held_now
      | inr new ↦ rw (there, new, load_name) (load_path-IsHeld path st held_now)
    ]
  ]

  load_names-IsHeld :
      (rounds i : ℕ) (st : Loading)
      → IsHeld start st
      → Leaves (IsHeld start) (load_names env rounds i st)
  unfolding load_names
  load_names-IsHeld zero i st held_now = tt
  load_names-IsHeld (suc rounds) i st held_now =
      elim (Option-cases (get_elem? st.names.to_load i)) [
        | inl past ↦ rw (past, load_names) held_now
        | inr (name, here) ↦
            rw (here, load_names)
              (go (load_names-IsHeld rounds (i + 1)) (load_name env name st)
                (load_name-IsHeld name st held_now))
      ]
    where
      go :
          ((st' : Loading)
            → IsHeld start st'
            → Leaves (IsHeld start) (load_names env rounds (i + 1) st'))
          → (load : Load) → Leaves (IsHeld start) load
          → Leaves (IsHeld start) (elim load [
            | went_on st' ↦ load_names env rounds (i + 1) st'
            | gave_up st' ↦ gave_up st'
            | broken ↦ broken
            | endless ↦ endless
          ])
      go later (went_on st') h = later st' h
      go later (gave_up st') h = h
      go later broken h = tt
      go later endless h = tt

-- For files whose segments stay inside what is reserved for them, and a linker without
-- dependencies: whether loadDependencies answers true or false, an address is mapped only if it was
-- before or lies in the range of a dependency in the linker's list, which destroy unmaps, and every
-- file is closed.
pub load_dependencies-IsHeld :
    (env : Loader) (rounds : ℕ) (image : ElfImage) (l : Linker) (p : Process)
    → IsKernel env.kernel
    → StaysInside env.kernel env.files
    → l.deps ≡ []
    → Leaves (IsHeld p) (load_dependencies env rounds image l p)
unfolding load_dependencies held
load_dependencies-IsHeld env rounds image l p sound stays fresh =
    let empty : Names = record { loaded_names = []; to_load = [] } in
    elim (Option-cases (collect_needed env.contents image empty)) [
      | inl past ↦ rw (past, load_dependencies) tt
      | inr (names, needed) ↦
          rw (needed, load_dependencies)
            (load_names-IsHeld env p sound stays rounds 0
              (record { linker = l; process = p; names = names })
              (ap (λ deps. held deps p.space.mapped) (sym fresh), refl))
    ]

-- ===== src/Linker/Library/Outcome.antt =====
-- What loadLibraryManually leaves open and mapped, on every path.
use so_load.Base.{
  ℕ, ◌+◌, ◌-◌, ◌^◌, ◌≤◌, ◌<◌, ◌≡◌, Bool, true, false, List, Option, some, All, arith, Bool-cases,
  Option-cases, inl, inr, ◌==◌, refl, ap, sym, ◌∙◌,
}
use so_load.Base.Words.{sub64}
use so_load.Image.{ElfEhdr, ElfPhdr}
use so_load.Linker.{LoadedDep}
use so_load.Linker.Segments.{Kernel, SegmentLoad, placed, failed, fault, within, map_range}
use so_load.Linker.Library.{
  ElfFile, Process, reserve, munmap, load_segments, LibraryLoad, loaded, not_loaded, crashed,
  place_segments, get_load_size, map_library, load_library_manually,
}
use so_load.Linker.Library.Mapped.{IsInside, Keeps, load_segments-Keeps}

-- What mmap promises of a place that it chooses: nothing is mapped there yet, and it ends below the
-- end of the address space.
pub record IsKernel (k : Kernel) : Type 0 where
  pub free :
      (m : ℕ → Bool) (size base a : ℕ)
      → k.mmap_reserve m size ≡ some base
      → base ≤ a
      → a < base + size
      → m a ≡ false
  pub room :
      (m : ℕ → Bool) (size base : ℕ) → k.mmap_reserve m size ≡ some base → base + size < 2 ^ 64

-- The segments of the files stay inside what getLoadSize reserves for them.
abbrev pub StaysInside : Kernel → (List ℕ → Option ElfFile) → Type 0
StaysInside k files =
    (path : List ℕ) (file : ElfFile) (eh : ElfEhdr) (phdrs : List ElfPhdr) (m : ℕ → Bool) (base : ℕ)
    → files path ≡ some file
    → file.ehdr ≡ some eh
    → file.phdrs_at eh.e_phoff eh.e_phnum ≡ some phdrs
    → k.mmap_reserve m (get_load_size k.page_size phdrs).0 ≡ some base
    → All
        (IsInside k base (get_load_size k.page_size phdrs).0
          (sub64 base (get_load_size k.page_size phdrs).1))
        phdrs

-- The descriptors that were open are open. A library that is loaded has mapped the range that its
-- LoadedDep says, where nothing was mapped before, and no other address; one that is not leaves
-- mapped what was.
abbrev pub IsClean : Process → LibraryLoad → Type 0
IsClean p (loaded base dep after) =
    (after.open_fds ≡ p.open_fds)
    × (after.space.mapped ≡ within base dep.map_size (λ a. true) p.space.mapped)
    × ((a : ℕ) → base ≤ a → a < base + dep.map_size → p.space.mapped a ≡ false)
    × (dep.map_base ≡ base)
    × (dep.is_manual_load ≡ true)
IsClean p (not_loaded dep after) =
    (after.open_fds ≡ p.open_fds) × (after.space.mapped ≡ p.space.mapped)
IsClean p crashed = Unit {0}

-- A range that is mapped where nothing was, and unmapped again.
pub within_undone :
    (base size : ℕ) (m : ℕ → Bool)
    → ((a : ℕ) → base ≤ a → a < base + size → m a ≡ false)
    → within base size (λ a. false) (within base size (λ a. true) m) ≡ m
unfolding within
within_undone base size m free = λ i a. at a i
  where
    at : (a : ℕ) → within base size (λ b. false) (within base size (λ b. true) m) a ≡ m a
    at a = let unmapped = free a in ground (arith, unmapped)

module _ (k : Kernel) (sound : IsKernel k) where
  place_segments-IsClean :
      (file : ElfFile) (phdrs : List ElfPhdr) (base min_vaddr : ℕ) (dep : LoadedDep)
      (p opened : Process)
      → opened.open_fds ≡ p.open_fds + 1
      → opened.space.mapped ≡ p.space.mapped
      → k.mmap_reserve opened.space.mapped dep.map_size ≡ some base
      → All (IsInside k base dep.map_size (sub64 base min_vaddr)) phdrs
      → IsClean p (place_segments k file phdrs base min_vaddr dep opened)
  unfolding place_segments munmap reserve map_range
  place_segments-IsClean file phdrs base min_vaddr dep p opened fds same reserve_there inside =
      let closed : opened.open_fds - 1 ≡ p.open_fds = omega (arith, fds) in
      let free : (a : ℕ) → base ≤ a → a < base + dep.map_size → p.space.mapped a ≡ false =
        λ a low high.
          ap (λ m. m a) (sym same) ∙ sound.free _ dep.map_size base a reserve_there low high in
      let reserved = reserve base dep.map_size opened in
      go closed free (load_segments k file.contents phdrs (sub64 base min_vaddr) reserved.space) (
        load_segments-Keeps k file.contents base dep.map_size p.space.mapped
          (sound.room _ dep.map_size base reserve_there) phdrs (sub64 base min_vaddr) reserved.space
          inside (ap (within base dep.map_size (λ a. true)) same))
    where
      go :
          opened.open_fds - 1 ≡ p.open_fds
          → ((a : ℕ) → base ≤ a → a < base + dep.map_size → p.space.mapped a ≡ false)
          → (load : SegmentLoad) → Keeps (within base dep.map_size (λ a. true) p.space.mapped) load
          → IsClean p (elim load [
            | placed space ↦
                loaded base
                  (record dep { is_manual_load = true; map_base = base })
                  (record opened { space = space; open_fds = opened.open_fds - 1 })
            | failed space ↦ not_loaded dep (record opened {
              space = record space { mapped = within base dep.map_size (λ a. false) space.mapped };
              open_fds = opened.open_fds - 1;
            })
            | fault ↦ crashed
          ])
      go closed free (placed space) h = (closed, h, free, refl, refl)
      go closed free (failed space) h = (
        closed,
        ap (within base dep.map_size (λ a. false)) h
            ∙ within_undone base dep.map_size p.space.mapped free,
      )
      go closed free fault h = tt

  -- For files whose segments stay inside what is reserved for them, loadLibraryManually closes the
  -- file on every path; a library that is loaded has mapped the range of the base and the size that
  -- its LoadedDep says, in which nothing was mapped, and no other address; one that is not loaded
  -- leaves mapped what was.
  pub load_library_manually-IsClean :
      (files : List ℕ → Option ElfFile) (path : List ℕ) (dep : LoadedDep) (p : Process)
      → StaysInside k files
      → IsClean p (load_library_manually k files path dep p)
  unfolding load_library_manually map_library
  load_library_manually-IsClean files path dep p stays = elim (Option-cases (files path)) [
    | inl absent ↦ rw (absent, load_library_manually) (refl, refl)
    | inr (file, opened) ↦ elim (Option-cases file.ehdr) [
      | inl short ↦ rw (opened, short, load_library_manually) (closed, refl)
      | inr (eh, header) ↦ elim (Option-cases (file.phdrs_at eh.e_phoff eh.e_phnum)) [
        | inl short ↦ rw (opened, header, short, load_library_manually) (closed, refl)
        | inr (phdrs, table) ↦
            rw (opened, header, table, load_library_manually)
              (mapped file phdrs (λ m base. stays path file eh phdrs m base opened header table))
      ]
    ]
  ]
    where
      closed : p.open_fds + 1 - 1 ≡ p.open_fds
      closed = omega arith

      mapped :
          (file : ElfFile) (phdrs : List ElfPhdr)
          → ((m : ℕ → Bool) (base : ℕ)
              → k.mmap_reserve m (get_load_size k.page_size phdrs).0 ≡ some base
              → All
                  (IsInside k base
                    (get_load_size k.page_size phdrs).0
                    (sub64 base (get_load_size k.page_size phdrs).1))
                  phdrs)
          → IsClean p (map_library k file phdrs dep (record p { open_fds = p.open_fds + 1 }))
      mapped file phdrs inside =
          let size = (get_load_size k.page_size phdrs).0 in
          elim (Bool-cases (size == 0)) [
            | inl empty ↦ rw (empty, map_library) (closed, refl)
            | inr some_size ↦ elim (Option-cases (k.mmap_reserve p.space.mapped size)) [
              | inl refused ↦ rw (some_size, refused, map_library) (closed, refl)
              | inr (base, reserved) ↦
                  rw (some_size, reserved, map_library)
                    (place_segments-IsClean file phdrs base (get_load_size k.page_size phdrs).1
                      (record dep { map_size = size }) p (record p { open_fds = p.open_fds + 1 })
                      refl refl reserved (inside p.space.mapped base reserved))
            ]
          ]

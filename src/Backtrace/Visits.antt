-- ===== src/Backtrace/Visits.antt =====
-- What customDlIteratePhdr shows to its callback, and what customDladdr answers.
use so_load.Base.{
  ℕ, ◌+◌, ◌*◌, ◌<◌, ◌≤◌, ◌≡◌, refl, ap, ◌∙◌, inl, inr, Bool, true, false, List, [], ◌∷◌, ◌++◌,
  Option, none, some, ◌==◌, if◌then◌else◌, set, length, get_elem?, arith, Option-cases, Bool-cases,
  ==_iff,
}
use so_load.Base.Words.{u64, sub64}
use so_load.Base.Slots.{
  find_slot, find_slot-Found, find_slot-none, find_slot-set, AllFrom, AllFrom-map,
}
use so_load.Image.{ElfImage, ElfPhdr, pt_load}
use so_load.Image.Lookup.{get_symbol_at}
use so_load.Backtrace.{
  BacktraceManager, Runtime, LibInfo, DlPhdrInfo, DlInfo, is_unused, new_lib, lib_at, lib_info,
  register_library, iterate_libs, custom_dl_iterate_phdr, in_segment, in_lib, custom_dladdr,
  valid_symbol,
}
use so_load.Backtrace.Registry.{lib_at-set, lib_at_held, register_library_placed}

-- The callback on each item in order, up to the first call that does not answer 0.
unfoldable pub visit {ℓ} : {S : Type ℓ} → (DlPhdrInfo → S → ℕ × S) → List DlPhdrInfo → S → ℕ × S
visit callback [] arg = (0, arg)
visit callback (info ∷ infos) arg =
    let called = callback info arg in
    let rest = visit callback infos called.1 in if called.0 == 0 then rest else called

-- The libraries in use, as the callback sees them.
unfoldable pub visible : List LibInfo → List DlPhdrInfo
visible [] = []
visible (lib ∷ libs) = if lib.in_use then lib.phdr_info ∷ visible libs else visible libs

module _ {ℓ} {S : Type ℓ} (callback : DlPhdrInfo → S → ℕ × S) where
  iterate_libs-visit :
      (libs : List LibInfo) (arg : S)
      → iterate_libs callback libs 0 arg ≡ visit callback (visible libs) arg
  unfolding iterate_libs visit visible
  iterate_libs-visit [] arg = refl
  iterate_libs-visit (lib ∷ libs) arg = elim (Bool-cases lib.in_use) [
    | inr unused ↦ rw (unused, iterate_libs, visible) (iterate_libs-visit libs arg)
    | inl used ↦ elim (Bool-cases ((callback lib.phdr_info arg).0 == 0)) [
      | inr stops ↦ rw (used, visible, visit, stops) refl
      | inl goes_on ↦
          let zero_there = (==_iff (callback lib.phdr_info arg).0 0).0 goes_on in
          rw (used, visible, visit, goes_on, zero_there)
            (iterate_libs-visit libs (callback lib.phdr_info arg).1)
    ]
  ]

  visit-append :
      (xs ys : List DlPhdrInfo) (arg : S)
      → (if (visit callback xs arg).0 == 0
          then visit callback ys (visit callback xs arg).1
          else visit callback xs arg)
        ≡ visit callback (xs ++ ys) arg
  unfolding visit
  visit-append [] ys arg = refl
  visit-append (x ∷ xs) ys arg = elim (Bool-cases ((callback x arg).0 == 0)) [
    | inr stops ↦ rw (stops, visit) (rw stops refl)
    | inl goes_on ↦ rw (goes_on, visit) (visit-append xs ys (callback x arg).1)
  ]

  after_system :
      (libs : List LibInfo) (v : ℕ × S)
      → (if v.0 == 0 then iterate_libs callback libs v.0 v.1 else v)
        ≡ (if v.0 == 0 then visit callback (visible libs) v.1 else v)
  after_system libs v = elim (Bool-cases (v.0 == 0)) [
    | inr stops ↦ rw (stops) refl
    | inl goes_on ↦
        let zero_there = (==_iff v.0 0).0 goes_on in
        rw (goes_on, zero_there) (iterate_libs-visit libs v.1)
  ]

  -- Where the system's dl_iterate_phdr visits the system's libraries in order, the hook visits
  -- these and then the registered libraries in the order of their slots, as one list.
  pub custom_dl_iterate_phdr-visit :
      (original : (DlPhdrInfo → S → ℕ × S) → S → ℕ × S) (system : List DlPhdrInfo)
      (t : BacktraceManager) (arg : S)
      → (original callback arg ≡ visit callback system arg)
      → custom_dl_iterate_phdr (some original) t callback arg
        ≡ visit callback (system ++ visible t.libs) arg
  unfolding custom_dl_iterate_phdr
  custom_dl_iterate_phdr-visit original system t arg documented =
      after_system t.libs (original callback arg)
      ∙ ap (λ (v : ℕ × S). if v.0 == 0 then visit callback (visible t.libs) v.1 else v) documented
      ∙ visit-append system (visible t.libs) arg

-- The address is in a loaded segment of a library in use.
pub record IsInside (addr : ℕ) (lib : LibInfo) : Type 0 where
  pub used : lib.in_use ≡ true
  pub place : ℕ
  pub phdr : ElfPhdr
  pub there : get_elem? lib.phdr_info.dlpi_phdr place ≡ some phdr
  pub loaded : phdr.p_type ≡ pt_load
  pub after : u64 (lib.phdr_info.dlpi_addr + phdr.p_vaddr) ≤ addr
  pub before : addr < u64 (u64 (lib.phdr_info.dlpi_addr + phdr.p_vaddr) + phdr.p_memsz)

in_lib-IsInside : (addr : ℕ) (lib : LibInfo) → in_lib addr lib ≡ true → IsInside addr lib
unfolding in_lib in_segment
in_lib-IsInside addr lib e =
    elim (Option-cases
      (find_slot (in_segment lib.phdr_info.dlpi_addr addr) 0 0 lib.phdr_info.dlpi_phdr)) [
        | inl nowhere_in ↦ absurd (let e' = rw (nowhere_in, in_lib) at e in ground (arith, e'))
        | inr (k, found) ↦
            let f =
              find_slot-Found (in_segment lib.phdr_info.dlpi_addr addr) 0 0 lib.phdr_info.dlpi_phdr
                found in
            let h = f.passes in
            record {
              used = ground (arith, e);
              place = f.place;
              phdr = f.item;
              there = f.holds;
              loaded = ground (arith, h);
              after = ground (arith, h);
              before = ground (arith, h);
            }
      ]

custom_dladdr_at :
    (original : ℕ → Option DlInfo) (t : BacktraceManager) (addr k : ℕ)
    → original addr ≡ none
    → find_slot (in_lib addr) 0 0 t.libs ≡ some k
    → custom_dladdr original t addr ≡ some (lib_info (lib_at t.libs k) addr)
unfolding custom_dladdr
custom_dladdr_at original t addr k unknown found = ground (arith, unknown, found)

-- What the hook may answer for an address that the system's dladdr does not know.
pub data Answered (original : ℕ → Option DlInfo) (t : BacktraceManager) (addr : ℕ) : Type 0 where
  by_system :
      (info : DlInfo)
      → original addr ≡ some info
      → custom_dladdr original t addr ≡ some info
      → Answered original t addr
  by_library :
      (k : ℕ) (lib : LibInfo)
      → original addr ≡ none
      → get_elem? t.libs k ≡ some lib
      → IsInside addr lib
      → custom_dladdr original t addr ≡ some (lib_info lib addr)
      → Answered original t addr
  by_nobody :
      original addr ≡ none
      → AllFrom (λ k lib. in_lib addr lib ≡ false) 0 t.libs
      → custom_dladdr original t addr ≡ none
      → Answered original t addr

-- dladdr's hook answers what the system's dladdr does; where that knows nothing, a library that
-- has the address in a loaded segment, with its name and its load address; and it answers
-- nothing only where no library has the address.
pub custom_dladdr_outcome :
    (original : ℕ → Option DlInfo) (t : BacktraceManager) (addr : ℕ) → Answered original t addr
unfolding custom_dladdr
custom_dladdr_outcome original t addr = elim (Option-cases (original addr)) [
  | inr (info, known) ↦ by_system info known (ground (arith, known))
  | inl unknown ↦ elim (Option-cases (find_slot (in_lib addr) 0 0 t.libs)) [
    | inl nobody ↦
        by_nobody unknown
          (AllFrom-map (λ k lib h. h (omega arith)) 0 t.libs
            (find_slot-none (in_lib addr) 0 0 t.libs nobody))
          (ground (arith, unknown, nobody))
    | inr (k, found) ↦
        let f = find_slot-Found (in_lib addr) 0 0 t.libs found in
        let same : k ≡ f.place = omega (arith, f.index) in
        let held : get_elem? t.libs k ≡ some f.item = ap (get_elem? t.libs) same ∙ f.holds in
        by_library k f.item unknown held (in_lib-IsInside addr f.item f.passes) (
          custom_dladdr_at original t addr k unknown found
          ∙ ap (λ (v : LibInfo). some (lib_info v addr)) (lib_at_held t.libs k f.item held))
  ]
]

new_lib-in_lib :
    (r : Runtime) (image : ElfImage) (old : LibInfo) (addr place : ℕ)
    → find_slot (in_segment (sub64 image.base image.bias) addr) 0 0 image.phdrs ≡ some place
    → in_lib addr (new_lib r image old) ≡ true
unfolding in_lib new_lib
new_lib-in_lib r image old addr place here = ground (arith, here)

-- An address in a loaded segment of an image, which neither the system nor a registered library
-- knows, is answered with strdup's copy of the image's path, which is nullptr where there is none,
-- and the load address once the image is registered.
pub custom_dladdr-register :
    (original : ℕ → Option DlInfo) (r : Runtime) (t : BacktraceManager) (image : ElfImage)
    (addr k : ℕ)
    → original addr ≡ none
    → find_slot (in_lib addr) 0 0 t.libs ≡ none
    → find_slot is_unused 0 0 t.libs ≡ some k
    → r.malloc (image.header.e_phnum * 56) ≡ true
    → (place : ℕ)
    → (find_slot (in_segment (sub64 image.base image.bias) addr) 0 0 image.phdrs ≡ some place)
    → custom_dladdr original (register_library r t image).0 addr
      ≡ some (record {
        dli_fname = r.strdup image.path;
        dli_fbase = sub64 image.base image.bias;
        dli_symbol = valid_symbol (get_symbol_at image addr);
      })
unfolding new_lib lib_info
custom_dladdr-register original r t image addr k unknown nobody slot memory place here =
    let lib = new_lib r image (lib_at t.libs k) in
    let f = find_slot-Found is_unused 0 0 t.libs slot in
    let inside : k < length t.libs = omega (arith, f.index, f.inside) in
    let u : BacktraceManager = record t { libs = set t.libs k lib } in
    let found =
      find_slot-set (in_lib addr) 0 0 k t.libs lib nobody
        (new_lib-in_lib r image (lib_at t.libs k) addr place here) (omega arith) inside
      ∙ ap some (omega arith) in
    ap (λ (p : BacktraceManager × Bool). custom_dladdr original p.0 addr)
      (register_library_placed r t image k slot memory)
    ∙ custom_dladdr_at original u addr k unknown found
    ∙ ap (λ (v : LibInfo). some (lib_info v addr)) (lib_at-set t.libs k lib inside)

-- ===== src/Linker/Dependencies.antt =====
-- findLibraryPath, isLoaded and loadDependencies of src/linker.cpp. Names and paths are lists of
-- characters.
pub mod Mappings
pub mod Distinct
pub mod Ends
use so_load.Base.{
  ℕ, zero, suc, ◌+◌, ◌-◌, Bool, true, false, not, ◌&&◌, ◌||◌, List, [], ◌∷◌, ◌++◌, Option, none,
  some, ◌>>=◌, ◌==◌, if◌then◌else◌, get_elem?,
}
use so_load.Image.{ElfImage, at_vaddr}
use so_load.Image.Lookup.{beq_bytes, c_string}
use so_load.Linker.{Linker, LoadedDep}
use so_load.Linker.Segments.{Kernel}
use so_load.Linker.Library.{
  ElfFile, Process, munmap, LibraryLoad, loaded, not_loaded, crashed, load_library_manually,
}
use so_load.Linker.Tables.{ElfDyn, find_dynamic}
use so_load.Linker.Relocate.{Contents}

-- The directories in the order of the array, from the one of bionic to the one of system_ext.
unfoldable pub search_paths : List (List ℕ)
search_paths =
    (47 ∷ 97 ∷ 112 ∷ 101 ∷ 120 ∷ 47 ∷ 99 ∷ 111 ∷ 109 ∷ 46 ∷ 97 ∷ 110 ∷ 100 ∷ 114 ∷ 111 ∷ 105 ∷ 100
      ∷ 46 ∷ 114 ∷ 117 ∷ 110 ∷ 116 ∷ 105 ∷ 109 ∷ 101 ∷ 47 ∷ 108 ∷ 105 ∷ 98 ∷ 54 ∷ 52 ∷ 47 ∷ 98 ∷ 105
      ∷ 111 ∷ 110 ∷ 105 ∷ 99 ∷ 47 ∷ [])
    ∷ (47 ∷ 97 ∷ 112 ∷ 101 ∷ 120 ∷ 47 ∷ 99 ∷ 111 ∷ 109 ∷ 46 ∷ 97 ∷ 110 ∷ 100 ∷ 114 ∷ 111 ∷ 105 ∷ 100
        ∷ 46 ∷ 114 ∷ 117 ∷ 110 ∷ 116 ∷ 105 ∷ 109 ∷ 101 ∷ 47 ∷ 108 ∷ 105 ∷ 98 ∷ 54 ∷ 52 ∷ 47 ∷ [])
    ∷ (47 ∷ 97 ∷ 112 ∷ 101 ∷ 120 ∷ 47 ∷ 99 ∷ 111 ∷ 109 ∷ 46 ∷ 97 ∷ 110 ∷ 100 ∷ 114 ∷ 111 ∷ 105 ∷ 100
        ∷ 46 ∷ 97 ∷ 114 ∷ 116 ∷ 47 ∷ 108 ∷ 105 ∷ 98 ∷ 54 ∷ 52 ∷ 47 ∷ [])
    ∷ (47 ∷ 115 ∷ 121 ∷ 115 ∷ 116 ∷ 101 ∷ 109 ∷ 47 ∷ 108 ∷ 105 ∷ 98 ∷ 54 ∷ 52 ∷ 47 ∷ [])
    ∷ (47 ∷ 115 ∷ 121 ∷ 115 ∷ 116 ∷ 101 ∷ 109 ∷ 47 ∷ 108 ∷ 105 ∷ 98 ∷ 54 ∷ 52 ∷ 47 ∷ 118 ∷ 110 ∷ 100
        ∷ 107 ∷ 47 ∷ [])
    ∷ (47 ∷ 115 ∷ 121 ∷ 115 ∷ 116 ∷ 101 ∷ 109 ∷ 47 ∷ 108 ∷ 105 ∷ 98 ∷ 54 ∷ 52 ∷ 47 ∷ 118 ∷ 110 ∷ 100
        ∷ 107 ∷ 45 ∷ 115 ∷ 112 ∷ 47 ∷ [])
    ∷ (47 ∷ 118 ∷ 101 ∷ 110 ∷ 100 ∷ 111 ∷ 114 ∷ 47 ∷ 108 ∷ 105 ∷ 98 ∷ 54 ∷ 52 ∷ 47 ∷ [])
    ∷ (47 ∷ 118 ∷ 101 ∷ 110 ∷ 100 ∷ 111 ∷ 114 ∷ 47 ∷ 108 ∷ 105 ∷ 98 ∷ 54 ∷ 52 ∷ 47 ∷ 118 ∷ 110 ∷ 100
        ∷ 107 ∷ 47 ∷ [])
    ∷ (47 ∷ 118 ∷ 101 ∷ 110 ∷ 100 ∷ 111 ∷ 114 ∷ 47 ∷ 108 ∷ 105 ∷ 98 ∷ 54 ∷ 52 ∷ 47 ∷ 118 ∷ 110 ∷ 100
        ∷ 107 ∷ 45 ∷ 115 ∷ 112 ∷ 47 ∷ [])
    ∷ (47 ∷ 111 ∷ 100 ∷ 109 ∷ 47 ∷ 108 ∷ 105 ∷ 98 ∷ 54 ∷ 52 ∷ 47 ∷ [])
    ∷ (47 ∷ 112 ∷ 114 ∷ 111 ∷ 100 ∷ 117 ∷ 99 ∷ 116 ∷ 47 ∷ 108 ∷ 105 ∷ 98 ∷ 54 ∷ 52 ∷ 47 ∷ [])
    ∷ (47 ∷ 115 ∷ 121 ∷ 115 ∷ 116 ∷ 101 ∷ 109 ∷ 95 ∷ 101 ∷ 120 ∷ 116 ∷ 47 ∷ 108 ∷ 105 ∷ 98 ∷ 54 ∷ 52
        ∷ 47 ∷ [])
    ∷ []

-- "libc++.so", and its two places.
abbrev libcxx_name : List ℕ
libcxx_name = (108 ∷ 105 ∷ 98 ∷ 99 ∷ 43 ∷ 43 ∷ 46 ∷ 115 ∷ 111 ∷ [])

abbrev libcxx_in_apex : List ℕ
libcxx_in_apex =
    (47 ∷ 97 ∷ 112 ∷ 101 ∷ 120 ∷ 47 ∷ 99 ∷ 111 ∷ 109 ∷ 46 ∷ 97 ∷ 110 ∷ 100 ∷ 114 ∷ 111 ∷ 105 ∷ 100
      ∷ 46 ∷ 114 ∷ 117 ∷ 110 ∷ 116 ∷ 105 ∷ 109 ∷ 101 ∷ 47 ∷ 108 ∷ 105 ∷ 98 ∷ 54 ∷ 52 ∷ 47 ∷ 108
      ∷ 105 ∷ 98 ∷ 99 ∷ 43 ∷ 43 ∷ 46 ∷ 115 ∷ 111 ∷ [])

abbrev libcxx_in_system : List ℕ
libcxx_in_system =
    (47 ∷ 115 ∷ 121 ∷ 115 ∷ 116 ∷ 101 ∷ 109 ∷ 47 ∷ 108 ∷ 105 ∷ 98 ∷ 54 ∷ 52 ∷ 47 ∷ 108 ∷ 105 ∷ 98
      ∷ 99 ∷ 43 ∷ 43 ∷ 46 ∷ 115 ∷ 111 ∷ [])

-- The first directory that has the name.
unfoldable pub search_in : (List ℕ → Bool) → List (List ℕ) → List ℕ → Option (List ℕ)
search_in access [] name = none
search_in access (dir ∷ dirs) name =
    let rest = search_in access dirs name in
    if access (dir ++ name) then some (dir ++ name) else rest

abbrev pub is_absolute : List ℕ → Bool
is_absolute [] = false
is_absolute (c ∷ name) = c == 47

-- findLibraryPath; `access` says whether a path is there.
unfoldable pub find_library_path : (List ℕ → Bool) → List ℕ → Option (List ℕ)
unfolding search_paths search_in
find_library_path access name =
    if is_absolute name
    then (if access name then some name else none)
    else if beq_bytes name libcxx_name && access libcxx_in_apex
    then some libcxx_in_apex
    else if beq_bytes name libcxx_name && access libcxx_in_system
    then some libcxx_in_system
    else search_in access search_paths name

-- isLoaded.
unfoldable pub has_path : List ℕ → Option ElfImage → Bool
has_path path none = false
has_path path (some image) = beq_bytes image.path path

unfoldable pub any_has_path : List ℕ → List LoadedDep → Bool
any_has_path path [] = false
any_has_path path (dep ∷ deps) = has_path path dep.image || any_has_path path deps

unfoldable pub is_loaded : Linker → List ℕ → Bool
unfolding has_path any_has_path
is_loaded l path = has_path path l.main_image || any_has_path path l.deps

-- The set and the list of names.
pub record Names : Type 0 where
  pub loaded_names : List (List ℕ)
  pub to_load : List (List ℕ)

unfoldable pub has_name : List ℕ → List (List ℕ) → Bool
has_name name [] = false
has_name name (n ∷ names) = beq_bytes name n || has_name name names

-- names.insert, and push_back of a new name.
unfoldable pub add_name : List ℕ → Names → Names
unfolding has_name
add_name name ns =
    if has_name name ns.loaded_names
    then ns
    else record { loaded_names = name ∷ ns.loaded_names; to_load = ns.to_load ++ (name ∷ []) }

-- The first DT_STRTAB of a dynamic table, 0 without one; `none` is a table without an end.
unfoldable pub find_strtab : ElfImage → List ElfDyn → Option ℕ
find_strtab image [] = none
find_strtab image (d ∷ ds) =
    let rest = find_strtab image ds in
    if d.d_tag == 0 then some 0 else if d.d_tag == 5 then some (at_vaddr image d.d_un) else rest

-- The DT_NEEDED entries; `none` is a read behind a table.
unfoldable pub add_needed : List ℕ → List ElfDyn → Names → Option Names
unfolding add_name
add_needed strtab [] ns = none
add_needed strtab (d ∷ ds) ns =
    let here : Option Names =
      c_string strtab d.d_un >>= (λ name. add_needed strtab ds (add_name name ns)) in
    let rest = add_needed strtab ds ns in
    if d.d_tag == 0 then some ns else if d.d_tag == 1 then here else rest

-- collectNeeded, for an image with a dynamic table.
unfoldable pub collect_from : Contents → ElfImage → List ElfDyn → Names → Option Names
unfolding find_strtab add_needed
collect_from contents image dyn ns = find_strtab image dyn >>= (λ strtab.
    if strtab == 0
    then elim image.strtab_start [ none ↦ some ns | some own ↦ add_needed own dyn ns ]
    else add_needed (contents.bytes_at strtab) dyn ns)

unfoldable pub collect_needed : Contents → ElfImage → Names → Option Names
unfolding collect_from find_dynamic
collect_needed contents image ns =
    if image.header.e_phoff == 0 then some ns else elim (find_dynamic image.phdrs) [
      | none ↦ some ns
      | some phdr ↦ collect_from contents image (contents.dyn_at (at_vaddr image phdr.p_vaddr)) ns
    ]

-- What loadDependencies works with: the file system, the kernel, ElfImage::create with 0 for
-- nullptr, and the tables of the images in memory.
pub record Loader : Type 0 where
  pub kernel : Kernel
  pub access : List ℕ → Bool
  pub files : List ℕ → Option ElfFile
  pub create : List ℕ → ℕ → Option ElfImage
  pub contents : Contents

pub record Loading : Type 0 where
  pub linker : Linker
  pub process : Process
  pub names : Names

-- How one round or the whole loop ends: it goes on, or has come to its end; a return of false; a
-- read behind a table or a write that faults; or the rounds are used up.
pub data Load : Type 0 where
  went_on gave_up : Loading → Load
  broken endless : Load

abbrev pub new_dep : LoadedDep
new_dep = record { image = none; is_manual_load = false; map_base = 0; map_size = 0 }

abbrev pub push_dep : LoadedDep → Loading → Loading
push_dep dep st =
    let l = st.linker in record st { linker = record l { deps = l.deps ++ (dep ∷ []) } }

-- A library that the system has loaded.
unfoldable pub system_image : Loader → List ℕ → Option ElfImage
system_image env path =
    env.create path 0 >>= (λ image. if image.base == 0 then none else some image)

-- The image of a library that is mapped, and the names it needs.
unfoldable pub adopt : Loader → List ℕ → ℕ → LoadedDep → Loading → Load
unfolding munmap collect_needed
adopt env path base dep st = elim (env.create path base) [
  | none ↦ gave_up (record st { process = munmap base dep.map_size st.process })
  | some image ↦ elim (collect_needed env.contents image st.names) [
    | none ↦ broken
    | some names ↦ went_on (
        push_dep (record dep { image = some image; is_manual_load = true })
          (record st { names = names }))
  ]
]

-- What follows loadLibraryManually.
unfoldable pub take_up : Loader → List ℕ → Loading → LibraryLoad → Load
unfolding adopt
take_up env path st (loaded base dep process) =
    adopt env path base dep (record st { process = process })
take_up env path st (not_loaded dep process) = gave_up (record st { process = process })
take_up env path st crashed = broken

unfoldable pub load_by_hand : Loader → List ℕ → Loading → Load
unfolding load_library_manually take_up
load_by_hand env path st =
    take_up env path st (load_library_manually env.kernel env.files path new_dep st.process)

unfoldable pub load_path : Loader → List ℕ → Loading → Load
unfolding system_image load_by_hand
load_path env path st = elim (system_image env path) [
  | some image ↦ went_on (push_dep (record new_dep { image = some image }) st)
  | none ↦ load_by_hand env path st
]

-- One round of the loop. A library that is not found is skipped.
unfoldable pub load_name : Loader → List ℕ → Loading → Load
unfolding find_library_path is_loaded load_path
load_name env name st = elim (find_library_path env.access name) [
  | none ↦ went_on st
  | some path ↦ if is_loaded st.linker path then went_on st else load_path env path st
]

-- The loop over to_load, which grows while it runs.
unfoldable pub load_names : Loader → ℕ → ℕ → Loading → Load
load_names env zero i st = endless
load_names env (suc rounds) i st = elim (get_elem? st.names.to_load i) [
  | none ↦ went_on st
  | some name ↦ elim (load_name env name st) [
    | went_on st' ↦ load_names env rounds (i + 1) st'
    | gave_up st' ↦ gave_up st'
    | broken ↦ broken
    | endless ↦ endless
  ]
]

-- loadDependencies of a linker with the main image `image`.
unfoldable pub load_dependencies : Loader → ℕ → ElfImage → Linker → Process → Load
unfolding collect_needed load_names load_name
load_dependencies env rounds image l p =
    elim (collect_needed env.contents image (record { loaded_names = []; to_load = [] })) [
      | none ↦ broken
      | some names ↦ load_names env rounds 0 (record { linker = l; process = p; names = names })
    ]

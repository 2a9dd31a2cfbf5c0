-- ===== src/Linker/Runs/Mapping/Loading.antt =====
-- A library that needs another, and the theorems on the loading of its dependencies.
use mathlib.Core.Path.{subst}
use so_load.Linker.Dependencies.{has_name, endless}
use so_load.Linker.Dependencies.Ends.{load_dependencies_ends}
use so_load.Linker.Tables.{find_dynamic}
use so_load.Linker.Dependencies.{Names}
use so_load.Linker.Library.Outcome.{StaysInside}
use so_load.Base.{Bool-cases, inl, inr, true}
use so_load.Base.{
  ◌≢◌, All, sym, arith, ℕ, ◌≡◌, refl, List, [], ◌∷◌, ◌++◌, none, some, ◌==◌, if◌then◌else◌,
}
use so_load.Image.{ElfImage, ElfPhdr, at_vaddr}
use so_load.Image.Lookup.{beq_bytes, c_string}
use so_load.Image.Runs.{sample_image}
use so_load.Linker.{Linker}
use so_load.Linker.Runs.{small_linker}
use so_load.Linker.Runs.Mapping.{
  kernel-IsKernel, library_file-StaysInside, kernel, library_file, process,
}
use so_load.Linker.Tables.{ElfDyn}
use so_load.Linker.Dependencies.{Loader, collect_needed, find_library_path, load_dependencies}
use so_load.Linker.Dependencies.Mappings.{Leaves, IsHeld, load_dependencies-IsHeld}
use so_load.Linker.Dependencies.Distinct.{KeepsNames, load_dependencies-KeepsNames}

-- "liba.so", which stands in the directory of the system.
abbrev liba : List ℕ
liba = 108 ∷ 105 ∷ 98 ∷ 97 ∷ 46 ∷ 115 ∷ 111 ∷ []

abbrev liba_path : List ℕ
liba_path = 47 ∷ 115 ∷ 121 ∷ 115 ∷ 116 ∷ 101 ∷ 109 ∷ 47 ∷ 108 ∷ 105 ∷ 98 ∷ 54 ∷ 52 ∷ 47 ∷ liba

abbrev dynamic_segment : ElfPhdr
dynamic_segment = record {
  p_type = 2;
  p_flags = 6;
  p_offset = 0x5000;
  p_vaddr = 0x5000;
  p_filesz = 0x30;
  p_memsz = 0x30;
  p_align = 8;
}

abbrev needing_image : ElfImage
needing_image = record sample_image { phdrs = dynamic_segment ∷ [] }

-- The table names "liba.so" twice.
abbrev needing : List ElfDyn
needing =
    record { d_tag = 5; d_un = 0x200 }
    ∷ record { d_tag = 1; d_un = 1 }
    ∷ record { d_tag = 1; d_un = 1 }
    ∷ record { d_tag = 0; d_un = 0 }
    ∷ []

abbrev env : Loader
unfolding beq_bytes
env = record {
  kernel = kernel;
  access = λ path. beq_bytes path liba_path;
  files = λ path. if beq_bytes path liba_path then some library_file else none;
  create = λ path base.
      if base == 0
      then none
      else some (record sample_image { self = 44; path = path; base = base });
  contents = record {
    dyn_at = λ a. needing;
    rela_at = λ a. [];
    rel_at = λ a. [];
    words_at = λ a. [];
    bytes_at = λ a. 0 ∷ (liba ++ (0 ∷ []));
    syms_at = λ a. [];
  };
}

abbrev new_linker : Linker
new_linker = record small_linker { main_image = some needing_image; deps = [] }

liba_found : find_library_path env.access liba ≡ some liba_path
unfolding find_library_path env
liba_found = refl

liba_needed :
    collect_needed env.contents needing_image (record { loaded_names = []; to_load = [] })
    ≡ some (record { loaded_names = liba ∷ []; to_load = liba ∷ [] })
unfolding collect_needed env at_vaddr c_string
liba_needed = refl

env-StaysInside : StaysInside kernel env.files
unfolding env
env-StaysInside = library_file-StaysInside env.files (λ path file opened.
    elim (Bool-cases (beq_bytes path liba_path)) [
      | inl there ↦ let opened' = rw there at opened in cc
      | inr other ↦ let opened' = rw other at opened in cc
    ])

load_dependencies-IsHeld_example :
    Leaves (IsHeld process) (load_dependencies env 4 needing_image new_linker process)
unfolding env
load_dependencies-IsHeld_example =
    load_dependencies-IsHeld env 4 needing_image new_linker process kernel-IsKernel env-StaysInside
      refl

load_dependencies-KeepsNames_example :
    Leaves KeepsNames (load_dependencies env 4 needing_image new_linker process)
load_dependencies-KeepsNames_example =
    load_dependencies-KeepsNames env 4 needing_image new_linker process

-- An image that env.create makes has no dynamic table, so it adds no name.
made_adds :
    (path : List ℕ) (base : ℕ) (made : ElfImage) (ns after : Names)
    → env.create path base ≡ some made
    → collect_needed env.contents made ns ≡ some after
    → after ≡ ns
unfolding env collect_needed find_dynamic
made_adds path base made ns after is_made run = elim (Bool-cases (base == 0)) [
  | inl null ↦ let nothing = rw null at is_made in cc
  | inr there ↦
      let created = rw there at is_made in
      let is : made ≡ record sample_image { self = 44; path = path; base = base } = cc in
      let same = rw is at run in cc
]

-- The names are those of "liba.so" alone: its own image has no dynamic table.
load_dependencies_ends_example : load_dependencies env 2 needing_image new_linker process ≢ endless
unfolding has_name beq_bytes
load_dependencies_ends_example =
    load_dependencies_ends env 2 needing_image new_linker process (liba ∷ [])
      (λ names needed.
        let same : names ≡ record { loaded_names = liba ∷ []; to_load = liba ∷ [] } =
          cc (needed, liba_needed) in
        subst (λ (ns : Names). All (λ name. has_name name (liba ∷ []) ≡ true) ns.to_load) (sym same)
          (refl, tt))
      (λ path base made ns after is_made among run.
        subst (λ (x : Names). All (λ name. has_name name (liba ∷ []) ≡ true) x.to_load)
          (sym (made_adds path base made ns after is_made run)) among)
      (omega arith)

-- ===== src/Linker.antt =====
-- include/linker.hpp: the state of the class Linker.
pub mod Symbols
pub mod Preference
pub mod Cache
pub mod Life
pub mod Ending
pub mod Resolver
pub mod Memory
pub mod Relr
pub mod Tables
pub mod Packed
pub mod Relocation
pub mod Writes
pub mod Relocate
pub mod Pages
pub mod Segments
pub mod Library
pub mod Dependencies
pub mod Protection
mod Runs
use so_load.Base.{ℕ, List, Option, Bool, not, none, ◌==◌}
use so_load.Image.{ElfImage}

pub record LoadedDep : Type 0 where
  pub image : Option ElfImage
  pub is_manual_load : Bool
  pub map_base : ℕ
  pub map_size : ℕ

-- The image is known by its address, `self`. Nothing sets the member `type` but to 0.
pub record SymbolLookup : Type 0 where
  pub address : ℕ
  pub image : Option ℕ
  pub bind : ℕ

abbrev pub no_symbol : SymbolLookup
no_symbol = record { address = 0; image = none; bind = 0 }

abbrev pub valid : SymbolLookup → Bool
valid s = not (s.address == 0)

pub record SymbolCacheEntry : Type 0 where
  pub address : ℕ
  pub image : Option ℕ
  pub found : Bool

-- The map symbol_cache_ is the list of its entries, the newest first.
pub record Linker : Type 0 where
  pub main_image : Option ElfImage
  pub deps : List LoadedDep
  pub main_map_size : ℕ
  pub is_linked : Bool
  pub symbol_cache : List (List ℕ × SymbolCacheEntry)
  pub tls_indices : List ℕ

-- ===== src/Linker/Runs.antt =====
-- A linker with one image and one dependency, and the theorems on it at concrete inputs.
mod Images
mod Mapping
use so_load.Linker.Tables.{fallback_tags}
use so_load.Linker.Memory.{read_word}
use so_load.Base.{ℕ, ◌+◌, ◌*◌, arith, ◌++◌, ◌≡◌, refl, true, false, List, [], ◌∷◌, some, All}
use so_load.Image.{ElfImage, ElfSym}
use so_load.Image.Lookup.{find_symbol_address}
use so_load.Image.Runs.{sample_image}
use so_load.Linker.{Linker, SymbolLookup}
use so_load.Linker.Symbols.{
  Resolution, images, find_symbol, find_symbol_cached, cache_find, cached, cache_entry,
}
use so_load.Linker.Preference.{definitions, preferred, find_symbol-preferred}
use so_load.Tls.{new_manager}
use so_load.Backtrace.{Runtime, new_backtrace}
use so_load.Linker.Life.{Event, called, unmapped, World, destroy, init, emptied}
use so_load.Linker.Ending.{IsCall, IsRelease, destroy_order, destroy_twice, stale_cache}
use so_load.Linker.Relr.{
  process_relr, relocate_all, relr_offsets, bit_offsets, process_relr-relr_offsets,
}
use so_load.Base.Words.{u64}
use so_load.Image.Lookup.{c_string}
use so_load.Linker.Relocation.{Relocation, Relocating, Surroundings, hooked, process_relocation}
use so_load.Linker.Writes.{process_relocation_frame, process_relocation-find_symbol}
use so_load.Linker.Cache.{IsCoherent, unbound, empty-IsCoherent, find_symbol_cached-IsCoherent}

abbrev resolution : Resolution
resolution = record { resolve = λ a. a; rounds = 16; dlsym = λ name. 0 }

-- The symbols of the dependency: "a" and "b" as weak functions.
abbrev weak_function : ℕ → ℕ → ElfSym
weak_function name value = record {
  st_name = name;
  st_info = 0x22;
  st_shndx = 1;
  st_value = value;
  st_size = 8;
}

abbrev weak_image : ElfImage
weak_image = record sample_image {
  self = 22;
  base = 0x90000;
  dynsym_start = some (
      record (weak_function 0 0) { st_shndx = 0 }
      ∷ weak_function 1 0x300
      ∷ weak_function 3 0x400
      ∷ []);
}

-- The weak definitions stand first, in the main image, and the strong ones in the dependency.
abbrev small_linker : Linker
small_linker = record {
  main_image = some weak_image;
  deps =
      record {
        image = some sample_image;
        is_manual_load = true;
        map_base = 0x70000;
        map_size = 0x1000;
      }
      ∷ [];
  main_map_size = 0x1000;
  is_linked = false;
  symbol_cache = [];
  tls_indices = [];
}

abbrev b_strong : SymbolLookup
b_strong = record { address = 0x70200; image = some 11; bind = 1 }

abbrev b_weak : SymbolLookup
b_weak = record { address = 0x90400; image = some 22; bind = 2 }

b_found : find_symbol resolution small_linker (98 ∷ []) ≡ some b_strong
unfolding find_symbol
b_found = refl

find_symbol-preferred_example :
    find_symbol resolution small_linker (98 ∷ []) ≡ some (preferred (b_weak ∷ b_strong ∷ []) 0)
unfolding definitions images find_symbol_address
find_symbol-preferred_example =
    find_symbol-preferred resolution small_linker (98 ∷ []) (b_weak ∷ b_strong ∷ []) refl

-- The linker after a run in which "b" was resolved, with a destructor in each image.
abbrev linked_linker : Linker
linked_linker = record small_linker {
  main_image = some (record weak_image { fini_func = 0x90500 });
  is_linked = true;
  symbol_cache = (98 ∷ [], cache_entry b_strong) ∷ [];
}

abbrev runtime : Runtime
runtime = record {
  malloc = λ n. true;
  strdup = λ path. some path;
  has_register_frame = true;
  has_deregister_frame = true;
}

abbrev quiet : World
unfolding new_manager new_backtrace
quiet = record { tls = new_manager; backtrace = new_backtrace; events = [] }

abbrev ended : World
unfolding new_manager new_backtrace
ended = record quiet {
  events = called 0x90500 ∷ unmapped 0x70000 0x1000 ∷ unmapped 0x90000 0x1000 ∷ [];
}

destroy_run : destroy runtime linked_linker quiet ≡ some (emptied linked_linker, ended)
unfolding destroy quiet ended
destroy_run = refl

destroy_order_example :
    (calls : List Event) × (given : List Event) × (ended.events ≡ quiet.events ++ (calls ++ given))
    × All IsCall calls
    × All IsRelease given
destroy_order_example =
    destroy_order runtime linked_linker quiet (emptied linked_linker) ended destroy_run

-- Another image, which defines "b" at another address.
abbrev other_image : ElfImage
other_image = record sample_image { self = 33; base = 0xA0000 }

other_b :
    find_symbol resolution (init other_image (emptied linked_linker)) (98 ∷ [])
    ≡ some (record { address = 0xA0200; image = some 33; bind = 1 })
unfolding find_symbol init
other_b = refl

stale_cache_example :
    find_symbol_cached resolution (init other_image (emptied linked_linker)) (98 ∷ [])
    ≡ some (cached (cache_entry b_strong), init other_image (emptied linked_linker))
unfolding cache_find
stale_cache_example =
    stale_cache runtime resolution linked_linker quiet (emptied linked_linker) ended (98 ∷ [])
      (cache_entry b_strong) other_image refl destroy_run

-- The words at 0x1000, 0x1008 and 0x1018, from one offset and one bitmap.
process_relr-relr_offsets_example :
    process_relr 0x70000 0 (0x1000 ∷ 0xB ∷ []) (λ a. a)
    ≡ relocate_all 0x70000 (relr_offsets 0 (0x1000 ∷ 0xB ∷ [])) (λ a. a)
process_relr-relr_offsets_example = process_relr-relr_offsets 0x70000 0 (0x1000 ∷ 0xB ∷ []) (λ a. a)

small_offsets : relr_offsets 0 (0x1000 ∷ 0xB ∷ []) ≡ 0x1000 ∷ 0x1008 ∷ 0x1018 ∷ []
unfolding relr_offsets bit_offsets
small_offsets = refl

-- A GLOB_DAT relocation of the word at 0x70000 + 0x2000 against "b".
abbrev b_relocation : Relocation
b_relocation = record {
  sym_idx = 1;
  type = 1025;
  offset = 0x2000;
  addend = 0;
  load_bias = 0x70000;
  dynsym = weak_function 0 0 ∷ weak_function 3 0 ∷ [];
  dynstr = 0 ∷ 97 ∷ 0 ∷ 98 ∷ 0 ∷ [];
  is_rela = true;
}

abbrev surroundings : Surroundings
unfolding new_manager
surroundings = record {
  resolution = resolution;
  env = record { page_size = 4096; memalign = λ align size. some 0x9000; memory = λ a. a };
  tls = new_manager;
  thread = 1;
  custom_dl_iterate_phdr_at = 0x500;
  custom_dladdr_at = 0x600;
  dynamic_tls_resolver_at = 0x700;
  new_index = λ n. 0x800 + 16 * n;
  android_tags = fallback_tags;
}

abbrev before : Relocating
before = record {
  memory = λ a. 0;
  linker = small_linker;
  threads = record { blocks = []; block_count = 0 };
  indices = [];
}

process_relocation-find_symbol_example :
    (after : Relocating) × (process_relocation surroundings b_relocation before ≡ some after)
    × (read_word (u64 (0x70000 + 0x2000)) after.memory
        ≡ u64 (hooked surroundings (98 ∷ []) 0x70200))
    × IsCoherent resolution after.linker
unfolding surroundings c_string
process_relocation-find_symbol_example =
    process_relocation-find_symbol surroundings b_relocation before (weak_function 3 0) (98 ∷ [])
      b_strong refl (omega arith) refl refl (empty-IsCoherent resolution small_linker refl) b_found
      refl

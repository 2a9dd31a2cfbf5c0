-- ===== src/Backtrace/Runs.antt =====
-- A table with one registered library, and the theorems on it at concrete inputs.
use so_load.Base.{
  ℕ, ◌+◌, ◌^◌, ◌%◌, ◌≡◌, refl, ◌⊎◌, inr, true, false, [], ◌∷◌, ◌++◌, none, some, arith,
}
use so_load.Base.Words.{sub64}
use so_load.Base.Slots.{AllFrom-replicate, find_slot}
use so_load.Image.{ElfImage, ElfPhdr}
use so_load.Image.Lookup.{get_symbol_at}
use so_load.Image.Runs.{sample_image}
use so_load.Backtrace.{
  BacktraceManager, Runtime, no_lib, new_backtrace, DlPhdrInfo, register_library,
  custom_dl_iterate_phdr, custom_dladdr, is_lib_of, eh_frame_of, in_lib, max_custom_libs,
  register_frame, deregister_frame, valid_symbol,
}
use so_load.Backtrace.EhFrameHdr.{parse_eh_frame_hdr}
use so_load.Backtrace.Pointers.{to_le, parse_eh_frame_hdr-near}
use so_load.Backtrace.Registry.{IsClean, IsStranger}
use so_load.Backtrace.Frames.{enter, leave, leave-enter, full_table_leak}
use so_load.Backtrace.Visits.{visit, visible, custom_dl_iterate_phdr-visit, custom_dladdr-register}

-- Memory for everything, and both of GCC's functions.
abbrev runtime : Runtime
runtime = record {
  malloc = λ n. true;
  strdup = λ path. some path;
  has_register_frame = true;
  has_deregister_frame = true;
}

abbrev text_segment : ElfPhdr
text_segment = record {
  p_type = 1;
  p_flags = 5;
  p_offset = 0;
  p_vaddr = 0;
  p_filesz = 0x1000;
  p_memsz = 0x1000;
  p_align = 4096;
}

abbrev framed_image : ElfImage
framed_image = record sample_image { phdrs = text_segment ∷ []; eh_frame = 0x70800 }

-- A table whose only slot is in use.
abbrev full_table : BacktraceManager
full_table = record { libs = record no_lib { in_use = true } ∷ []; frame_calls = [] }

abbrev counts : DlPhdrInfo → ℕ → ℕ × ℕ
counts info n = (0, n + 1)

new-IsStranger : IsStranger new_backtrace 11
unfolding new_backtrace
new-IsStranger =
    AllFrom-replicate (λ i lib. is_lib_of 11 lib ≡ false) no_lib (λ i. refl) max_custom_libs 0

new-IsClean : IsClean new_backtrace
unfolding new_backtrace
new-IsClean =
    AllFrom-replicate (λ i lib. (lib.in_use ≡ true) ⊎ (lib ≡ no_lib)) no_lib (λ i. inr refl)
      max_custom_libs 0

leave-enter_example :
    (u : BacktraceManager) × (enter runtime new_backtrace framed_image ≡ some u)
    × (leave runtime u framed_image ≡ record new_backtrace {
      frame_calls =
          (new_backtrace.frame_calls ++ (register_frame 0x70800 ∷ []))
          ++ (deregister_frame 0x70800 ∷ []);
    })
unfolding new_backtrace eh_frame_of find_slot
leave-enter_example =
    leave-enter runtime new_backtrace framed_image 0x70800 refl refl (omega arith) new-IsStranger
      new-IsClean 0 refl refl refl

full_table_leak_example :
    (u : BacktraceManager) × (enter runtime full_table framed_image ≡ some u)
    × ((leave runtime u framed_image).frame_calls ≡ [] ++ (register_frame 0x70800 ∷ []))
unfolding eh_frame_of find_slot
full_table_leak_example =
    full_table_leak runtime full_table framed_image 0x70800 refl refl (omega arith) (refl, tt) refl

custom_dl_iterate_phdr-visit_example :
    custom_dl_iterate_phdr (some (λ callback arg. (0, arg))) full_table counts 0
    ≡ visit counts ([] ++ visible full_table.libs) 0
unfolding visit
custom_dl_iterate_phdr-visit_example =
    custom_dl_iterate_phdr-visit counts (λ callback arg. (0, arg)) [] full_table 0 refl

custom_dladdr-register_example :
    custom_dladdr (λ a. none) (register_library runtime new_backtrace framed_image).0 0x70010
    ≡ some (record {
      dli_fname = some (47 ∷ 97 ∷ []);
      dli_fbase = 0x70000;
      dli_symbol = valid_symbol (get_symbol_at framed_image 0x70010);
    })
unfolding find_slot new_backtrace in_lib
custom_dladdr-register_example =
    custom_dladdr-register (λ a. none) runtime new_backtrace framed_image 0x70010 0 refl refl refl
      refl 0 refl

-- The field is at 0x1004 and the target 0x34 before it.
parse_eh_frame_hdr-near_example :
    parse_eh_frame_hdr 0x1000
      (1 ∷ 0x1b ∷ 3 ∷ 0x3b ∷ to_le 4 (sub64 0xfd0 0x1004 % 2 ^ 32) ++ [])
      12
      0
    ≡ some 0xfd0
parse_eh_frame_hdr-near_example =
    parse_eh_frame_hdr-near 0x1000 3 0x3b 12 0 0xfd0 [] (omega arith) (omega arith) (omega arith)
      (inr (omega arith, omega arith))

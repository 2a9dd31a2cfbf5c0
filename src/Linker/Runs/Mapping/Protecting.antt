-- ===== src/Linker/Runs/Mapping/Protecting.antt =====
-- An image whose data starts on the last page of its code, and the protection of that page.
use so_load.Base.{◌≡◌, refl, true, [], ◌∷◌, some, arith}
use so_load.Image.{ElfImage, at_vaddr}
use so_load.Image.Runs.{sample_image}
use so_load.Linker.Pages.{page_start, page_end}
use so_load.Linker.Segments.{Prot, Space}
use so_load.Linker.Runs.Mapping.{code_segment, data_segment, empty_space}
use so_load.Linker.Protection.{address_range, restore_protections}
use so_load.Linker.Protection.Restored.{covered, restore_protections-covered}

abbrev shared_image : ElfImage
shared_image = record sample_image {
  phdrs = code_segment ∷ record data_segment { p_vaddr = 0x1800; p_memsz = 0x234 } ∷ [];
}

abbrev all_access : Prot
all_access = record { read = true; write = true; exec = true }

restore_protections-covered_example :
    (after : Space) × (restore_protections 4096 3 shared_image empty_space ≡ some after)
    × (after.prot 0x71010 ≡ all_access)
unfolding address_range page_start page_end at_vaddr covered
restore_protections-covered_example =
    restore_protections-covered 4096 2 shared_image empty_space 0x70000 0x71A34 2 1 0x71010 refl
      (omega arith) refl (omega arith) (omega arith)
      (
        (λ load. (0, refl, omega arith, omega arith)),
        ((λ load. (1, refl, omega arith, omega arith)), tt),
      )
      (omega arith) (omega arith) (omega arith)

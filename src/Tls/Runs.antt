-- ===== src/Tls/Runs.antt =====
-- A small table of TLS modules, and the theorems at concrete inputs.
use mathlib.Core.Path.{subst}
use so_load.Base.{
  ℕ, zero, suc, ◌+◌, ◌^◌, ◌≤◌, ◌<◌, ◌≡◌, ◌≢◌, refl, ◌⊎◌, inr, true, [], ◌∷◌, none, some, get_elem?,
  ltb, if◌then◌else◌, arith, replicate,
}
use so_load.Base.Slots.{AllFrom}
use so_load.Image.{ElfImage, ElfPhdr}
use so_load.Tls.{
  TlsModule, no_module, TlsManager, TlsIndex, Block, Env, Threads, new_manager, max_tls_modules,
  register_segment, unregister_segment, allocate_block, address_in, get_specific, get_address,
  block_align,
}
use so_load.Tls.Invariant.{IsSound, Fits, register_segment-IsSound, new_manager-IsSound}
use so_load.Tls.Register.{Refused, Placed, register_segment_outcome, unregister-register}
use so_load.Tls.Blocks.{
  allocate_block_image, address_in_lem, address_in_refused, IsRefused, stale_block_overrun,
  last_index,
}

abbrev tls_phdr : ElfPhdr
tls_phdr = record {
  p_type = 7;
  p_flags = 4;
  p_offset = 0x2000;
  p_vaddr = 0x3000;
  p_filesz = 4;
  p_memsz = 5000;
  p_align = 16;
}

abbrev image_at : ℕ → ElfImage
image_at self = record {
  self = self;
  path = [];
  base = 0x70000;
  bias = 0;
  header = record {
    e_ident = [];
    e_type = 3;
    e_machine = 183;
    e_phoff = 64;
    e_shoff = 0;
    e_phnum = 1;
    e_shnum = 0;
    e_shstrndx = 0;
  };
  phdrs = tls_phdr ∷ [];
  dynsym_start = none;
  dynsym_count = 0;
  strtab_start = none;
  elf_table = none;
  gnu_table = none;
  symtab_start = none;
  symtab_count = 0;
  symtab_strtab = none;
  tls_segment = some tls_phdr;
  tls_mod_id = 0;
  init_func = 0;
  fini_func = 0;
  init_array = none;
  init_array_count = 0;
  fini_array = none;
  fini_array_count = 0;
  eh_frame = 0;
  eh_frame_hdr = none;
  eh_frame_hdr_addr = 0;
  eh_frame_hdr_size = 0;
}

-- The first image takes slot 1, the second one slot 2.
abbrev one_image : TlsManager
one_image = (register_segment new_manager (image_at 11)).0

-- posix_memalign always answers 0x9000; each byte of memory is its address modulo 251.
abbrev small_env : Env
small_env = record { page_size = 4096; memalign = λ align size. some 0x9000; memory = λ a. a }

second_slot : (register_segment one_image (image_at 22)).1.tls_mod_id ≡ 2
unfolding register_segment new_manager
second_slot = refl

small-Fits : Fits new_manager tls_phdr
unfolding new_manager
small-Fits = record { exponent = 4; narrow = omega arith; power = refl; room = omega arith }

the_segment :
    (t : TlsManager) (self : ℕ)
    → Fits t tls_phdr
    → (seg : ElfPhdr) → (image_at self).tls_segment ≡ some seg
    → Fits t seg
the_segment t self f seg e = subst (Fits t) (let same : tls_phdr ≡ seg = cc in same) f

one_image-IsSound : IsSound one_image
one_image-IsSound =
    register_segment-IsSound new_manager (image_at 11) (the_segment new_manager 11 small-Fits)
      new_manager-IsSound

more-Fits : Fits one_image tls_phdr
unfolding register_segment new_manager
more-Fits = record { exponent = 4; narrow = omega arith; power = refl; room = omega arith }

register_segment-IsSound_example : IsSound (register_segment one_image (image_at 22)).0
register_segment-IsSound_example =
    register_segment-IsSound one_image (image_at 22) (the_segment one_image 22 more-Fits)
      one_image-IsSound

register_segment_outcome_example :
    Refused one_image (image_at 22) ⊎ ((k : ℕ) × Placed one_image (image_at 22) tls_phdr k)
register_segment_outcome_example = register_segment_outcome one_image (image_at 22) tls_phdr refl

foreign : (k n : ℕ) → AllFrom (λ i (m : TlsModule). m.owner ≢ some 11) k (replicate n no_module)
foreign k zero = tt
foreign k (suc n) = (λ e. cc, foreign (suc k) n)

unregister-register_example :
    (unregister_segment one_image 11).modules ≡ replicate max_tls_modules no_module
unfolding new_manager
unregister-register_example =
    unregister-register new_manager (image_at 11) tls_phdr refl new_manager-IsSound
      (foreign 0 max_tls_modules)

abbrev one_module : TlsModule
one_module = record {
  module_id = 1;
  align = 16;
  memsz = 5000;
  filesz = 4;
  offset = 0;
  init_image = 0x73000;
  owner = some 11;
}

in_slot_one : get_elem? one_image.modules 1 ≡ some one_module
unfolding register_segment new_manager
in_slot_one = refl

the_block :
    (b : Block) × (allocate_block small_env one_image ≡ some b)
    × (b.address ≡ 0x9000)
    × (b.size ≡ 5016)
unfolding register_segment new_manager allocate_block
the_block = (_, refl, refl, refl)

no_files : (k n : ℕ) → AllFrom (λ i (m : TlsModule). m.filesz ≤ m.memsz) k (replicate n no_module)
no_files k zero = tt
no_files k (suc n) = (omega arith, no_files (suc k) n)

small_files : AllFrom (λ k n. n.filesz ≤ n.memsz) 0 one_image.modules
unfolding register_segment new_manager
small_files = (omega arith, (omega arith, no_files 2 126))

room_left : one_image.static_size + block_align 4096 one_image < 2 ^ 64
unfolding register_segment new_manager block_align
room_left = omega arith

allocate_block_image_example : the_block.0.bytes 3 ≡ (if ltb 3 4 then 0x73003 else 0)
allocate_block_image_example =
    allocate_block_image small_env one_image one_image-IsSound small_files room_left the_block.0 1 3
      one_module the_block.1 in_slot_one (omega arith) (omega arith) (omega arith)

abbrev some_index : ℕ → TlsIndex
some_index i = record { in_module = 1; in_offset = i }

one_image_size : one_image.static_size ≡ 5000
unfolding register_segment new_manager
one_image_size = refl

address_in_lem_example :
    address_in one_image the_block.0 (some (some_index 8)) ≡ the_block.0.address + (0 + 8)
address_in_lem_example =
    address_in_lem one_image the_block.0 (some_index 8) one_module (omega arith) (omega arith)
      in_slot_one (omega arith) (rw one_image_size (omega arith)) (rw one_image_size (omega arith))
      (rw (one_image_size, the_block.2) (omega arith))

past_the_end : IsRefused one_image (some_index 5000)
unfolding register_segment new_manager
past_the_end = inr (inr (inr (one_module, refl, inr (omega arith))))

address_in_refused_example : address_in one_image the_block.0 (some (some_index 5000)) ≡ 0
address_in_refused_example = address_in_refused one_image the_block.0 (some_index 5000) past_the_end

abbrev main_thread : Threads
main_thread = record { blocks = (1, the_block.0) ∷ []; block_count = 1 }

main_block : get_specific 1 main_thread.blocks ≡ some the_block.0
unfolding get_specific
main_block = refl

register_again : (register_segment one_image (image_at 22)).2 ≡ true
unfolding register_segment new_manager
register_again = refl

two_images_size : (register_segment one_image (image_at 22)).0.static_size ≡ 10008
unfolding register_segment new_manager
two_images_size = refl

stale_block_overrun_example :
    the_block.0.address + the_block.0.size
    ≤ (get_address small_env
        (register_segment one_image (image_at 22)).0
        1
        main_thread
        (some (last_index (register_segment one_image (image_at 22)).1 tls_phdr))).1
stale_block_overrun_example =
    stale_block_overrun small_env one_image (image_at 22) tls_phdr the_block.0 1 main_thread
      one_image-IsSound refl more-Fits register_again the_block.1 main_block (omega arith)
      (omega arith) (rw (two_images_size, the_block.2) (omega arith))

-- ===== src/Image/Runs.antt =====
-- A small image with two symbols, and the theorems on lookups at concrete inputs.
use mathlib.Core.Logic.{◌↔◌}
use so_load.Base.{
  ◌+◌, ◌*◌, true, ℕ, zero, suc, ◌^◌, ◌-◌, ◌≤◌, ◌<◌, ◌≡◌, ◌≢◌, refl, ◌⊎◌, inl, inr, List, [], ◌∷◌,
  none, some, get_elem?, arith, bit_and,
}
use so_load.Image.{ElfEhdr, ElfPhdr, ElfImage, ElfSym, GnuTable, HashTable}
use so_load.Image.Header.{
  has_magic, validate_elf_header, IsArm64, validate_elf_header_iff, validate_elf_header_wraps,
}
use so_load.Image.Hash.{elf_hash, gnu_hash, abi_hash, elf_hash-abi_hash}
use so_load.Image.Lookup.{
  found, endless, defines, bloom_mask, c_string, found_symbol, elf_hash_lookup, find_symbol_offset,
}
use so_load.Image.Sound.{IsSymbol, find_symbol_offset-IsSymbol}
use so_load.Image.Search.{
  IsHashed, Skipped, elf_hash_lookup_endless, elf_hash_lookup_answers, find_symbol_offset_finds,
}

-- The names "a" and "b" at 1 and 3.
abbrev strings : List ℕ
strings = 0 ∷ 97 ∷ 0 ∷ 98 ∷ 0 ∷ []

-- A global function of 8 bytes, in section 1.
abbrev function_at : ℕ → ℕ → ElfSym
function_at name value = record {
  st_name = name;
  st_info = 0x12;
  st_shndx = 1;
  st_value = value;
  st_size = 8;
}

abbrev symbols : List ElfSym
symbols = record (function_at 0 0) { st_shndx = 0 } ∷ function_at 1 0x100 ∷ function_at 3 0x200 ∷ []

-- The hash of "a" is 177670, and that of "b" 177671.
abbrev gnu : GnuTable
gnu = record {
  gnu_nbucket = 1;
  gnu_symndx = 1;
  gnu_bloom_size = 1;
  gnu_shift2 = 6;
  gnu_bloom_filter = 0xFFFFFFFFFFFFFFFF ∷ [];
  gnu_bucket = 1 ∷ [];
  gnu_chain = 177670 ∷ 177671 ∷ [];
}

-- A chain that runs from 2 to 1 and ends.
abbrev hashed : HashTable
hashed = record { nbucket = 1; bucket = 2 ∷ []; chain = 0 ∷ 0 ∷ 1 ∷ [] }

-- A chain that runs from 2 to 1 and back.
abbrev cyclic : HashTable
cyclic = record hashed { chain = 0 ∷ 2 ∷ 1 ∷ [] }

abbrev pub sample_image : ElfImage
sample_image = record {
  self = 11;
  path = 47 ∷ 97 ∷ [];
  base = 0x70000;
  bias = 0;
  header = record {
    e_ident = [];
    e_type = 3;
    e_machine = 183;
    e_phoff = 64;
    e_shoff = 0;
    e_phnum = 0;
    e_shnum = 0;
    e_shstrndx = 0;
  };
  phdrs = [];
  dynsym_start = some symbols;
  dynsym_count = 3;
  strtab_start = some strings;
  elf_table = some hashed;
  gnu_table = some gnu;
  symtab_start = none;
  symtab_count = 0;
  symtab_strtab = none;
  tls_segment = none;
  tls_mod_id = 0;
  init_func = 0;
  fini_func = 0;
  init_array = none;
  init_array_count = 0;
  fini_array = none;
  fini_array_count = 0;
  eh_frame = 0;
  eh_frame_hdr = none;
  eh_frame_hdr_addr = 0;
  eh_frame_hdr_size = 0;
}

abbrev cyclic_image : ElfImage
cyclic_image = record sample_image { elf_table = some cyclic; gnu_table = none }

b_hash : gnu_hash (98 ∷ []) ≡ 177671
unfolding gnu_hash
b_hash = refl

b_found : find_symbol_offset 0 sample_image (98 ∷ []) ≡ found 0x200 2 1
unfolding find_symbol_offset
b_found = refl

b_in_chain :
    find_symbol_offset 9 (record sample_image { gnu_table = none }) (98 ∷ []) ≡ found 0x200 2 1
unfolding find_symbol_offset
b_in_chain = refl

find_symbol_offset-IsSymbol_example :
    IsSymbol sample_image (98 ∷ []) (find_symbol_offset 9 sample_image (98 ∷ []))
find_symbol_offset-IsSymbol_example = find_symbol_offset-IsSymbol sample_image (98 ∷ []) 9

a-Skipped :
    (i : ℕ)
    → 1 ≤ i
    → i < 2
    → (c : ℕ) × (get_elem? gnu.gnu_chain (i - 1) ≡ some c)
      × (bit_and c 1 ≡ 0)
      × Skipped symbols strings (98 ∷ []) i
unfolding defines
a-Skipped zero low high = absurd (omega (arith, low))
a-Skipped (suc zero) low high = (177670, refl, refl, (function_at 1 0x100, refl, refl))
a-Skipped (suc (suc i)) low high = absurd (omega (arith, high))

b-IsHashed : IsHashed gnu symbols 3 strings (98 ∷ []) (gnu_hash (98 ∷ [])) 2 (function_at 3 0x200)
unfolding gnu_hash bloom_mask c_string
b-IsHashed = record {
  has_buckets = omega arith;
  has_filter = omega arith;
  has_shift = omega arith;
  word = 0xFFFFFFFFFFFFFFFF;
  has_word = refl;
  passes = refl;
  first = 1;
  has_first = refl;
  hashed = omega arith;
  before = omega arith;
  counted = omega arith;
  runs_on = a-Skipped;
  value = 177671;
  has_value = refl;
  same_hash = refl;
  entry = refl;
  named = (refl, omega arith);
}

find_symbol_offset_finds_example :
    find_symbol_offset 0 sample_image (98 ∷ []) ≡ found_symbol (function_at 3 0x200)
find_symbol_offset_finds_example =
    find_symbol_offset_finds sample_image (98 ∷ []) gnu symbols strings 2 (function_at 3 0x200) 0
      refl refl refl b-IsHashed

abbrev OnCycle : ℕ → Type 0
OnCycle i = (i ≡ 1) ⊎ (i ≡ 2)

cycle_closed :
    (i : ℕ)
    → OnCycle i
    → (i ≢ 0)
      × Skipped symbols strings (99 ∷ []) i
      × (k : ℕ) × (get_elem? cyclic.chain i ≡ some k)
      × OnCycle k
unfolding defines
cycle_closed i (inl e) = rw e (omega arith, (function_at 1 0x100, refl, refl), 2, refl, inr refl)
cycle_closed i (inr e) = rw e (omega arith, (function_at 3 0x200, refl, refl), 1, refl, inl refl)

elf_hash_lookup_endless_example : elf_hash_lookup 1000 cyclic_image (99 ∷ []) 99 ≡ endless
elf_hash_lookup_endless_example =
    elf_hash_lookup_endless cyclic_image (99 ∷ []) cyclic symbols strings refl refl refl OnCycle 99
      2 (omega arith) refl (inr refl) cycle_closed 1000

hashed_falls : (i k : ℕ) → i ≢ 0 → get_elem? hashed.chain i ≡ some k → k < i
hashed_falls zero k nonzero e = absurd (nonzero refl)
hashed_falls (suc zero) k nonzero e = ground (arith, e)
hashed_falls (suc (suc zero)) k nonzero e = ground (arith, e)
hashed_falls (suc (suc (suc i))) k nonzero e = ground (arith, e)

hashed_starts : (i n : ℕ) → get_elem? hashed.bucket i ≡ some n → n < 3
hashed_starts zero n e = ground (arith, e)
hashed_starts (suc i) n e = ground (arith, e)

elf_hash_lookup_answers_example : elf_hash_lookup 3 sample_image (99 ∷ []) 99 ≢ endless
elf_hash_lookup_answers_example =
    elf_hash_lookup_answers sample_image (99 ∷ []) hashed symbols strings refl refl refl (λ i. i)
      hashed_falls 3 99 hashed_starts

elf_hash-abi_hash_example :
    (elf_hash (98 ∷ []) ≡ abi_hash 0 (98 ∷ [])) × (elf_hash (98 ∷ []) < 2 ^ 28)
elf_hash-abi_hash_example = elf_hash-abi_hash (98 ∷ [])

-- A header of a shared object with two program headers at 64.
abbrev good_header : ElfEhdr
good_header = record {
  e_ident = 0x7f ∷ 0x45 ∷ 0x4c ∷ 0x46 ∷ 2 ∷ 1 ∷ 1 ∷ [];
  e_type = 3;
  e_machine = 183;
  e_phoff = 64;
  e_shoff = 0;
  e_phnum = 2;
  e_shnum = 0;
  e_shstrndx = 0;
}

-- The same with its table 56 bytes before 2 ^ 64.
abbrev far_header : ElfEhdr
far_header = record good_header { e_phoff = 0xFFFFFFFFFFFFFFC8 }

validate_elf_header_iff_example :
    (validate_elf_header good_header 4096 ≡ true)
    ↔ (IsArm64 good_header × (good_header.e_phoff + good_header.e_phnum * 56 ≤ 4096))
validate_elf_header_iff_example = validate_elf_header_iff good_header 4096 (omega arith)

far-IsArm64 : IsArm64 far_header
unfolding has_magic
far-IsArm64 = record {
  magic = refl;
  elf_class = refl;
  byte_order = refl;
  machine = refl;
  kind = inl refl;
  has_table = omega arith;
  has_entries = omega arith;
}

validate_elf_header_wraps_example :
    (validate_elf_header far_header 4096 ≡ true) × (4096 < far_header.e_phoff)
validate_elf_header_wraps_example =
    validate_elf_header_wraps far_header 4096 far-IsArm64 (omega arith) (omega arith) (omega arith)
      (omega arith) (omega arith)

-- A segment at 0x1000 of memory that the file has at 0, and one that has no place in memory.
abbrev text_phdr : ElfPhdr
text_phdr = record {
  p_type = 1;
  p_flags = 5;
  p_offset = 0;
  p_vaddr = 0x1000;
  p_filesz = 0x800;
  p_memsz = 0x800;
  p_align = 4096;
}

abbrev note_phdr : ElfPhdr
note_phdr = record text_phdr { p_type = 4; p_offset = 0x200 }

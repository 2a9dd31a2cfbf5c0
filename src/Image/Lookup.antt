-- ===== src/Image/Lookup.antt =====
-- The symbol lookups of src/elf_image.cpp over an image's tables.
use so_load.Base.{
  ℕ, zero, suc, ◌+◌, ◌-◌, ◌/◌, ◌%◌, Bool, true, false, not, ◌&&◌, ◌||◌, List, [], ◌∷◌, Option, none,
  some, ltb, leb, ◌==◌, if◌then◌else◌, get_elem?, bit_and, bit_or, bit_xor,
}
use so_load.Base.Words.{u64, ◌<<<◌, ◌>>>◌}
use so_load.Image.{ElfImage, ElfSym, GnuTable, HashTable, elf_st_type, elf_st_bind, at_vaddr}
use so_load.Image.Hash.{elf_hash, gnu_hash}

-- Equality of std::string_view.
unfoldable pub beq_bytes : List ℕ → List ℕ → Bool
beq_bytes [] [] = true
beq_bytes [] (y ∷ ys) = false
beq_bytes (x ∷ xs) [] = false
beq_bytes (x ∷ xs) (y ∷ ys) = x == y && beq_bytes xs ys

-- The C string at an offset of a string table; `none` runs past the table.
unfoldable pub c_string_here : List ℕ → Option (List ℕ)
c_string_here [] = none
c_string_here (c ∷ cs) =
    let rest = c_string_here cs in
    if c == 0 then some [] else elim rest [ none ↦ none | some s ↦ some (c ∷ s) ]

unfoldable pub c_string : List ℕ → ℕ → Option (List ℕ)
unfolding c_string_here
c_string table zero = c_string_here table
c_string [] (suc n) = none
c_string (c ∷ cs) (suc n) = c_string cs n

-- What a lookup comes to: the symbol's value, type and binding; no such symbol; a read outside a
-- table; or rounds of a loop used up.
pub data Lookup : Type 0 where
  found : (value type bind : ℕ) → Lookup
  missing fault endless : Lookup

unfoldable pub found_symbol : ElfSym → Lookup
unfolding elf_st_type elf_st_bind
found_symbol sym = found sym.st_value (elf_st_type sym.st_info) (elf_st_bind sym.st_info)

-- `name == strtab + st_name && st_shndx != SHN_UNDEF`.
unfoldable pub defines : List ℕ → List ℕ → ElfSym → Option Bool
unfolding c_string beq_bytes
defines strtab name sym = elim (c_string strtab sym.st_name) [
  | none ↦ none
  | some s ↦ some (beq_bytes name s && not (sym.st_shndx == 0))
]

-- One round of a chain loop: it ends with an answer, or goes on at another index.
pub data Round : Type 0 where
  stop : Lookup → Round
  next : ℕ → Round

-- A chain loop from an index on, for at most `rounds` rounds.
unfoldable pub walk : (ℕ → Round) → ℕ → ℕ → Lookup
walk round zero idx = endless
walk round (suc rounds) idx = elim (round idx) [ stop l ↦ l | next k ↦ walk round rounds k ]

-- A chain entry's test, in the order in which && reads.
unfoldable pub gnu_test : List ℕ → List ℕ → ℕ → ℕ → ElfSym → Option Bool
unfolding defines
gnu_test strtab name hash chain_val sym =
    if bit_xor chain_val hash >>> 1 == 0 then defines strtab name sym else some false

-- A round of the loop in gnuHashLookup; `count` is dynsym_count.
unfoldable pub gnu_round : GnuTable → List ElfSym → ℕ → List ℕ → List ℕ → ℕ → ℕ → Round
unfolding gnu_test found_symbol
gnu_round g syms count strtab name hash idx =
    if leb count idx then stop missing else elim (get_elem? g.gnu_chain (idx - g.gnu_symndx)) [
      | none ↦ stop fault
      | some chain_val ↦ elim (get_elem? syms idx) [
        | none ↦ stop fault
        | some sym ↦ elim (gnu_test strtab name hash chain_val sym) [
          | none ↦ stop fault
          | some true ↦ stop (found_symbol sym)
          | some false ↦ if bit_and chain_val 1 == 0 then next (idx + 1) else stop missing
        ]
      ]
    ]

-- The Bloom filter's bits for a hash, on words of 64 bits.
unfoldable pub bloom_mask : ℕ → ℕ → ℕ
bloom_mask hash shift2 = bit_or (1 <<< (hash % 64)) (1 <<< (hash >>> shift2 % 64))

-- gnuHashLookup behind its guards. A filter of no words and a shift by 32 or more are undefined.
unfoldable pub gnu_search : GnuTable → List ElfSym → ℕ → List ℕ → List ℕ → ℕ → Lookup
unfolding walk gnu_round bloom_mask
gnu_search g syms count strtab name hash =
    if g.gnu_bloom_size == 0 || leb 32 g.gnu_shift2
    then fault
    else elim (get_elem? g.gnu_bloom_filter (hash / 64 % g.gnu_bloom_size)) [
      | none ↦ fault
      | some bloom_word ↦
          let mask = bloom_mask hash g.gnu_shift2 in
          if bit_and bloom_word mask == mask
          then elim (get_elem? g.gnu_bucket (hash % g.gnu_nbucket)) [
            | none ↦ fault
            | some sym_idx ↦
                if ltb sym_idx g.gnu_symndx
                then missing
                else walk (gnu_round g syms count strtab name hash) (suc count) sym_idx
          ]
          else missing
    ]

unfoldable pub gnu_hash_lookup : ElfImage → List ℕ → ℕ → Lookup
unfolding gnu_search
gnu_hash_lookup image name hash = elim image.gnu_table [
  | none ↦ missing
  | some g ↦ elim image.dynsym_start [
    | none ↦ missing
    | some syms ↦ elim image.strtab_start [
      | none ↦ missing
      | some strtab ↦
          if g.gnu_nbucket == 0
          then missing
          else gnu_search g syms image.dynsym_count strtab name hash
    ]
  ]
]

-- A round of the loop in elfHashLookup. Nothing in the code bounds that loop: the lookup takes
-- the number of rounds as an argument.
unfoldable pub elf_round : HashTable → List ElfSym → List ℕ → List ℕ → ℕ → Round
unfolding defines found_symbol
elf_round t syms strtab name n = if n == 0 then stop missing else elim (get_elem? syms n) [
  | none ↦ stop fault
  | some sym ↦ elim (defines strtab name sym) [
    | none ↦ stop fault
    | some true ↦ stop (found_symbol sym)
    | some false ↦ elim (get_elem? t.chain n) [ none ↦ stop fault | some k ↦ next k ]
  ]
]

unfoldable pub elf_hash_lookup : ℕ → ElfImage → List ℕ → ℕ → Lookup
unfolding walk elf_round
elf_hash_lookup rounds image name hash = elim image.elf_table [
  | none ↦ missing
  | some t ↦ elim image.dynsym_start [
    | none ↦ missing
    | some syms ↦ elim image.strtab_start [
      | none ↦ missing
      | some strtab ↦
          if t.nbucket == 0 then missing else elim (get_elem? t.bucket (hash % t.nbucket)) [
            | none ↦ fault
            | some n ↦ walk (elf_round t syms strtab name) rounds n
          ]
    ]
  ]
]

-- The test of linearLookup; STT_OBJECT is 1 and STT_FUNC is 2.
unfoldable pub linear_test : List ℕ → List ℕ → ElfSym → Option Bool
unfolding c_string beq_bytes elf_st_type
linear_test strtab name sym =
    let st = elf_st_type sym.st_info in
    if (st == 2 || st == 1) && ltb 0 sym.st_size && not (sym.st_shndx == 0)
    then elim (c_string strtab sym.st_name) [ none ↦ none | some s ↦ some (beq_bytes name s) ]
    else some false

unfoldable pub linear_walk : List ℕ → List ℕ → ℕ → List ElfSym → Lookup
unfolding linear_test found_symbol
linear_walk strtab name zero syms = missing
linear_walk strtab name (suc n) [] = fault
linear_walk strtab name (suc n) (sym ∷ syms) =
    let rest = linear_walk strtab name n syms in
    elim (linear_test strtab name sym) [
      | none ↦ fault
      | some true ↦ found_symbol sym
      | some false ↦ rest
    ]

unfoldable pub linear_lookup : ElfImage → List ℕ → Lookup
unfolding linear_walk
linear_lookup image name = elim image.symtab_start [
  | none ↦ missing
  | some syms ↦ elim image.symtab_strtab [
    | none ↦ missing
    | some strtab ↦ linear_walk strtab name image.symtab_count syms
  ]
]

-- The next lookup is made where one finds nothing.
abbrev pub or_else : Lookup → Lookup → Lookup
or_else missing other = other
or_else (found value type bind) other = found value type bind
or_else fault other = fault
or_else endless other = endless

unfoldable pub find_symbol_offset : ℕ → ElfImage → List ℕ → Lookup
unfolding gnu_hash_lookup elf_hash_lookup linear_lookup gnu_hash elf_hash
find_symbol_offset rounds image name =
    or_else (gnu_hash_lookup image name (gnu_hash name))
      (or_else (elf_hash_lookup rounds image name (elf_hash name)) (linear_lookup image name))

-- findSymbolAddress: the address and the binding. `resolve` runs the resolver of an IFUNC
-- (STT_GNU_IFUNC is 10), which is code of the loaded library.
unfoldable pub find_symbol_address : (ℕ → ℕ) → ℕ → ElfImage → List ℕ → Lookup
unfolding find_symbol_offset at_vaddr
find_symbol_address resolve rounds image name = elim (find_symbol_offset rounds image name) [
  | found value type bind ↦
      let addr = at_vaddr image value in
      if image.base == 0
      then missing
      else found (if type == 10 then resolve addr else addr) type bind
  | missing ↦ missing
  | fault ↦ fault
  | endless ↦ endless
]

-- getSymbolAt: the name and the start of the first symbol whose range holds the address.
pub record SymbolInfo : Type 0 where
  pub name : List ℕ
  pub address : ℕ

pub data Located : Type 0 where
  located : SymbolInfo → Located
  nowhere unreadable : Located

unfoldable pub covers : ElfImage → ℕ → ElfSym → Bool
unfolding at_vaddr
covers image addr sym =
    let start = at_vaddr image sym.st_value in
    not (sym.st_value == 0 || sym.st_size == 0)
    && leb start addr
    && ltb addr (u64 (start + sym.st_size))

unfoldable pub locate : ElfImage → List ℕ → ℕ → ℕ → List ElfSym → Located
unfolding covers c_string
locate image strtab addr zero syms = nowhere
locate image strtab addr (suc n) [] = unreadable
locate image strtab addr (suc n) (sym ∷ syms) =
    let rest = locate image strtab addr n syms in
    if covers image addr sym
    then elim (c_string strtab sym.st_name) [
      | none ↦ unreadable
      | some s ↦ located (record { name = s; address = at_vaddr image sym.st_value })
    ]
    else rest

unfoldable pub get_symbol_at : ElfImage → ℕ → Located
unfolding locate
get_symbol_at image addr = elim image.symtab_start [
  | none ↦ nowhere
  | some syms ↦ elim image.symtab_strtab [
    | none ↦ nowhere
    | some strtab ↦ locate image strtab addr image.symtab_count syms
  ]
]

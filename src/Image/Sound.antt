-- ===== src/Image/Sound.antt =====
-- What the lookups find is a symbol of the table, under the name asked for, and defined there.
use so_load.Base.{
  ℕ, zero, suc, ◌-◌, ◌≡◌, ◌≢◌, refl, ap, sym as inverse, ◌∙◌, ◌⊎◌, inl, inr, true, false, not, ◌&&◌,
  List, [], ◌∷◌, Option, none, some, ◌==◌, leb, ltb, get_elem?, arith, Option-cases, Bool-cases,
  bit_and, ◌%◌, ◌/◌, ◌||◌,
}
use so_load.Image.{ElfImage, ElfSym, GnuTable, HashTable}
use so_load.Image.Lookup.{
  beq_bytes, c_string, Lookup, found, missing, fault, endless, found_symbol, defines, gnu_test,
  bloom_mask, Round, stop, next, walk, gnu_round, gnu_search, gnu_hash_lookup, elf_round,
  elf_hash_lookup, linear_test, linear_walk, linear_lookup, or_else, find_symbol_offset,
}

pub beq_bytes-eq : (xs ys : List ℕ) → beq_bytes xs ys ≡ true → xs ≡ ys
unfolding beq_bytes
beq_bytes-eq [] [] e = refl
beq_bytes-eq [] (y ∷ ys) e = cc
beq_bytes-eq (x ∷ xs) [] e = cc
beq_bytes-eq (x ∷ xs) (y ∷ ys) e = ground (arith, beq_bytes-eq xs ys)

pub beq_bytes_refl : (xs : List ℕ) → beq_bytes xs xs ≡ true
unfolding beq_bytes
beq_bytes_refl [] = refl
beq_bytes_refl (x ∷ xs) = ground (arith, beq_bytes_refl xs)

-- The symbol has the name and a defining section.
abbrev pub Names : List ℕ → List ℕ → ElfSym → Type 0
Names strtab name s = (c_string strtab s.st_name ≡ some name) × (s.st_shndx ≢ 0)

pub defines-Names :
    (strtab name : List ℕ) (s : ElfSym) → defines strtab name s ≡ some true → Names strtab name s
unfolding defines
defines-Names strtab name s e = elim (Option-cases (c_string strtab s.st_name)) [
  | inl past ↦ absurd (let e' : none ≡ some true = rw (past, defines) at e in cc)
  | inr (text, here) ↦
      let e' : some (beq_bytes name text && not (s.st_shndx == 0)) ≡ some true =
        rw (here, defines) at e in
      (here ∙ ap some (inverse (beq_bytes-eq name text (ground (arith, e')))), ground (arith, e'))
]

-- The answer is about a symbol of the table.
abbrev pub IsFrom : List ElfSym → List ℕ → List ℕ → Lookup → Type 0
IsFrom syms strtab name (found value type bind) =
    (i : ℕ) × (s : ElfSym) × (get_elem? syms i ≡ some s)
    × Names strtab name s
    × (found_symbol s ≡ found value type bind)
IsFrom syms strtab name missing = Unit
IsFrom syms strtab name fault = Unit
IsFrom syms strtab name endless = Unit

found_symbol-IsFrom :
    (syms : List ElfSym) (strtab name : List ℕ) (i : ℕ) (s : ElfSym)
    → get_elem? syms i ≡ some s
    → Names strtab name s
    → IsFrom syms strtab name (found_symbol s)
unfolding found_symbol
found_symbol-IsFrom syms strtab name i s e n = (i, s, e, n, refl)

gnu_test-Names :
    (strtab name : List ℕ) (hash chain_val : ℕ) (s : ElfSym)
    → gnu_test strtab name hash chain_val s ≡ some true
    → Names strtab name s
unfolding gnu_test
gnu_test-Names strtab name hash chain_val s e = defines-Names strtab name s (ground (arith, e))

-- What holds of each answer of a round holds of the loop's answer.
abbrev Stops : (Lookup → Type 0) → Round → Type 0
Stops P (stop l) = P l
Stops P (next k) = Unit

pub walk_rule :
    (P : Lookup → Type 0) (round : ℕ → Round)
    → P endless
    → ((i : ℕ) → Stops P (round i))
    → (rounds idx : ℕ) → P (walk round rounds idx)
unfolding walk
walk_rule P round out each zero idx = out
walk_rule P round out each (suc rounds) idx =
    go (round idx) (each idx) (λ k. walk_rule P round out each rounds k)
  where
    go :
        (r : Round)
        → Stops P r
        → ((k : ℕ) → P (walk round rounds k))
        → P (elim r [ stop l ↦ l | next k ↦ walk round rounds k ])
    go (stop l) h again = h
    go (next k) h again = again k

module _ (syms : List ElfSym) (strtab name : List ℕ) where
  gnu_round-IsFrom :
      (g : GnuTable) (count hash idx : ℕ)
      → Stops (IsFrom syms strtab name) (gnu_round g syms count strtab name hash idx)
  unfolding gnu_round
  gnu_round-IsFrom g count hash idx = elim (Bool-cases (leb count idx)) [
    | inl past ↦ rw (past, gnu_round) tt
    | inr inside ↦ elim (Option-cases (get_elem? g.gnu_chain (idx - g.gnu_symndx))) [
      | inl no_chain ↦ rw (inside, no_chain, gnu_round) tt
      | inr (chain_val, link) ↦ elim (Option-cases (get_elem? syms idx)) [
        | inl no_sym ↦ rw (inside, link, no_sym, gnu_round) tt
        | inr (s, entry) ↦ elim (Option-cases (gnu_test strtab name hash chain_val s)) [
          | inl unread ↦ rw (inside, link, entry, unread, gnu_round) tt
          | inr (true, hit) ↦
              rw (inside, link, entry, hit, gnu_round)
                (found_symbol-IsFrom syms strtab name idx s entry
                  (gnu_test-Names strtab name hash chain_val s hit))
          | inr (false, miss) ↦ elim (Bool-cases (bit_and chain_val 1 == 0)) [
            | inl more ↦ rw (inside, link, entry, miss, more, gnu_round) tt
            | inr last ↦ rw (inside, link, entry, miss, last, gnu_round) tt
          ]
        ]
      ]
    ]
  ]

  elf_round-IsFrom :
      (t : HashTable) (n : ℕ) → Stops (IsFrom syms strtab name) (elf_round t syms strtab name n)
  unfolding elf_round
  elf_round-IsFrom t n = elim (Bool-cases (n == 0)) [
    | inl past ↦ rw (past, elf_round) tt
    | inr inside ↦ elim (Option-cases (get_elem? syms n)) [
      | inl no_sym ↦ rw (inside, no_sym, elf_round) tt
      | inr (s, entry) ↦ elim (Option-cases (defines strtab name s)) [
        | inl unread ↦ rw (inside, entry, unread, elf_round) tt
        | inr (true, hit) ↦
            rw (inside, entry, hit, elf_round)
              (found_symbol-IsFrom syms strtab name n s entry (defines-Names strtab name s hit))
        | inr (false, miss) ↦ elim (Option-cases (get_elem? t.chain n)) [
          | inl cut ↦ rw (inside, entry, miss, cut, elf_round) tt
          | inr (k, more) ↦ rw (inside, entry, miss, more, elf_round) tt
        ]
      ]
    ]
  ]

IsFrom-later :
    (s : ElfSym) (syms : List ElfSym) (strtab name : List ℕ) (l : Lookup)
    → IsFrom syms strtab name l
    → IsFrom (s ∷ syms) strtab name l
IsFrom-later s syms strtab name (found value type bind) (i, t, e, n, f) = (suc i, t, e, n, f)
IsFrom-later s syms strtab name missing h = tt
IsFrom-later s syms strtab name fault h = tt
IsFrom-later s syms strtab name endless h = tt

linear_test-Names :
    (strtab name : List ℕ) (s : ElfSym)
    → linear_test strtab name s ≡ some true
    → Names strtab name s
unfolding linear_test
linear_test-Names strtab name s e = elim (Option-cases (c_string strtab s.st_name)) [
  | inl past ↦ absurd (let e' = rw (past, linear_test) at e in ground (arith, e'))
  | inr (text, here) ↦
      let e' = rw (here, linear_test) at e in
      (here ∙ ap some (inverse (beq_bytes-eq name text (ground (arith, e')))), ground (arith, e'))
]

pub linear_walk-IsFrom :
    (strtab name : List ℕ) (n : ℕ) (syms : List ElfSym)
    → IsFrom syms strtab name (linear_walk strtab name n syms)
unfolding linear_walk
linear_walk-IsFrom strtab name zero syms = tt
linear_walk-IsFrom strtab name (suc n) [] = tt
linear_walk-IsFrom strtab name (suc n) (s ∷ syms) =
    elim (Option-cases (linear_test strtab name s)) [
      | inl unread ↦ rw (unread, linear_walk) tt
      | inr (true, hit) ↦
          rw (hit, linear_walk)
            (found_symbol-IsFrom (s ∷ syms) strtab name 0 s refl
              (linear_test-Names strtab name s hit))
      | inr (false, miss) ↦
          rw (miss, linear_walk)
            (IsFrom-later s syms strtab name (linear_walk strtab name n syms)
              (linear_walk-IsFrom strtab name n syms))
    ]

-- The answer is about a symbol of a table that is there, with its string table.
abbrev IsIn : Option (List ElfSym) → Option (List ℕ) → List ℕ → Lookup → Type 0
IsIn table strings name l =
    (syms : List ElfSym) × (strtab : List ℕ) × (table ≡ some syms)
    × (strings ≡ some strtab)
    × IsFrom syms strtab name l

-- An answer that names a symbol is about one of the dynamic symbols or of the section's.
abbrev pub IsSymbol : ElfImage → List ℕ → Lookup → Type 0
IsSymbol image name (found value type bind) =
    IsIn image.dynsym_start image.strtab_start name (found value type bind)
    ⊎ IsIn image.symtab_start image.symtab_strtab name (found value type bind)
IsSymbol image name missing = Unit
IsSymbol image name fault = Unit
IsSymbol image name endless = Unit

module _ (image : ElfImage) (name : List ℕ) where
  IsSymbol-dynamic :
      (l : Lookup) → IsIn image.dynsym_start image.strtab_start name l → IsSymbol image name l
  IsSymbol-dynamic (found value type bind) h = inl h
  IsSymbol-dynamic missing h = tt
  IsSymbol-dynamic fault h = tt
  IsSymbol-dynamic endless h = tt

  IsSymbol-section :
      (l : Lookup) → IsIn image.symtab_start image.symtab_strtab name l → IsSymbol image name l
  IsSymbol-section (found value type bind) h = inr h
  IsSymbol-section missing h = tt
  IsSymbol-section fault h = tt
  IsSymbol-section endless h = tt

  IsSymbol-or_else :
      (l other : Lookup)
      → IsSymbol image name l
      → IsSymbol image name other
      → IsSymbol image name (or_else l other)
  IsSymbol-or_else (found value type bind) other h k = h
  IsSymbol-or_else missing other h k = k
  IsSymbol-or_else fault other h k = tt
  IsSymbol-or_else endless other h k = tt

  gnu_search-IsFrom :
      (g : GnuTable) (syms : List ElfSym) (count : ℕ) (strtab : List ℕ) (hash : ℕ)
      → IsFrom syms strtab name (gnu_search g syms count strtab name hash)
  unfolding gnu_search
  gnu_search-IsFrom g syms count strtab hash =
      elim (Bool-cases (g.gnu_bloom_size == 0 || leb 32 g.gnu_shift2)) [
        | inl undefined ↦ rw (undefined, gnu_search) tt
        | inr defined ↦
            elim (Option-cases (get_elem? g.gnu_bloom_filter (hash / 64 % g.gnu_bloom_size))) [
              | inl past ↦ rw (defined, past, gnu_search) tt
              | inr (word, e) ↦
                  let mask = bloom_mask hash g.gnu_shift2 in
                  elim (Bool-cases (bit_and word mask == mask)) [
                    | inr differ ↦ rw (defined, e, differ, gnu_search) tt
                    | inl may ↦
                        elim (Option-cases (get_elem? g.gnu_bucket (hash % g.gnu_nbucket))) [
                          | inl past ↦ rw (defined, e, may, past, gnu_search) tt
                          | inr (idx, b) ↦ elim (Bool-cases (ltb idx g.gnu_symndx)) [
                            | inl below ↦ rw (defined, e, may, b, below, gnu_search) tt
                            | inr above ↦
                                rw (defined, e, may, b, above, gnu_search)
                                  (walk_rule (IsFrom syms strtab name) _ tt
                                    (gnu_round-IsFrom syms strtab name g count hash) (suc count)
                                    idx)
                          ]
                        ]
                  ]
            ]
      ]

  gnu_hash_lookup-IsSymbol : (hash : ℕ) → IsSymbol image name (gnu_hash_lookup image name hash)
  unfolding gnu_hash_lookup
  gnu_hash_lookup-IsSymbol hash = elim (Option-cases image.gnu_table) [
    | inl no_table ↦ simp (no_table, gnu_hash_lookup) tt
    | inr (g, table) ↦ elim (Option-cases image.dynsym_start) [
      | inl no_syms ↦ simp (table, no_syms, gnu_hash_lookup) tt
      | inr (syms, start) ↦ elim (Option-cases image.strtab_start) [
        | inl no_strings ↦ simp (table, start, no_strings, gnu_hash_lookup) tt
        | inr (strtab, strings) ↦ elim (Bool-cases (g.gnu_nbucket == 0)) [
          | inl empty ↦ simp (table, start, strings, empty, gnu_hash_lookup) tt
          | inr full ↦
              simp (table, start, strings, full, gnu_hash_lookup)
                (IsSymbol-dynamic _ (
                  syms,
                  strtab,
                  start,
                  strings,
                  gnu_search-IsFrom g syms image.dynsym_count strtab hash,
                ))
        ]
      ]
    ]
  ]

  elf_hash_lookup-IsSymbol :
      (rounds hash : ℕ) → IsSymbol image name (elf_hash_lookup rounds image name hash)
  unfolding elf_hash_lookup
  elf_hash_lookup-IsSymbol rounds hash = elim (Option-cases image.elf_table) [
    | inl no_table ↦ simp (no_table, elf_hash_lookup) tt
    | inr (t, table) ↦ elim (Option-cases image.dynsym_start) [
      | inl no_syms ↦ simp (table, no_syms, elf_hash_lookup) tt
      | inr (syms, start) ↦ elim (Option-cases image.strtab_start) [
        | inl no_strings ↦ simp (table, start, no_strings, elf_hash_lookup) tt
        | inr (strtab, strings) ↦ elim (Bool-cases (t.nbucket == 0)) [
          | inl empty ↦ simp (table, start, strings, empty, elf_hash_lookup) tt
          | inr full ↦ elim (Option-cases (get_elem? t.bucket (hash % t.nbucket))) [
            | inl past ↦ simp (table, start, strings, full, past, elf_hash_lookup) tt
            | inr (n, b) ↦
                simp (table, start, strings, full, b, elf_hash_lookup)
                  (IsSymbol-dynamic _ (
                    syms,
                    strtab,
                    start,
                    strings,
                    walk_rule (IsFrom syms strtab name) _ tt (elf_round-IsFrom syms strtab name t)
                        rounds n,
                  ))
          ]
        ]
      ]
    ]
  ]

  linear_lookup-IsSymbol : IsSymbol image name (linear_lookup image name)
  unfolding linear_lookup
  linear_lookup-IsSymbol = elim (Option-cases image.symtab_start) [
    | inl no_syms ↦ simp (no_syms, linear_lookup) tt
    | inr (syms, table) ↦ elim (Option-cases image.symtab_strtab) [
      | inl no_strings ↦ simp (table, no_strings, linear_lookup) tt
      | inr (strtab, strings) ↦
          simp (table, strings, linear_lookup)
            (IsSymbol-section _ (
              syms,
              strtab,
              table,
              strings,
              linear_walk-IsFrom strtab name image.symtab_count syms,
            ))
    ]
  ]

  -- Whatever the tables hold, a symbol that find_symbol_offset finds is one of the dynamic symbol
  -- table or of the section's: its name there is the one asked for, it has a section, and the
  -- answer is its value, type and binding.
  pub find_symbol_offset-IsSymbol :
      (rounds : ℕ) → IsSymbol image name (find_symbol_offset rounds image name)
  unfolding find_symbol_offset
  find_symbol_offset-IsSymbol rounds =
      IsSymbol-or_else _ _ (gnu_hash_lookup-IsSymbol _)
        (IsSymbol-or_else _ _ (elf_hash_lookup-IsSymbol rounds _) linear_lookup-IsSymbol)

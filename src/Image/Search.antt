-- ===== src/Image/Search.antt =====
-- When the lookups through the hash tables answer, and when they find a symbol: a chain loop as a
-- walk from index to index.
use so_load.Base.{
  ℕ, zero, suc, ◌+◌, ◌-◌, ◌%◌, ◌/◌, ◌<◌, ◌≤◌, ◌≡◌, ◌≢◌, refl, ap, ◌∙◌, inl, inr, true, false, List,
  some, get_elem?, arith, Option-cases, bit_and, bit_xor,
}
use so_load.Base.Words.{◌>>>◌}
use so_load.Image.{ElfImage, ElfSym, GnuTable, HashTable}
use so_load.Image.Hash.{gnu_hash}
use so_load.Image.Lookup.{
  Lookup, endless, found_symbol, defines, gnu_test, bloom_mask, Round, stop, next, walk, gnu_round,
  gnu_search, gnu_hash_lookup, elf_round, elf_hash_lookup, find_symbol_offset,
}
use so_load.Image.Sound.{beq_bytes_refl, Names}

-- A walk whose measure falls at each step ends.
pub walk_ends :
    (round : ℕ → Round) (measure : ℕ → ℕ)
    → ((i : ℕ) → round i ≢ stop endless)
    → ((i k : ℕ) → round i ≡ next k → measure k < measure i)
    → (rounds idx : ℕ) → measure idx < rounds
    → walk round rounds idx ≢ endless
unfolding walk
walk_ends round measure ends falls zero idx h = absurd (omega (arith, h))
walk_ends round measure ends falls (suc rounds) idx h =
    go (round idx) refl (λ k. walk_ends round measure ends falls rounds k)
  where
    go :
        (r : Round)
        → round idx ≡ r
        → ((k : ℕ) → measure k < rounds → walk round rounds k ≢ endless)
        → (elim r [ stop l ↦ l | next k ↦ walk round rounds k ]) ≢ endless
    go (stop l) e again = λ same. ends idx (e ∙ ap stop same)
    go (next k) e again = let less = falls idx k e in again k (omega (arith, h, less))

-- A walk that only ever steps inside a set never ends.
pub walk_endless :
    (P : ℕ → Type 0) (round : ℕ → Round)
    → ((i : ℕ) → P i → (k : ℕ) × (round i ≡ next k) × P k)
    → (rounds idx : ℕ) → P idx
    → walk round rounds idx ≡ endless
unfolding walk
walk_endless P round closed zero idx h = refl
walk_endless P round closed (suc rounds) idx h =
    let (k, e, there) = closed idx h in rw (e, walk) (walk_endless P round closed rounds k there)

-- A walk over `n` indices in order to one that answers.
pub walk_to :
    (round : ℕ → Round) (l : Lookup) (n rounds idx last : ℕ)
    → n + idx ≡ last
    → ((i : ℕ) → idx ≤ i → i < last → round i ≡ next (i + 1))
    → round last ≡ stop l
    → n < rounds
    → walk round rounds idx ≡ l
unfolding walk
walk_to round l n zero idx last e steps end h = absurd (omega (arith, h))
walk_to round l zero (suc rounds) idx last e steps end h =
    let here : idx ≡ last = omega (arith, e) in rw (here, end, walk) refl
walk_to round l (suc n) (suc rounds) idx last e steps end h =
    let first = steps idx (omega arith) (omega (arith, e)) in
    rw (first, walk)
      (walk_to round l n rounds (idx + 1) last (omega (arith, e))
        (λ i above. steps i (omega (arith, above))) end (omega (arith, h)))

module _ (syms : List ElfSym) (strtab name : List ℕ) where
  gnu_round_answers :
      (g : GnuTable) (count hash idx : ℕ)
      → gnu_round g syms count strtab name hash idx ≢ stop endless
  unfolding gnu_round found_symbol
  gnu_round_answers g count hash idx = λ e. ground (arith, e)

  elf_round_answers : (t : HashTable) (n : ℕ) → elf_round t syms strtab name n ≢ stop endless
  unfolding elf_round found_symbol
  elf_round_answers t n = λ e. ground (arith, e)

  gnu_round_falls :
      (g : GnuTable) (count hash i k : ℕ)
      → gnu_round g syms count strtab name hash i ≡ next k
      → count - k < count - i
  unfolding gnu_round
  gnu_round_falls g count hash i k e = ground (arith, e)

  elf_round_next :
      (t : HashTable) (n k : ℕ)
      → elf_round t syms strtab name n ≡ next k
      → (n ≢ 0) × (get_elem? t.chain n ≡ some k)
  unfolding elf_round
  elf_round_next t n k e = ground (arith, e)

  elf_round_skip :
      (t : HashTable) (i : ℕ) (s : ElfSym) (k : ℕ)
      → i ≢ 0
      → get_elem? syms i ≡ some s
      → defines strtab name s ≡ some false
      → get_elem? t.chain i ≡ some k
      → elf_round t syms strtab name i ≡ next k
  unfolding elf_round
  elf_round_skip t i s k nonzero e skip link = ground arith

  gnu_search_answers :
      (g : GnuTable) (count hash : ℕ) → gnu_search g syms count strtab name hash ≢ endless
  unfolding gnu_search
  gnu_search_answers g count hash =
      elim (Option-cases (get_elem? g.gnu_bucket (hash % g.gnu_nbucket))) [
        | inl past ↦ λ e. ground (arith, e, past)
        | inr (idx, b) ↦
            let ends =
              walk_ends (gnu_round g syms count strtab name hash) (λ i. count - i)
                (gnu_round_answers g count hash) (gnu_round_falls g count hash) (suc count) idx
                (omega arith) in
            λ e. ground (arith, e, b, ends)
      ]

-- The lookup in the GNU table always answers: its loop makes at most `dynsym_count` rounds.
pub gnu_hash_lookup_answers :
    (image : ElfImage) (name : List ℕ) (hash : ℕ) → gnu_hash_lookup image name hash ≢ endless
unfolding gnu_hash_lookup
gnu_hash_lookup_answers image name hash = λ e. grind (arith, e, gnu_search_answers)

-- An entry that the lookup for a name passes by: readable, and not a definition of the name.
abbrev pub Skipped : List ElfSym → List ℕ → List ℕ → ℕ → Type 0
Skipped syms strtab name i =
    (s : ElfSym) × (get_elem? syms i ≡ some s) × (defines strtab name s ≡ some false)

module _ (image : ElfImage) (name : List ℕ) (t : HashTable) (syms : List ElfSym) (strtab : List ℕ)
    (table : image.elf_table ≡ some t) (start : image.dynsym_start ≡ some syms)
    (strings : image.strtab_start ≡ some strtab) where
  elf_hash_lookup-walk :
      (rounds hash n : ℕ)
      → t.nbucket ≢ 0
      → get_elem? t.bucket (hash % t.nbucket) ≡ some n
      → elf_hash_lookup rounds image name hash ≡ walk (elf_round t syms strtab name) rounds n
  unfolding elf_hash_lookup
  elf_hash_lookup-walk rounds hash n full b = ground (arith, table, start, strings, full, b)

  -- Where a bucket leads into a set of indices that the chain never leaves, and in which no entry
  -- defines the name, the lookup in the ELF hash table does not answer in any number of rounds.
  pub elf_hash_lookup_endless :
      (Inside : ℕ → Type 0) (hash n : ℕ)
      → t.nbucket ≢ 0
      → get_elem? t.bucket (hash % t.nbucket) ≡ some n
      → Inside n
      → ((i : ℕ)
          → Inside i
          → (i ≢ 0)
            × Skipped syms strtab name i
            × (k : ℕ) × (get_elem? t.chain i ≡ some k)
            × Inside k)
      → (rounds : ℕ) → elf_hash_lookup rounds image name hash ≡ endless
  elf_hash_lookup_endless Inside hash n full b inside closed rounds =
      elf_hash_lookup-walk rounds hash n full b
      ∙ walk_endless Inside (elf_round t syms strtab name)
          (λ i here.
            let (nonzero, (s, e, skip), k, link, there) = closed i here in
            (k, elf_round_skip syms strtab name t i s k nonzero e skip link, there))
          rounds n inside

  -- Where the chain's entries fall in some order, the lookup in the ELF hash table answers
  -- within a number of rounds that the order gives.
  pub elf_hash_lookup_answers :
      (rank : ℕ → ℕ)
      → ((i k : ℕ) → i ≢ 0 → get_elem? t.chain i ≡ some k → rank k < rank i)
      → (rounds hash : ℕ) → ((i n : ℕ) → get_elem? t.bucket i ≡ some n → rank n < rounds)
      → elf_hash_lookup rounds image name hash ≢ endless
  unfolding elf_hash_lookup
  elf_hash_lookup_answers rank falls rounds hash enough =
      elim (Option-cases (get_elem? t.bucket (hash % t.nbucket))) [
        | inl past ↦ λ e. ground (arith, e, past, table, start, strings)
        | inr (n, b) ↦
            let ends =
              walk_ends (elf_round t syms strtab name) rank (elf_round_answers syms strtab name t)
                (λ i k e.
                  let (nonzero, link) = elf_round_next syms strtab name t i k e in
                  falls i k nonzero link)
                rounds n (enough (hash % t.nbucket) n b) in
            λ e. ground (arith, e, b, ends, table, start, strings)
      ]

-- A GNU table through which a symbol is found: the Bloom filter passes its hash, its bucket starts
-- at or before it, and the chain from there runs on to it past entries that do not define the name.
pub record IsHashed (g : GnuTable) (syms : List ElfSym) (count : ℕ) (strtab name : List ℕ)
    (hash j : ℕ) (s : ElfSym) : Type 0 where
  pub has_buckets : g.gnu_nbucket ≢ 0
  pub has_filter : g.gnu_bloom_size ≢ 0
  pub has_shift : g.gnu_shift2 < 32
  pub word : ℕ
  pub has_word : get_elem? g.gnu_bloom_filter (hash / 64 % g.gnu_bloom_size) ≡ some word
  pub passes : bit_and word (bloom_mask hash g.gnu_shift2) ≡ bloom_mask hash g.gnu_shift2
  pub first : ℕ
  pub has_first : get_elem? g.gnu_bucket (hash % g.gnu_nbucket) ≡ some first
  pub hashed : g.gnu_symndx ≤ first
  pub before : first ≤ j
  pub counted : j < count
  pub runs_on :
      (i : ℕ)
      → first ≤ i
      → i < j
      → (c : ℕ) × (get_elem? g.gnu_chain (i - g.gnu_symndx) ≡ some c)
        × (bit_and c 1 ≡ 0)
        × Skipped syms strtab name i
  pub value : ℕ
  pub has_value : get_elem? g.gnu_chain (j - g.gnu_symndx) ≡ some value
  pub same_hash : bit_xor value hash >>> 1 ≡ 0
  pub entry : get_elem? syms j ≡ some s
  pub named : Names strtab name s

module _ {g : GnuTable} {syms : List ElfSym} {count : ℕ} {strtab name : List ℕ} {hash j : ℕ}
    {s : ElfSym} (h : IsHashed g syms count strtab name hash j s) where
  gnu_round_steps :
      (i : ℕ) → h.first ≤ i → i < j → gnu_round g syms count strtab name hash i ≡ next (i + 1)
  unfolding gnu_round gnu_test
  gnu_round_steps i above below =
      let (c, link, more, (t, e, skip)) = h.runs_on i above below in
      let inside : i < count = omega (arith, below, h.counted) in
      ground (arith, link, more, e, skip, inside)

  defines_named : defines strtab name s ≡ some true
  unfolding defines
  defines_named = rw (h.named.0, defines) (ground (arith, beq_bytes_refl name, h.named.1))

  gnu_round_stops : gnu_round g syms count strtab name hash j ≡ stop (found_symbol s)
  unfolding gnu_round gnu_test
  gnu_round_stops = ground (arith, h.has_value, h.same_hash, h.entry, h.counted, defines_named)

  pub gnu_search_finds : gnu_search g syms count strtab name hash ≡ found_symbol s
  unfolding gnu_search
  gnu_search_finds =
      let reached =
        walk_to (gnu_round g syms count strtab name hash) (found_symbol s) (j - h.first) (suc count)
          h.first j (omega (arith, h.before)) gnu_round_steps gnu_round_stops
          (omega (arith, h.counted)) in
      ground
        (arith, reached, h.has_filter, h.has_shift, h.has_word, h.passes, h.has_first, h.hashed)

-- A symbol that its image's GNU table leads to is the answer of the lookup by name.
pub find_symbol_offset_finds :
    (image : ElfImage) (name : List ℕ) (g : GnuTable) (syms : List ElfSym) (strtab : List ℕ) (j : ℕ)
    (s : ElfSym) (rounds : ℕ)
    → image.gnu_table ≡ some g
    → image.dynsym_start ≡ some syms
    → image.strtab_start ≡ some strtab
    → IsHashed g syms image.dynsym_count strtab name (gnu_hash name) j s
    → find_symbol_offset rounds image name ≡ found_symbol s
unfolding find_symbol_offset gnu_hash_lookup found_symbol
find_symbol_offset_finds image name g syms strtab j s rounds table start strings h =
    let reached = gnu_search_finds h in
    let full = h.has_buckets in ground (arith, table, start, strings, reached, full)

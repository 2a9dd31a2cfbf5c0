-- ===== src/Linker/Relr.antt =====
-- The RELR loop of processRelocations in src/linker.cpp: a compact list of the words of a library
-- that get its load bias added. Memory is the byte at each address.
use native.Mathlib.Nat.{div-div-eq-div-mul}
use so_load.Base.{
  ℕ, zero, suc, ◌+◌, ◌*◌, ◌/◌, ◌%◌, ◌^◌, ◌≡◌, refl, ap, sym, ◌∙◌, true, false, List, [], ◌∷◌, ◌++◌,
  ◌==◌, if◌then◌else◌, bit_and, arith, Bool-cases, inl, inr, ==_iff,
}
use so_load.Base.Words.{u64, ◌>>>◌}
use so_load.Linker.Memory.{read_word, write_word}
use so_load.Base.Bits.{bit_and_low, pow_add}

-- `*target += load_bias`.
unfoldable pub add_bias : ℕ → ℕ → (ℕ → ℕ) → ℕ → ℕ
unfolding read_word write_word
add_bias load_bias target memory =
    write_word target (u64 (read_word target memory + load_bias)) memory

-- The loop over a bitmap's bits, for at most `n` more of them.
unfoldable pub relr_bits : ℕ → ℕ → ℕ → ℕ → ℕ → (ℕ → ℕ) → ℕ → ℕ
relr_bits load_bias base_offset zero bit bitmap memory = memory
relr_bits load_bias base_offset (suc n) bit bitmap memory =
    let target = u64 (load_bias + base_offset + bit * 8) in
    let written = if bit_and bitmap 1 == 0 then memory else add_bias load_bias target memory in
    let rest = relr_bits load_bias base_offset n (bit + 1) (bitmap >>> 1) written in
    if bitmap == 0 then memory else rest

unfoldable pub process_relr : ℕ → ℕ → List ℕ → (ℕ → ℕ) → ℕ → ℕ
process_relr load_bias base_offset [] memory = memory
process_relr load_bias base_offset (entry ∷ entries) memory =
    let one =
      process_relr load_bias (u64 (entry + 8)) entries
        (add_bias load_bias (u64 (load_bias + entry)) memory) in
    let many =
      process_relr load_bias (u64 (base_offset + 63 * 8)) entries
        (relr_bits load_bias base_offset 63 0 (entry >>> 1) memory) in
    if bit_and entry 1 == 0 then one else many

-- The format: an even entry is an offset, after which the bitmaps start; an odd entry stands for
-- the offsets of 63 words, one for each of its bits above the lowest.
unfoldable pub bit_offsets : ℕ → ℕ → ℕ → ℕ → List ℕ
bit_offsets base bits zero j = []
bit_offsets base bits (suc n) j =
    let rest = bit_offsets base bits n (j + 1) in
    if bits / 2 ^ j % 2 == 1 then u64 (base + 8 * j) ∷ rest else rest

unfoldable pub relr_offsets : ℕ → List ℕ → List ℕ
relr_offsets base [] = []
relr_offsets base (entry ∷ entries) =
    let one = entry ∷ relr_offsets (u64 (entry + 8)) entries in
    let many = bit_offsets base (entry / 2) 63 0 ++ relr_offsets (u64 (base + 504)) entries in
    if entry % 2 == 0 then one else many

unfoldable pub relocate_all : ℕ → List ℕ → (ℕ → ℕ) → ℕ → ℕ
relocate_all load_bias [] memory = memory
relocate_all load_bias (o ∷ os) memory =
    relocate_all load_bias os (add_bias load_bias (u64 (load_bias + o)) memory)

relocate_all-append :
    (load_bias : ℕ) (xs ys : List ℕ) (memory : ℕ → ℕ)
    → relocate_all load_bias (xs ++ ys) memory
      ≡ relocate_all load_bias ys (relocate_all load_bias xs memory)
unfolding relocate_all
relocate_all-append load_bias [] ys memory = refl
relocate_all-append load_bias (x ∷ xs) ys memory =
    relocate_all-append load_bias xs ys (add_bias load_bias (u64 (load_bias + x)) memory)

half_above : (bits j : ℕ) → bits / 2 ^ (j + 1) ≡ bits / 2 ^ j / 2
half_above bits j = ap (λ (d : ℕ). bits / d) (pow_add j 1) ∙ sym (div-div-eq-div-mul bits (2 ^ j) 2)

no_bits : (base bits n j : ℕ) → bits / 2 ^ j ≡ 0 → bit_offsets base bits n j ≡ []
unfolding bit_offsets
no_bits base bits zero j e = refl
no_bits base bits (suc n) j e =
    let above : bits / 2 ^ (j + 1) ≡ 0 = half_above bits j ∙ ap (λ (q : ℕ). q / 2) e in
    rw (e, bit_offsets) (no_bits base bits n (j + 1) above)

relr_bits-bit_offsets :
    (load_bias base bits n j : ℕ) (memory : ℕ → ℕ)
    → relr_bits load_bias base n j (bits / 2 ^ j) memory
      ≡ relocate_all load_bias (bit_offsets base bits n j) memory
unfolding relr_bits bit_offsets relocate_all
relr_bits-bit_offsets load_bias base bits zero j memory = refl
relr_bits-bit_offsets load_bias base bits (suc n) j memory = elim (Bool-cases (bits / 2 ^ j == 0)) [
  | inl done ↦
      let none_left = no_bits base bits (suc n) j ((==_iff (bits / 2 ^ j) 0).0 done) in
      rw (done, relr_bits) (ap (λ os. relocate_all load_bias os memory) (sym none_left))
  | inr left ↦ elim (Bool-cases (bits / 2 ^ j % 2 == 1)) [
    | inl set_there ↦
        let odd : (bit_and (bits / 2 ^ j) 1 == 0) ≡ false = ground (arith, low, set_there) in
        rw (left, odd, set_there, relr_bits, bit_offsets, relocate_all)
          (ap
              (λ t.
                relr_bits load_bias base n (j + 1) ((bits / 2 ^ j) >>> 1)
                  (add_bias load_bias t memory))
              target
            ∙ shifted (add_bias load_bias (u64 (load_bias + u64 (base + 8 * j))) memory)
            ∙ relr_bits-bit_offsets load_bias base bits n (j + 1)
                (add_bias load_bias (u64 (load_bias + u64 (base + 8 * j))) memory))
    | inr unset ↦
        let even : (bit_and (bits / 2 ^ j) 1 == 0) ≡ true = ground (arith, low, unset) in
        rw (left, even, unset, relr_bits, bit_offsets)
          (shifted memory ∙ relr_bits-bit_offsets load_bias base bits n (j + 1) memory)
  ]
]
  where
    low : bit_and (bits / 2 ^ j) 1 ≡ bits / 2 ^ j % 2
    low = bit_and_low 1 (bits / 2 ^ j)

    target : u64 (load_bias + base + j * 8) ≡ u64 (load_bias + u64 (base + 8 * j))
    target = omega arith

    shifted :
        (m : ℕ → ℕ)
        → relr_bits load_bias base n (j + 1) ((bits / 2 ^ j) >>> 1) m
          ≡ relr_bits load_bias base n (j + 1) (bits / 2 ^ (j + 1)) m
    shifted m = ap (λ (q : ℕ). relr_bits load_bias base n (j + 1) q m) (sym (half_above bits j))

-- The RELR loop adds the load bias to the words at the offsets that the format lists, in order;
-- that its bitmap loop stops early and shifts the bitmap as it goes makes no difference.
pub process_relr-relr_offsets :
    (load_bias base : ℕ) (entries : List ℕ) (memory : ℕ → ℕ)
    → process_relr load_bias base entries memory
      ≡ relocate_all load_bias (relr_offsets base entries) memory
unfolding process_relr relr_offsets relocate_all
process_relr-relr_offsets load_bias base [] memory = refl
process_relr-relr_offsets load_bias base (entry ∷ entries) memory =
    elim (Bool-cases (entry % 2 == 0)) [
      | inl even ↦
          let low : (bit_and entry 1 == 0) ≡ true = ground (arith, bit_and_low 1 entry, even) in
          rw (low, even, process_relr, relr_offsets, relocate_all)
            (process_relr-relr_offsets load_bias (u64 (entry + 8)) entries
              (add_bias load_bias (u64 (load_bias + entry)) memory))
      | inr odd ↦
          let low : (bit_and entry 1 == 0) ≡ false = ground (arith, bit_and_low 1 entry, odd) in
          let bits = bit_offsets base (entry / 2) 63 0 in
          let later = relr_offsets (u64 (base + 504)) entries in
          let whole : entry >>> 1 ≡ entry / 2 / 2 ^ 0 = omega arith in
          rw (low, odd, process_relr, relr_offsets)
            (process_relr-relr_offsets load_bias (u64 (base + 504)) entries
                (relr_bits load_bias base 63 0 (entry >>> 1) memory)
              ∙ ap
                  (λ (q : ℕ). relocate_all load_bias later (relr_bits load_bias base 63 0 q memory))
                  whole
              ∙ ap (relocate_all load_bias later)
                  (relr_bits-bit_offsets load_bias base (entry / 2) 63 0 memory)
              ∙ sym (relocate_all-append load_bias bits later memory))
    ]

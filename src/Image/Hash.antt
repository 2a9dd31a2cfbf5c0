-- ===== src/Image/Hash.antt =====
-- elfHash and gnuHash of src/elf_image.cpp, on uint32_t.
use so_load.Base.{
  ℕ, ◌+◌, ◌-◌, ◌*◌, ◌/◌, ◌%◌, ◌^◌, ◌<◌, ◌≡◌, refl, ap, sym, ◌∙◌, List, [], ◌∷◌, ◌==◌, if◌then◌else◌,
  bit_and, bit_xor, arith, Bool-cases, ==_iff, inl, inr,
}
use so_load.Base.Words.{u32, ◌<<<◌, ◌>>>◌, IsU32}
use so_load.Base.Bits.{
  bit_and_high, bit_and_low, split-bit_and, split-bit_xor, bit_xor-small, bit_and_step,
  bit_xor-zero, zero-bit_and,
}

-- One round of elfHash.
unfoldable pub elf_hash_step : ℕ → ℕ → ℕ
elf_hash_step h c =
    let h1 = u32 (u32 (h <<< 4) + c) in
    let g = bit_and h1 0xf0000000 in
    let h2 = if g == 0 then h1 else bit_xor h1 (g >>> 24) in bit_and h2 (2 ^ 32 - 1 - g)

unfoldable pub elf_hash_from : ℕ → List ℕ → ℕ
unfolding elf_hash_step
elf_hash_from h [] = h
elf_hash_from h (c ∷ cs) = elf_hash_from (elf_hash_step h c) cs

unfoldable pub elf_hash : List ℕ → ℕ
unfolding elf_hash_from
elf_hash name = elf_hash_from 0 name

unfoldable pub gnu_hash_from : ℕ → List ℕ → ℕ
gnu_hash_from h [] = h
gnu_hash_from h (c ∷ cs) = gnu_hash_from (u32 (u32 (u32 (h <<< 5) + h) + c)) cs

unfoldable pub gnu_hash : List ℕ → ℕ
unfolding gnu_hash_from
gnu_hash name = gnu_hash_from 5381 name

-- The polynomial in 33 that gnuHash computes, with no bound.
unfoldable pub times_33 : ℕ → List ℕ → ℕ
times_33 h [] = h
times_33 h (c ∷ cs) = times_33 (h * 33 + c) cs

times_33-mod :
    (h k : ℕ) (cs : List ℕ)
    → h % 2 ^ 32 ≡ k % 2 ^ 32
    → times_33 h cs % 2 ^ 32 ≡ times_33 k cs % 2 ^ 32
unfolding times_33
times_33-mod h k [] e = e
times_33-mod h k (c ∷ cs) e = times_33-mod (h * 33 + c) (k * 33 + c) cs (omega arith)

gnu_hash_from-times_33 :
    (h : ℕ) (cs : List ℕ) → IsU32 h → gnu_hash_from h cs ≡ times_33 h cs % 2 ^ 32
unfolding gnu_hash_from times_33
gnu_hash_from-times_33 h [] p = omega arith
gnu_hash_from-times_33 h (c ∷ cs) p =
    gnu_hash_from-times_33 (u32 (u32 (u32 (h <<< 5) + h) + c)) cs (omega arith)
    ∙ times_33-mod (u32 (u32 (u32 (h <<< 5) + h) + c)) (h * 33 + c) cs (omega arith)

-- gnuHash is the polynomial modulo 2 ^ 32: the wrap-around of each round loses nothing.
pub gnu_hash-times_33 : (name : List ℕ) → gnu_hash name ≡ times_33 5381 name % 2 ^ 32
unfolding gnu_hash
gnu_hash-times_33 name = gnu_hash_from-times_33 5381 name (omega arith)

-- The round of the System V ABI, as arithmetic: the top nibble is folded into bits 4 to 7.
unfoldable pub abi_step : ℕ → ℕ → ℕ
abi_step h c = let t = (16 * h + c) % 2 ^ 32 in bit_xor (t % 2 ^ 28) (t / 2 ^ 28 * 16)

nibble_and : (a : ℕ) → a < 16 → bit_and a (15 - a) ≡ 0
nibble_and a h = ground (
  arith,
  bit_and_step a (15 - a),
  bit_and_step (a / 2) ((15 - a) / 2),
  bit_and_step (a / 2 / 2) ((15 - a) / 2 / 2),
  bit_and_step (a / 2 / 2 / 2) ((15 - a) / 2 / 2 / 2),
  zero-bit_and 0,
)

-- The round on a word split into its top nibble `a` and the rest.
module _ (a x : ℕ) (ha : a < 16) (hx : x < 2 ^ 28) where
  top_nibble : bit_and (a * 2 ^ 28 + x) 0xf0000000 ≡ a * 2 ^ 28
  top_nibble = omega (
    arith,
    bit_and_high 28 (a * 2 ^ 28 + x) 15,
    ap (λ (n : ℕ). bit_and n 15) (let q : (a * 2 ^ 28 + x) / 2 ^ 28 ≡ a = omega arith in q),
    bit_and_low 4 a,
  )

  fold_nibble : bit_xor (a * 2 ^ 28 + x) ((a * 2 ^ 28) >>> 24) ≡ a * 2 ^ 28 + bit_xor x (a * 16)
  fold_nibble =
      let shifted : (a * 2 ^ 28) >>> 24 ≡ 0 * 2 ^ 28 + a * 16 = omega arith in
      rw shifted (
        split-bit_xor 28 a x 0 (a * 16) hx (omega arith)
        ∙ ap (λ (n : ℕ). n * 2 ^ 28 + bit_xor x (a * 16)) (bit_xor-zero a))

  clear_nibble : (y : ℕ) → y < 2 ^ 28 → bit_and (a * 2 ^ 28 + y) (2 ^ 32 - 1 - a * 2 ^ 28) ≡ y
  clear_nibble y hy =
      let mask : 2 ^ 32 - 1 - a * 2 ^ 28 ≡ (15 - a) * 2 ^ 28 + (2 ^ 28 - 1) = omega arith in
      rw mask (
        split-bit_and 28 a y (15 - a) (2 ^ 28 - 1) hy (omega arith)
        ∙ omega (arith, nibble_and a ha, bit_and_low 28 y))

round_lem :
    (t : ℕ)
    → t < 2 ^ 32
    → bit_and
        (if bit_and t 0xf0000000 == 0 then t else bit_xor t (bit_and t 0xf0000000 >>> 24))
        (2 ^ 32 - 1 - bit_and t 0xf0000000)
      ≡ bit_xor (t % 2 ^ 28) (t / 2 ^ 28 * 16)
round_lem t p =
    let a = t / 2 ^ 28 in
    let x = t % 2 ^ 28 in
    let parts : a * 2 ^ 28 + x ≡ t = omega arith in
    let small = bit_xor-small 28 x (a * 16) (omega arith) (omega arith) in
    let top : bit_and t 0xf0000000 ≡ a * 2 ^ 28 =
      ap (λ (n : ℕ). bit_and n 0xf0000000) (sym parts)
      ∙ top_nibble a x (omega arith) (omega arith) in
    let folded : bit_xor t ((a * 2 ^ 28) >>> 24) ≡ a * 2 ^ 28 + bit_xor x (a * 16) =
      ap (λ (n : ℕ). bit_xor n ((a * 2 ^ 28) >>> 24)) (sym parts)
      ∙ fold_nibble a x (omega arith) (omega arith) in
    rw top (elim (Bool-cases (a * 2 ^ 28 == 0)) [
      | inl clear ↦
          let none_set : a ≡ 0 = omega (arith, (==_iff (a * 2 ^ 28) 0).0 clear) in
          let same : bit_xor x (a * 16) ≡ x =
            ap (λ (n : ℕ). bit_xor x (n * 16)) none_set ∙ bit_xor-zero x in
          rw clear (
            sym (ap (λ (n : ℕ). bit_and n (2 ^ 32 - 1 - a * 2 ^ 28)) (omega (arith, none_set)))
            ∙ clear_nibble a x (omega arith) (omega arith) x (omega arith)
            ∙ sym same)
      | inr set ↦
          rw (set, folded) (clear_nibble a x (omega arith) (omega arith) (bit_xor x (a * 16)) small)
    ])

elf_hash_step-abi_step : (h c : ℕ) → elf_hash_step h c ≡ abi_step h c
unfolding elf_hash_step abi_step
elf_hash_step-abi_step h c =
    let same : u32 (u32 (h <<< 4) + c) ≡ (16 * h + c) % 2 ^ 32 = omega arith in
    rw same (round_lem ((16 * h + c) % 2 ^ 32) (omega arith))

abi_step-small : (h c : ℕ) → abi_step h c < 2 ^ 28
unfolding abi_step
abi_step-small h c = bit_xor-small 28 _ _ (omega arith) (omega arith)

-- The ABI's hash of a name, from `h` on.
unfoldable pub abi_hash : ℕ → List ℕ → ℕ
abi_hash h [] = h
abi_hash h (c ∷ cs) = abi_hash (abi_step h c) cs

elf_hash_from-abi_hash :
    (h : ℕ) (cs : List ℕ)
    → h < 2 ^ 28
    → (elf_hash_from h cs ≡ abi_hash h cs) × (elf_hash_from h cs < 2 ^ 28)
unfolding elf_hash_from abi_hash
elf_hash_from-abi_hash h [] p = (refl, p)
elf_hash_from-abi_hash h (c ∷ cs) p =
    rw (elf_hash_step-abi_step h c) (elf_hash_from-abi_hash (abi_step h c) cs (abi_step-small h c))

-- elfHash is the ABI's hash, and its value fits 28 bits.
pub elf_hash-abi_hash :
    (name : List ℕ) → (elf_hash name ≡ abi_hash 0 name) × (elf_hash name < 2 ^ 28)
unfolding elf_hash
elf_hash-abi_hash name = elf_hash_from-abi_hash 0 name (omega arith)

-- ===== src/Linker/Memory.antt =====
-- The words of 8 bytes that the relocations of src/linker.cpp read and write, in a memory of bytes.
use so_load.Base.{
  ℕ, ◌+◌, ◌*◌, ◌/◌, ◌%◌, ◌^◌, ◌≤◌, ◌<◌, ◌≡◌, ltb, if◌then◌else◌, arith, ap, refl, sym, ◌∙◌, true,
  false,
}
use so_load.Base.Words.{u64, sub64}

-- `*target`, with the lowest byte first.
unfoldable pub read_word : ℕ → (ℕ → ℕ) → ℕ
read_word target memory =
    memory target
    + 2 ^ 8 * memory (u64 (target + 1))
    + 2 ^ 16 * memory (u64 (target + 2))
    + 2 ^ 24 * memory (u64 (target + 3))
    + 2 ^ 32 * memory (u64 (target + 4))
    + 2 ^ 40 * memory (u64 (target + 5))
    + 2 ^ 48 * memory (u64 (target + 6))
    + 2 ^ 56 * memory (u64 (target + 7))

-- `*target = value`.
unfoldable pub write_word : ℕ → ℕ → (ℕ → ℕ) → ℕ → ℕ
write_word target value memory a =
    let i = sub64 a target in if ltb i 8 then value / 2 ^ (8 * i) % 2 ^ 8 else memory a

pub write_word_apart :
    (target value : ℕ) (memory : ℕ → ℕ) (a : ℕ)
    → 8 ≤ sub64 a target
    → write_word target value memory a ≡ memory a
unfolding write_word
write_word_apart target value memory a far = ground (arith, far)

-- Neither in the word at `target` nor in the word behind it.
pub apart_next :
    (target a : ℕ)
    → target < 2 ^ 64
    → 16 ≤ sub64 a target
    → (ltb (sub64 a target) 8 ≡ false) × (ltb (sub64 a (u64 (target + 8))) 8 ≡ false)
apart_next target a small far =
    let next : 8 ≤ sub64 a (u64 (target + 8)) = omega (arith, small, far) in
    (ground (arith, far), ground (arith, next))

write_word_at :
    (target value : ℕ) (memory : ℕ → ℕ) (i : ℕ)
    → target < 2 ^ 64
    → i < 8
    → write_word target value memory (u64 (target + i)) ≡ value / 2 ^ (8 * i) % 2 ^ 8
unfolding write_word
write_word_at target value memory i small low =
    let place : sub64 (u64 (target + i)) target ≡ i = omega (arith, small, low) in
    let inside : ltb i 8 ≡ true = ground (arith, low) in rw (place, inside) refl

digits :
    (v : ℕ)
    → v / 2 ^ 0 % 2 ^ 8
        + 2 ^ 8 * (v / 2 ^ 8 % 2 ^ 8)
        + 2 ^ 16 * (v / 2 ^ 16 % 2 ^ 8)
        + 2 ^ 24 * (v / 2 ^ 24 % 2 ^ 8)
        + 2 ^ 32 * (v / 2 ^ 32 % 2 ^ 8)
        + 2 ^ 40 * (v / 2 ^ 40 % 2 ^ 8)
        + 2 ^ 48 * (v / 2 ^ 48 % 2 ^ 8)
        + 2 ^ 56 * (v / 2 ^ 56 % 2 ^ 8)
      ≡ v % 2 ^ 64
digits v = omega arith

-- A word that is written is read back.
pub read_word-write_word :
    (target value : ℕ) (memory : ℕ → ℕ)
    → target < 2 ^ 64
    → read_word target (write_word target value memory) ≡ u64 value
unfolding read_word
read_word-write_word target value memory small =
    let at = λ (i : ℕ) (low : i < 8). write_word_at target value memory i small low in
    let start : write_word target value memory target ≡ value / 2 ^ 0 % 2 ^ 8 =
      ap (write_word target value memory)
        (let e : target ≡ u64 (target + 0) = omega (arith, small) in e)
      ∙ at 0 (omega arith) in
    omega (
      arith,
      start,
      at 1 (omega arith),
      at 2 (omega arith),
      at 3 (omega arith),
      at 4 (omega arith),
      at 5 (omega arith),
      at 6 (omega arith),
      at 7 (omega arith),
      digits value,
    )

-- A word of which no byte is written is read as before.
pub read_word_cong :
    (target : ℕ) (memory memory' : ℕ → ℕ)
    → target < 2 ^ 64
    → ((i : ℕ) → i < 8 → memory' (u64 (target + i)) ≡ memory (u64 (target + i)))
    → read_word target memory' ≡ read_word target memory
unfolding read_word
read_word_cong target memory memory' small same =
    let start : memory' target ≡ memory target =
      let e : u64 (target + 0) ≡ target = omega (arith, small) in
      ap memory' (sym e) ∙ same 0 (omega arith) ∙ ap memory e in
    omega (
      arith,
      start,
      same 1 (omega arith),
      same 2 (omega arith),
      same 3 (omega arith),
      same 4 (omega arith),
      same 5 (omega arith),
      same 6 (omega arith),
      same 7 (omega arith),
    )

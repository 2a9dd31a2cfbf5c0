-- ===== src/Sleb128.antt =====
-- include/sleb128.hpp: the LEB128 decoder that reads the packed relocations.
-- The bytes from `current_` up to `end_` are the decoder's state.
pub mod Spec
pub mod Total
pub mod Bounds
pub mod RoundTrip
mod Runs
use so_load.Base.{
  ℕ, ◌+◌, ◌-◌, ◌*◌, ◌^◌, ◌≡◌, Bool, true, false, not, ◌&&◌, List, [], ◌∷◌, Option, none, some, ltb,
  leb, ◌==◌, if◌then◌else◌, bit_and, bit_or,
}
use so_load.Base.Words.{u64, ◌<<<◌}

pub record Sleb128Decoder : Type 0 where
  pub current : List ℕ

-- How the do-while loop over the groups of seven bits ends. `overlong`: a group is shifted by the
-- width of the word or more, which C++ leaves undefined.
pub data Groups : Type 0 where
  truncated overlong : Groups
  complete : (value shift byte : ℕ) → List ℕ → Groups

-- The loop that both decoders run. An int64_t is its bit pattern; a payload that decode shifts past
-- the sign, which C++17 leaves undefined, is cut to 64 bits, as compilers do.
unfoldable pub read_groups : List ℕ → ℕ → ℕ → Groups
read_groups [] value shift = truncated
read_groups (byte ∷ rest) value shift =
    let value' = bit_or value (u64 (bit_and byte 0x7f <<< shift)) in
    let more = read_groups rest value' (shift + 7) in
    let next = if bit_and byte 0x80 == 0 then complete value' (shift + 7) byte rest else more in
    if leb 64 shift then overlong else next

-- `value |= -(1 << shift)`, as a bit pattern. At shift 63 the negation overflows, which C++ leaves
-- undefined; it is taken modulo 2 ^ 64, as compilers do.
unfoldable pub sign_extend : ℕ → ℕ → ℕ → ℕ
sign_extend value shift byte =
    if ltb shift 64 && not (bit_and byte 0x40 == 0)
    then bit_or value (2 ^ 64 - 2 ^ shift)
    else value

-- `none` is a shift by 64 bits or more. At the end of the input the answer is 0.
unfoldable pub finish : (ℕ → ℕ → ℕ → ℕ) → Groups → Option (ℕ × Sleb128Decoder)
finish adjust truncated = some (0, record { current = [] })
finish adjust overlong = none
finish adjust (complete value shift byte rest) =
    some (adjust value shift byte, record { current = rest })

unfoldable pub decode : Sleb128Decoder → Option (ℕ × Sleb128Decoder)
unfolding read_groups sign_extend finish
decode d = finish sign_extend (read_groups d.current 0 0)

unfoldable pub decode_unsigned : Sleb128Decoder → Option (ℕ × Sleb128Decoder)
unfolding read_groups finish
decode_unsigned d = finish (λ value shift byte. value) (read_groups d.current 0 0)

unfoldable pub has_more : Sleb128Decoder → Bool
has_more d = elim d.current [ [] ↦ false | b ∷ bs ↦ true ]

-- ===== src/Sleb128/Runs.antt =====
-- Concrete runs of the decoders, and the theorems at concrete inputs.
use so_load.Base.{ℕ, ◌+◌, ◌-◌, ◌^◌, ◌≡◌, refl, List, [], ◌∷◌, ◌++◌, some, arith}
use so_load.Base.Int.{negsuc, pattern64}
use so_load.Sleb128.{Sleb128Decoder, decode, decode_unsigned}
use so_load.Sleb128.Spec.{payload, uleb, sleb}
use so_load.Sleb128.Total.{decode_unsigned_numeral}
use so_load.Sleb128.RoundTrip.{decode_unsigned-uleb, decode-sleb}
use so_load.Sleb128.Bounds.{Takes, decode-Takes}

abbrev decoder : List ℕ → Sleb128Decoder
decoder bytes = record { current = bytes }

-- 624485 and -123456, the examples of the DWARF standard.
unsigned_run :
    decode_unsigned (decoder (0xe5 ∷ 0x8e ∷ 0x26 ∷ 9 ∷ [])) ≡ some (624485, decoder (9 ∷ []))
unfolding decode_unsigned
unsigned_run = refl

signed_run : decode (decoder (0xc0 ∷ 0xbb ∷ 0x78 ∷ [])) ≡ some (2 ^ 64 - 123456, decoder [])
unfolding decode
signed_run = refl

-- Input that ends inside a number is answered by 0.
truncated_run : decode_unsigned (decoder (0xe5 ∷ 0x8e ∷ [])) ≡ some (0, decoder [])
unfolding decode_unsigned
truncated_run = refl

decode_unsigned_numeral_example :
    decode_unsigned (decoder (0xe5 ∷ 0x8e ∷ 0x26 ∷ 9 ∷ []))
    ≡ some (payload (0xe5 ∷ 0x8e ∷ 0x26 ∷ []) + 0, decoder (9 ∷ []))
unfolding payload
decode_unsigned_numeral_example =
    decode_unsigned_numeral (0xe5 ∷ 0x8e ∷ 0x26 ∷ []) (9 ∷ []) (omega arith) (omega arith)

decode_unsigned-uleb_example :
    decode_unsigned (decoder (uleb 9 (2 ^ 64 - 1) ++ 7 ∷ [])) ≡ some (2 ^ 64 - 1, decoder (7 ∷ []))
decode_unsigned-uleb_example = decode_unsigned-uleb (2 ^ 64 - 1) (7 ∷ []) (omega arith)

decode-sleb_example :
    decode (decoder (sleb 9 (negsuc 123455) ++ 7 ∷ []))
    ≡ some (pattern64 (negsuc 123455), decoder (7 ∷ []))
decode-sleb_example = decode-sleb (negsuc 123455) (7 ∷ []) (omega arith)

decode-Takes_example :
    Takes (0xe5 ∷ 0x8e ∷ []) (decode (decoder (0xe5 ∷ 0x8e ∷ [])))
    × Takes (0xe5 ∷ 0x8e ∷ []) (decode_unsigned (decoder (0xe5 ∷ 0x8e ∷ [])))
decode-Takes_example = decode-Takes (decoder (0xe5 ∷ 0x8e ∷ []))

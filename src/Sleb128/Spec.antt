-- ===== src/Sleb128/Spec.antt =====
-- LEB128 as its definition states it, apart from the decoder: a number's groups of seven bits,
-- lowest first, with the top bit set on all but the last.
use so_load.Base.{
  ℕ, zero, suc, ◌+◌, ◌-◌, ◌*◌, ◌/◌, ◌%◌, ◌≤◌, ◌<◌, List, [], ◌∷◌, ltb, if◌then◌else◌,
}
use so_load.Base.Int.{ℤ, pos, negsuc}

-- The bytes of one number.
abbrev pub IsNumeral : List ℕ → Type 0
IsNumeral [] = ⊥
IsNumeral (b ∷ []) = b < 128
IsNumeral (b ∷ c ∷ bs) = (128 ≤ b) × (b < 256) × IsNumeral (c ∷ bs)

-- What the groups stand for, with no bound on their number.
unfoldable pub payload : List ℕ → ℕ
payload [] = 0
payload (b ∷ bs) = b % 128 + 128 * payload bs

abbrev pub last_byte : List ℕ → ℕ
last_byte [] = 0
last_byte (b ∷ []) = b
last_byte (b ∷ c ∷ bs) = last_byte (c ∷ bs)

-- ULEB128 of a number below 128 ^ (k + 1).
unfoldable pub uleb : ℕ → ℕ → List ℕ
uleb zero n = n ∷ []
uleb (suc k) n = let tail = (128 + n % 128) ∷ uleb k (n / 128) in if ltb n 128 then n ∷ [] else tail

-- SLEB128: the sign is bit 6 of the last byte. Shifting -(n + 1) right by seven bits gives
-- -(n / 128 + 1), and its low group is 127 - n % 128.
unfoldable pub sleb : ℕ → ℤ → List ℕ
sleb zero (pos n) = n ∷ []
sleb zero (negsuc n) = (127 - n) ∷ []
sleb (suc k) (pos n) =
    let tail = (128 + n % 128) ∷ sleb k (pos (n / 128)) in if ltb n 64 then n ∷ [] else tail
sleb (suc k) (negsuc n) =
    let tail = (255 - n % 128) ∷ sleb k (negsuc (n / 128)) in
    if ltb n 64 then (127 - n) ∷ [] else tail

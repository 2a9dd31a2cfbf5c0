-- ===== src/Backtrace/Pointers.antt =====
-- The address of the frame section in an eh_frame_hdr: what is read back from it.
use so_load.Base.{
  ℕ, zero, suc, ◌+◌, ◌-◌, ◌/◌, ◌%◌, ◌^◌, ◌≤◌, ◌<◌, ◌≡◌, ◌≢◌, ap, List, [], ◌∷◌, ◌++◌, some, arith,
  ◌⊎◌,
}
use so_load.Base.Words.{u64, sub64, IsU64}
use so_load.Backtrace.EhFrameHdr.{
  read_le, widen, stored, read_stored, relocate, decode_pointer, parse_eh_frame_hdr,
}

-- A number as `n` bytes, the lowest first.
unfoldable pub to_le : ℕ → ℕ → List ℕ
to_le zero v = []
to_le (suc n) v = v % 256 ∷ to_le n (v / 256)

read_le-to_le : (n v : ℕ) (rest : List ℕ) → v < 256 ^ n → read_le n (to_le n v ++ rest) ≡ some v
unfolding read_le to_le
read_le-to_le zero v rest h = ap some (omega arith)
read_le-to_le (suc n) v rest h =
    let small : v / 256 < 256 ^ n = omega (arith, h) in
    rw (read_le-to_le n (v / 256) rest small, read_le) (ap some (omega arith))

-- The distance to the target, as the 64-bit word that a 32-bit number stands for.
abbrev IsNear : ℕ → Type 0
IsNear d = (d < 2 ^ 31) ⊎ ((2 ^ 64 - 2 ^ 31 ≤ d) × (d < 2 ^ 64))

widen_near : (d : ℕ) → IsNear d → widen 32 (d % 2 ^ 32) ≡ d
unfolding widen
widen_near d h = ground arith

-- The frame section's address, stored the usual way as the signed 32-bit distance from the field
-- to the target, is read back for every target within 2 ^ 31 of the field.
pub parse_eh_frame_hdr-near :
    (hdr count_enc table_enc size base target : ℕ) (rest : List ℕ)
    → 4 ≤ size
    → IsU64 target
    → target ≢ u64 (hdr + 4)
    → IsNear (sub64 target (u64 (hdr + 4)))
    → parse_eh_frame_hdr hdr
        (1 ∷ 0x1b ∷ count_enc ∷ table_enc ∷ to_le 4 (sub64 target (u64 (hdr + 4)) % 2 ^ 32) ++ rest)
        size
        base
      ≡ some target
unfolding parse_eh_frame_hdr decode_pointer read_stored stored relocate
parse_eh_frame_hdr-near hdr count_enc table_enc size base target rest enough word apart near =
    let start = u64 (hdr + 4) in
    let d = sub64 target start in
    let bytes = read_le-to_le 4 (d % 2 ^ 32) rest (omega arith) in
    let wide = widen_near d near in ground (arith, bytes, wide, enough, word, apart)

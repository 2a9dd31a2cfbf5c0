-- ===== src/Backtrace/EhFrameHdr.antt =====
-- decodePointer and parseEhFrameHdr of src/backtrace.cpp. Memory is the list of the header's
-- bytes; a read past them is the result `none`.
use so_load.Base.{
  ℕ, zero, suc, ◌+◌, ◌-◌, ◌*◌, ◌^◌, List, [], ◌∷◌, Option, none, some, ltb, ◌==◌, if◌then◌else◌,
  bit_and,
}
use so_load.Base.Words.{u64}

-- A little-endian number of `n` bytes at the head of a list.
unfoldable pub read_le : ℕ → List ℕ → Option ℕ
read_le zero bytes = some 0
read_le (suc n) [] = none
read_le (suc n) (b ∷ bytes) = elim (read_le n bytes) [
  | none ↦ none
  | some high ↦ some (b + 256 * high)
]

-- A number of `w` bits as uintptr_t: the sign is extended.
unfoldable pub widen : ℕ → ℕ → ℕ
widen w n = if ltb n (2 ^ (w - 1)) then n else u64 (n + (2 ^ 64 - 2 ^ w))

-- How a pointer is stored: the bytes it takes, and whether they are signed.
pub data Stored : Type 0 where
  unsigned_bytes signed_bytes : ℕ → Stored
  unsupported : Stored

unfoldable pub stored : ℕ → Stored
stored format =
    if format == 0
    then unsigned_bytes 8
    else if format == 2
    then unsigned_bytes 2
    else if format == 3
    then unsigned_bytes 4
    else if format == 4
    then unsigned_bytes 8
    else if format == 0xa
    then signed_bytes 2
    else if format == 0xb
    then signed_bytes 4
    else if format == 0xc
    then signed_bytes 8
    else unsupported

-- The value that the pointer's bytes hold; an unsupported encoding gives 0.
unfoldable pub read_stored : ℕ → List ℕ → Option ℕ
unfolding stored read_le widen
read_stored encoding bytes = elim (stored (bit_and encoding 0x0f)) [
  | unsupported ↦ some 0
  | unsigned_bytes n ↦ read_le n bytes
  | signed_bytes n ↦ elim (read_le n bytes) [ none ↦ none | some v ↦ some (widen (8 * n) v) ]
]

-- The offset that the encoding asks for; 0 stays 0.
unfoldable pub relocate : ℕ → ℕ → ℕ → ℕ → ℕ
relocate encoding start base value =
    let relative = bit_and encoding 0x70 in
    if value == 0
    then 0
    else if relative == 0x10
    then u64 (value + start)
    else if relative == 0x30
    then u64 (value + base)
    else value

-- decodePointer, for the bytes at the address `start`: the value that `*result` gets.
unfoldable pub decode_pointer : ℕ → List ℕ → ℕ → ℕ → Option ℕ
unfolding read_stored relocate
decode_pointer start bytes encoding base =
    if encoding == 0xff then some 0 else elim (read_stored encoding bytes) [
      | none ↦ none
      | some value ↦ some (relocate encoding start base value)
    ]

-- parseEhFrameHdr, for the bytes at the address `hdr`, which is not null.
unfoldable pub parse_eh_frame_hdr : ℕ → List ℕ → ℕ → ℕ → Option ℕ
unfolding decode_pointer
parse_eh_frame_hdr hdr (version ∷ encoding ∷ count_enc ∷ table_enc ∷ rest) size base =
    if ltb size 4
    then some 0
    else if version == 1
    then (if encoding == 0xff then some 0 else decode_pointer (u64 (hdr + 4)) rest encoding base)
    else some 0
parse_eh_frame_hdr hdr [] size base = if ltb size 4 then some 0 else none
parse_eh_frame_hdr hdr (a ∷ []) size base = if ltb size 4 then some 0 else none
parse_eh_frame_hdr hdr (a ∷ b ∷ []) size base = if ltb size 4 then some 0 else none
parse_eh_frame_hdr hdr (a ∷ b ∷ c ∷ []) size base = if ltb size 4 then some 0 else none

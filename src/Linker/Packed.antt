-- ===== src/Linker/Packed.antt =====
-- The packed relocations ("APS2") in processRelocations of src/linker.cpp, over the decoder of
-- include/sleb128.hpp. What is done for each relocation is a parameter, on any state.
pub mod Format
pub mod Readings
pub mod Groups
pub mod RoundTrip
use so_load.Base.{
  ℕ, zero, suc, ◌+◌, Bool, true, false, not, ◌&&◌, List, [], ◌∷◌, Option, none, some, ◌>>=◌, ltb,
  leb, ◌==◌, if◌then◌else◌, bit_and,
}
use so_load.Base.Words.{u64}
use so_load.Sleb128.{Sleb128Decoder, decode, decode_unsigned}

-- GROUPED_BY_INFO, GROUPED_BY_OFFSET_DELTA, GROUPED_BY_ADDEND and HAS_ADDEND.
abbrev pub grouped_by_info : ℕ
grouped_by_info = 1

abbrev pub grouped_by_offset_delta : ℕ
grouped_by_offset_delta = 2

abbrev pub grouped_by_addend : ℕ
grouped_by_addend = 4

abbrev pub has_addend : ℕ
has_addend = 8

unfoldable pub has_flag : ℕ → ℕ → Bool
has_flag flags flag = not (bit_and flags flag == 0)

-- The decoder, r_offset and addend, which run on from relocation to relocation.
pub record Cursor : Type 0 where
  pub dec : Sleb128Decoder
  pub r_offset : ℕ
  pub addend : ℕ

-- group_size, group_flags, group_offset_delta, and the r_info of the group, 0 without one.
pub record Group : Type 0 where
  pub size : ℕ
  pub flags : ℕ
  pub offset_delta : ℕ
  pub info : ℕ

unfoldable pub next_signed : Cursor → Option (ℕ × Cursor)
next_signed c = decode c.dec >>= λ r. some (r.0, record c { dec = r.1 })

unfoldable pub next_unsigned : Cursor → Option (ℕ × Cursor)
next_unsigned c = decode_unsigned c.dec >>= λ r. some (r.0, record c { dec = r.1 })

-- A number that is read where a flag says so, and is 0 otherwise.
abbrev pub next_if : Bool → (Cursor → Option (ℕ × Cursor)) → Cursor → Option (ℕ × Cursor)
next_if true next c = next c
next_if false next c = some (0, c)

abbrev pub move_offset : ℕ → Cursor → Cursor
move_offset delta c = record c { r_offset = u64 (c.r_offset + delta) }

abbrev pub move_addend : ℕ → Cursor → Cursor
move_addend delta c = record c { addend = u64 (c.addend + delta) }

-- The addend at the head of a group.
unfoldable pub group_addend : Bool → ℕ → Cursor → Option Cursor
group_addend false flags c = some c
group_addend true flags c =
    if has_flag flags has_addend
    then (if has_flag flags grouped_by_addend
        then next_signed c >>= (λ r. some (move_addend r.0 r.1))
        else some c)
    else some (record c { addend = 0 })

-- The head of a group.
unfoldable pub read_group : Bool → Cursor → Option (Group × Cursor)
unfolding group_addend
read_group is_rela c = do
  (size, c1) ← next_unsigned c
  (flags, c2) ← next_unsigned c1
  (delta, c3) ← next_if (has_flag flags grouped_by_offset_delta) next_signed c2
  (info, c4) ← next_if (has_flag flags grouped_by_info) next_unsigned c3
  c5 ← group_addend is_rela flags c4
  some (record { size = size; flags = flags; offset_delta = delta; info = info }, c5)

-- The reads of one relocation of a group: its r_info, with the cursor moved.
unfoldable pub read_reloc : Bool → Group → Cursor → Option (ℕ × Cursor)
read_reloc is_rela g c = do
  (delta, c1) ← next_if (not (has_flag g.flags grouped_by_offset_delta)) next_signed c
  (info, c2) ← next_if (not (has_flag g.flags grouped_by_info)) next_unsigned c1
  (step, c3) ←
      next_if (is_rela && has_flag g.flags has_addend && not (has_flag g.flags grouped_by_addend))
        next_signed c2
  some (
    if has_flag g.flags grouped_by_info then g.info else info,
    move_addend step (
        move_offset (if has_flag g.flags grouped_by_offset_delta then g.offset_delta else delta)
          c3),
  )

-- How the packed stream ends: all is done; the magic is wrong; a read or a relocation breaks; or
-- the rounds are used up.
pub data Packed {ℓ} (S : Type ℓ) : Type ℓ where
  done : S → Packed S
  rejected broken endless : Packed S

module _ {ℓ} {S : Type ℓ} (apply : ℕ → ℕ → ℕ → S → Option S) (is_rela : Bool) where
  -- The inner loop, for the relocations of a group that are left. `apply` gets r_offset, r_info
  -- and the addend.
  unfoldable pub relocate_group : Group → ℕ → Cursor → S → Option (Cursor × S)
  unfolding read_reloc
  relocate_group g zero c st = some (c, st)
  relocate_group g (suc n) c st =
      read_reloc is_rela g c
      >>= (λ r. apply r.1.r_offset r.0 r.1.addend st >>= (λ st'. relocate_group g n r.1 st'))

  -- One round of the outer loop: the group's size, and what is left.
  unfoldable pub next_group : Cursor → S → Option (ℕ × Cursor × S)
  unfolding read_group relocate_group
  next_group c st =
      read_group is_rela c
      >>= (λ r. relocate_group r.0 r.0.size r.1 st >>= (λ q. some (r.0.size, q.0, q.1)))

  unfoldable pub packed_groups : ℕ → ℕ → ℕ → Cursor → S → Packed S
  packed_groups zero num i c st = endless
  packed_groups (suc rounds) num i c st =
      let more : Packed S = elim (next_group c st) [
        | none ↦ broken
        | some (size, c', st') ↦ packed_groups rounds num (u64 (i + size)) c' st'
      ] in
      if leb num i then done st else more

  -- The stream behind its magic.
  unfoldable pub process_stream : ℕ → List ℕ → S → Packed S
  unfolding packed_groups
  process_stream rounds bytes st =
      elim (next_unsigned (record { dec = record { current = bytes }; r_offset = 0; addend = 0 })) [
        | none ↦ broken
        | some (num, c) ↦ elim (next_signed c) [
          | none ↦ broken
          | some (offset, c') ↦ packed_groups rounds num 0 (record c' { r_offset = offset }) st
        ]
      ]

  -- "APS2" is tested on streams of more than four bytes; others are left alone.
  unfoldable pub process_packed : ℕ → List ℕ → S → Packed S
  unfolding process_stream
  process_packed rounds (a ∷ b ∷ c ∷ d ∷ e ∷ bytes) st =
      if a == 65 && b == 80 && c == 83 && d == 50
      then process_stream rounds (e ∷ bytes) st
      else rejected
  process_packed rounds short st = done st

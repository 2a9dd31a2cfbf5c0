-- ===== src/Linker/Packed/Readings.antt =====
-- The reads of the packed loop on encoded numbers, groups and relocations.
use so_load.Base.{
  ℕ, ◌<◌, ◌≡◌, refl, ◌∙◌, Bool, true, false, not, ◌&&◌, List, ◌++◌, Option, none, some, ◌>>=◌,
  >>=-some, length, is_some, if◌then◌else◌, arith,
}
use so_load.Base.Words.{IsU64}
use so_load.Base.Int.{ℤ, pos, pattern64, IsI64}
use so_load.Sleb128.Spec.{uleb, sleb}
use so_load.Sleb128.RoundTrip.{decode-sleb, decode_unsigned-uleb}
use so_load.Linker.Packed.{
  has_flag, Cursor, Group, next_signed, next_unsigned, next_if, group_addend, read_group,
  read_reloc, move_addend,
}
use so_load.Linker.Packed.Format.{
  Entry, Addends, zeros, each, shared, PackedGroup, or_field, group_flags, encode_some, encode_info,
  encode_shared, encode_step, encode_unless, encode_entries, encode_group, step_of, start_addend,
  entry_reloc, FitsSome, FitsInfo, FitsAddends, FitsEntry, IsGroup,
}

-- A cursor with bytes to read.
abbrev pub at : List ℕ → ℕ → ℕ → Cursor
at bytes offset addend = record {
  dec = record { current = bytes };
  r_offset = offset;
  addend = addend;
}

abbrev has_addends : Addends → Bool
has_addends zeros = false
has_addends each = true
has_addends (shared step) = true

abbrev is_shared : Addends → Bool
is_shared zeros = false
is_shared each = false
is_shared (shared step) = true

abbrev pub group_of : Option ℤ → Option ℕ → Addends → List Entry → PackedGroup
group_of o i a es = record { by_offset = o; by_info = i; addends = a; entries = es }

-- The flags say what the group shares.
group_flags_lem :
    (o : Option ℤ) (i : Option ℕ) (a : Addends) (es : List Entry)
    → (has_flag (group_flags (group_of o i a es)) 1 ≡ is_some i)
      × (has_flag (group_flags (group_of o i a es)) 2 ≡ is_some o)
      × (has_flag (group_flags (group_of o i a es)) 4 ≡ is_shared a)
      × (has_flag (group_flags (group_of o i a es)) 8 ≡ has_addends a)
unfolding has_flag group_flags
group_flags_lem none none zeros es = (refl, refl, refl, refl)
group_flags_lem none none each es = (refl, refl, refl, refl)
group_flags_lem none none (shared step) es = (refl, refl, refl, refl)
group_flags_lem none (some n) zeros es = (refl, refl, refl, refl)
group_flags_lem none (some n) each es = (refl, refl, refl, refl)
group_flags_lem none (some n) (shared step) es = (refl, refl, refl, refl)
group_flags_lem (some z) none zeros es = (refl, refl, refl, refl)
group_flags_lem (some z) none each es = (refl, refl, refl, refl)
group_flags_lem (some z) none (shared step) es = (refl, refl, refl, refl)
group_flags_lem (some z) (some n) zeros es = (refl, refl, refl, refl)
group_flags_lem (some z) (some n) each es = (refl, refl, refl, refl)
group_flags_lem (some z) (some n) (shared step) es = (refl, refl, refl, refl)

module _ (offset addend : ℕ) where
  pub next_unsigned-uleb :
      (n : ℕ) (rest : List ℕ)
      → IsU64 n
      → next_unsigned (at (uleb 9 n ++ rest) offset addend) ≡ some (n, at rest offset addend)
  unfolding next_unsigned
  next_unsigned-uleb n rest h = >>=-some _ (decode_unsigned-uleb n rest h)

  pub next_signed-sleb :
      (z : ℤ) (rest : List ℕ)
      → IsI64 z
      → next_signed (at (sleb 9 z ++ rest) offset addend)
        ≡ some (pattern64 z, at rest offset addend)
  unfolding next_signed
  next_signed-sleb z rest h = >>=-some _ (decode-sleb z rest h)

  next-encode_some :
      (o : Option ℤ) (rest : List ℕ)
      → FitsSome o
      → next_if (is_some o) next_signed (at (encode_some o ++ rest) offset addend)
        ≡ some (pattern64 (or_field o (pos 0)), at rest offset addend)
  next-encode_some none rest h = refl
  next-encode_some (some z) rest h = next_signed-sleb z rest h

  next-encode_info :
      (i : Option ℕ) (rest : List ℕ)
      → FitsInfo i
      → next_if (is_some i) next_unsigned (at (encode_info i ++ rest) offset addend)
        ≡ some (or_field i 0, at rest offset addend)
  next-encode_info none rest h = refl
  next-encode_info (some n) rest h = next_unsigned-uleb n rest h

  next-offset :
      (o : Option ℤ) (z : ℤ) (rest : List ℕ)
      → IsI64 z
      → next_if
          (not (is_some o))
          next_signed
          (at (encode_unless o (sleb 9 z) ++ rest) offset addend)
        ≡ some (if is_some o then 0 else pattern64 z, at rest offset addend)
  next-offset none z rest h = next_signed-sleb z rest h
  next-offset (some w) z rest h = refl

  next-info :
      (i : Option ℕ) (n : ℕ) (rest : List ℕ)
      → IsU64 n
      → next_if
          (not (is_some i))
          next_unsigned
          (at (encode_unless i (uleb 9 n) ++ rest) offset addend)
        ≡ some (if is_some i then 0 else n, at rest offset addend)
  next-info none n rest h = next_unsigned-uleb n rest h
  next-info (some w) n rest h = refl

  next-step :
      (a : Addends) (z : ℤ) (rest : List ℕ)
      → IsI64 z
      → next_if
          (true && has_addends a && not (is_shared a))
          next_signed
          (at (encode_step a z ++ rest) offset addend)
        ≡ some (pattern64 (step_of a z), at rest offset addend)
  next-step zeros z rest h = refl
  next-step each z rest h = next_signed-sleb z rest h
  next-step (shared w) z rest h = refl

-- The group as the loop holds it.
abbrev pub head : PackedGroup → Group
head g = record {
  size = length g.entries;
  flags = group_flags g;
  offset_delta = pattern64 (or_field g.by_offset (pos 0));
  info = or_field g.by_info 0;
}

pick_offset :
    (o : Option ℤ) (z : ℤ)
    → (if is_some o then pattern64 (or_field o (pos 0)) else if is_some o then 0 else pattern64 z)
      ≡ pattern64 (or_field o z)
pick_offset none z = refl
pick_offset (some w) z = refl

pick_info :
    (i : Option ℕ) (n : ℕ)
    → (if is_some i then or_field i 0 else if is_some i then 0 else n) ≡ or_field i n
pick_info none n = refl
pick_info (some w) n = refl

pub read_reloc-encode :
    (o : Option ℤ) (i : Option ℕ) (a : Addends) (es : List Entry) (e : Entry) (rest : List ℕ)
    (offset addend : ℕ)
    → FitsEntry e
    → let g = group_of o i a es in
      let r = entry_reloc g e offset addend in
      read_reloc true (head g) (
        at
          (encode_unless o (sleb 9 e.offset_delta)
            ++ (encode_unless i (uleb 9 e.info) ++ (encode_step a e.addend_delta ++ rest)))
          offset
          addend)
      ≡ some (r.r_info, at rest r.r_offset r.r_addend)
unfolding read_reloc
read_reloc-encode o i a es e rest offset addend h =
    let (f1, f2, f4, f8) = group_flags_lem o i a es in
    rw (f1, f2, f4, f8)
      (>>=-some _ (next-offset offset addend o e.offset_delta _ h.0)
        ∙ >>=-some _ (next-info offset addend i e.info _ h.1)
        ∙ >>=-some _ (next-step offset addend a e.addend_delta rest h.2)
        ∙ rw (pick_offset o e.offset_delta, pick_info i e.info) refl)

group_flags-small :
    (o : Option ℤ) (i : Option ℕ) (a : Addends) (es : List Entry)
    → group_flags (group_of o i a es) < 16
unfolding group_flags
group_flags-small o i a es = ground arith

group_addend-encode :
    (o : Option ℤ) (i : Option ℕ) (a : Addends) (es : List Entry) (bytes : List ℕ)
    (offset addend : ℕ)
    → FitsAddends a
    → group_addend true
        (group_flags (group_of o i a es))
        (at (encode_shared a ++ bytes) offset addend)
      ≡ some (at bytes offset (start_addend a addend))
unfolding group_addend
group_addend-encode o i a es bytes offset addend h =
    let (f1, f2, f4, f8) = group_flags_lem o i a es in rw (f4, f8) (go a h)
  where
    go :
        (b : Addends)
        → FitsAddends b
        → (if has_addends b
            then (if is_shared b
                then next_signed (at (encode_shared b ++ bytes) offset addend)
                  >>= (λ r. some (move_addend r.0 r.1))
                else some (at (encode_shared b ++ bytes) offset addend))
            else some (at (encode_shared b ++ bytes) offset 0))
          ≡ some (at bytes offset (start_addend b addend))
    go zeros fits = refl
    go each fits = refl
    go (shared step) fits = >>=-some _ (next_signed-sleb offset addend step bytes fits)

pub read_group-encode :
    (o : Option ℤ) (i : Option ℕ) (a : Addends) (es : List Entry) (rest : List ℕ)
    (offset addend : ℕ)
    → IsGroup (group_of o i a es)
    → IsU64 (length es)
    → let g = group_of o i a es in
      read_group true (at (encode_group g rest) offset addend)
      ≡ some (head g, at (encode_entries g es rest) offset (start_addend a addend))
unfolding read_group encode_group
read_group-encode o i a es rest offset addend h short =
    let (f1, f2, f4, f8) = group_flags_lem o i a es in
    let small = group_flags-small o i a es in
    >>=-some _ (next_unsigned-uleb offset addend (length es) _ short)
    ∙ >>=-some _ (
        next_unsigned-uleb offset addend (group_flags (group_of o i a es)) _ (omega (arith, small)))
    ∙ rw (f1, f2)
        (>>=-some _ (next-encode_some offset addend o _ h.offset_fits)
          ∙ >>=-some _ (next-encode_info offset addend i _ h.info_fits)
          ∙ >>=-some _ (group_addend-encode o i a es _ offset addend h.addends_fit))

-- ===== src/Linker/Packed/Format.antt =====
-- The packed format as its definition states it, apart from the decoder: groups of relocations,
-- with what each group shares.
use so_load.Base.{
  ℕ, ◌+◌, ◌<◌, List, [], ◌∷◌, ◌++◌, Option, none, some, length, All, is_some, if◌then◌else◌,
}
use so_load.Base.Words.{u64, IsU64}
use so_load.Base.Int.{ℤ, pos, pattern64, IsI64}
use so_load.Linker.Tables.{ElfRela}
use so_load.Sleb128.Spec.{uleb, sleb}

-- One relocation: the distance from the previous one, its r_info, and the change of the addend.
pub record Entry : Type 0 where
  pub offset_delta : ℤ
  pub info : ℕ
  pub addend_delta : ℤ

-- How the relocations of a group get their addends: all 0; one change for the group; or a change
-- for each.
pub data Addends : Type 0 where
  zeros each : Addends
  shared : ℤ → Addends

-- What a group shares stands in its head, and the fields of its entries for it are not used.
pub record PackedGroup : Type 0 where
  pub by_offset : Option ℤ
  pub by_info : Option ℕ
  pub addends : Addends
  pub entries : List Entry

abbrev pub or_field {ℓ} : {A : Type ℓ} → Option A → A → A
or_field none a = a
or_field (some b) a = b

abbrev pub addends_flags : Addends → ℕ
addends_flags zeros = 0
addends_flags each = 8
addends_flags (shared step) = 12

unfoldable pub group_flags : PackedGroup → ℕ
group_flags g =
    (if is_some g.by_info then 1 else 0)
    + ((if is_some g.by_offset then 2 else 0) + addends_flags g.addends)

abbrev pub encode_some : Option ℤ → List ℕ
encode_some none = []
encode_some (some z) = sleb 9 z

abbrev pub encode_info : Option ℕ → List ℕ
encode_info none = []
encode_info (some n) = uleb 9 n

abbrev pub encode_shared : Addends → List ℕ
encode_shared zeros = []
encode_shared each = []
encode_shared (shared step) = sleb 9 step

abbrev pub encode_step : Addends → ℤ → List ℕ
encode_step zeros step = []
encode_step each step = sleb 9 step
encode_step (shared all) step = []

abbrev pub encode_unless {ℓ} : {A : Type ℓ} → Option A → List ℕ → List ℕ
encode_unless none bytes = bytes
encode_unless (some a) bytes = []

-- Each encoding is followed by the bytes after it.
unfoldable pub encode_entries : PackedGroup → List Entry → List ℕ → List ℕ
encode_entries g [] rest = rest
encode_entries g (e ∷ es) rest =
    encode_unless g.by_offset (sleb 9 e.offset_delta)
    ++ (encode_unless g.by_info (uleb 9 e.info)
        ++ (encode_step g.addends e.addend_delta ++ encode_entries g es rest))

unfoldable pub encode_group : PackedGroup → List ℕ → List ℕ
encode_group g rest =
    uleb 9 (length g.entries)
    ++ (uleb 9 (group_flags g)
        ++ (encode_some g.by_offset
            ++ (encode_info g.by_info
                ++ (encode_shared g.addends ++ encode_entries g g.entries rest))))

unfoldable pub encode_groups : List PackedGroup → List ℕ → List ℕ
encode_groups [] rest = rest
encode_groups (g ∷ gs) rest = encode_group g (encode_groups gs rest)

unfoldable pub count : List PackedGroup → ℕ
count [] = 0
count (g ∷ gs) = length g.entries + count gs

-- "APS2", the number of relocations, the first offset, and the groups; the number is that of the
-- groups' relocations.
unfoldable pub encode_numbered : ℕ → ℤ → List PackedGroup → List ℕ → List ℕ
encode_numbered num first gs rest =
    65 ∷ 80 ∷ 83 ∷ 50 ∷ uleb 9 num ++ (sleb 9 first ++ encode_groups gs rest)

unfoldable pub encode_stream : ℤ → List PackedGroup → List ℕ → List ℕ
unfolding count encode_numbered
encode_stream first gs rest = encode_numbered (count gs) first gs rest

abbrev pub step_of : Addends → ℤ → ℤ
step_of zeros step = pos 0
step_of each step = step
step_of (shared all) step = pos 0

-- The addend with which a group starts.
abbrev pub start_addend : Addends → ℕ → ℕ
start_addend zeros addend = 0
start_addend each addend = addend
start_addend (shared step) addend = u64 (addend + pattern64 step)

abbrev pub entry_reloc : PackedGroup → Entry → ℕ → ℕ → ElfRela
entry_reloc g e offset addend = record {
  r_offset = u64 (offset + pattern64 (or_field g.by_offset e.offset_delta));
  r_info = or_field g.by_info e.info;
  r_addend = u64 (addend + pattern64 (step_of g.addends e.addend_delta));
}

-- The relocations of a group, and the offset and addend after it.
unfoldable pub expand_entries : PackedGroup → List Entry → ℕ → ℕ → List ElfRela × ℕ × ℕ
expand_entries g [] offset addend = ([], offset, addend)
expand_entries g (e ∷ es) offset addend =
    let r = entry_reloc g e offset addend in
    let (rs, offset', addend') = expand_entries g es r.r_offset r.r_addend in
    (r ∷ rs, offset', addend')

unfoldable pub expand_groups : List PackedGroup → ℕ → ℕ → List ElfRela
unfolding expand_entries
expand_groups [] offset addend = []
expand_groups (g ∷ gs) offset addend =
    let (rs, offset', addend') =
      expand_entries g g.entries offset (start_addend g.addends addend) in
    rs ++ expand_groups gs offset' addend'

unfoldable pub expand : ℤ → List PackedGroup → List ElfRela
unfolding expand_groups
expand first gs = expand_groups gs (pattern64 first) 0

-- The numbers fit their words, and no group is empty.
abbrev pub FitsSome : Option ℤ → Type 0
FitsSome none = Unit {0}
FitsSome (some z) = IsI64 z

abbrev pub FitsInfo : Option ℕ → Type 0
FitsInfo none = Unit {0}
FitsInfo (some n) = IsU64 n

abbrev pub FitsAddends : Addends → Type 0
FitsAddends zeros = Unit {0}
FitsAddends each = Unit {0}
FitsAddends (shared step) = IsI64 step

abbrev pub FitsEntry : Entry → Type 0
FitsEntry e = IsI64 e.offset_delta × IsU64 e.info × IsI64 e.addend_delta

pub record IsGroup (g : PackedGroup) : Type 0 where
  pub offset_fits : FitsSome g.by_offset
  pub info_fits : FitsInfo g.by_info
  pub addends_fit : FitsAddends g.addends
  pub entries_fit : All FitsEntry g.entries
  pub nonempty : 0 < length g.entries

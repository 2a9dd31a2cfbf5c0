-- ===== src/Image/Header.antt =====
-- validateElfHeader of src/elf_image.cpp, and the bias that parseDynamic computes.
use so_load.Base.{
  ℕ, ◌+◌, ◌*◌, ◌^◌, ◌≤◌, ◌<◌, ◌≡◌, ◌≢◌, ◌⊎◌, inl, inr, ◌↔◌, Bool, true, false, not, ◌&&◌, ◌||◌,
  List, [], ◌∷◌, Option, none, some, ltb, ◌==◌, if◌then◌else◌, get_elem?, All, arith, Option-cases,
  Bool-cases,
}
use so_load.Base.Words.{u64, sub64, IsU64}
use so_load.Image.{ElfEhdr, ElfPhdr, pt_load}

-- The bytes ELFMAG, and a class and byte order, at the start of e_ident.
unfoldable pub has_magic : List ℕ → Bool
has_magic ident =
    elim (get_elem? ident 0) [ none ↦ false | some b ↦ b == 0x7f ]
    && (elim (get_elem? ident 1) [ none ↦ false | some b ↦ b == 0x45 ])
    && (elim (get_elem? ident 2) [ none ↦ false | some b ↦ b == 0x4c ])
    && (elim (get_elem? ident 3) [ none ↦ false | some b ↦ b == 0x46 ])

abbrev ident_is : List ℕ → ℕ → ℕ → Bool
ident_is ident i value = elim (get_elem? ident i) [ none ↦ false | some b ↦ b == value ]

-- The end of the program header table, on 64 bits as the code computes it.
abbrev pub phdrs_end : ElfEhdr → ℕ
phdrs_end h = u64 (h.e_phoff + h.e_phnum * 56)

-- A section header table out of bounds is only reported.
unfoldable pub validate_elf_header : ElfEhdr → ℕ → Bool
validate_elf_header h file_size =
    if not (has_magic h.e_ident)
    then false
    else if not (ident_is h.e_ident 4 2)
    then false
    else if not (ident_is h.e_ident 5 1)
    then false
    else if not (h.e_machine == 183)
    then false
    else if not (h.e_type == 3) && not (h.e_type == 2)
    then false
    else if h.e_phoff == 0 || h.e_phnum == 0
    then false
    else if ltb file_size (phdrs_end h)
    then false
    else true

-- A little-endian 64-bit ARM64 shared object or executable with program headers.
pub record IsArm64 (h : ElfEhdr) : Type 0 where
  pub magic : has_magic h.e_ident ≡ true
  pub elf_class : get_elem? h.e_ident 4 ≡ some 2
  pub byte_order : get_elem? h.e_ident 5 ≡ some 1
  pub machine : h.e_machine ≡ 183
  pub kind : (h.e_type ≡ 3) ⊎ (h.e_type ≡ 2)
  pub has_table : h.e_phoff ≢ 0
  pub has_entries : h.e_phnum ≢ 0

-- The end of a table that does not wrap around 2 ^ 64 is compared as it is: the header is
-- accepted exactly where it is an ARM64 one and the table lies inside the file.
pub validate_elf_header_iff :
    (h : ElfEhdr) (file_size : ℕ)
    → h.e_phoff + h.e_phnum * 56 < 2 ^ 64
    → (validate_elf_header h file_size ≡ true)
      ↔ (IsArm64 h × (h.e_phoff + h.e_phnum * 56 ≤ file_size))
unfolding validate_elf_header
validate_elf_header_iff h file_size small = (
  λ e. (
    record {
      magic = ground (arith, e);
      elf_class = ground (arith, e);
      byte_order = ground (arith, e);
      machine = ground (arith, e);
      kind = ground (arith, e);
      has_table = ground (arith, e);
      has_entries = ground (arith, e);
    },
    ground (arith, e, small),
  ),
  λ p.
      let a = p.0 in
      let inside = p.1 in
      ground (
        arith, a.magic, a.elf_class, a.byte_order, a.machine, a.kind, a.has_table, a.has_entries,
        inside, small,
      ),
)

-- An ARM64 header is accepted whose table starts past the end of the file, where its end wraps
-- around to an offset inside the file.
pub validate_elf_header_wraps :
    (h : ElfEhdr) (file_size : ℕ)
    → IsArm64 h
    → h.e_phoff < 2 ^ 64
    → h.e_phnum < 2 ^ 16
    → 2 ^ 64 ≤ h.e_phoff + h.e_phnum * 56
    → h.e_phoff + h.e_phnum * 56 ≤ 2 ^ 64 + file_size
    → file_size < 2 ^ 63
    → (validate_elf_header h file_size ≡ true) × (file_size < h.e_phoff)
unfolding validate_elf_header
validate_elf_header_wraps h file_size a word few wraps low file =
    let inside : phdrs_end h ≤ file_size = omega arith in
    (
      ground (
        arith, a.magic, a.elf_class, a.byte_order, a.machine, a.kind, a.has_table, a.has_entries,
        inside,
      ),
      omega arith,
    )

unfoldable pub first_load : List ElfPhdr → Option ElfPhdr
first_load [] = none
first_load (phdr ∷ phdrs) = if phdr.p_type == pt_load then some phdr else first_load phdrs

unfoldable pub first_load_at_0 : List ElfPhdr → Option ElfPhdr
first_load_at_0 [] = none
first_load_at_0 (phdr ∷ phdrs) =
    if phdr.p_type == pt_load && phdr.p_offset == 0 then some phdr else first_load_at_0 phdrs

-- The member bias_ after its two loops.
unfoldable pub compute_bias : List ElfPhdr → ℕ
compute_bias phdrs =
    let from_start : ℕ = elim (first_load_at_0 phdrs) [ none ↦ 0 | some phdr ↦ phdr.p_vaddr ] in
    if from_start == 0
    then elim (first_load phdrs) [ none ↦ 0 | some phdr ↦ sub64 phdr.p_vaddr phdr.p_offset ]
    else from_start

-- A loaded segment lies in memory at one distance from its place in the file.
abbrev pub IsShifted : ℕ → ElfPhdr → Type 0
IsShifted c phdr =
    (phdr.p_type ≢ pt_load) ⊎ ((sub64 phdr.p_vaddr phdr.p_offset ≡ c) × IsU64 phdr.p_vaddr)

first_load-Shifted :
    (c : ℕ) (phdrs : List ElfPhdr) (phdr : ElfPhdr)
    → All (IsShifted c) phdrs
    → first_load phdrs ≡ some phdr
    → sub64 phdr.p_vaddr phdr.p_offset ≡ c
unfolding first_load
first_load-Shifted c [] phdr all e = absurd (ground (arith, e))
first_load-Shifted c (x ∷ xs) phdr all e = elim (Bool-cases (x.p_type == pt_load)) [
  | inr other ↦ first_load-Shifted c xs phdr all.1 (rw (other, first_load) at e)
  | inl load ↦ let e' = rw (load, first_load) at e in let h = all.0 in ground (arith, e', h, load)
]

first_load_at_0-Shifted :
    (c : ℕ) (phdrs : List ElfPhdr) (phdr : ElfPhdr)
    → All (IsShifted c) phdrs
    → first_load_at_0 phdrs ≡ some phdr
    → phdr.p_vaddr ≡ c
unfolding first_load_at_0
first_load_at_0-Shifted c [] phdr all e = absurd (ground (arith, e))
first_load_at_0-Shifted c (x ∷ xs) phdr all e =
    elim (Bool-cases (x.p_type == pt_load && x.p_offset == 0)) [
      | inr other ↦ first_load_at_0-Shifted c xs phdr all.1 (rw (other, first_load_at_0) at e)
      | inl load ↦
          let e' = rw (load, first_load_at_0) at e in let h = all.0 in ground (arith, e', h, load)
    ]

-- Where all loaded segments have one distance between memory and file, and there is one, that
-- distance is the bias.
pub compute_bias-Shifted :
    (c : ℕ) (phdrs : List ElfPhdr) (phdr : ElfPhdr)
    → All (IsShifted c) phdrs
    → first_load phdrs ≡ some phdr
    → compute_bias phdrs ≡ c
unfolding compute_bias
compute_bias-Shifted c phdrs phdr all e =
    let second = first_load-Shifted c phdrs phdr all e in
    elim (Option-cases (first_load_at_0 phdrs)) [
      | inl nothing ↦ ground (arith, nothing, e, second)
      | inr (start, found) ↦
          let direct = first_load_at_0-Shifted c phdrs start all found in
          ground (arith, found, e, second, direct)
    ]

-- ===== src/Linker/Relocation.antt =====
-- processRelocation of src/linker.cpp. Memory is the byte at each address.
use so_load.Base.{
  ℕ, ◌+◌, Bool, ◌||◌, List, [], ◌∷◌, ◌++◌, Option, none, some, ◌==◌, if◌then◌else◌, get_elem?,
  is_some, length,
}
use so_load.Base.Words.{u64, sub64}
use so_load.Linker.Memory.{read_word, write_word}
use so_load.Linker.Tables.{AndroidTags}
use so_load.Image.{ElfImage, ElfSym}
use so_load.Image.Lookup.{beq_bytes, c_string}
use so_load.Tls.{TlsManager, TlsIndex, Threads, Env, get_address, allocate_index}
use so_load.Linker.{Linker, SymbolLookup, valid}
use so_load.Linker.Symbols.{Resolution, images, find_symbol_cached}

-- The linker's surroundings: the addresses of its own functions that it binds names to, the places
-- where operator new puts one TlsIndex after the other, the thread that links, and the tags that it
-- is built with.
pub record Surroundings : Type 0 where
  pub resolution : Resolution
  pub env : Env
  pub tls : TlsManager
  pub thread : ℕ
  pub custom_dl_iterate_phdr_at : ℕ
  pub custom_dladdr_at : ℕ
  pub dynamic_tls_resolver_at : ℕ
  pub new_index : ℕ → ℕ
  pub android_tags : AndroidTags

-- What a relocation changes; `indices` are the TlsIndex objects by address.
pub record Relocating : Type 0 where
  pub memory : ℕ → ℕ
  pub linker : Linker
  pub threads : Threads
  pub indices : List (ℕ × TlsIndex)

-- The arguments of processRelocation.
pub record Relocation : Type 0 where
  pub sym_idx : ℕ
  pub type : ℕ
  pub offset : ℕ
  pub addend : ℕ
  pub load_bias : ℕ
  pub dynsym : List ElfSym
  pub dynstr : List ℕ
  pub is_rela : Bool

-- `is_rela ? addend : *target`.
abbrev base_value : Relocation → ℕ → (ℕ → ℕ) → ℕ
base_value rel target memory = if rel.is_rela then rel.addend else read_word target memory

unfoldable pub find_image : ℕ → List ElfImage → Option ElfImage
find_image self [] = none
find_image self (image ∷ rest) = if image.self == self then some image else find_image self rest

-- "dl_iterate_phdr" and "dladdr".
abbrev dl_iterate_phdr_name : List ℕ
dl_iterate_phdr_name =
    100 ∷ 108 ∷ 95 ∷ 105 ∷ 116 ∷ 101 ∷ 114 ∷ 97 ∷ 116 ∷ 101 ∷ 95 ∷ 112 ∷ 104 ∷ 100 ∷ 114 ∷ []

abbrev dladdr_name : List ℕ
dladdr_name = 100 ∷ 108 ∷ 97 ∷ 100 ∷ 100 ∷ 114 ∷ []

-- The address that a name is bound to, with the hooks of the backtrace functions.
unfoldable pub hooked : Surroundings → List ℕ → ℕ → ℕ
unfolding beq_bytes
hooked s name otherwise =
    if beq_bytes name dl_iterate_phdr_name
    then s.custom_dl_iterate_phdr_at
    else if beq_bytes name dladdr_name
    then s.custom_dladdr_at
    else otherwise

abbrev put : ℕ → ℕ → Relocating → Relocating
put target value st = record st { memory = write_word target value st.memory }

-- R_AARCH64_TLS_TPREL for a symbol of an image.
unfoldable pub bind_tprel :
    Surroundings → Relocation → ElfSym → ElfImage → ℕ → Relocating → Relocating
bind_tprel s rel sym image target st =
    let ti : TlsIndex = allocate_index image sym rel.addend in
    let (ts, block) = get_address s.env s.tls s.thread st.threads (some ti) in
    let (ts', start) = get_address s.env s.tls s.thread ts none in
    if block == 0
    then put target 0 (record st { threads = ts })
    else put target (sub64 block start) (record st { threads = ts' })

-- R_AARCH64_TLSDESC for a symbol of an image.
unfoldable pub bind_tlsdesc :
    Surroundings → Relocation → ElfSym → ElfImage → ℕ → Relocating → Relocating
bind_tlsdesc s rel sym image target st =
    let l = st.linker in
    let ti = s.new_index (length st.indices) in
    record st {
      memory =
          write_word (u64 (target + 8)) ti (write_word target s.dynamic_tls_resolver_at st.memory);
      linker = record l { tls_indices = l.tls_indices ++ (ti ∷ []) };
      indices = (ti, allocate_index image sym rel.addend) ∷ st.indices;
    }

-- The types that need the symbol's image; `none` is a use of an image that is gone.
unfoldable pub bind_tls :
    Surroundings → Relocation → ElfSym → Option ℕ → ℕ → Relocating → Option Relocating
bind_tls s rel sym none target st =
    let cleared = put target 0 st in
    if rel.type == 1031 then some (put (u64 (target + 8)) 0 cleared) else some cleared
bind_tls s rel sym (some self) target st = elim (find_image self (images st.linker)) [
  | none ↦ none
  | some image ↦
      if rel.type == 1028
      then some (put target (if is_some image.tls_segment then image.tls_mod_id else 0) st)
      else if rel.type == 1030
      then some (bind_tprel s rel sym image target st)
      else some (bind_tlsdesc s rel sym image target st)
]

-- The inner switch, for a symbol that was found.
unfoldable pub bind_found :
    Surroundings → Relocation → ElfSym → List ℕ → SymbolLookup → ℕ → Relocating → Option Relocating
bind_found s rel sym name found target st =
    if rel.type == 1025 || rel.type == 1026
    then some (put target (hooked s name found.address) st)
    else if rel.type == 257
    then some
        (put target (hooked s name (u64 (found.address + base_value rel target st.memory))) st)
    else if rel.type == 1029
    then some (put target (u64 (sym.st_value + rel.addend)) st)
    else bind_tls s rel sym found.image target st

abbrev pub needs_symbol : ℕ → Bool
needs_symbol t =
    t == 257 || t == 1025 || t == 1026 || t == 1028 || t == 1029 || t == 1030 || t == 1031

-- The types with a symbol: the name is read and looked up; a name that is not found is skipped.
unfoldable pub bind_symbol : Surroundings → Relocation → ℕ → Relocating → Option Relocating
bind_symbol s rel target st =
    if rel.sym_idx == 0 then some st else elim (get_elem? rel.dynsym rel.sym_idx) [
      | none ↦ none
      | some sym ↦ elim (c_string rel.dynstr sym.st_name) [
        | none ↦ none
        | some name ↦ elim (find_symbol_cached s.resolution st.linker name) [
          | none ↦ none
          | some answer ↦
              let looked_up : Relocating = record st { linker = answer.1 } in
              if valid answer.0
              then bind_found s rel sym name answer.0 target looked_up
              else some looked_up
        ]
      ]
    ]

-- processRelocation; R_AARCH64_NONE, R_AARCH64_COPY and unknown types change nothing.
unfoldable pub process_relocation : Surroundings → Relocation → Relocating → Option Relocating
process_relocation s rel st =
    let target = u64 (rel.load_bias + rel.offset) in
    let value = u64 (rel.load_bias + base_value rel target st.memory) in
    if rel.type == 1027
    then some (put target value st)
    else if rel.type == 1032
    then some (put target (s.resolution.resolve value) st)
    else if needs_symbol rel.type
    then bind_symbol s rel target st
    else some st

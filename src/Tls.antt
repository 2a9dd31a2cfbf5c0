-- ===== src/Tls.antt =====
-- include/tls.hpp and src/tls.cpp: the table of TLS modules, and each thread's block.
pub mod Invariant
pub mod Register
pub mod Blocks
pub mod PerThread
mod Runs
use so_load.Base.{
  ℕ, zero, suc, ◌+◌, ◌-◌, ◌≤◌, ◌<◌, ◌^◌, Bool, true, false, not, ◌&&◌, ◌||◌, List, [], ◌∷◌, Option,
  none, some, ltb, leb, ◌==◌, if◌then◌else◌, get_elem?, set, replicate, bit_and, is_some,
}
use so_load.Base.Words.{u64, sub64}
use so_load.Base.Slots.{find_slot}
use so_load.Image.{ElfImage, ElfPhdr, ElfSym, at_vaddr}

abbrev pub max_tls_modules : ℕ
max_tls_modules = 128

pub record TlsModule : Type 0 where
  pub module_id : ℕ
  pub align : ℕ
  pub memsz : ℕ
  pub filesz : ℕ
  pub offset : ℕ
  pub init_image : ℕ
  pub owner : Option ℕ

-- `TlsModule{}`.
abbrev pub no_module : TlsModule
no_module = record {
  module_id = 0;
  align = 1;
  memsz = 0;
  filesz = 0;
  offset = 0;
  init_image = 0;
  owner = none;
}

pub record TlsIndex : Type 0 where
  pub in_module : ℕ
  pub in_offset : ℕ

pub record TlsManager : Type 0 where
  pub modules : List TlsModule
  pub generation : ℕ
  pub static_size : ℕ
  pub static_align_max : ℕ

unfoldable pub new_manager : TlsManager
new_manager = record {
  modules = replicate max_tls_modules no_module;
  generation = 0;
  static_size = 0;
  static_align_max = 1;
}

-- (size + align - 1) & ~(align - 1) on size_t, for an alignment that is not 0.
unfoldable pub align_up : ℕ → ℕ → ℕ
align_up size align = bit_and (u64 (size + (align - 1))) (2 ^ 64 - align)

abbrev is_free : TlsModule → Bool
is_free m = m.module_id == 0

-- The entry that registerSegment writes, at the offset that it computes.
unfoldable pub new_module : TlsManager → ElfImage → ElfPhdr → ℕ → TlsModule
unfolding at_vaddr align_up
new_module t image seg mod_id =
    let align = if seg.p_align == 0 then 1 else seg.p_align in
    record {
      module_id = mod_id;
      align = align;
      memsz = seg.p_memsz;
      filesz = seg.p_filesz;
      offset = align_up t.static_size align;
      init_image = at_vaddr image seg.p_vaddr;
      owner = some image.self;
    }

unfoldable pub add_module : TlsManager → ElfImage → ElfPhdr → ℕ → TlsManager
unfolding new_module
add_module t image seg mod_id =
    let m = new_module t image seg mod_id in
    record t {
      modules = set t.modules mod_id m;
      static_size = u64 (m.offset + m.memsz);
      static_align_max = if ltb t.static_align_max m.align then m.align else t.static_align_max;
    }

-- The manager and the image after the call, and its answer.
unfoldable pub register_segment : TlsManager → ElfImage → TlsManager × ElfImage × Bool
unfolding add_module find_slot
register_segment t image = elim image.tls_segment [
  | none ↦ (t, image, true)
  | some seg ↦ elim (find_slot is_free 1 0 t.modules) [
    | none ↦ (t, image, false)
    | some mod_id ↦ (add_module t image seg mod_id, record image { tls_mod_id = mod_id }, true)
  ]
]

abbrev owned_by : ℕ → TlsModule → Bool
owned_by self m = elim m.owner [ none ↦ false | some o ↦ o == self ]

unfoldable pub unregister_segment : TlsManager → ℕ → TlsManager
unfolding find_slot
unregister_segment t self = elim (find_slot (owned_by self) 1 0 t.modules) [
  | none ↦ t
  | some i ↦ record t { modules = set t.modules i no_module }
]

unfoldable pub bump_generation : TlsManager → TlsManager
bump_generation t = record t { generation = u64 (t.generation + 1) }

-- A thread's block: where posix_memalign put it, how long it is, and its bytes by offset.
pub record Block : Type 0 where
  pub address : ℕ
  pub size : ℕ
  pub bytes : ℕ → ℕ

-- memcpy(block + offset, source, count).
abbrev pub copy_in : (ℕ → ℕ) → ℕ → ℕ → ℕ → (ℕ → ℕ) → ℕ → ℕ
copy_in memory source offset count bytes i =
    if leb offset i && ltb i (offset + count) then memory (source + (i - offset)) else bytes i

unfoldable pub copy_module : (ℕ → ℕ) → ℕ → TlsModule → (ℕ → ℕ) → ℕ → ℕ
copy_module memory total m bytes =
    if is_some m.owner
      && not (m.init_image == 0)
      && ltb 0 m.filesz
      && leb (u64 (m.offset + m.filesz)) total
    then copy_in memory m.init_image m.offset m.filesz bytes
    else bytes

unfoldable pub copy_modules : (ℕ → ℕ) → ℕ → List TlsModule → (ℕ → ℕ) → ℕ → ℕ
unfolding copy_module
copy_modules memory total [] bytes = bytes
copy_modules memory total (m ∷ ms) bytes =
    copy_modules memory total ms (copy_module memory total m bytes)

abbrev pub tail_of {ℓ} : {A : Type ℓ} → List A → List A
tail_of [] = []
tail_of (x ∷ xs) = xs

-- How much allocateBlock asks for, and at which alignment.
unfoldable pub block_align : ℕ → TlsManager → ℕ
block_align page_size t =
    let align = if t.static_align_max == 0 then 8 else t.static_align_max in
    if ltb page_size align then page_size else align

unfoldable pub block_total : ℕ → TlsManager → ℕ
unfolding block_align
block_total page_size t =
    let total = u64 (t.static_size + block_align page_size t) in if total == 0 then 8 else total

-- The heap and the segments' bytes are the environment's: `memalign align size` is where
-- posix_memalign puts a block (`none` where it fails), `memory` the byte at an address.
pub record Env : Type 0 where
  pub page_size : ℕ
  pub memalign : ℕ → ℕ → Option ℕ
  pub memory : ℕ → ℕ

unfoldable pub allocate_block : Env → TlsManager → Option Block
unfolding block_total copy_modules
allocate_block env t =
    let total = block_total env.page_size t in
    elim (env.memalign (block_align env.page_size t) total) [
      | none ↦ none
      | some address ↦ some (record {
        address = address;
        size = total;
        bytes = copy_modules env.memory total (tail_of t.modules) (λ i. 0);
      })
    ]

-- The values of g_tls_key in the threads that have one, and g_tls_block_count.
pub record Threads : Type 0 where
  pub blocks : List (ℕ × Block)
  pub block_count : ℕ

-- pthread_getspecific, and the list without a thread's value.
unfoldable pub get_specific : ℕ → List (ℕ × Block) → Option Block
get_specific thread [] = none
get_specific thread ((k, b) ∷ rest) = if k == thread then some b else get_specific thread rest

unfoldable pub drop_specific : ℕ → List (ℕ × Block) → List (ℕ × Block)
drop_specific thread [] = []
drop_specific thread ((k, b) ∷ rest) =
    if k == thread then rest else (k, b) ∷ drop_specific thread rest

unfoldable pub get_block_for_thread : Env → TlsManager → ℕ → Threads → Threads × Option Block
unfolding allocate_block get_specific
get_block_for_thread env t thread ts = elim (get_specific thread ts.blocks) [
  | some b ↦ (ts, some b)
  | none ↦ elim (allocate_block env t) [
    | none ↦ (ts, none)
    | some b ↦ (
      record { blocks = (thread, b) ∷ ts.blocks; block_count = u64 (ts.block_count + 1) },
      some b,
    )
  ]
]

-- The answer for a block: 0 is nullptr, and an index of `none` is nullptr too.
unfoldable pub address_in : TlsManager → Block → Option TlsIndex → ℕ
address_in t b none = b.address
address_in t b (some ti) =
    if ti.in_module == 0 || leb max_tls_modules ti.in_module
    then 0
    else elim (get_elem? t.modules ti.in_module) [
      | none ↦ 0
      | some m ↦
          let offset = u64 (m.offset + ti.in_offset) in
          if m.module_id == 0
          then 0
          else if leb t.static_size offset
          then 0
          else u64 (b.address + offset)
    ]

unfoldable pub get_address : Env → TlsManager → ℕ → Threads → Option TlsIndex → Threads × ℕ
unfolding get_block_for_thread address_in
get_address env t thread ts ti =
    let (ts', found) = get_block_for_thread env t thread ts in
    (ts', elim found [ none ↦ 0 | some b ↦ address_in t b ti ])

unfoldable pub allocate_index : ElfImage → ElfSym → ℕ → TlsIndex
allocate_index image sym addend = record {
  in_module = image.tls_mod_id;
  in_offset = u64 (sym.st_value + addend);
}

-- tlsBlockDestructor, which the exit of a thread that has a block runs.
unfoldable pub exit_thread : ℕ → Threads → Threads
unfolding get_specific drop_specific
exit_thread thread ts = elim (get_specific thread ts.blocks) [
  | none ↦ ts
  | some b ↦ record {
    blocks = drop_specific thread ts.blocks;
    block_count = sub64 ts.block_count 1;
  }
]

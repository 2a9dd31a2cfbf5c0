-- ===== src/Tls/Blocks.antt =====
-- A thread's block: what allocateBlock fills it with, and where __tls_get_addr points into it.
use so_load.Base.{
  ℕ, zero, suc, ◌+◌, ◌-◌, ◌^◌, ◌≤◌, ◌<◌, ◌≡◌, ◌≢◌, refl, ap, sym, ◌∙◌, ◌⊎◌, inl, inr, Bool, true,
  List, [], ◌∷◌, Option, none, some, length, get_elem?, get_elem?-set_self, ltb, if◌then◌else◌,
  is_some, arith, Option-cases, Bool-cases, ltb→lt,
}
use native.Mathlib.Decide.{ℕ_discrete}
use so_load.Base.Words.{u64, IsU64}
use so_load.Base.Slots.{AllFrom, AllFrom-get, find_slot, find_slot-Found}
use so_load.Image.{ElfImage, ElfPhdr}
use so_load.Tls.{
  TlsModule, TlsManager, TlsIndex, Block, Env, max_tls_modules, new_module, add_module, copy_module,
  copy_modules, block_align, block_total, allocate_block, address_in, tail_of, Threads,
  get_specific, get_address, register_segment, is_free,
}
use so_load.Tls.Invariant.{IsSound, Entry, Fits, taken_end, new_module_bounds}
use so_load.Tls.Register.{register_refused, register_placed}

-- The range of a module's initial image does not hold `i`.
abbrev Misses : ℕ → TlsModule → Type 0
Misses i m = (i < m.offset) ⊎ (m.offset + m.filesz ≤ i)

module _ (memory : ℕ → ℕ) (total : ℕ) where
  copy_module-Misses :
      (m : TlsModule) (bytes : ℕ → ℕ) (i : ℕ)
      → Misses i m ⊎ (m.owner ≡ none)
      → copy_module memory total m bytes i ≡ bytes i
  unfolding copy_module
  copy_module-Misses m bytes i h = ground arith

  copy_module-hits :
      (m : TlsModule) (bytes : ℕ → ℕ) (i : ℕ)
      → is_some m.owner ≡ true
      → m.init_image ≢ 0
      → i < m.filesz
      → m.offset + m.filesz ≤ total
      → IsU64 total
      → copy_module memory total m bytes (m.offset + i) ≡ memory (m.init_image + i)
  unfolding copy_module
  copy_module-hits m bytes i owned image inside fits word =
      let back : m.offset + i - m.offset ≡ i = omega arith in ground (arith, back)

  copy_modules-Misses :
      (ms : List TlsModule) (bytes : ℕ → ℕ) (i : ℕ)
      → ((j : ℕ) (n : TlsModule) → get_elem? ms j ≡ some n → Misses i n ⊎ (n.owner ≡ none))
      → copy_modules memory total ms bytes i ≡ bytes i
  unfolding copy_modules
  copy_modules-Misses [] bytes i h = refl
  copy_modules-Misses (m ∷ ms) bytes i h =
      copy_modules-Misses ms (copy_module memory total m bytes) i (λ j n e. h (suc j) n e)
      ∙ copy_module-Misses m bytes i (h 0 m refl)

  copy_modules-hits :
      (ms : List TlsModule) (bytes : ℕ → ℕ) (k i : ℕ) (m : TlsModule)
      → get_elem? ms k ≡ some m
      → ((j : ℕ) (n : TlsModule)
          → k ≢ j
          → get_elem? ms j ≡ some n
          → Misses (m.offset + i) n ⊎ (n.owner ≡ none))
      → is_some m.owner ≡ true
      → m.init_image ≢ 0
      → i < m.filesz
      → m.offset + m.filesz ≤ total
      → IsU64 total
      → copy_modules memory total ms bytes (m.offset + i) ≡ memory (m.init_image + i)
  unfolding copy_modules
  copy_modules-hits [] bytes k i m e h owned image inside fits word = absurd (cc)
  copy_modules-hits (x ∷ ms) bytes zero i m e h owned image inside fits word =
      let same : x ≡ m = cc in
      rw (same) (
        copy_modules-Misses ms (copy_module memory total m bytes) (m.offset + i)
          (λ j n e'. h (suc j) n (omega arith) e')
        ∙ copy_module-hits m bytes i owned image inside fits word)
  copy_modules-hits (x ∷ ms) bytes (suc k) i m e h owned image inside fits word =
      copy_modules-hits ms (copy_module memory total x bytes) k i m e
        (λ j n ne e'. h (suc j) n (λ s. ne (omega arith)) e') owned image inside fits word

-- What allocateBlock answers, where posix_memalign succeeds.
Allocated : Env → TlsManager → Block → Type 0
Allocated env t b =
    (b.size ≡ block_total env.page_size t)
    × (b.bytes ≡ copy_modules env.memory b.size (tail_of t.modules) (λ i. 0))

allocate_block-Allocated :
    (env : Env) (t : TlsManager) (b : Block) → allocate_block env t ≡ some b → Allocated env t b
unfolding allocate_block Allocated
allocate_block-Allocated env t b e = ground arith

get-tail : (ms : List TlsModule) (j : ℕ) → get_elem? (tail_of ms) j ≡ get_elem? ms (suc j)
get-tail [] j = refl
get-tail (m ∷ ms) j = refl

module _ (env : Env) (t : TlsManager) (s : IsSound t)
    (files : AllFrom (λ k n. n.filesz ≤ n.memsz) 0 t.modules)
    (room : t.static_size + block_align env.page_size t < 2 ^ 64) where
  total_room : t.static_size ≤ block_total env.page_size t
  unfolding block_total
  total_room = ground arith

  total_word : IsU64 (block_total env.page_size t)
  unfolding block_total
  total_word = ground arith

  -- A byte of one module is no byte of another one's initial image.
  others_miss :
      (k i : ℕ) (m : TlsModule)
      → get_elem? t.modules k ≡ some m
      → m.module_id ≢ 0
      → i < m.memsz
      → (j : ℕ) (n : TlsModule) → k ≢ j
      → get_elem? t.modules j ≡ some n
      → Misses (m.offset + i) n ⊎ (n.owner ≡ none)
  others_miss k i m e taken inside j n ne e' =
      elim (AllFrom-get (Entry t.static_size) 0 j t.modules s.entries e') [
        | inl empty ↦ inr (ap (λ (x : TlsModule). x.owner) empty)
        | inr (positive, number, owned, end) ↦ elim (s.apart k j m n ne e e' taken (omega arith)) [
          | inl before ↦ inl (inl (omega arith))
          | inr after ↦
              inl (
                inr (omega (arith, AllFrom-get (λ k x. x.filesz ≤ x.memsz) 0 j t.modules files e')))
        ]
      ]

  owned :
      (k : ℕ) (m : TlsModule)
      → get_elem? t.modules k ≡ some m
      → m.module_id ≢ 0
      → is_some m.owner ≡ true
  owned k m e taken = elim (AllFrom-get (Entry t.static_size) 0 k t.modules s.entries e) [
    | inl empty ↦ absurd (taken (ap (λ (x : TlsModule). x.module_id) empty))
    | inr (positive, number, (o, held), end) ↦ rw (held)
  ]

  -- Slot 0 is never taken.
  first : (m : TlsModule) → get_elem? t.modules 0 ≡ some m → m.module_id ≢ 0 → ⊥
  first m e taken = elim (AllFrom-get (Entry t.static_size) 0 0 t.modules s.entries e) [
    | inl empty ↦ taken (ap (λ (x : TlsModule). x.module_id) empty)
    | inr (positive, number, owner, end) ↦ absurd (omega arith)
  ]

  -- What the copies leave at a byte of the module in slot `suc k`.
  copied :
      (k i : ℕ) (m : TlsModule)
      → get_elem? t.modules (suc k) ≡ some m
      → m.module_id ≢ 0
      → m.init_image ≢ 0
      → i < m.memsz
      → copy_modules env.memory
          (block_total env.page_size t)
          (tail_of t.modules)
          (λ j. 0)
          (m.offset + i)
        ≡ (if ltb i m.filesz then env.memory (m.init_image + i) else 0)
  copied k i m e taken image inside =
      let others : (j : ℕ) (n : TlsModule)
          → k ≢ j
          → get_elem? (tail_of t.modules) j ≡ some n
          → Misses (m.offset + i) n ⊎ (n.owner ≡ none) =
        λ j n ne e'.
          others_miss (suc k) i m e taken inside (suc j) n (λ h. ne (omega arith))
            (sym (get-tail t.modules j) ∙ e') in
      elim (Bool-cases (ltb i m.filesz)) [
        | inl file ↦ rw (file) (
            copy_modules-hits env.memory _ (tail_of t.modules) (λ j. 0) k i m
              (get-tail t.modules k ∙ e) others (owned (suc k) m e taken) image
              (ltb→lt i m.filesz file)
              (omega (
                arith,
                AllFrom-get (λ k x. x.filesz ≤ x.memsz) 0 (suc k) t.modules files e,
                taken_end t (suc k) m s e taken,
                total_room,
              ))
              total_word)
        | inr bss ↦ rw (bss) (
            copy_modules-Misses env.memory _ (tail_of t.modules) (λ j. 0) (m.offset + i)
              (λ j n e'. elim (ℕ_discrete k j) [
                | yes same ↦
                    let nm : n ≡ m =
                      cc (ap (get_elem? (tail_of t.modules)) same, get-tail t.modules k) in
                    inl (inr (ground (arith, nm)))
                | no other ↦ others j n other e'
              ]))
      ]

  -- A new block starts as the image of every registered module whose segment has one: the
  -- bytes of the file, then zeros up to the segment's size in memory.
  pub allocate_block_image :
      (b : Block) (k i : ℕ) (m : TlsModule)
      → allocate_block env t ≡ some b
      → get_elem? t.modules k ≡ some m
      → m.module_id ≢ 0
      → m.init_image ≢ 0
      → i < m.memsz
      → b.bytes (m.offset + i) ≡ (if ltb i m.filesz then env.memory (m.init_image + i) else 0)
  unfolding Allocated
  allocate_block_image b zero i m fresh e taken image inside = absurd (first m e taken)
  allocate_block_image b (suc k) i m fresh e taken image inside =
      let (size, bytes) = allocate_block-Allocated env t b fresh in
      ap (λ (f : ℕ → ℕ). f (m.offset + i)) bytes
      ∙ ap (λ (n : ℕ). copy_modules env.memory n (tail_of t.modules) (λ j. 0) (m.offset + i)) size
      ∙ copied k i m e taken image inside

-- The address for an index of a registered module, where nothing wraps.
pub address_in_lem :
    (t : TlsManager) (b : Block) (ti : TlsIndex) (m : TlsModule)
    → ti.in_module ≢ 0
    → ti.in_module < max_tls_modules
    → get_elem? t.modules ti.in_module ≡ some m
    → m.module_id ≢ 0
    → m.offset + ti.in_offset < t.static_size
    → t.static_size < 2 ^ 64
    → b.address + t.static_size ≤ 2 ^ 64
    → address_in t b (some ti) ≡ b.address + (m.offset + ti.in_offset)
unfolding address_in
address_in_lem t b ti m h0 h1 e taken inside narrow fits = rw (e, address_in) (ground arith)

-- The index is refused, with a null pointer: no such module, or an offset past the static size.
abbrev pub IsRefused : TlsManager → TlsIndex → Type 0
IsRefused t ti =
    (ti.in_module ≡ 0)
    ⊎ (max_tls_modules ≤ ti.in_module)
    ⊎ (get_elem? t.modules ti.in_module ≡ none)
    ⊎ ((m : TlsModule) × (get_elem? t.modules ti.in_module ≡ some m)
        × ((m.module_id ≡ 0) ⊎ (t.static_size ≤ u64 (m.offset + ti.in_offset))))

pub address_in_refused :
    (t : TlsManager) (b : Block) (ti : TlsIndex) → IsRefused t ti → address_in t b (some ti) ≡ 0
unfolding address_in
address_in_refused t b ti (inl none_given) = ground arith
address_in_refused t b ti (inr (inl too_large)) = ground arith
address_in_refused t b ti (inr (inr (inl absent))) = rw (absent, address_in) (ground arith)
address_in_refused t b ti (inr (inr (inr (m, e, h)))) = rw (e, address_in) (ground arith)

block_size :
    (env : Env) (t : TlsManager) (b : Block)
    → allocate_block env t ≡ some b
    → 0 < env.page_size
    → t.static_size + env.page_size < 2 ^ 64
    → (t.static_size < b.size) × (b.size ≤ t.static_size + env.page_size)
unfolding Allocated block_total
block_size env t b fresh page room =
    let (size, bytes) = allocate_block-Allocated env t b fresh in ground (arith, size)

-- In a block that was allocated under the manager's present state every index that is not
-- refused leads inside the block.
pub allocate_block_inside :
    (env : Env) (t : TlsManager) (b : Block) (ti : TlsIndex)
    → allocate_block env t ≡ some b
    → 0 < env.page_size
    → t.static_size + env.page_size < 2 ^ 64
    → b.address + b.size ≤ 2 ^ 64
    → (address_in t b (some ti) ≡ 0)
      ⊎ ((b.address ≤ address_in t b (some ti)) × (address_in t b (some ti) < b.address + b.size))
unfolding address_in
allocate_block_inside env t b ti fresh page room fits =
    let (above, below) = block_size env t b fresh page room in
    elim (Option-cases (get_elem? t.modules ti.in_module)) [
      | inl absent ↦ inl (rw (absent, address_in) (ground arith))
      | inr (m, e) ↦ rw (e, address_in) (ground arith)
    ]

-- A thread that has a block keeps it.
pub get_address_block :
    (env : Env) (t : TlsManager) (thread : ℕ) (ts : Threads) (b : Block) (ti : Option TlsIndex)
    → get_specific thread ts.blocks ≡ some b
    → get_address env t thread ts ti ≡ (ts, address_in t b ti)
unfolding get_address
get_address_block env t thread ts b ti e = ground (arith, e)

abbrev pub last_index : ElfImage → ElfPhdr → TlsIndex
last_index image seg = record { in_module = image.tls_mod_id; in_offset = seg.p_memsz - 1 }

module _ (env : Env) (t : TlsManager) (image : ElfImage) (seg : ElfPhdr) (b : Block) where
  overrun :
      (k : ℕ)
      → IsSound t
      → Fits t seg
      → 1 ≤ k
      → k < length t.modules
      → allocate_block env t ≡ some b
      → 0 < env.page_size
      → env.page_size < seg.p_memsz
      → b.address + (add_module t image seg k).static_size ≤ 2 ^ 64
      → b.address + b.size
        ≤ address_in
            (add_module t image seg k)
            b
            (some (last_index (record image { tls_mod_id = k }) seg))
  unfolding add_module new_module
  overrun k s f lo hi fresh page large fits =
      let m = new_module t image seg k in
      let (above, below) = new_module_bounds t image seg f k in
      let (more, less) = block_size env t b fresh page (omega arith) in
      rw
        (address_in_lem (add_module t image seg k) b
          (last_index (record image { tls_mod_id = k }) seg) m (omega arith)
          (omega (arith, s.count)) (get_elem?-set_self t.modules k m hi) (omega arith) (omega arith)
          (omega arith) fits)
        (omega arith)

  -- A thread keeps the block that it has. After another library registers a TLS segment larger
  -- than a page, the last byte of that segment has an address past the end of the block.
  pub stale_block_overrun :
      (thread : ℕ) (ts : Threads)
      → IsSound t
      → image.tls_segment ≡ some seg
      → Fits t seg
      → (register_segment t image).2 ≡ true
      → allocate_block env t ≡ some b
      → get_specific thread ts.blocks ≡ some b
      → 0 < env.page_size
      → env.page_size < seg.p_memsz
      → b.address + (register_segment t image).0.static_size ≤ 2 ^ 64
      → b.address + b.size
        ≤ (get_address env
            (register_segment t image).0
            thread
            ts
            (some (last_index (register_segment t image).1 seg))).1
  stale_block_overrun thread ts s present f accepted fresh held page large fits =
      rw
        (get_address_block env (register_segment t image).0 thread ts b
          (some (last_index (register_segment t image).1 seg)) held)
        (elim (Option-cases (find_slot is_free 1 0 t.modules)) [
          | inl full ↦ absurd (
              let e =
                ap (λ (r : TlsManager × ElfImage × Bool). r.2)
                  (register_refused t image seg present full) in
              cc)
          | inr (k, found) ↦
              let place = find_slot-Found is_free 1 0 t.modules found in
              let e = register_placed t image seg k present found in
              rw e (
                overrun k s f place.late (omega (arith, place.inside, place.index)) fresh page large
                  (rw e at fits))
        ])

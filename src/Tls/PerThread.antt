-- ===== src/Tls/PerThread.antt =====
-- The threads' blocks: allocated once for each thread, counted, and freed at the thread's exit.
use so_load.Base.{
  ℕ, suc, ◌+◌, ◌^◌, ◌<◌, ◌≡◌, ◌≢◌, refl, ◌⊎◌, inl, inr, List, [], ◌∷◌, none, some, length, arith,
  Option-cases,
}
use so_load.Base.Words.{u64}
use so_load.Tls.{
  TlsManager, Block, Env, Threads, get_specific, drop_specific, allocate_block,
  get_block_for_thread, exit_thread,
}

-- g_tls_block_count is the number of live blocks.
abbrev pub IsCounted : Threads → Type 0
IsCounted ts = (ts.block_count ≡ length ts.blocks) × (length ts.blocks < 2 ^ 64)

length-drop_specific :
    (thread : ℕ) (bs : List (ℕ × Block)) (b : Block)
    → get_specific thread bs ≡ some b
    → suc (length (drop_specific thread bs)) ≡ length bs
unfolding get_specific drop_specific
length-drop_specific thread [] b e = absurd (cc)
length-drop_specific thread ((k, c) ∷ bs) b e = ground (arith, length-drop_specific thread bs b)

first_use-IsCounted :
    (env : Env) (t : TlsManager) (thread : ℕ) (ts : Threads)
    → IsCounted ts
    → length ts.blocks + 1 < 2 ^ 64
    → IsCounted (get_block_for_thread env t thread ts).0
unfolding get_block_for_thread
first_use-IsCounted env t thread ts c room = elim (Option-cases (get_specific thread ts.blocks)) [
  | inr (b, held) ↦ rw (held, get_block_for_thread) c
  | inl absent ↦ elim (Option-cases (allocate_block env t)) [
    | inl full ↦ rw (absent, full, get_block_for_thread) c
    | inr (b, fresh) ↦ rw (absent, fresh, get_block_for_thread) (omega arith)
  ]
]

exit_thread-IsCounted :
    (thread : ℕ) (ts : Threads) → IsCounted ts → IsCounted (exit_thread thread ts)
unfolding exit_thread
exit_thread-IsCounted thread ts c = elim (Option-cases (get_specific thread ts.blocks)) [
  | inl absent ↦ rw (absent, exit_thread) c
  | inr (b, held) ↦
      rw (held, exit_thread) (omega (arith, length-drop_specific thread ts.blocks b held))
]

-- Neither a first use of TLS nor the exit of a thread makes the count wrong.
pub block_count-IsCounted :
    (env : Env) (t : TlsManager) (thread : ℕ) (ts : Threads)
    → IsCounted ts
    → length ts.blocks + 1 < 2 ^ 64
    → IsCounted (get_block_for_thread env t thread ts).0 × IsCounted (exit_thread thread ts)
block_count-IsCounted env t thread ts c room =
    (first_use-IsCounted env t thread ts c room, exit_thread-IsCounted thread ts c)

block_held :
    (env : Env) (t : TlsManager) (thread : ℕ) (ts : Threads) (b : Block)
    → get_specific thread ts.blocks ≡ some b
    → get_block_for_thread env t thread ts ≡ (ts, some b)
unfolding get_block_for_thread
block_held env t thread ts b held = ground arith

abbrev first_block : ℕ → Block → Threads → Threads
first_block thread b ts = record {
  blocks = (thread, b) ∷ ts.blocks;
  block_count = u64 (ts.block_count + 1);
}

block_full :
    (env : Env) (t : TlsManager) (thread : ℕ) (ts : Threads)
    → get_specific thread ts.blocks ≡ none
    → allocate_block env t ≡ none
    → get_block_for_thread env t thread ts ≡ (ts, none)
unfolding get_block_for_thread
block_full env t thread ts absent full = rw (absent, full, get_block_for_thread) refl

block_fresh :
    (env : Env) (t : TlsManager) (thread : ℕ) (ts : Threads) (b : Block)
    → get_specific thread ts.blocks ≡ none
    → allocate_block env t ≡ some b
    → get_block_for_thread env t thread ts ≡ (first_block thread b ts, some b)
unfolding get_block_for_thread
block_fresh env t thread ts b absent fresh = rw (absent, fresh, get_block_for_thread) refl

get_specific_self :
    (thread : ℕ) (b : Block) (bs : List (ℕ × Block))
    → get_specific thread ((thread, b) ∷ bs) ≡ some b
unfolding get_specific
get_specific_self thread b bs = ground arith

get_specific_other :
    (other thread : ℕ) (b : Block) (bs : List (ℕ × Block))
    → other ≢ thread
    → get_specific other ((thread, b) ∷ bs) ≡ get_specific other bs
unfolding get_specific
get_specific_other other thread b bs ne = ground arith

-- A thread's first use of TLS gives it a block, or no memory is left and nothing changes. Once it
-- has a block, every later use answers the same one, and no other thread's block is touched.
pub get_block_for_thread_stable :
    (env : Env) (t later : TlsManager) (thread : ℕ) (ts : Threads)
    → let (ts', found) = get_block_for_thread env t thread ts in
      ((found ≡ none) × (ts' ≡ ts))
      ⊎ ((b : Block) × (found ≡ some b)
          × (get_block_for_thread env later thread ts' ≡ (ts', some b))
          × ((other : ℕ)
              → other ≢ thread
              → get_specific other ts'.blocks ≡ get_specific other ts.blocks))
get_block_for_thread_stable env t later thread ts =
    elim (Option-cases (get_specific thread ts.blocks)) [
      | inr (b, held) ↦
          rw (block_held env t thread ts b held)
            (inr (b, refl, block_held env later thread ts b held, λ other ne. refl))
      | inl absent ↦ elim (Option-cases (allocate_block env t)) [
        | inl full ↦ rw (block_full env t thread ts absent full) (inl (refl, refl))
        | inr (b, fresh) ↦ rw (block_fresh env t thread ts b absent fresh) (
            inr (
              b,
              refl,
              block_held env later thread (first_block thread b ts) b
                  (get_specific_self thread b ts.blocks),
              λ other ne. get_specific_other other thread b ts.blocks ne,
            ))
      ]
    ]

-- ===== src/Linker/Resolver.antt =====
-- dynamic_tls_resolver of src/linker.cpp, the function behind the TLS descriptors.
use so_load.Base.{ℕ, ◌+◌, ◌^◌, ◌≤◌, ◌<◌, ◌≡◌, ◌≢◌, refl, Option, none, some, get_elem?, arith}
use so_load.Base.Words.{sub64}
use so_load.Tls.{
  TlsModule, TlsManager, TlsIndex, Block, Env, Threads, max_tls_modules, get_address, get_specific,
  address_in,
}
use so_load.Tls.Blocks.{address_in_lem, get_address_block}

-- The offset that a thread's code adds to the base of its block.
unfoldable pub dynamic_tls_resolver : Env → TlsManager → ℕ → Threads → Option TlsIndex → Threads × ℕ
dynamic_tls_resolver env t thread ts ti =
    let (ts', addr) = get_address env t thread ts ti in
    let (ts'', block_base) = get_address env t thread ts' none in (ts'', sub64 addr block_base)

-- In a thread that has a block, an index of a registered module whose offset is inside the static
-- size is answered by the module's offset and the index's.
dynamic_tls_resolver_inside :
    (env : Env) (t : TlsManager) (thread : ℕ) (ts : Threads) (b : Block) (ti : TlsIndex)
    (m : TlsModule)
    → get_specific thread ts.blocks ≡ some b
    → ti.in_module ≢ 0
    → ti.in_module < max_tls_modules
    → get_elem? t.modules ti.in_module ≡ some m
    → m.module_id ≢ 0
    → m.offset + ti.in_offset < t.static_size
    → t.static_size < 2 ^ 64
    → b.address + t.static_size ≤ 2 ^ 64
    → dynamic_tls_resolver env t thread ts (some ti) ≡ (ts, m.offset + ti.in_offset)
unfolding dynamic_tls_resolver address_in
dynamic_tls_resolver_inside env t thread ts b ti m has h0 h1 e taken inside narrow fits =
    let addr = address_in_lem t b ti m h0 h1 e taken inside narrow fits in
    let difference : sub64 (b.address + (m.offset + ti.in_offset)) b.address
        ≡ m.offset + ti.in_offset =
      omega (arith, inside, fits, narrow) in
    rw
      (
        get_address_block env t thread ts b (some ti) has,
        get_address_block env t thread ts b none has,
        addr,
        difference,
      )
      refl

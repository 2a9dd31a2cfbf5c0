-- ===== src/Linker/Writes.antt =====
-- What a relocation writes: processRelocation changes no byte but those of its target and of the
-- word behind it.
use so_load.Base.{
  ℕ, ◌+◌, ◌≡◌, ◌≢◌, true, List, Option, none, some, get_elem?, arith, Option-cases, inl, inr,
}
use so_load.Base.Words.{u64, sub64}
use so_load.Linker.Memory.{read_word, write_word, apart_next, read_word-write_word}
use so_load.Base.{◌≤◌, ◌<◌, ◌^◌}
use so_load.Image.{ElfSym}
use so_load.Image.Lookup.{c_string}
use so_load.Linker.{SymbolLookup, valid}
use so_load.Linker.Symbols.{find_symbol, find_symbol_cached}
use so_load.Linker.Cache.{IsCoherent, find_symbol_cached-IsCoherent}
use so_load.Linker.Relocation.{
  Surroundings, Relocating, Relocation, hooked, bind_tprel, bind_tlsdesc, bind_tls, bind_found,
  bind_symbol, process_relocation,
}

module _ (s : Surroundings) (rel : Relocation) (a : ℕ) where
  bind_tls_frame :
      (sym : ElfSym) (self : Option ℕ) (target : ℕ) (st after : Relocating)
      → target < 2 ^ 64
      → 16 ≤ sub64 a target
      → bind_tls s rel sym self target st ≡ some after
      → after.memory a ≡ st.memory a
  unfolding bind_tls write_word bind_tprel bind_tlsdesc
  bind_tls_frame sym none target st after small h e =
      let far = apart_next target a small h in ground (arith, e, far)
  bind_tls_frame sym (some self) target st after small h e =
      let far = apart_next target a small h in ground (arith, e, far)

  bind_found_frame :
      (sym : ElfSym) (name : List ℕ) (found : SymbolLookup) (target : ℕ) (st after : Relocating)
      → target < 2 ^ 64
      → 16 ≤ sub64 a target
      → bind_found s rel sym name found target st ≡ some after
      → after.memory a ≡ st.memory a
  unfolding bind_found write_word
  bind_found_frame sym name found target st after small h e =
      let tls = bind_tls_frame sym found.image target st after small h in
      let far = apart_next target a small h in ground (arith, e, tls, far)

  bind_symbol_frame :
      (target : ℕ) (st after : Relocating)
      → target < 2 ^ 64
      → 16 ≤ sub64 a target
      → bind_symbol s rel target st ≡ some after
      → after.memory a ≡ st.memory a
  unfolding bind_symbol
  bind_symbol_frame target st after small h e =
      elim (Option-cases (get_elem? rel.dynsym rel.sym_idx)) [
        | inl past ↦ ground (arith, e, past)
        | inr (sym, entry) ↦ elim (Option-cases (c_string rel.dynstr sym.st_name)) [
          | inl unread ↦ ground (arith, e, entry, unread)
          | inr (name, text) ↦
              elim (Option-cases (find_symbol_cached s.resolution st.linker name)) [
                | inl broken ↦ ground (arith, e, entry, text, broken)
                | inr (answer, found) ↦
                    let looked_up : Relocating = record st { linker = answer.1 } in
                    let bound = bind_found_frame sym name answer.0 target looked_up after small h in
                    ground (arith, e, entry, text, found, bound)
              ]
        ]
      ]

  -- A relocation leaves every byte as it was but those of the word at its target and of the word
  -- after that.
  pub process_relocation_frame :
      (st after : Relocating)
      → 16 ≤ sub64 a (u64 (rel.load_bias + rel.offset))
      → process_relocation s rel st ≡ some after
      → after.memory a ≡ st.memory a
  unfolding process_relocation write_word
  process_relocation_frame st after h e =
      let target = u64 (rel.load_bias + rel.offset) in
      let symbolic = bind_symbol_frame target st after (omega arith) h in
      let far = apart_next target a (omega arith) h in ground (arith, e, symbolic, far)

-- With a coherent cache, a GLOB_DAT relocation against a name whose search answers a
-- symbol writes that symbol's address, or the hook's for the two functions that have one.
pub process_relocation-find_symbol :
    (s : Surroundings) (rel : Relocation) (st : Relocating) (sym : ElfSym) (name : List ℕ)
    (found : SymbolLookup)
    → rel.type ≡ 1025
    → rel.sym_idx ≢ 0
    → get_elem? rel.dynsym rel.sym_idx ≡ some sym
    → c_string rel.dynstr sym.st_name ≡ some name
    → IsCoherent s.resolution st.linker
    → find_symbol s.resolution st.linker name ≡ some found
    → valid found ≡ true
    → (after : Relocating) × (process_relocation s rel st ≡ some after)
      × (read_word (u64 (rel.load_bias + rel.offset)) after.memory
          ≡ u64 (hooked s name found.address))
      × IsCoherent s.resolution after.linker
unfolding process_relocation bind_symbol bind_found
process_relocation-find_symbol s rel st sym name found kind named entry text coherent search good =
    let (answer, linker, cached_there, same, still) =
      find_symbol_cached-IsCoherent s.resolution st.linker name found coherent search in
    let address : answer.address ≡ found.address = ground (arith, same, good) in
    let target = u64 (rel.load_bias + rel.offset) in
    let after : Relocating = record st {
      memory = write_word target (hooked s name found.address) st.memory;
      linker = linker;
    } in
    (
      after,
      ground (arith, kind, named, entry, text, cached_there, address, good),
      read_word-write_word target (hooked s name found.address) st.memory (omega arith),
      still,
    )

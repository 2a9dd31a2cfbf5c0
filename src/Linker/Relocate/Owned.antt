-- ===== src/Linker/Relocate/Owned.antt =====
-- The TlsIndex objects that the relocations of an image make, and the linker's list of them.
use so_load.Base.{
  ℕ, ◌+◌, ◌≡◌, ◌∙◌, ap, sym, List, [], ◌∷◌, ◌++◌, Option, none, some, get_elem?, ◌==◌, arith,
  Option-cases, Bool-cases, inl, inr,
}
use so_load.Base.Words.{u64, sub64}
use so_load.Image.{ElfImage, ElfSym}
use so_load.Image.Lookup.{c_string}
use so_load.Linker.{Linker, SymbolLookup}
use so_load.Linker.Symbols.{find_symbol_cached}
use so_load.Tls.{TlsIndex}
use so_load.Linker.Relocation.{
  Surroundings, Relocating, Relocation, bind_tprel, bind_tlsdesc, bind_tls, bind_found, bind_symbol,
  process_relocation,
}
use so_load.Linker.Packed.{done}
use so_load.Linker.Relocate.{
  Contents, entry_relocation, relocate_entry, relocate_words, process_relocations,
}
use so_load.Linker.Relocate.Log.{Step, entry, words, step, replay_always_keeps}
use so_load.Linker.Relocate.Order.{run_steps, tables_of, process_relocations_log}

-- The addresses of the objects, the oldest first.
unfoldable pub addresses : List (ℕ × TlsIndex) → List ℕ
addresses [] = []
addresses ((a, ti) ∷ older) = addresses older ++ (a ∷ [])

-- The linker lists every object once.
abbrev pub IsOwned : Relocating → Type 0
IsOwned st = st.linker.tls_indices ≡ addresses st.indices

module _ (s : Surroundings) (rel : Relocation) where
  bind_tls-IsOwned :
      (sym : ElfSym) (self : Option ℕ) (target : ℕ) (st after : Relocating)
      → IsOwned st
      → bind_tls s rel sym self target st ≡ some after
      → IsOwned after
  unfolding bind_tls bind_tprel bind_tlsdesc addresses
  bind_tls-IsOwned sym none target st after h e = ground (arith, e, h)
  bind_tls-IsOwned sym (some self) target st after h e = ground (arith, e, h)

  bind_found-IsOwned :
      (sym : ElfSym) (name : List ℕ) (found : SymbolLookup) (target : ℕ) (st after : Relocating)
      → IsOwned st
      → bind_found s rel sym name found target st ≡ some after
      → IsOwned after
  unfolding bind_found
  bind_found-IsOwned sym name found target st after h e =
      let tls = bind_tls-IsOwned sym found.image target st after h in ground (arith, e, tls, h)

  find_symbol_cached_indices :
      (l after : Linker) (name : List ℕ) (t : SymbolLookup)
      → find_symbol_cached s.resolution l name ≡ some (t, after)
      → after.tls_indices ≡ l.tls_indices
  unfolding find_symbol_cached
  find_symbol_cached_indices l after name t e = ground (arith, e)

  bind_symbol-IsOwned :
      (target : ℕ) (st after : Relocating)
      → IsOwned st
      → bind_symbol s rel target st ≡ some after
      → IsOwned after
  unfolding bind_symbol
  bind_symbol-IsOwned target st after h e = elim (Bool-cases (rel.sym_idx == 0)) [
    | inl no_index ↦ ground (arith, e, h, no_index)
    | inr index ↦ elim (Option-cases (get_elem? rel.dynsym rel.sym_idx)) [
      | inl past ↦ ground (arith, e, index, past)
      | inr (sym, named) ↦ elim (Option-cases (c_string rel.dynstr sym.st_name)) [
        | inl unread ↦ ground (arith, e, index, named, unread)
        | inr (name, text) ↦ elim (Option-cases (find_symbol_cached s.resolution st.linker name)) [
          | inl broken ↦ ground (arith, e, index, named, text, broken)
          | inr ((answer, linker), found) ↦
              let looked_up : Relocating = record st { linker = linker } in
              let still : IsOwned looked_up =
                find_symbol_cached_indices st.linker linker name answer found ∙ h in
              let bound = bind_found-IsOwned sym name answer target looked_up after still in
              ground (arith, e, index, named, text, found, still, bound)
        ]
      ]
    ]
  ]

  process_relocation-IsOwned :
      (st after : Relocating)
      → IsOwned st
      → process_relocation s rel st ≡ some after
      → IsOwned after
  unfolding process_relocation
  process_relocation-IsOwned st after h e =
      let symbolic = bind_symbol-IsOwned (u64 (rel.load_bias + rel.offset)) st after h in
      ground (arith, e, h, symbolic)

-- When the linker lists each TlsIndex object once, in the order in which they were made, it does so
-- after the relocations of an image too: every object that they make is one that the linker will
-- delete.
pub process_relocations-IsOwned :
    (s : Surroundings) (contents : Contents) (image : ElfImage) (rounds : ℕ)
    (before after : Relocating)
    → IsOwned before
    → process_relocations s contents image rounds before ≡ done after
    → IsOwned after
unfolding run_steps relocate_entry relocate_words
process_relocations-IsOwned s contents image rounds before after owned e =
    let (log, from, run) = process_relocations_log s contents image rounds before after e in
    let load_bias = sub64 image.base image.bias in
    replay_always_keeps
      (relocate_entry s contents load_bias (tables_of s.android_tags contents image))
      (relocate_words load_bias) IsOwned keeps log before after owned run
  where
    keeps :
        (x : Step) (a b : Relocating)
        → IsOwned a
        → step
            (relocate_entry s contents
              (sub64 image.base image.bias)
              (tables_of s.android_tags contents image))
            (relocate_words (sub64 image.base image.bias))
            x
            a
          ≡ some b
        → IsOwned b
    keeps (entry is_rela r) a b h e' =
        process_relocation-IsOwned s
          (entry_relocation contents (sub64 image.base image.bias)
            (tables_of s.android_tags contents image) is_rela r.r_offset r.r_info r.r_addend)
          a b h e'
    keeps (words entries) a b h e' =
        let linkers : a.linker ≡ b.linker = cc in
        let objects : a.indices ≡ b.indices = cc in
        ap (λ (l : Linker). l.tls_indices) (sym linkers) ∙ h ∙ ap addresses objects

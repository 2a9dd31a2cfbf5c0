-- ===== src/Linker/Relocate/Coherent.antt =====
-- The symbol cache over the relocations of a whole image.
use mathlib.Core.Path.{subst}
use so_load.Base.{
  ℕ, ◌+◌, ◌⊎◌, ◌≡◌, ◌∙◌, List, Option, none, some, get_elem?, ◌==◌, arith, Option-cases, Bool-cases,
  inl, inr,
}
use so_load.Base.Words.{u64, sub64}
use so_load.Image.{ElfImage, ElfSym}
use so_load.Image.Lookup.{c_string}
use so_load.Linker.{Linker, SymbolLookup, valid}
use so_load.Linker.Symbols.{Resolution, find_symbol, find_symbol_cached, images}
use so_load.Linker.Cache.{IsCoherent, find_symbol_cached_keeps}
use so_load.Linker.Relocation.{
  Surroundings, Relocating, Relocation, bind_tprel, bind_tlsdesc, bind_tls, bind_found, bind_symbol,
  process_relocation, needs_symbol,
}
use so_load.Linker.Packed.{done}
use so_load.Linker.Relocate.{
  Contents, entry_relocation, relocate_entry, relocate_words, process_relocations,
}
use so_load.Linker.Relocate.Log.{Step, entry, words, step, replay_always_keeps}
use so_load.Linker.Relocate.Order.{run_steps, tables_of, process_relocations_log}

-- Only the lookup changes the cache and the images.
abbrev IsSame : Linker → Linker → Type 0
IsSame l after =
    (after.main_image ≡ l.main_image)
    × (after.deps ≡ l.deps)
    × (after.symbol_cache ≡ l.symbol_cache)

same-find_symbol :
    (r : Resolution) (l after : Linker) (name : List ℕ)
    → IsSame l after
    → find_symbol r after name ≡ find_symbol r l name
unfolding find_symbol images
same-find_symbol r l after name (main, deps, cache) =
    λ i. find_symbol r (record after { main_image = main i; deps = deps i }) name

same-IsCoherent :
    (r : Resolution) (l after : Linker) → IsSame l after → IsCoherent r l → IsCoherent r after
same-IsCoherent r l after same coherent name e hit =
    let hit' = rw same.2 at hit in
    let (t, found, made) = coherent name e hit' in
    (t, same-find_symbol r l after name same ∙ found, made)

module _ (s : Surroundings) (rel : Relocation) where
  bind_tls-IsSame :
      (sym : ElfSym) (self : Option ℕ) (target : ℕ) (st after : Relocating)
      → bind_tls s rel sym self target st ≡ some after
      → IsSame st.linker after.linker
  unfolding bind_tls bind_tprel bind_tlsdesc
  bind_tls-IsSame sym none target st after e = ground (arith, e)
  bind_tls-IsSame sym (some self) target st after e = ground (arith, e)

  bind_found-IsSame :
      (sym : ElfSym) (name : List ℕ) (found : SymbolLookup) (target : ℕ) (st after : Relocating)
      → bind_found s rel sym name found target st ≡ some after
      → IsSame st.linker after.linker
  unfolding bind_found
  bind_found-IsSame sym name found target st after e =
      let tls = bind_tls-IsSame sym found.image target st after in ground (arith, e, tls)

  bind_symbol_keeps :
      (target : ℕ) (st after : Relocating)
      → IsCoherent s.resolution st.linker
      → bind_symbol s rel target st ≡ some after
      → IsCoherent s.resolution after.linker
  unfolding bind_symbol
  bind_symbol_keeps target st after coherent e = elim (Bool-cases (rel.sym_idx == 0)) [
    | inl no_index ↦ keep (ground (arith, e, no_index))
    | inr index ↦ elim (Option-cases (get_elem? rel.dynsym rel.sym_idx)) [
      | inl past ↦ keep (ground (arith, e, index, past))
      | inr (sym, named) ↦ elim (Option-cases (c_string rel.dynstr sym.st_name)) [
        | inl unread ↦ keep (ground (arith, e, index, named, unread))
        | inr (name, text) ↦ elim (Option-cases (find_symbol_cached s.resolution st.linker name)) [
          | inl broken ↦ keep (ground (arith, e, index, named, text, broken))
          | inr ((answer, linker), found) ↦
              let looked_up : Relocating = record st { linker = linker } in
              let still =
                find_symbol_cached_keeps s.resolution st.linker linker name answer coherent found in
              let bound = bind_found-IsSame sym name answer target looked_up after in
              elim (Bool-cases (valid answer)) [
                | inl good ↦
                    same-IsCoherent s.resolution linker after.linker
                      (bound (ground (arith, e, index, named, text, found, good))) still
                | inr missing ↦
                    let same : looked_up ≡ after =
                      ground (arith, e, index, named, text, found, missing) in
                    subst (λ x. IsCoherent s.resolution x.linker) same still
              ]
        ]
      ]
    ]
  ]
    where
      keep : st ≡ after → IsCoherent s.resolution after.linker
      keep same = subst (λ x. IsCoherent s.resolution x.linker) same coherent

  process_relocation_keeps :
      (st after : Relocating)
      → IsCoherent s.resolution st.linker
      → process_relocation s rel st ≡ some after
      → IsCoherent s.resolution after.linker
  unfolding process_relocation
  process_relocation_keeps st after coherent e =
      let target = u64 (rel.load_bias + rel.offset) in
      let symbolic = bind_symbol_keeps target st after coherent in
      elim (linker_cases st after e) [
        | inl same ↦ subst (IsCoherent s.resolution) same coherent
        | inr bound ↦ symbolic bound
      ]
    where
      linker_cases :
          (x y : Relocating)
          → process_relocation s rel x ≡ some y
          → (x.linker ≡ y.linker)
            ⊎ (bind_symbol s rel (u64 (rel.load_bias + rel.offset)) x ≡ some y)
      linker_cases x y h = elim (Bool-cases (needs_symbol rel.type)) [
        | inl wanted ↦ inr (ground (arith, h, wanted))
        | inr plain ↦ inl (ground (arith, h, plain))
      ]

-- With a coherent cache, relocating an image leaves a coherent cache: whatever its tables hold,
-- each entry is what the search would answer now.
pub process_relocations-IsCoherent :
    (s : Surroundings) (contents : Contents) (image : ElfImage) (rounds : ℕ)
    (before after : Relocating)
    → IsCoherent s.resolution before.linker
    → process_relocations s contents image rounds before ≡ done after
    → IsCoherent s.resolution after.linker
unfolding run_steps relocate_entry relocate_words
process_relocations-IsCoherent s contents image rounds before after coherent e =
    let (log, from, run) = process_relocations_log s contents image rounds before after e in
    let load_bias = sub64 image.base image.bias in
    replay_always_keeps
      (relocate_entry s contents load_bias (tables_of s.android_tags contents image))
      (relocate_words load_bias) (λ st. IsCoherent s.resolution st.linker) keeps log before after
      coherent run
  where
    keeps :
        (x : Step) (a b : Relocating)
        → IsCoherent s.resolution a.linker
        → step
            (relocate_entry s contents
              (sub64 image.base image.bias)
              (tables_of s.android_tags contents image))
            (relocate_words (sub64 image.base image.bias))
            x
            a
          ≡ some b
        → IsCoherent s.resolution b.linker
    keeps (entry is_rela r) a b h e' =
        process_relocation_keeps s
          (entry_relocation contents (sub64 image.base image.bias)
            (tables_of s.android_tags contents image) is_rela r.r_offset r.r_info r.r_addend)
          a b h e'
    keeps (words entries) a b h e' =
        let same : a.linker ≡ b.linker = cc in subst (IsCoherent s.resolution) same h

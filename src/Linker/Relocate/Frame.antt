-- ===== src/Linker/Relocate/Frame.antt =====
-- The bytes of memory that the relocations of an image leave alone.
use so_load.Base.{
  ℕ, ◌-◌, ◌*◌, ◌/◌, ◌%◌, ◌^◌, ◌≤◌, ◌<◌, true, ◌++◌, sym, >>=-eq-some, >>=_assoc, >>=_cong, ◌>>=◌,
  ◌+◌, ◌≡◌, refl, ap, ◌∙◌, List, [], ◌∷◌, Option, none, some, All, arith,
}
use so_load.Base.Words.{u64, sub64}
use so_load.Image.{ElfImage}
use so_load.Linker.Memory.{read_word, read_word_cong, write_word_apart, read_word-write_word}
use so_load.Linker.Relr.{add_bias, relr_offsets, relocate_all}
use so_load.Linker.Relocation.{Surroundings, Relocating, process_relocation}
use so_load.Linker.Writes.{process_relocation_frame}
use so_load.Linker.Tables.{ElfDyn, ElfRela, DynamicTables}
use so_load.Linker.Tables.Entries.{tables_in}
use so_load.Linker.Packed.{done}
use so_load.Linker.Relocate.{Contents, ended, process_relocations}
use so_load.Linker.Relocate.Log.{Step, entry, words}
use so_load.Linker.Relocate.Asked.{asked, IsWhole, IsPacked}
use so_load.Linker.Relocate.Served.{
  HasDynamic, requested, serve, serve_all, process_relocations-serve_all,
}

-- A step that is not for the byte at `a`, which stands neither in the word of its target nor in the
-- one behind that.
abbrev pub IsApart : ℕ → ℕ → Step → Type 0
IsApart load_bias a (entry is_rela r) = 16 ≤ sub64 a (u64 (load_bias + r.r_offset))
IsApart load_bias a (words entries) =
    All (λ offset. 8 ≤ sub64 a (u64 (load_bias + offset))) (relr_offsets 0 entries)

-- A step that is not for any byte of the word at `target`.
abbrev pub IsApartFrom : ℕ → ℕ → Step → Type 0
IsApartFrom load_bias target x = (i : ℕ) → i < 8 → IsApart load_bias (u64 (target + i)) x

relocate_all_frame :
    (load_bias a : ℕ) (offsets : List ℕ) (memory : ℕ → ℕ)
    → All (λ offset. 8 ≤ sub64 a (u64 (load_bias + offset))) offsets
    → relocate_all load_bias offsets memory a ≡ memory a
unfolding relocate_all add_bias
relocate_all_frame load_bias a [] memory all = refl
relocate_all_frame load_bias a (o ∷ os) memory all =
    let target = u64 (load_bias + o) in
    relocate_all_frame load_bias a os (add_bias load_bias target memory) all.1
    ∙ write_word_apart target (u64 (read_word target memory + load_bias)) memory a all.0

module _ (s : Surroundings) (contents : Contents) (load_bias : ℕ) (t : DynamicTables) where
  serve_frame :
      (a : ℕ) (x : Step) (st after : Relocating)
      → IsApart load_bias a x
      → serve s contents load_bias t x st ≡ some after
      → after.memory a ≡ st.memory a
  unfolding serve
  serve_frame a (entry is_rela r) st after away e =
      process_relocation_frame s (requested contents load_bias t is_rela r) a st after away e
  serve_frame a (words entries) st after away e =
      let written : after.memory ≡ relocate_all load_bias (relr_offsets 0 entries) st.memory = cc in
      ap (λ m. m a) written ∙ relocate_all_frame load_bias a (relr_offsets 0 entries) st.memory away

  serve_all_frame :
      (a : ℕ) (xs : List Step) (st after : Relocating)
      → All (IsApart load_bias a) xs
      → serve_all s contents load_bias t xs st ≡ some after
      → after.memory a ≡ st.memory a
  unfolding serve_all
  serve_all_frame a [] st after away e =
      let same : st ≡ after = cc in ap (λ (x : Relocating). x.memory a) (sym same)
  serve_all_frame a (x ∷ xs) st after away e =
      let (mid, first, rest) = >>=-eq-some (serve s contents load_bias t x st) _ e in
      serve_all_frame a xs mid after away.1 rest ∙ serve_frame a x st mid away.0 first

  -- The word at a target that nothing later is for.
  serve_all_word :
      (target : ℕ) (xs : List Step) (st after : Relocating)
      → target < 2 ^ 64
      → All (IsApartFrom load_bias target) xs
      → serve_all s contents load_bias t xs st ≡ some after
      → read_word target after.memory ≡ read_word target st.memory
  serve_all_word target xs st after small away e =
      read_word_cong target st.memory after.memory small
        (λ i low. serve_all_frame (u64 (target + i)) xs st after (each i low xs away) e)
    where
      each :
          (i : ℕ)
          → i < 8
          → (ys : List Step) → All (IsApartFrom load_bias target) ys
          → All (IsApart load_bias (u64 (target + i))) ys
      each i low [] all = tt
      each i low (y ∷ ys) all = (all.0 i low, each i low ys all.1)

  serve_all-append :
      (xs ys : List Step) (st : Relocating)
      → serve_all s contents load_bias t (xs ++ ys) st ≡ (
          serve_all s contents load_bias t xs st
          >>= (λ st'. serve_all s contents load_bias t ys st'))
  unfolding serve_all
  serve_all-append [] ys st = refl
  serve_all-append (x ∷ xs) ys st =
      >>=_cong (serve s contents load_bias t x st) _ _ (serve_all-append xs ys)
      ∙ sym (>>=_assoc (serve s contents load_bias t x st) _ _)

ended-some : (m : Option Relocating) (after : Relocating) → ended m ≡ done after → m ≡ some after
ended-some none after e = cc
ended-some (some st) after e = let same : st ≡ after = cc in ap some same

module _ (s : Surroundings) (contents : Contents) (image : ElfImage) (rounds : ℕ) (ds : List ElfDyn)
    (packed : List ElfRela) where
  served :
      (before after : Relocating)
      → HasDynamic s.android_tags contents image ds
      → IsWhole contents (tables_in s.android_tags image ds)
      → IsPacked contents (tables_in s.android_tags image ds) rounds packed
      → process_relocations s contents image rounds before ≡ done after
      → serve_all s contents
          (sub64 image.base image.bias)
          (tables_in s.android_tags image ds)
          (asked contents (tables_in s.android_tags image ds) packed)
          before
        ≡ some after
  served before after h whole stream e = ended-some _ after (
      sym (process_relocations-serve_all s contents image rounds ds packed before h whole stream)
      ∙ e)

  -- On an image with a dynamic table that DT_NULL ends, and tables that HasDynamic, IsWhole and
  -- IsPacked describe, in a run of processRelocations that ends: a byte outside the 16 bytes at the
  -- target of every relocation that the tables ask for, and outside every word of the RELR table,
  -- stays as it was.
  pub process_relocations_frame :
      (a : ℕ) (before after : Relocating)
      → HasDynamic s.android_tags contents image ds
      → IsWhole contents (tables_in s.android_tags image ds)
      → IsPacked contents (tables_in s.android_tags image ds) rounds packed
      → All
          (IsApart (sub64 image.base image.bias) a)
          (asked contents (tables_in s.android_tags image ds) packed)
      → process_relocations s contents image rounds before ≡ done after
      → after.memory a ≡ before.memory a
  process_relocations_frame a before after h whole stream apart e =
      serve_all_frame s contents (sub64 image.base image.bias) (tables_in s.android_tags image ds) a
        (asked contents (tables_in s.android_tags image ds) packed) before after apart
        (served before after h whole stream e)

  -- On such an image, in a run of processRelocations that ends: the word of an R_AARCH64_RELATIVE
  -- relocation with an addend ends as the load bias plus the addend, wherever the relocation stands
  -- in what the tables ask for, when none of its eight bytes is within reach of anything behind it.
  pub process_relocations-relative :
      (xs ys : List Step) (r : ElfRela) (before after : Relocating)
      → HasDynamic s.android_tags contents image ds
      → IsWhole contents (tables_in s.android_tags image ds)
      → IsPacked contents (tables_in s.android_tags image ds) rounds packed
      → asked contents (tables_in s.android_tags image ds) packed ≡ xs ++ (entry true r ∷ ys)
      → r.r_info % 2 ^ 32 ≡ 1027
      → All
          (IsApartFrom
            (sub64 image.base image.bias)
            (u64 (sub64 image.base image.bias + r.r_offset)))
          ys
      → process_relocations s contents image rounds before ≡ done after
      → read_word (u64 (sub64 image.base image.bias + r.r_offset)) after.memory
        ≡ u64 (sub64 image.base image.bias + r.r_addend)
  unfolding serve_all serve process_relocation
  process_relocations-relative xs ys r before after h whole stream list kind apart e =
      let load_bias = sub64 image.base image.bias in
      let t = tables_in s.android_tags image ds in
      let all = λ (zs : List Step). serve_all s contents load_bias t zs before in
      let run = ap all (sym list) ∙ served before after h whole stream e in
      let (mid, first, rest) =
        >>=-eq-some (serve_all s contents load_bias t xs before) _
          (sym (serve_all-append s contents load_bias t xs (entry true r ∷ ys) before) ∙ run) in
      let (next, here, last) =
        >>=-eq-some (process_relocation s (requested contents load_bias t true r) mid) _ rest in
      let target = u64 (load_bias + r.r_offset) in
      let type : r.r_info - 2 ^ 32 * (r.r_info / 2 ^ 32) ≡ 1027 = omega (arith, kind) in
      let value =
        read_word-write_word target (u64 (load_bias + r.r_addend)) mid.memory (omega arith) in
      let written : read_word target next.memory ≡ u64 (load_bias + r.r_addend) =
        ground (arith, here, type, value) in
      serve_all_word s contents load_bias t target ys next after (omega arith) apart last ∙ written

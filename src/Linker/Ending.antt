-- ===== src/Linker/Ending.antt =====
-- How a linker ends: the order of destroy's effects, and what a linker that is used again keeps.
use mathlib.Core.Path.{subst}
use mathlib.Core.List.{append-nil}
use mathlib.Core.Option.{some-injective}
use so_load.Linker.Life.{drop_linker}
use so_load.Base.{
  ℕ, ◌≡◌, refl, ap, sym, ◌∙◌, ◌&&◌, List, [], ◌∷◌, ◌++◌, map, reverse, some, ltb, ◌==◌, All, arith,
  Option-cases, Bool-cases, inl, inr,
}
use so_load.Image.{ElfImage}
use so_load.Backtrace.{Runtime}
use so_load.Linker.{Linker, LoadedDep, SymbolCacheEntry}
use so_load.Linker.Symbols.{Resolution, cache_find, cached, find_symbol_cached}
use so_load.Linker.Life.{
  Event, called, unmapped, deleted, World, read_array, is_sentinel, call_each, call_one,
  call_destructors, destructors, unmap_deps, unmap_main, releases, emptied, init, torn_down,
  destroy, leave_all, unregister_segments,
}

abbrev pub IsCall : Event → Type 0
IsCall e = (f : ℕ) × (e ≡ called f)

abbrev pub IsRelease : Event → Type 0
IsRelease (called f) = ⊥
IsRelease (unmapped base size) = Unit
IsRelease (deleted index) = Unit

All-append : (P : Event → Type 0) (xs ys : List Event) → All P xs → All P ys → All P (xs ++ ys)
All-append P [] ys p q = q
All-append P (x ∷ xs) ys p q = (p.0, All-append P xs ys p.1 q)

call_each-IsCall : (fns : List ℕ) → All IsCall (call_each fns)
unfolding call_each
call_each-IsCall [] = tt
call_each-IsCall (f ∷ fns) = elim (Bool-cases (is_sentinel f)) [
  | inl skipped ↦ rw (skipped, call_each) (call_each-IsCall fns)
  | inr runs ↦ rw (runs, call_each) ((f, refl), call_each-IsCall fns)
]

call_one-IsCall : (f : ℕ) → All IsCall (call_one f)
unfolding call_one
call_one-IsCall f = elim (Bool-cases (f == 0)) [
  | inl null ↦ rw (null, call_one) tt
  | inr runs ↦ rw (runs, call_one) ((f, refl), tt)
]

call_destructors-IsCall :
    (image : ElfImage) (es : List Event) → call_destructors image ≡ some es → All IsCall es
unfolding call_destructors
call_destructors-IsCall image es e = elim (Option-cases image.fini_array) [
  | inl no_array ↦
      let e' = simp (no_array, call_destructors) at e in
      subst (All IsCall) (ground (arith, e')) (call_one-IsCall image.fini_func)
  | inr (fns, array) ↦ elim (Option-cases (read_array image.fini_array_count fns)) [
    | inl cut ↦ absurd (let e' = simp (array, cut, call_destructors) at e in ground (arith, e'))
    | inr (those, readable) ↦
        let e' = simp (array, readable, call_destructors) at e in
        subst (All IsCall) (ground (arith, e')) (
          All-append IsCall (call_each (reverse those)) (call_one image.fini_func)
            (call_each-IsCall (reverse those)) (call_one-IsCall image.fini_func))
  ]
]

destructors-IsCall :
    (images : List ElfImage) (es : List Event) → destructors images ≡ some es → All IsCall es
unfolding destructors
destructors-IsCall [] es e = subst (All IsCall) (let same : [] ≡ es = ground (arith, e) in same) tt
destructors-IsCall (image ∷ images) es e = elim (Option-cases (call_destructors image)) [
  | inl cut ↦ absurd (let e' = rw (cut, destructors) at e in ground (arith, e'))
  | inr (here, first) ↦ elim (Option-cases (destructors images)) [
    | inl cut ↦ absurd (let e' = rw (first, cut, destructors) at e in ground (arith, e'))
    | inr (rest, later) ↦
        let e' = rw (first, later, destructors) at e in
        let same : here ++ rest ≡ es = ground (arith, e') in
        subst (All IsCall) same (
          All-append IsCall here rest (call_destructors-IsCall image here first)
            (destructors-IsCall images rest later))
  ]
]

deleted-IsRelease : (indices : List ℕ) → All IsRelease (map deleted indices)
deleted-IsRelease [] = tt
deleted-IsRelease (i ∷ indices) = (tt, deleted-IsRelease indices)

unmap_deps-IsRelease : (deps : List LoadedDep) → All IsRelease (unmap_deps deps)
unfolding unmap_deps
unmap_deps-IsRelease [] = tt
unmap_deps-IsRelease (dep ∷ deps) = elim (Bool-cases (dep.is_manual_load && ltb 0 dep.map_size)) [
  | inl mapped ↦ rw (mapped, unmap_deps) (tt, unmap_deps-IsRelease deps)
  | inr other ↦ rw (other, unmap_deps) (unmap_deps-IsRelease deps)
]

unmap_main-IsRelease : (l : Linker) → All IsRelease (unmap_main l)
unfolding unmap_main
unmap_main-IsRelease l = elim (Option-cases l.main_image) [
  | inl nobody ↦ simp (nobody, unmap_main) tt
  | inr (image, there) ↦ elim (Bool-cases (ltb 0 l.main_map_size)) [
    | inl mapped ↦ simp (there, mapped, unmap_main) (tt, tt)
    | inr other ↦ simp (there, other, unmap_main) tt
  ]
]

releases-IsRelease : (l : Linker) → All IsRelease (releases l)
unfolding releases
releases-IsRelease l =
    All-append IsRelease (map deleted l.tls_indices) (unmap_deps l.deps ++ unmap_main l)
      (deleted-IsRelease l.tls_indices)
      (All-append IsRelease (unmap_deps l.deps) (unmap_main l) (unmap_deps-IsRelease l.deps)
        (unmap_main-IsRelease l))

destroyed :
    (r : Runtime) (l : Linker) (w : World) (l' : Linker) (w' : World)
    → destroy r l w ≡ some (l', w')
    → (calls : List Event) × (destructors (torn_down l) ≡ some calls)
      × (l' ≡ emptied l)
      × (w'.events ≡ w.events ++ (calls ++ releases l))
unfolding destroy
destroyed r l w l' w' e = elim (Option-cases (destructors (torn_down l))) [
  | inl cut ↦ absurd (let e' = rw (cut, destroy) at e in ground (arith, e'))
  | inr (calls, run) ↦
      let e' = rw (run, destroy) at e in
      let same = some-injective _ _ e' in
      (
        calls,
        run,
        ap (λ (p : Linker × World). p.0) (sym same),
        ap (λ (p : Linker × World). p.1.events) (sym same),
      )
]

-- Every destructor that destroy runs runs before destroy deletes or unmaps anything.
pub destroy_order :
    (r : Runtime) (l : Linker) (w : World) (l' : Linker) (w' : World)
    → destroy r l w ≡ some (l', w')
    → (calls : List Event) × (given : List Event) × (w'.events ≡ w.events ++ (calls ++ given))
      × All IsCall calls
      × All IsRelease given
destroy_order r l w l' w' e =
    let (calls, run, left, events) = destroyed r l w l' w' e in
    (calls, releases l, events, destructors-IsCall (torn_down l) calls run, releases-IsRelease l)

-- A name that the cache holds is answered from the cache after the linker was destroyed and given
-- another image, whatever that image defines.
pub stale_cache :
    (r : Runtime) (s : Resolution) (l : Linker) (w : World) (l' : Linker) (w' : World)
    (name : List ℕ) (entry : SymbolCacheEntry) (image : ElfImage)
    → cache_find l.symbol_cache name ≡ some entry
    → destroy r l w ≡ some (l', w')
    → find_symbol_cached s (init image l') name ≡ some (cached entry, init image l')
unfolding find_symbol_cached init emptied
stale_cache r s l w l' w' name entry image hit e =
    let (calls, run, left, events) = destroyed r l w l' w' e in
    let same : l'.symbol_cache ≡ l.symbol_cache = ap (λ (k : Linker). k.symbol_cache) left in
    let hit' = ap (λ c. cache_find c name) same ∙ hit in ground (arith, hit')

emptied_again :
    (r : Runtime) (l : Linker) (again : World)
    → destroy r (emptied l) again ≡ some (emptied l, again)
unfolding destroy emptied torn_down releases leave_all unregister_segments
emptied_again r l again =
    ap (λ (es : List Event). some (emptied l, record again { events = es }))
      (append-nil again.events)

-- The linker that destroy leaves is one on which destroy changes nothing.
pub destroy_twice :
    (r : Runtime) (l : Linker) (w : World) (l' : Linker) (w' again : World)
    → destroy r l w ≡ some (l', w')
    → destroy r l' again ≡ some (l', again)
destroy_twice r l w l' w' again e =
    let (calls, run, left, events) = destroyed r l w l' w' e in
    subst (λ (k : Linker). destroy r k again ≡ some (k, again)) (sym left) (emptied_again r l again)

-- ~Linker does nothing to the linker that destroy leaves.
drop_linker-destroy :
    (r : Runtime) (l l' : Linker) (w w' : World)
    → destroy r l w ≡ some (l', w')
    → drop_linker r l' w' ≡ some (l', w')
unfolding drop_linker destroy emptied
drop_linker-destroy r l l' w w' e = elim (Option-cases (destructors (torn_down l))) [
  | inl past ↦ let e' = rw (past, destroy) at e in cc
  | inr (calls, read) ↦
      let done = rw (read, destroy) at e in let left : l' ≡ emptied l = cc in rw left refl
]

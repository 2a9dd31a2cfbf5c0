-- ===== src/Tls/Register.antt =====
-- registerSegment and unregisterSegment, slot by slot.
use so_load.Base.{
  ℕ, ◌+◌, ◌≤◌, ◌<◌, ◌≡◌, ◌≢◌, refl, ap, sym, ◌∙◌, ◌⊎◌, inl, inr, true, false, List, none, some,
  length, get_elem?, set, get_elem?-set_self, get_elem?-set_ne, ◌==◌, arith, Option-cases, ==_iff,
}
use native.Mathlib.Nat.{zero-add}
use native.Mathlib.Decide.{ℕ_discrete}
use so_load.Base.Slots.{
  find_slot, AllFrom, find_slot-Found, find_slot-none, find_slot-set, AllFrom-find_slot,
  AllFrom-map, AllFrom-get, set-set, set-get,
}
use so_load.Image.{ElfImage, ElfPhdr}
use so_load.Tls.{
  TlsModule, no_module, TlsManager, is_free, owned_by, new_module, add_module, register_segment,
  unregister_segment,
}
use so_load.Tls.Invariant.{IsSound, Entry}

-- No slot is left: the call changes nothing and answers false.
abbrev pub Refused : TlsManager → ElfImage → Type 0
Refused t image =
    AllFrom (λ k m. 1 ≤ k → m.module_id ≢ 0) 0 t.modules
    × (register_segment t image ≡ (t, image, false))

-- Slot `k` was free, holds the segment's module now, and is the image's TLS module.
abbrev pub Placed : TlsManager → ElfImage → ElfPhdr → ℕ → Type 0
Placed t image seg k =
    let (t', image', answer) = register_segment t image in
    (answer ≡ true)
    × (1 ≤ k)
    × (k < length t.modules)
    × ((m : TlsModule) × (get_elem? t.modules k ≡ some m) × (m.module_id ≡ 0))
    × (get_elem? t'.modules k ≡ some (new_module t image seg k))
    × (image'.tls_mod_id ≡ k)
    × ((j : ℕ) → k ≢ j → get_elem? t'.modules j ≡ get_elem? t.modules j)

not_free : (m : TlsModule) → (m.module_id == 0) ≡ false → m.module_id ≢ 0
not_free m e h = ground arith

pub register_refused :
    (t : TlsManager) (image : ElfImage) (seg : ElfPhdr)
    → image.tls_segment ≡ some seg
    → find_slot is_free 1 0 t.modules ≡ none
    → register_segment t image ≡ (t, image, false)
unfolding register_segment
register_refused t image seg present full = ground arith

pub register_placed :
    (t : TlsManager) (image : ElfImage) (seg : ElfPhdr) (k : ℕ)
    → image.tls_segment ≡ some seg
    → find_slot is_free 1 0 t.modules ≡ some k
    → register_segment t image ≡ (add_module t image seg k, record image { tls_mod_id = k }, true)
unfolding register_segment
register_placed t image seg k present found = ground arith

not_owner : (self : ℕ) (m : TlsModule) → m.owner ≢ some self → owned_by self m ≡ false
not_owner self m h = elim (Option-cases m.owner) [
  | inl nobody ↦ rw (nobody)
  | inr (o, held) ↦ elim (ℕ_discrete o self) [
    | yes same ↦ absurd (h (held ∙ ap some same))
    | no other ↦ rw (held) (ground arith)
  ]
]

foreign-find_slot :
    (self : ℕ) (ms : List TlsModule)
    → AllFrom (λ k m. m.owner ≢ some self) 0 ms
    → find_slot (owned_by self) 1 0 ms ≡ none
foreign-find_slot self ms foreign =
    AllFrom-find_slot (owned_by self) 1 0 ms
      (AllFrom-map (λ k m h late. not_owner self m h) 0 ms foreign)

-- A free slot of a sound table is the empty module.
free_slot : (size i : ℕ) (m : TlsModule) → Entry size i m → is_free m ≡ true → m ≡ no_module
free_slot size i m (inl e) h = e
free_slot size i m (inr (p, q, o, r)) h = absurd (omega (arith, (==_iff m.module_id 0).0 h))

unregister_absent :
    (t : TlsManager) (self : ℕ)
    → find_slot (owned_by self) 1 0 t.modules ≡ none
    → unregister_segment t self ≡ t
unfolding unregister_segment
unregister_absent t self e = ground arith

unregister_found :
    (t : TlsManager) (self k : ℕ)
    → find_slot (owned_by self) 1 0 t.modules ≡ some k
    → (unregister_segment t self).modules ≡ set t.modules k no_module
unfolding unregister_segment
unregister_found t self k e = ground arith

module _ (t : TlsManager) (image : ElfImage) (seg : ElfPhdr)
    (present : image.tls_segment ≡ some seg) where
  -- What registerSegment does for an image with a TLS segment: it refuses exactly when every
  -- slot but slot 0 is taken, and else it fills one free slot and no other.
  pub register_segment_outcome : Refused t image ⊎ ((k : ℕ) × Placed t image seg k)
  unfolding add_module
  register_segment_outcome = elim (Option-cases (find_slot is_free 1 0 t.modules)) [
    | inl full ↦ inl (
      AllFrom-map (λ i m h late. not_free m (h late)) 0 t.modules
          (find_slot-none is_free 1 0 t.modules full),
      register_refused t image seg present full,
    )
    | inr (k, found) ↦
        let place = find_slot-Found is_free 1 0 t.modules found in
        let same : place.place ≡ k = omega (arith, place.index) in
        inr (
          k,
          rw (register_placed t image seg k present found) (
            refl,
            place.late,
            omega (arith, place.inside, same),
            (
              place.item,
              ap (get_elem? t.modules) (sym same) ∙ place.holds,
              ground (arith, place.passes),
            ),
            get_elem?-set_self t.modules k (new_module t image seg k)
                (omega (arith, place.inside, same)),
            refl,
            λ j ne. get_elem?-set_ne t.modules k j (new_module t image seg k) ne,
          ),
        )
  ]

  owns : (k : ℕ) → owned_by image.self (new_module t image seg k) ≡ true
  unfolding new_module
  owns k = ground arith

  -- Unregistering an image straight after registering it restores the modules, if the table was
  -- sound and held no module of that image.
  pub unregister-register :
      IsSound t
      → AllFrom (λ k m. m.owner ≢ some image.self) 0 t.modules
      → (unregister_segment (register_segment t image).0 image.self).modules ≡ t.modules
  unfolding add_module
  unregister-register s foreign = elim (Option-cases (find_slot is_free 1 0 t.modules)) [
    | inl full ↦ rw (register_refused t image seg present full) (
        ap (λ (u : TlsManager). u.modules)
          (unregister_absent t image.self (foreign-find_slot image.self t.modules foreign)))
    | inr (k, found) ↦
        let place = find_slot-Found is_free 1 0 t.modules found in
        let same : place.place ≡ k = omega (arith, place.index) in
        let m = new_module t image seg k in
        let empty : get_elem? t.modules k ≡ some no_module =
          ap (get_elem? t.modules) (sym same)
          ∙ place.holds
          ∙ ap some (
              free_slot t.static_size (0 + place.place) place.item
                (AllFrom-get (Entry t.static_size) 0 place.place t.modules s.entries place.holds)
                place.passes) in
        let again : find_slot (owned_by image.self) 1 0 (set t.modules k m) ≡ some k =
          find_slot-set (owned_by image.self) 1 0 k t.modules m
            (foreign-find_slot image.self t.modules foreign) (owns k) (omega (arith, place.late))
            (omega (arith, place.inside, same))
          ∙ ap some (zero-add k) in
        rw (register_placed t image seg k present found) (
          unregister_found (add_module t image seg k) image.self k again
          ∙ set-set t.modules k m no_module
          ∙ set-get t.modules k no_module empty)
  ]

-- ===== src/Tls/Invariant.antt =====
-- The table of TLS modules: which slots are taken, and that their ranges are apart.
use native.Mathlib.Decide.{ℕ_discrete}
use so_load.Base.{
  ℕ, zero, suc, ◌+◌, ◌-◌, ◌*◌, ◌/◌, ◌^◌, ◌≤◌, ◌<◌, ◌≡◌, ◌≢◌, refl, ap, sym, ◌∙◌, ◌⊎◌, inl, inr,
  List, some, length, get_elem?, set, length-set, get_elem?-set_self, get_elem?-set_ne, ◌==◌,
  if◌then◌else◌, arith, Option-cases, replicate, length-replicate,
}
use so_load.Base.Bits.{bit_and_round, round_up_bounds, one_le_pow}
use so_load.Base.Slots.{find_slot, AllFrom, find_slot-Found, AllFrom-set, AllFrom-get, AllFrom-map}
use so_load.Image.{ElfImage, ElfPhdr}
use so_load.Tls.{
  TlsModule, no_module, TlsManager, new_manager, max_tls_modules, align_up, is_free, owned_by,
  new_module, add_module, register_segment, unregister_segment,
}

-- A slot is empty, or its module carries the slot's number and lies within the static size.
abbrev pub Entry : ℕ → ℕ → TlsModule → Type 0
Entry size i m =
    (m ≡ no_module)
    ⊎ ((0 < i) × (m.module_id ≡ i) × ((o : ℕ) × (m.owner ≡ some o)) × (m.offset + m.memsz ≤ size))

-- The ranges [offset, offset + memsz) of two taken slots do not meet.
abbrev pub Apart : List TlsModule → Type 0
Apart ms =
    (i j : ℕ) (m n : TlsModule)
    → i ≢ j
    → get_elem? ms i ≡ some m
    → get_elem? ms j ≡ some n
    → m.module_id ≢ 0
    → n.module_id ≢ 0
    → (m.offset + m.memsz ≤ n.offset) ⊎ (n.offset + n.memsz ≤ m.offset)

pub record IsSound (t : TlsManager) : Type 0 where
  pub count : length t.modules ≡ max_tls_modules
  pub entries : AllFrom (Entry t.static_size) 0 t.modules
  pub apart : Apart t.modules

-- The segment's alignment is a power of two (0 counts as 1) and the sizes do not wrap.
abbrev pub seg_align : ElfPhdr → ℕ
seg_align seg = if seg.p_align == 0 then 1 else seg.p_align

pub record Fits (t : TlsManager) (seg : ElfPhdr) : Type 0 where
  pub exponent : ℕ
  pub narrow : exponent < 64
  pub power : seg_align seg ≡ 2 ^ exponent
  pub room : t.static_size + seg_align seg + seg.p_memsz ≤ 2 ^ 64

-- Where a segment that fits is put.
pub align_up_bounds :
    (size k : ℕ)
    → k < 64
    → size + 2 ^ k ≤ 2 ^ 64
    → (align_up size (2 ^ k) ≡ (size + (2 ^ k - 1)) / 2 ^ k * 2 ^ k)
      × (size ≤ align_up size (2 ^ k))
      × (align_up size (2 ^ k) < size + 2 ^ k)
unfolding align_up
align_up_bounds size k h room =
    ground (arith, bit_and_round k (size + (2 ^ k - 1)), round_up_bounds k size, one_le_pow k)

module _ (t : TlsManager) (image : ElfImage) (seg : ElfPhdr) (f : Fits t seg) where
  -- The new module lies above all that was handed out before.
  pub new_module_bounds :
      (k : ℕ)
      → (t.static_size ≤ (new_module t image seg k).offset)
        × ((new_module t image seg k).offset + seg.p_memsz < 2 ^ 64)
  unfolding new_module
  new_module_bounds k = ground (
    arith,
    f.power,
    align_up_bounds t.static_size f.exponent f.narrow (omega (arith, f.power, f.room)),
    f.room,
  )

Entry-grow : (size size' i : ℕ) (m : TlsModule) → size ≤ size' → Entry size i m → Entry size' i m
Entry-grow size size' i m h (inl e) = inl e
Entry-grow size size' i m h (inr (p, q, o, r)) = inr (p, q, o, omega arith)

-- A taken slot ends within the static size.
pub taken_end :
    (t : TlsManager) (i : ℕ) (m : TlsModule)
    → IsSound t
    → get_elem? t.modules i ≡ some m
    → m.module_id ≢ 0
    → m.offset + m.memsz ≤ t.static_size
taken_end t i m s e h = elim (AllFrom-get (Entry t.static_size) 0 i t.modules s.entries e) [
  | inl empty ↦ absurd (h (ap (λ (x : TlsModule). x.module_id) empty))
  | inr (p, q, o, r) ↦ r
]

-- Writing one slot keeps the ranges apart if the new one is apart from all the others.
Apart-set :
    (ms : List TlsModule) (k : ℕ) (v : TlsModule)
    → k < length ms
    → Apart ms
    → ((j : ℕ) (n : TlsModule)
        → k ≢ j
        → get_elem? ms j ≡ some n
        → n.module_id ≢ 0
        → v.module_id ≢ 0
        → (v.offset + v.memsz ≤ n.offset) ⊎ (n.offset + n.memsz ≤ v.offset))
    → Apart (set ms k v)
Apart-set ms k v h apart new i j m n ne ei ej hm hn = elim (ℕ_discrete k i) [
  | yes ki ↦ elim (ℕ_discrete k j) [
    | yes kj ↦ absurd (ne (sym ki ∙ kj))
    | no kj ↦
        let vm : v ≡ m = cc (get_elem?-set_self ms k v h) in
        ground (
          arith,
          vm,
          new j n kj (sym (get_elem?-set_ne ms k j v kj) ∙ ej) hn
              (λ z. hm (ap (λ (x : TlsModule). x.module_id) (sym vm) ∙ z)),
        )
  ]
  | no ki ↦ elim (ℕ_discrete k j) [
    | yes kj ↦
        let vn : v ≡ n = cc (get_elem?-set_self ms k v h) in
        ground (
          arith,
          vn,
          new i m ki (sym (get_elem?-set_ne ms k i v ki) ∙ ei) hm
              (λ z. hn (ap (λ (x : TlsModule). x.module_id) (sym vn) ∙ z)),
        )
    | no kj ↦
        apart i j m n ne (sym (get_elem?-set_ne ms k i v ki) ∙ ei)
          (sym (get_elem?-set_ne ms k j v kj) ∙ ej) hm hn
  ]
]

module _ (t : TlsManager) (image : ElfImage) (seg : ElfPhdr) (f : Fits t seg) where
  add_module-IsSound :
      (k : ℕ) → 0 < k → k < max_tls_modules → IsSound t → IsSound (add_module t image seg k)
  unfolding add_module new_module
  add_module-IsSound k lo hi s =
      let m = new_module t image seg k in
      let (above, below) = new_module_bounds t image seg f k in
      record {
        count = length-set t.modules k m ∙ s.count;
        entries =
            AllFrom-set (Entry _) 0 k k t.modules m (omega arith)
              (inr (lo, refl, (image.self, refl), omega arith))
              (AllFrom-map (λ i x. Entry-grow t.static_size _ i x (omega arith)) 0 t.modules
                s.entries);
        apart =
            Apart-set t.modules k m (omega (arith, s.count)) s.apart
              (λ j n ne e h _. inr (omega (arith, taken_end t j n s e h)));
      }

-- Registering a segment that fits keeps the table sound, whether or not a slot is left.
pub register_segment-IsSound :
    (t : TlsManager) (image : ElfImage)
    → ((seg : ElfPhdr) → image.tls_segment ≡ some seg → Fits t seg)
    → IsSound t
    → IsSound (register_segment t image).0
unfolding register_segment
register_segment-IsSound t image fits s = elim (Option-cases image.tls_segment) [
  | inl absent ↦ rw (absent, register_segment) s
  | inr (seg, present) ↦ elim (Option-cases (find_slot is_free 1 0 t.modules)) [
    | inl full ↦ rw (present, full, register_segment) s
    | inr (k, found) ↦
        let place = find_slot-Found is_free 1 0 t.modules found in
        rw (present, found, register_segment)
          (add_module-IsSound t image seg (fits seg present) k (omega (arith, place.late))
            (omega (arith, place.inside, place.index, s.count)) s)
  ]
]

-- Dropping an image's module keeps the table sound.
pub unregister_segment-IsSound :
    (t : TlsManager) (self : ℕ) → IsSound t → IsSound (unregister_segment t self)
unfolding unregister_segment
unregister_segment-IsSound t self s =
    elim (Option-cases (find_slot (owned_by self) 1 0 t.modules)) [
      | inl absent ↦ rw (absent, unregister_segment) s
      | inr (k, found) ↦
          let place = find_slot-Found (owned_by self) 1 0 t.modules found in
          rw (found, unregister_segment)
            (record {
              count = length-set t.modules k no_module ∙ s.count;
              entries =
                  AllFrom-set (Entry _) 0 k k t.modules no_module (omega arith) (inl refl)
                    s.entries;
              apart =
                  Apart-set t.modules k no_module
                    (omega (arith, place.inside, place.index, s.count)) s.apart
                    (λ j n ne e h z. absurd (z refl));
            })
    ]

replicate-Entry : (size i n : ℕ) → AllFrom (Entry size) i (replicate n no_module)
replicate-Entry size i zero = tt
replicate-Entry size i (suc n) = (inl refl, replicate-Entry size (suc i) n)

replicate-get :
    (n i : ℕ) {m : TlsModule} → get_elem? (replicate n no_module) i ≡ some m → m ≡ no_module
replicate-get zero i e = absurd (cc)
replicate-get (suc n) zero e = cc
replicate-get (suc n) (suc i) e = replicate-get n i e

-- The manager starts with a sound table.
pub new_manager-IsSound : IsSound new_manager
unfolding new_manager
new_manager-IsSound = record {
  count = length-replicate max_tls_modules no_module;
  entries = replicate-Entry 0 0 max_tls_modules;
  apart = λ i j m n ne ei ej hm hn.
      absurd (hm (ap (λ (x : TlsModule). x.module_id) (replicate-get max_tls_modules i ei)));
}

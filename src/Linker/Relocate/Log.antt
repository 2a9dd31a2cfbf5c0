-- ===== src/Linker/Relocate/Log.antt =====
-- A run of processRelocations and the list of what it did: the same tables, gone over with steps
-- that only write down what they are given.
use mathlib.Core.List.{append-nil, append_assoc}
use mathlib.Core.Path.{subst}
use so_load.Base.{
  All, ℕ, ◌≡◌, refl, sym, ◌∙◌, ap, Bool, true, false, if◌then◌else◌, List, [], ◌∷◌, ◌++◌, Option,
  some, ◌>>=◌, >>=-some, >>=_assoc, >>=_cong, >>=-eq-some,
}
use so_load.Linker.Tables.{ElfRela}

-- A relocation with its `is_rela`, or the entries of the RELR table.
pub data Step : Type 0 where
  entry : Bool → ElfRela → Step
  words : List ℕ → Step

abbrev pub note_entry : Bool → ℕ → ℕ → ℕ → List Step → Option (List Step)
note_entry is_rela offset info addend log =
    some
      (log ++ (entry is_rela (record { r_offset = offset; r_info = info; r_addend = addend }) ∷ []))

abbrev pub note_words : List ℕ → List Step → List Step
note_words entries log = log ++ (words entries ∷ [])

module _ {ℓ} {S : Type ℓ} (apply : Bool → ℕ → ℕ → ℕ → S → Option S) (relr : List ℕ → S → S) where
  abbrev pub step : Step → S → Option S
  step (entry is_rela r) st = apply is_rela r.r_offset r.r_info r.r_addend st
  step (words entries) st = some (relr entries st)

  unfoldable pub replay : List Step → S → Option S
  replay [] st = some st
  replay (x ∷ xs) st = step x st >>= (λ st'. replay xs st')

  pub replay-append :
      (xs ys : List Step) (st : S)
      → replay (xs ++ ys) st ≡ (replay xs st >>= (λ st'. replay ys st'))
  unfolding replay
  replay-append [] ys st = refl
  replay-append (x ∷ xs) ys st =
      >>=_cong (step x st) _ _ (replay-append xs ys) ∙ sym (>>=_assoc (step x st) _ _)

  -- The steps that `note` writes down, behind what stands there, lead from `st` to `st'`; `out` is
  -- the form in which `note` answers.
  pub record IsLogged {κ} {Z : Type κ} (out : List Step → Z) (st st' : S) (note : List Step → Z)
      : Type (ℓ ⊔ κ) where
    pub log : List Step
    pub noted : (acc : List Step) → note acc ≡ out (acc ++ log)
    pub run : replay log st ≡ some st'

  pub start-IsLogged {κ} :
      {Z : Type κ} (out : List Step → Z) {st st' : S} → st ≡ st' → IsLogged out st st' out
  unfolding replay
  start-IsLogged out e = record {
    log = [];
    noted = λ acc. ap out (sym (append-nil acc));
    run = ap some e;
  }

  -- One run behind the other.
  pub seq-IsLogged {κ μ} :
      {W : Type κ} {Z : Type μ} (h : W → Z) {mid : List Step → W} {out : List Step → Z}
      {f : List Step → W} {a b c : S}
      → IsLogged mid a b f
      → IsLogged out b c (λ acc. h (mid acc))
      → IsLogged out a c (λ acc. h (f acc))
  seq-IsLogged h {out = out} {a = a} first second = record {
    log = first.log ++ second.log;
    noted = λ acc.
        ap h (first.noted acc)
        ∙ second.noted (acc ++ first.log)
        ∙ ap out (append_assoc acc first.log second.log);
    run =
        replay-append first.log second.log a
        ∙ >>=-some (λ st. replay second.log st) first.run
        ∙ second.run;
  }

  -- A value that does not depend on the state.
  pub given-IsLogged {κ μ} :
      {A : Type κ} {Z : Type μ} (h : A → List Step → Z) {out : List Step → Z} {m a : A} {st st' : S}
      → m ≡ a
      → IsLogged out st st' (h a)
      → IsLogged out st st' (h m)
  given-IsLogged h e l = record {
    log = l.log;
    noted = λ acc. ap (λ x. h x acc) e ∙ l.noted acc;
    run = l.run;
  }

  pub if-IsLogged {κ μ} :
      {Y : Type κ} {Z : Type μ} (out : List Step → Z) (test : Bool) {p q answer : Y}
      {f g : List Step → Z} {st st' : S}
      → (if test then p else q) ≡ answer
      → (p ≡ answer → IsLogged out st st' f)
      → (q ≡ answer → IsLogged out st st' g)
      → IsLogged out st st' (λ acc. if test then f acc else g acc)
  if-IsLogged out true e this that = this e
  if-IsLogged out false e this that = that e

  pub entry-IsLogged :
      (is_rela : Bool) (offset info addend : ℕ) (st st' : S)
      → apply is_rela offset info addend st ≡ some st'
      → IsLogged some st st' (note_entry is_rela offset info addend)
  unfolding replay
  entry-IsLogged is_rela offset info addend st st' e = record {
    log = entry is_rela (record { r_offset = offset; r_info = info; r_addend = addend }) ∷ [];
    noted = λ acc. refl;
    run = >>=-some (λ st. replay [] st) e;
  }

  pub words-IsLogged :
      (entries : List ℕ) (st : S)
      → IsLogged some st (relr entries st) (λ acc. some (note_words entries acc))
  unfolding replay
  words-IsLogged entries st = record { log = words entries ∷ []; noted = λ acc. refl; run = refl }

  -- What each step keeps, the replay keeps; `Q` holds of the steps.
  pub replay_keeps {κ μ} :
      (P : S → Type κ) (Q : Step → Type μ)
      → ((x : Step) (a b : S) → Q x → P a → step x a ≡ some b → P b)
      → (xs : List Step) (st st' : S) → All Q xs
      → P st
      → replay xs st ≡ some st'
      → P st'
  unfolding replay
  replay_keeps P Q keeps [] st st' all p e = let same : st ≡ st' = cc in subst P same p
  replay_keeps P Q keeps (x ∷ xs) st st' all p e =
      let (mid, first, rest) = >>=-eq-some (step x st) _ e in
      replay_keeps P Q keeps xs mid st' all.1 (keeps x st mid all.0 p first) rest

  pub replay_always_keeps {κ} :
      (P : S → Type κ)
      → ((x : Step) (a b : S) → P a → step x a ≡ some b → P b)
      → (xs : List Step) (st st' : S) → P st
      → replay xs st ≡ some st'
      → P st'
  replay_always_keeps P keeps xs st st' p e =
      replay_keeps P (λ x. Unit {0}) (λ x a b q. keeps x a b) xs st st' (every xs) p e
    where
      every : (ys : List Step) → All (λ x. Unit {0}) ys
      every [] = tt
      every (y ∷ ys) = (tt, every ys)

-- ===== src/Backtrace/Registry.antt =====
-- The slots of libs_: each operation as one write, and a library's way through the table.
use so_load.Base.{
  ℕ, ◌*◌, ◌<◌, ◌≡◌, ◌≢◌, refl, ap, ◌∙◌, ◌⊎◌, true, false, List, [], ◌∷◌, ◌++◌, none, some, set,
  length, get_elem?, get_elem?-set_self, arith,
}
use so_load.Base.Slots.{find_slot, find_slot-set, AllFrom, AllFrom-find_slot, AllFrom-map}
use so_load.Image.{ElfImage}
use so_load.Backtrace.{
  BacktraceManager, Runtime, LibInfo, no_lib, is_unused, is_lib_of, has_frame_of, new_lib, lib_at,
  register_frame, deregister_frame, deregister, register_library, unregister_library,
  register_eh_frame, unregister_eh_frame, eh_frame_of,
}

-- A slot that is not in use is empty.
abbrev pub IsClean : BacktraceManager → Type 0
IsClean t = AllFrom (λ i lib. (lib.in_use ≡ true) ⊎ (lib ≡ no_lib)) 0 t.libs

-- No slot in use is the image's.
abbrev pub IsStranger : BacktraceManager → ℕ → Type 0
IsStranger t self = AllFrom (λ i lib. is_lib_of self lib ≡ false) 0 t.libs

pub lib_at-set :
    (libs : List LibInfo) (k : ℕ) (v : LibInfo) → k < length libs → lib_at (set libs k v) k ≡ v
lib_at-set libs k v inside = rw (get_elem?-set_self libs k v inside, lib_at) refl

pub lib_at_held :
    (libs : List LibInfo) (k : ℕ) (lib : LibInfo)
    → get_elem? libs k ≡ some lib
    → lib_at libs k ≡ lib
lib_at_held libs k lib e = rw (e, lib_at) refl

pub register_library_placed :
    (r : Runtime) (t : BacktraceManager) (image : ElfImage) (k : ℕ)
    → find_slot is_unused 0 0 t.libs ≡ some k
    → r.malloc (image.header.e_phnum * 56) ≡ true
    → register_library r t image
      ≡ (record t { libs = set t.libs k (new_lib r image (lib_at t.libs k)) }, true)
unfolding register_library
register_library_placed r t image k e memory = ground (arith, e, memory)

pub register_library_refused :
    (r : Runtime) (t : BacktraceManager) (image : ElfImage)
    → find_slot is_unused 0 0 t.libs ≡ none
    → register_library r t image ≡ (t, false)
unfolding register_library
register_library_refused r t image e = ground (arith, e)

pub unregister_library_found :
    (r : Runtime) (t : BacktraceManager) (self k : ℕ)
    → find_slot (is_lib_of self) 0 0 t.libs ≡ some k
    → unregister_library r t self ≡ (
      record {
        libs = set t.libs k no_lib;
        frame_calls = deregister r (lib_at t.libs k).eh_frame_registered t.frame_calls;
      },
      true,
    )
unfolding unregister_library
unregister_library_found r t self k e = ground (arith, e)

pub unregister_library_absent :
    (r : Runtime) (t : BacktraceManager) (self : ℕ)
    → find_slot (is_lib_of self) 0 0 t.libs ≡ none
    → unregister_library r t self ≡ (t, false)
unfolding unregister_library
unregister_library_absent r t self e = ground (arith, e)

module _ (r : Runtime) (t : BacktraceManager) (image : ElfImage) (f : ℕ)
    (there : r.has_register_frame ≡ true) (frame : eh_frame_of image ≡ some f) (real : f ≢ 0) where
  pub register_eh_frame_found :
      (k : ℕ)
      → find_slot (is_lib_of image.self) 0 0 t.libs ≡ some k
      → register_eh_frame r t image
        ≡ some (record {
          libs = set t.libs k (record (lib_at t.libs k) { eh_frame_registered = f });
          frame_calls = t.frame_calls ++ (register_frame f ∷ []);
        })
  unfolding register_eh_frame
  register_eh_frame_found k e = ground (arith, there, frame, real, e)

  pub register_eh_frame_absent :
      find_slot (is_lib_of image.self) 0 0 t.libs ≡ none
      → register_eh_frame r t image
        ≡ some (record t { frame_calls = t.frame_calls ++ (register_frame f ∷ []) })
  unfolding register_eh_frame
  register_eh_frame_absent e = ground (arith, there, frame, real, e)

pub unregister_eh_frame_found :
    (r : Runtime) (t : BacktraceManager) (self k : ℕ)
    → r.has_deregister_frame ≡ true
    → find_slot (has_frame_of self) 0 0 t.libs ≡ some k
    → unregister_eh_frame r t self ≡ record {
      libs = set t.libs k (record (lib_at t.libs k) { eh_frame_registered = 0 });
      frame_calls = t.frame_calls ++ (deregister_frame (lib_at t.libs k).eh_frame_registered ∷ []);
    }
unfolding unregister_eh_frame
unregister_eh_frame_found r t self k there e = ground (arith, there, e)

pub unregister_eh_frame_absent :
    (r : Runtime) (t : BacktraceManager) (self : ℕ)
    → find_slot (has_frame_of self) 0 0 t.libs ≡ none
    → unregister_eh_frame r t self ≡ t
unfolding unregister_eh_frame
unregister_eh_frame_absent r t self e = ground (arith, e)

-- The searches of a table that has no slot of the image.
module _ (t : BacktraceManager) (self : ℕ) (stranger : IsStranger t self) where
  pub stranger-no_lib : find_slot (is_lib_of self) 0 0 t.libs ≡ none
  stranger-no_lib =
      AllFrom-find_slot (is_lib_of self) 0 0 t.libs
        (AllFrom-map (λ i lib h late. h) 0 t.libs stranger)

  pub stranger-no_frame : find_slot (has_frame_of self) 0 0 t.libs ≡ none
  stranger-no_frame =
      AllFrom-find_slot (has_frame_of self) 0 0 t.libs
        (AllFrom-map (λ i lib h late. rw (h) refl) 0 t.libs stranger)

  pub written-lib :
      (k : ℕ) (v : LibInfo)
      → k < length t.libs
      → is_lib_of self v ≡ true
      → find_slot (is_lib_of self) 0 0 (set t.libs k v) ≡ some k
  written-lib k v inside mine =
      find_slot-set (is_lib_of self) 0 0 k t.libs v stranger-no_lib mine (omega arith) inside
      ∙ ap some (omega arith)

  pub written-frame :
      (k : ℕ) (v : LibInfo)
      → k < length t.libs
      → has_frame_of self v ≡ true
      → find_slot (has_frame_of self) 0 0 (set t.libs k v) ≡ some k
  written-frame k v inside mine =
      find_slot-set (has_frame_of self) 0 0 k t.libs v stranger-no_frame mine (omega arith) inside
      ∙ ap some (omega arith)

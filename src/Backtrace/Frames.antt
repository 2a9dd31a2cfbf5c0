-- ===== src/Backtrace/Frames.antt =====
-- The frame sections given to GCC's runtime over a library's life: link registers the library and
-- its frames, and destroy and abandon take back the frames and then the library.
use so_load.Base.{
  ℕ, ◌*◌, ◌<◌, ◌≡◌, ◌≢◌, ap, sym, ◌∙◌, ◌⊎◌, inl, inr, Bool, true, List, [], ◌∷◌, ◌++◌, Option, none,
  some, set, length, get_elem?, arith,
}
use so_load.Base.Slots.{find_slot, find_slot-Found, AllFrom-get, set-set, set-get}
use so_load.Image.{ElfImage}
use so_load.Backtrace.{
  BacktraceManager, Runtime, LibInfo, no_lib, is_unused, is_lib_of, has_frame_of, new_lib, lib_at,
  FrameCall, register_frame, deregister_frame, deregister, register_library, unregister_library,
  register_eh_frame, unregister_eh_frame, eh_frame_of,
}
use so_load.Backtrace.Registry.{
  IsClean, IsStranger, lib_at-set, register_library_placed, register_library_refused,
  unregister_library_found, unregister_library_absent, register_eh_frame_found,
  register_eh_frame_absent, unregister_eh_frame_found, unregister_eh_frame_absent, stranger-no_lib,
  stranger-no_frame, written-lib, written-frame,
}

-- registerLibrary, then registerEhFrame, whose result the caller does not see.
unfoldable pub enter : Runtime → BacktraceManager → ElfImage → Option BacktraceManager
unfolding register_library register_eh_frame
enter r t image = register_eh_frame r (register_library r t image).0 image

-- unregisterEhFrame, then unregisterLibrary.
unfoldable pub leave : Runtime → BacktraceManager → ElfImage → BacktraceManager
unfolding unregister_library unregister_eh_frame
leave r t image = (unregister_library r (unregister_eh_frame r t image.self) image.self).0

-- The entry of an image whose frames are registered, in the slot `k`.
abbrev framed : Runtime → BacktraceManager → ElfImage → ℕ → ℕ → LibInfo
framed r t image k f = record (new_lib r image (lib_at t.libs k)) { eh_frame_registered = f }

-- A slot that a search for an unused one finds is empty.
free_slot :
    (lib : LibInfo) → (lib.in_use ≡ true) ⊎ (lib ≡ no_lib) → is_unused lib ≡ true → lib ≡ no_lib
free_slot lib (inl e) h = absurd (ground (arith, e, h))
free_slot lib (inr e) h = e

own_lib :
    (r : Runtime) (image : ElfImage) (lib : LibInfo)
    → is_lib_of image.self (new_lib r image lib) ≡ true
unfolding new_lib
own_lib r image lib = ground arith

own_frame :
    (r : Runtime) (t : BacktraceManager) (image : ElfImage) (k f : ℕ)
    → f ≢ 0
    → has_frame_of image.self (framed r t image k f) ≡ true
unfolding new_lib
own_frame r t image k f real = ground (arith, real)

abbrev with_libs : List LibInfo → List FrameCall → BacktraceManager
with_libs libs calls = record { libs = libs; frame_calls = calls }

module _ (r : Runtime) (t : BacktraceManager) (image : ElfImage) (f : ℕ)
    (there : r.has_register_frame ≡ true) (frame : eh_frame_of image ≡ some f) (real : f ≢ 0)
    (stranger : IsStranger t image.self) where
  enter_placed :
      (k : ℕ)
      → find_slot is_unused 0 0 t.libs ≡ some k
      → k < length t.libs
      → r.malloc (image.header.e_phnum * 56) ≡ true
      → enter r t image
        ≡ some (
            with_libs
              (set t.libs k (framed r t image k f))
              (t.frame_calls ++ (register_frame f ∷ [])))
  unfolding enter
  enter_placed k e inside memory =
      let lib = new_lib r image (lib_at t.libs k) in
      let calls = t.frame_calls ++ (register_frame f ∷ []) in
      let mine =
        written-lib t image.self stranger k lib inside (own_lib r image (lib_at t.libs k)) in
      ap (λ (p : BacktraceManager × Bool). register_eh_frame r p.0 image)
        (register_library_placed r t image k e memory)
      ∙ register_eh_frame_found r (with_libs (set t.libs k lib) t.frame_calls) image f there frame
          real k mine
      ∙ ap
          (λ (v : LibInfo).
            some
              (with_libs (set (set t.libs k lib) k (record v { eh_frame_registered = f })) calls))
          (lib_at-set t.libs k lib inside)
      ∙ ap (λ (l : List LibInfo). some (with_libs l calls))
          (set-set t.libs k lib (framed r t image k f))

  leave_placed :
      (k : ℕ) (calls : List FrameCall)
      → k < length t.libs
      → r.has_deregister_frame ≡ true
      → leave r (with_libs (set t.libs k (framed r t image k f)) calls) image
        ≡ with_libs (set t.libs k no_lib) (calls ++ (deregister_frame f ∷ []))
  unfolding leave
  leave_placed k calls inside back =
      let lib = framed r t image k f in
      let bare : LibInfo = record lib { eh_frame_registered = 0 } in
      let ended = calls ++ (deregister_frame f ∷ []) in
      let mine = written-frame t image.self stranger k lib inside (own_frame r t image k f real) in
      let left =
        written-lib t image.self stranger k bare inside (own_lib r image (lib_at t.libs k)) in
      let unframed : unregister_eh_frame r (with_libs (set t.libs k lib) calls) image.self
          ≡ with_libs (set t.libs k bare) ended =
        unregister_eh_frame_found r (with_libs (set t.libs k lib) calls) image.self k back mine
        ∙ ap
            (λ (v : LibInfo).
              with_libs (set (set t.libs k lib) k (record v { eh_frame_registered = 0 }))
                (calls ++ (deregister_frame v.eh_frame_registered ∷ [])))
            (lib_at-set t.libs k lib inside)
        ∙ ap (λ (l : List LibInfo). with_libs l ended) (set-set t.libs k lib bare) in
      ap (λ (u : BacktraceManager). (unregister_library r u image.self).0) unframed
      ∙ ap (λ (p : BacktraceManager × Bool). p.0)
          (unregister_library_found r (with_libs (set t.libs k bare) ended) image.self k left)
      ∙ ap
          (λ (v : LibInfo).
            with_libs (set (set t.libs k bare) k no_lib) (deregister r v.eh_frame_registered ended))
          (lib_at-set t.libs k bare inside)
      ∙ ap (λ (l : List LibInfo). with_libs l ended) (set-set t.libs k bare no_lib)

  -- Where a slot and the memory for its program headers are there, a library that enters and
  -- leaves leaves the table as it was, and its frames are registered once and deregistered once.
  pub leave-enter :
      IsClean t
      → (k : ℕ) → find_slot is_unused 0 0 t.libs ≡ some k
      → r.malloc (image.header.e_phnum * 56) ≡ true
      → r.has_deregister_frame ≡ true
      → (u : BacktraceManager) × (enter r t image ≡ some u)
        × (leave r u image ≡ record t {
          frame_calls = (t.frame_calls ++ (register_frame f ∷ [])) ++ (deregister_frame f ∷ []);
        })
  leave-enter clean k e memory back =
      let place = find_slot-Found is_unused 0 0 t.libs e in
      let same : place.place ≡ k = omega (arith, place.index) in
      let inside : k < length t.libs = omega (arith, place.inside, same) in
      let held : get_elem? t.libs k ≡ some place.item =
        ap (get_elem? t.libs) (sym same) ∙ place.holds in
      let empty : place.item ≡ no_lib =
        free_slot place.item (AllFrom-get _ 0 k t.libs clean held) place.passes in
      let calls = t.frame_calls ++ (register_frame f ∷ []) in
      (
        with_libs (set t.libs k (framed r t image k f)) calls,
        enter_placed k e inside memory,
        leave_placed k calls inside back
            ∙ ap (λ (l : List LibInfo). with_libs l (calls ++ (deregister_frame f ∷ [])))
                (set-get t.libs k no_lib (held ∙ ap some empty)),
      )

  -- Where all slots are in use, the frames of a library that enters are registered, and are not
  -- deregistered when it leaves.
  pub full_table_leak :
      find_slot is_unused 0 0 t.libs ≡ none
      → (u : BacktraceManager) × (enter r t image ≡ some u)
        × ((leave r u image).frame_calls ≡ t.frame_calls ++ (register_frame f ∷ []))
  unfolding enter leave
  full_table_leak full =
      let u : BacktraceManager = record t {
        frame_calls = t.frame_calls ++ (register_frame f ∷ []);
      } in
      (
        u,
        ap (λ (p : BacktraceManager × Bool). register_eh_frame r p.0 image)
              (register_library_refused r t image full)
            ∙ register_eh_frame_absent r t image f there frame real
                (stranger-no_lib t image.self stranger),
        ap (λ (w : BacktraceManager). (unregister_library r w image.self).0.frame_calls)
              (unregister_eh_frame_absent r u image.self (stranger-no_frame t image.self stranger))
            ∙ ap (λ (p : BacktraceManager × Bool). p.0.frame_calls)
                (unregister_library_absent r u image.self (stranger-no_lib t image.self stranger)),
      )

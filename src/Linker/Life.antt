-- ===== src/Linker/Life.antt =====
-- init, destroy, abandon and ~Linker of src/linker.cpp, over the managers that they change. What they do
-- to the process is a trace of events.
use so_load.Base.{is_some, get_elem?}
use so_load.Base.{
  ℕ, zero, suc, ◌^◌, ◌-◌, Bool, false, ◌&&◌, ◌||◌, List, [], ◌∷◌, ◌++◌, map, reverse, Option, none,
  some, ltb, ◌==◌, if◌then◌else◌,
}
use so_load.Image.{ElfImage}
use so_load.Tls.{TlsManager, unregister_segment}
use so_load.Backtrace.{BacktraceManager, Runtime}
use so_load.Backtrace.Frames.{leave}
use so_load.Linker.{Linker, LoadedDep}

-- A function of a library that runs, a mapping that goes, and a TLS index that is deleted.
pub data Event : Type 0 where
  called : ℕ → Event
  unmapped : (base size : ℕ) → Event
  deleted : ℕ → Event

pub record World : Type 0 where
  pub tls : TlsManager
  pub backtrace : BacktraceManager
  pub events : List Event

-- The first `n` entries of an array of functions; `none` is a read past its end.
unfoldable pub read_array : ℕ → List ℕ → Option (List ℕ)
read_array zero fns = some []
read_array (suc n) [] = none
read_array (suc n) (f ∷ fns) = elim (read_array n fns) [ none ↦ none | some rest ↦ some (f ∷ rest) ]

-- 0 and -1 are no functions.
abbrev pub is_sentinel : ℕ → Bool
is_sentinel f = f == 0 || f == 2 ^ 64 - 1

unfoldable pub call_each : List ℕ → List Event
call_each [] = []
call_each (f ∷ fns) = if is_sentinel f then call_each fns else called f ∷ call_each fns

unfoldable pub call_one : ℕ → List Event
call_one f = if f == 0 then [] else called f ∷ []

-- callConstructors.
unfoldable pub call_constructors : ElfImage → Option (List Event)
unfolding read_array call_each call_one
call_constructors image = elim image.init_array [
  | none ↦ some (call_one image.init_func)
  | some fns ↦ elim (read_array image.init_array_count fns) [
    | none ↦ none
    | some called_fns ↦ some (call_one image.init_func ++ call_each called_fns)
  ]
]

-- callDestructors: the array from its end, then the function.
unfoldable pub call_destructors : ElfImage → Option (List Event)
unfolding read_array call_each call_one
call_destructors image = elim image.fini_array [
  | none ↦ some (call_one image.fini_func)
  | some fns ↦ elim (read_array image.fini_array_count fns) [
    | none ↦ none
    | some called_fns ↦ some (call_each (reverse called_fns) ++ call_one image.fini_func)
  ]
]

-- The images that a linked linker takes back: the main one, and the dependencies it mapped.
unfoldable pub manual_images : List LoadedDep → List ElfImage
manual_images [] = []
manual_images (dep ∷ deps) =
    let rest = manual_images deps in
    elim dep.image [ none ↦ rest | some image ↦ if dep.is_manual_load then image ∷ rest else rest ]

abbrev pub all_images : List LoadedDep → List ElfImage
all_images [] = []
all_images (dep ∷ deps) = elim dep.image [
  | none ↦ all_images deps
  | some image ↦ image ∷ all_images deps
]

abbrev pub main_list : Linker → List ElfImage
main_list l = elim l.main_image [ none ↦ [] | some image ↦ image ∷ [] ]

unfoldable pub leave_all : Runtime → List ElfImage → BacktraceManager → BacktraceManager
unfolding leave
leave_all r [] t = t
leave_all r (image ∷ images) t = leave_all r images (leave r t image)

-- The destructors of each image in turn.
unfoldable pub destructors : List ElfImage → Option (List Event)
unfolding call_destructors
destructors [] = some []
destructors (image ∷ images) = elim (call_destructors image) [
  | none ↦ none
  | some here ↦ elim (destructors images) [ none ↦ none | some rest ↦ some (here ++ rest) ]
]

unfoldable pub unregister_segments : List ElfImage → TlsManager → TlsManager
unfolding unregister_segment
unregister_segments [] t = t
unregister_segments (image ∷ images) t =
    unregister_segments images (unregister_segment t image.self)

unfoldable pub unmap_deps : List LoadedDep → List Event
unmap_deps [] = []
unmap_deps (dep ∷ deps) =
    let rest = unmap_deps deps in
    if dep.is_manual_load && ltb 0 dep.map_size
    then unmapped dep.map_base dep.map_size ∷ rest
    else rest

unfoldable pub unmap_main : Linker → List Event
unmap_main l = elim l.main_image [
  | none ↦ []
  | some image ↦ if ltb 0 l.main_map_size then unmapped image.base l.main_map_size ∷ [] else []
]

-- What destroy gives back, after the destructors.
unfoldable pub releases : Linker → List Event
unfolding unmap_deps unmap_main
releases l = map deleted l.tls_indices ++ (unmap_deps l.deps ++ unmap_main l)

-- What is left of a linker: the symbol cache stays.
unfoldable pub emptied : Linker → Linker
emptied l = record {
  main_image = none;
  deps = [];
  main_map_size = 0;
  is_linked = false;
  symbol_cache = l.symbol_cache;
  tls_indices = [];
}

-- init.
unfoldable pub init : ElfImage → Linker → Linker
init image l = record l { main_image = some image; is_linked = false; main_map_size = 0; deps = [] }

-- The images whose destructors destroy calls, in its order.
unfoldable pub torn_down : Linker → List ElfImage
unfolding manual_images
torn_down l = if l.is_linked then main_list l ++ manual_images (reverse l.deps) else []

-- destroy; `none` where an array of destructors is read past its end.
unfoldable pub destroy : Runtime → Linker → World → Option (Linker × World)
unfolding leave_all destructors unregister_segments releases emptied torn_down
destroy r l w = elim (destructors (torn_down l)) [
  | none ↦ none
  | some calls ↦ some (
    emptied l,
    record {
      tls = unregister_segments (all_images (reverse l.deps) ++ main_list l) w.tls;
      backtrace = leave_all r (torn_down l) w.backtrace;
      events = w.events ++ (calls ++ releases l);
    },
  )
]

-- ~Linker.
unfoldable pub drop_linker : Runtime → Linker → World → Option (Linker × World)
unfolding destroy
drop_linker r l w =
    if is_some l.main_image || is_some (get_elem? l.deps 0) then destroy r l w else some (l, w)

-- abandon: no destructors, and the mappings stay.
unfoldable pub abandon : Runtime → Linker → World → Linker × World
unfolding leave_all unregister_segments emptied manual_images
abandon r l w = (
  emptied l,
  record {
    tls = unregister_segments (all_images (reverse l.deps) ++ main_list l) w.tls;
    backtrace =
        leave_all r (if l.is_linked then manual_images l.deps ++ main_list l else []) w.backtrace;
    events = w.events ++ map deleted l.tls_indices;
  },
)

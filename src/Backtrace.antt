-- ===== src/Backtrace.antt =====
-- include/backtrace.hpp and src/backtrace.cpp: the libraries that backtraces can see.
pub mod EhFrameHdr
pub mod Pointers
pub mod Registry
pub mod Visits
pub mod Frames
mod Runs
use so_load.Base.{
  ℕ, zero, suc, ◌+◌, ◌*◌, ◌≤◌, ◌<◌, Bool, true, false, not, ◌&&◌, ◌||◌, List, [], ◌∷◌, ◌++◌, Option,
  none, some, ltb, leb, ◌==◌, if◌then◌else◌, set, replicate, get_elem?, is_some,
}
use so_load.Base.Words.{u64, sub64}
use so_load.Base.Slots.{find_slot}
use so_load.Image.{ElfImage, ElfPhdr, ElfEhdr, pt_load}
use so_load.Image.Lookup.{Located, located, nowhere, unreadable, get_symbol_at}
use so_load.Backtrace.EhFrameHdr.{parse_eh_frame_hdr}

abbrev pub max_custom_libs : ℕ
max_custom_libs = 64

-- The members of dl_phdr_info that the code sets to more than a constant; a name of `none` is
-- nullptr.
pub record DlPhdrInfo : Type 0 where
  pub dlpi_addr : ℕ
  pub dlpi_name : Option (List ℕ)
  pub dlpi_phdr : List ElfPhdr
  pub dlpi_tls_modid : ℕ

pub record LibInfo : Type 0 where
  pub image : Option ElfImage
  pub phdr_info : DlPhdrInfo
  pub in_use : Bool
  pub eh_frame_registered : ℕ

-- `LibInfo{}`.
abbrev pub no_lib : LibInfo
no_lib = record {
  image = none;
  phdr_info = record { dlpi_addr = 0; dlpi_name = none; dlpi_phdr = []; dlpi_tls_modid = 0 };
  in_use = false;
  eh_frame_registered = 0;
}

-- A call of GCC's runtime, with the address of a frame section.
pub data FrameCall : Type 0 where
  register_frame deregister_frame : ℕ → FrameCall

-- libs_, and the calls of GCC's runtime that were made, the latest last.
pub record BacktraceManager : Type 0 where
  pub libs : List LibInfo
  pub frame_calls : List FrameCall

unfoldable pub new_backtrace : BacktraceManager
new_backtrace = record { libs = replicate max_custom_libs no_lib; frame_calls = [] }

-- What the code calls and does not define: whether malloc has that many bytes, the answer of strdup,
-- and whether the weak symbols __register_frame and __deregister_frame are there.
pub record Runtime : Type 0 where
  pub malloc : ℕ → Bool
  pub strdup : List ℕ → Option (List ℕ)
  pub has_register_frame : Bool
  pub has_deregister_frame : Bool

abbrev pub is_unused : LibInfo → Bool
is_unused lib = not lib.in_use

-- `in_use && image == image`.
abbrev pub is_lib_of : ℕ → LibInfo → Bool
is_lib_of self lib =
    lib.in_use && (elim lib.image [ none ↦ false | some image ↦ image.self == self ])

-- The entry that registerLibrary writes over a slot.
unfoldable pub new_lib : Runtime → ElfImage → LibInfo → LibInfo
new_lib r image lib = record {
  image = some image;
  phdr_info = record {
    dlpi_addr = sub64 image.base image.bias;
    dlpi_name = r.strdup image.path;
    dlpi_phdr = image.phdrs;
    dlpi_tls_modid =
        if is_some image.tls_segment then image.tls_mod_id else lib.phdr_info.dlpi_tls_modid;
  };
  in_use = true;
  eh_frame_registered = 0;
}

abbrev pub lib_at : List LibInfo → ℕ → LibInfo
lib_at libs i = elim (get_elem? libs i) [ none ↦ no_lib | some lib ↦ lib ]

unfoldable pub register_library : Runtime → BacktraceManager → ElfImage → BacktraceManager × Bool
unfolding new_lib find_slot
register_library r t image = elim (find_slot is_unused 0 0 t.libs) [
  | none ↦ (t, false)
  | some slot ↦
      if r.malloc (image.header.e_phnum * 56)
      then (record t { libs = set t.libs slot (new_lib r image (lib_at t.libs slot)) }, true)
      else (t, false)
]

-- __deregister_frame where there is a frame and the function.
abbrev pub deregister : Runtime → ℕ → List FrameCall → List FrameCall
deregister r frame calls =
    if not (frame == 0) && r.has_deregister_frame
    then calls ++ (deregister_frame frame ∷ [])
    else calls

unfoldable pub unregister_library : Runtime → BacktraceManager → ℕ → BacktraceManager × Bool
unfolding find_slot
unregister_library r t self = elim (find_slot (is_lib_of self) 0 0 t.libs) [
  | none ↦ (t, false)
  | some i ↦ (
    record {
      libs = set t.libs i no_lib;
      frame_calls = deregister r (lib_at t.libs i).eh_frame_registered t.frame_calls;
    },
    true,
  )
]

-- The address of the image's frame section, 0 for none; `none` is a read past eh_frame_hdr.
unfoldable pub eh_frame_of : ElfImage → Option ℕ
unfolding parse_eh_frame_hdr
eh_frame_of image =
    if image.eh_frame == 0
    then elim image.eh_frame_hdr [
      | none ↦ some 0
      | some hdr ↦
          parse_eh_frame_hdr image.eh_frame_hdr_addr hdr image.eh_frame_hdr_size
            (sub64 image.base image.bias)
    ]
    else some image.eh_frame

unfoldable pub register_eh_frame : Runtime → BacktraceManager → ElfImage → Option BacktraceManager
unfolding eh_frame_of find_slot
register_eh_frame r t image =
    if r.has_register_frame
    then elim (eh_frame_of image) [
      | none ↦ none
      | some eh_frame ↦
          let calls = t.frame_calls ++ (register_frame eh_frame ∷ []) in
          if eh_frame == 0 then some t else elim (find_slot (is_lib_of image.self) 0 0 t.libs) [
            | none ↦ some (record t { frame_calls = calls })
            | some i ↦ some (record {
              libs = set t.libs i (record (lib_at t.libs i) { eh_frame_registered = eh_frame });
              frame_calls = calls;
            })
          ]
    ]
    else some t

abbrev pub has_frame_of : ℕ → LibInfo → Bool
has_frame_of self lib = is_lib_of self lib && not (lib.eh_frame_registered == 0)

unfoldable pub unregister_eh_frame : Runtime → BacktraceManager → ℕ → BacktraceManager
unfolding find_slot
unregister_eh_frame r t self =
    if r.has_deregister_frame
    then elim (find_slot (has_frame_of self) 0 0 t.libs) [
      | none ↦ t
      | some i ↦ record {
        libs = set t.libs i (record (lib_at t.libs i) { eh_frame_registered = 0 });
        frame_calls =
            t.frame_calls ++ (deregister_frame (lib_at t.libs i).eh_frame_registered ∷ []);
      }
    ]
    else t

-- customDlIteratePhdr over a callback with its data as a state. `original` is the system's
-- function, where dlsym finds it.
unfoldable pub iterate_libs {ℓ} :
    {S : Type ℓ} → (DlPhdrInfo → S → ℕ × S) → List LibInfo → ℕ → S → ℕ × S
iterate_libs callback [] result arg = (result, arg)
iterate_libs callback (lib ∷ libs) result arg =
    let called = callback lib.phdr_info arg in
    let rest = iterate_libs callback libs called.0 called.1 in
    if lib.in_use
    then (if called.0 == 0 then rest else called)
    else iterate_libs callback libs result arg

unfoldable pub custom_dl_iterate_phdr {ℓ} :
    {S : Type ℓ}
    → Option ((DlPhdrInfo → S → ℕ × S) → S → ℕ × S)
    → BacktraceManager
    → (DlPhdrInfo → S → ℕ × S)
    → S
    → ℕ × S
unfolding iterate_libs
custom_dl_iterate_phdr none t callback arg = iterate_libs callback t.libs 0 arg
custom_dl_iterate_phdr (some original) t callback arg =
    let called = original callback arg in
    if called.0 == 0 then iterate_libs callback t.libs called.0 called.1 else called

-- The fields of Dl_info that the code sets; a name and address of a symbol or neither.
pub record DlInfo : Type 0 where
  pub dli_fname : Option (List ℕ)
  pub dli_fbase : ℕ
  pub dli_symbol : Located

-- `addr` is in a loaded segment of the library.
unfoldable pub in_segment : ℕ → ℕ → ElfPhdr → Bool
in_segment dlpi_addr addr phdr =
    let start = u64 (dlpi_addr + phdr.p_vaddr) in
    phdr.p_type == pt_load && leb start addr && ltb addr (u64 (start + phdr.p_memsz))

unfoldable pub in_lib : ℕ → LibInfo → Bool
unfolding in_segment find_slot
in_lib addr lib =
    lib.in_use
    && is_some (find_slot (in_segment lib.phdr_info.dlpi_addr addr) 0 0 lib.phdr_info.dlpi_phdr)

-- A symbol at address 0 counts as none.
abbrev pub valid_symbol : Located → Located
valid_symbol nowhere = nowhere
valid_symbol unreadable = unreadable
valid_symbol (located s) = if s.address == 0 then nowhere else located s

unfoldable pub lib_info : LibInfo → ℕ → DlInfo
unfolding get_symbol_at
lib_info lib addr = record {
  dli_fname = lib.phdr_info.dlpi_name;
  dli_fbase = lib.phdr_info.dlpi_addr;
  dli_symbol = elim lib.image [
    | none ↦ unreadable
    | some image ↦ valid_symbol (get_symbol_at image addr)
  ];
}

-- customDladdr; `none` is the answer 0. `original` is the system's dladdr.
unfoldable pub custom_dladdr : (ℕ → Option DlInfo) → BacktraceManager → ℕ → Option DlInfo
unfolding in_lib find_slot
custom_dladdr original t addr = elim (original addr) [
  | some info ↦ some info
  | none ↦ elim (find_slot (in_lib addr) 0 0 t.libs) [
    | none ↦ none
    | some i ↦ some (lib_info (lib_at t.libs i) addr)
  ]
]

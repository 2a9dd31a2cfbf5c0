-- ===== src/Linker/Library/Empty.antt =====
-- A file without a PT_LOAD segment.
use native.Mathlib.Nat.{mul-div_left, div-eq_of_lt, add-mul}
use so_load.Base.{
  ℕ, ◌+◌, ◌-◌, ◌*◌, ◌/◌, ◌^◌, ◌≤◌, ◌<◌, ◌≡◌, ◌≢◌, true, false, List, [], ◌∷◌, Option, some, All,
  arith, refl, ap, sym, ◌∙◌, ◌==◌,
}
use so_load.Base.Words.{sub64}
use so_load.Base.Bits.{one_le_pow, pow_add}
use so_load.Sleb128.Total.{pow_mono}
use so_load.Image.{ElfEhdr, ElfPhdr}
use so_load.Linker.{LoadedDep}
use so_load.Linker.Pages.{
  page_start, page_end, floor_page, IsPage, floor_page_add, page_start-floor_page,
  page_end-floor_page,
}
use so_load.Linker.Segments.{Kernel, Space, placed}
use so_load.Linker.Library.{
  load_extent, get_load_size, ElfFile, Process, reserve, close_file, load_segments, loaded,
  place_segments, map_library, load_library_manually,
}

load_extent_empty :
    (phdrs : List ElfPhdr) (lo hi : ℕ)
    → All (λ phdr. phdr.p_type ≢ 1) phdrs
    → load_extent phdrs lo hi ≡ (lo, hi)
unfolding load_extent
load_extent_empty [] lo hi none_loads = refl
load_extent_empty (phdr ∷ phdrs) lo hi none_loads =
    let here = none_loads.0 in
    let rest = load_extent_empty phdrs lo hi none_loads.1 in ground (arith, here, rest)

small-floor_page : (e a : ℕ) → a < 2 ^ e → floor_page e a ≡ 0
small-floor_page e a h =
    let none_whole : a / 2 ^ e ≡ 0 = div-eq_of_lt h in
    ap (λ (q : ℕ). q * 2 ^ e) none_whole ∙ omega arith

last-IsPage : (e : ℕ) → e ≤ 63 → IsPage e (2 ^ 64 - 2 ^ e)
last-IsPage e small =
    let s = 2 ^ (64 - e) - 1 in
    let width : 2 ^ 64 ≡ 2 ^ (64 - e) * 2 ^ e =
      ap (λ (w : ℕ). 2 ^ w) (let sum : 64 ≡ 64 - e + e = omega (arith, small) in sum)
      ∙ pow_add (64 - e) e in
    let ones : 2 ^ (64 - e) ≡ s + 1 = omega (arith, one_le_pow (64 - e)) in
    let product : 2 ^ 64 ≡ s * 2 ^ e + 1 * 2 ^ e =
      width ∙ ap (λ (w : ℕ). w * 2 ^ e) ones ∙ add-mul s 1 (2 ^ e) in
    let pages : 2 ^ 64 - 2 ^ e ≡ s * 2 ^ e = omega (arith, product) in
    ap (floor_page e) pages ∙ ap (λ (q : ℕ). q * 2 ^ e) (mul-div_left s (one_le_pow e)) ∙ sym pages

-- The end of the address space is taken for the lowest address, and the sizes wrap around.
get_load_size_empty :
    (e : ℕ) (phdrs : List ElfPhdr)
    → e ≤ 63
    → All (λ phdr. phdr.p_type ≢ 1) phdrs
    → get_load_size (2 ^ e) phdrs ≡ (2 ^ e, 2 ^ 64 - 2 ^ e)
unfolding get_load_size
get_load_size_empty e phdrs small none_loads =
    let pos = one_le_pow e in
    let wide = pow_mono e 63 small in
    let last : 2 ^ 64 - 1 ≡ 2 ^ 64 - 2 ^ e + (2 ^ e - 1) = omega (arith, pos, wide) in
    let below = small-floor_page e (2 ^ e - 1) (omega (arith, pos)) in
    let start : page_start (2 ^ e) (2 ^ 64 - 1) ≡ 2 ^ 64 - 2 ^ e =
      page_start-floor_page e (2 ^ 64 - 1) (omega (arith, small)) (omega arith)
      ∙ ap (floor_page e) last
      ∙ floor_page_add e (2 ^ 64 - 2 ^ e) (2 ^ e - 1) (last-IsPage e small)
      ∙ omega (arith, below) in
    let end : page_end (2 ^ e) 0 ≡ 0 =
      page_end-floor_page e 0 (omega (arith, small)) (omega (arith, wide))
      ∙ ap (floor_page e) (let same : 0 + (2 ^ e - 1) ≡ 2 ^ e - 1 = omega arith in same)
      ∙ below in
    let size : sub64 (page_end (2 ^ e) 0) (page_start (2 ^ e) (2 ^ 64 - 1)) ≡ 2 ^ e =
      omega (arith, start, end, wide) in
    ap
      (λ (x : ℕ × ℕ).
        (sub64 (page_end (2 ^ e) x.1) (page_start (2 ^ e) x.0), page_start (2 ^ e) x.0))
      (load_extent_empty phdrs (2 ^ 64 - 1) 0 none_loads)
    ∙ (λ i. (size i, start i))

load_segments_empty :
    (k : Kernel) (file : ℕ → ℕ) (phdrs : List ElfPhdr) (bias : ℕ) (space : Space)
    → All (λ phdr. phdr.p_type ≢ 1) phdrs
    → load_segments k file phdrs bias space ≡ placed space
unfolding load_segments
load_segments_empty k file [] bias space none_loads = refl
load_segments_empty k file (phdr ∷ phdrs) bias space none_loads =
    let here = none_loads.0 in
    let rest = load_segments_empty k file phdrs bias space none_loads.1 in
    ground (arith, here, rest)

place_segments_empty :
    (k : Kernel) (file : ElfFile) (phdrs : List ElfPhdr) (base min_vaddr : ℕ) (dep : LoadedDep)
    (p : Process)
    → All (λ phdr. phdr.p_type ≢ 1) phdrs
    → place_segments k file phdrs base min_vaddr dep p
      ≡ loaded base
          (record dep { is_manual_load = true; map_base = base })
          (close_file (reserve base dep.map_size p))
unfolding place_segments
place_segments_empty k file phdrs base min_vaddr dep p none_loads =
    let nothing =
      load_segments_empty k file.contents phdrs (sub64 base min_vaddr)
        (reserve base dep.map_size p).space none_loads in
    rw (nothing, place_segments) refl

map_library_empty :
    (k : Kernel) (file : ElfFile) (phdrs : List ElfPhdr) (dep : LoadedDep) (p : Process)
    (e base : ℕ)
    → k.page_size ≡ 2 ^ e
    → e ≤ 63
    → All (λ phdr. phdr.p_type ≢ 1) phdrs
    → k.mmap_reserve p.space.mapped (2 ^ e) ≡ some base
    → (after : Process) × (map_library k file phdrs dep p
        ≡ loaded base
            (record dep { map_size = 2 ^ e; is_manual_load = true; map_base = base })
            after)
unfolding map_library
map_library_empty k file phdrs dep p e base size small none_loads reserved =
    let (bytes, start) = get_load_size k.page_size phdrs in
    let page : bytes ≡ 2 ^ e =
      ap (λ s. (get_load_size s phdrs).0) size
      ∙ ap (λ (x : ℕ × ℕ). x.0) (get_load_size_empty e phdrs small none_loads) in
    let some_size : (bytes == 0) ≡ false = ground (arith, page, one_le_pow e) in
    let there : k.mmap_reserve p.space.mapped bytes ≡ some base =
      ap (k.mmap_reserve p.space.mapped) page ∙ reserved in
    let placed_there =
      place_segments_empty k file phdrs base start (record dep { map_size = bytes }) p none_loads in
    (
      close_file (reserve base (2 ^ e) p),
      rw (some_size, there, map_library) placed_there
          ∙ ap
              (λ n.
                loaded base (record dep { map_size = n; is_manual_load = true; map_base = base })
                  (close_file (reserve base n p)))
              page,
    )

-- A file whose program headers have no PT_LOAD segment is loaded: the size that is reserved is one
-- page, and not the 0 for which loadLibraryManually gives up.
pub load_library_manually_empty :
    (k : Kernel) (files : List ℕ → Option ElfFile) (path : List ℕ) (dep : LoadedDep) (p : Process)
    (e base : ℕ) (file : ElfFile) (eh : ElfEhdr) (phdrs : List ElfPhdr)
    → k.page_size ≡ 2 ^ e
    → e ≤ 63
    → files path ≡ some file
    → file.ehdr ≡ some eh
    → file.phdrs_at eh.e_phoff eh.e_phnum ≡ some phdrs
    → All (λ phdr. phdr.p_type ≢ 1) phdrs
    → k.mmap_reserve p.space.mapped (2 ^ e) ≡ some base
    → (after : Process) × (load_library_manually k files path dep p
        ≡ loaded base
            (record dep { map_size = 2 ^ e; is_manual_load = true; map_base = base })
            after)
unfolding load_library_manually map_library
load_library_manually_empty k files path dep p e base file eh phdrs size small opened header table
      none_loads reserved =
    let (after, e') =
      map_library_empty k file phdrs dep (record p { open_fds = p.open_fds + 1 }) e base size small
        none_loads reserved in
    let there : load_library_manually k files path dep p
        ≡ map_library k file phdrs dep (record p { open_fds = p.open_fds + 1 }) =
      rw (opened, header, table, load_library_manually) refl in
    (after, there ∙ e')

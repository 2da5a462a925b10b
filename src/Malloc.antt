-- ===== src/Malloc.antt =====
-- include/c-stdlib/src/malloc_impl.c: the allocator's sizes, its bins and the program break.
use ckb_js.Prelude.{
  ℕ, zero, suc, ◌+◌, ◌-◌, ◌*◌, ◌/◌, ◌%◌, ◌^◌, ◌<◌, Bool, true, false, Option, none, some, List, [],
  ◌∷◌, ltb, leb, ◌==◌, if◌then◌else◌, get_elem?, sub64, u64, map,
}
pub mod Bins
pub mod Sizes
pub mod Heap
pub mod Alloc
pub mod Splice
pub mod Links
pub mod Insert
pub mod Layout
pub mod Growth
pub mod Invariant
pub mod Take
pub mod Unbin
pub mod Bin
pub mod Cut
pub mod Trim
pub mod Find
pub mod Expand
pub mod Obtain
pub mod Allocate
pub mod Merging
pub mod Settle
pub mod Release
pub mod Write
pub mod Shrink
pub mod Extend
pub mod Copy
pub mod Move
pub mod Resize
pub mod Fresh
pub mod Begin
pub mod History
pub mod Client
pub mod Contents
mod Tests

-- `CKB_SIZE_ALIGN`, `CKB_OVERHEAD`, `CKB_DONTCARE`, `CKB_PAGE_SIZE` and `CKB_MMAP_THRESHOLD`.
abbrev pub size_align : ℕ
size_align = 32

abbrev pub overhead : ℕ
overhead = 16

abbrev pub dontcare : ℕ
dontcare = 16

abbrev pub page_size : ℕ
page_size = 4096

abbrev pub mmap_threshold : ℕ
mmap_threshold = 0x1c00 * 32

-- `-n & (PAGE_SIZE - 1)`: what is missing to a multiple of the page size.
abbrev pub page_rest : ℕ → ℕ
page_rest n = (page_size - n % page_size) % page_size

-- The static variables of `_sbrk`.
pub record Break : Type 0 where
  pub s_program_break : ℕ
  pub s_brk_min : ℕ
  pub s_brk_max : ℕ

unfoldable pub malloc_config : (min max : ℕ) → Break
malloc_config min max = record { s_program_break = 0; s_brk_min = min; s_brk_max = max }

-- The break, which is set to a page at the first call.
abbrev pub program_break : Break → ℕ
program_break b =
    if b.s_program_break == 0 then u64 (b.s_brk_min + page_rest b.s_brk_min) else b.s_program_break

-- `_sbrk`; `none` is `(void *)-1`.
unfoldable pub sbrk : (incr : ℕ) → Break → Option ℕ × Break
sbrk incr b =
    if ltb b.s_brk_max (u64 (program_break b + incr))
    then (none, record b { s_program_break = program_break b })
    else (some (program_break b), record b { s_program_break = u64 (program_break b + incr) })

-- `adjust_size`: the size of the chunk, or -1.
unfoldable pub adjust_size : ℕ → Option ℕ
adjust_size n =
    if ltb (2 ^ 63 - 1 - size_align - page_size) (sub64 n 1)
    then if n == 0 then some size_align else none
    else some ((n + overhead + size_align - 1) / size_align * size_align)

abbrev pub bin_tab : List ℕ
bin_tab =
    32 ∷ 33 ∷ 34 ∷ 35 ∷ 36 ∷ 36 ∷ 37 ∷ 37 ∷ 38 ∷ 38 ∷ 39 ∷ 39 ∷ 40 ∷ 40 ∷ 40 ∷ 40 ∷ 41 ∷ 41 ∷ 41
    ∷ 41 ∷ 42 ∷ 42 ∷ 42 ∷ 42 ∷ 43 ∷ 43 ∷ 43 ∷ 43 ∷ 44 ∷ 44 ∷ 44 ∷ 44 ∷ 44 ∷ 44 ∷ 44 ∷ 44 ∷ 45 ∷ 45
    ∷ 45 ∷ 45 ∷ 45 ∷ 45 ∷ 45 ∷ 45 ∷ 46 ∷ 46 ∷ 46 ∷ 46 ∷ 46 ∷ 46 ∷ 46 ∷ 46 ∷ 47 ∷ 47 ∷ 47 ∷ 47 ∷ 47
    ∷ 47 ∷ 47 ∷ 47 ∷ []

-- `bin_tab[i] + k`; `none` is a read outside the table.
unfoldable pub from_tab : (i k : ℕ) → Option ℕ
from_tab i k = elim (get_elem? bin_tab i) [ none ↦ none | some t ↦ some (t + k) ]

-- `bin_index` behind its first line.
unfoldable pub bin_of : ℕ → Option ℕ
bin_of x =
    if leb x 32
    then some x
    else if ltb x 512
    then from_tab (x / 8 - 4) 0
    else if ltb 0x1c00 x
    then some 63
    else from_tab (x / 128 - 4) 16

unfoldable pub bin_index : ℕ → Option ℕ
unfolding bin_of
bin_index x = bin_of (sub64 (x / size_align) 1)

unfoldable pub bin_up_of : ℕ → Option ℕ
bin_up_of x =
    if leb x 32
    then some x
    else if ltb (x - 1) 512
    then from_tab ((x - 1) / 8 - 4) 1
    else from_tab ((x - 1) / 128 - 4) 17

unfoldable pub bin_index_up : ℕ → Option ℕ
unfolding bin_up_of
bin_index_up x = bin_up_of (sub64 (x / size_align) 1)

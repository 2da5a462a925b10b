-- ===== src/Malloc/Tests.antt =====
-- The allocator on a heap from 1 MB to 3 MB, with its bins at 4096.
use ckb_js.Prelude.{
  ℕ, ◌+◌, ◌*◌, ◌^◌, ◌%◌, ◌<◌, ◌≤◌, ◌⊎◌, ◌≢◌, inl, inr, arith, ◌≡◌, refl, none, some,
}
use ckb_js.Malloc.Bins.{bin_index_up_out_of_table}
use ckb_js.Malloc.Sizes.{IsBreak}
use ckb_js.Malloc.{
  mmap_threshold, program_break, Break, malloc_config, sbrk, adjust_size, bin_index, bin_index_up,
  bin_of, bin_up_of, from_tab,
}
use ckb_js.Malloc.Heap.{
  Heap, Ran, done, store, lock_bin, unbin, unlink, bin_chunk, split_chunk, trim, grow, expand_heap,
}
use ckb_js.Malloc.Alloc.{
  malloc, free, realloc, resize, extend, copy_realloc, search_bins, cut, search_or_expand,
  take_or_search,
}
use ckb_js.Malloc.Contents.{Writes, Reach-content, Reach-copied}
use ckb_js.Malloc.Client
use ckb_js.Malloc.Client.{IsConfig, Reach-IsSound, Reach-ends, Reach-apart}
use ckb_js.Malloc.History.{Client, Step, allocate, write, Reach, here, next, hold, IsSound}
use ckb_js.Malloc.Allocate.{Allocates, malloc-Allocates}
use ckb_js.Malloc.Settle.{Frees}
use ckb_js.Malloc.Release.{free-Frees}
use ckb_js.Malloc.Move.{Reallocates}
use ckb_js.Malloc.Resize.{realloc-Reallocates}
use ckb_js.Malloc.Fresh.{IsFresh, first_heap, first_view, first-IsHeap}
use ckb_js.Malloc.Invariant.{View, IsHeap}

abbrev start : Heap
unfolding malloc_config
start = record { words = λ p. 0; binmap = 0; brk = malloc_config 0x100000 0x300000; end = 0 }

abbrev address : Ran (ℕ × Heap) → ℕ
address (done (p, h)) = p
address _ = 0

first_block : address (malloc 4096 100 start) ≡ 0x100020
unfolding malloc malloc_config sbrk adjust_size bin_index bin_index_up bin_of bin_up_of from_tab
    lock_bin unbin unlink bin_chunk split_chunk trim grow expand_heap search_bins cut
    search_or_expand take_or_search
first_block = refl

bin_index_up_out_of_table_example : bin_index_up 300000 ≡ none
bin_index_up_out_of_table_example = bin_index_up_out_of_table 300000 (omega arith) (omega arith)

abbrev used_break : Break
used_break = record { s_program_break = 0x2ff000; s_brk_min = 0x100000; s_brk_max = 0x300000 }

used_break-IsBreak : IsBreak used_break
used_break-IsBreak = record {
  min_positive = omega arith;
  min_small = omega arith;
  max_small = omega arith;
  above_min = inr (omega arith);
  break_small = omega arith;
}

abbrev after : Ran (ℕ × Heap) → Heap
after (done (p, h)) = h
after _ = start

abbrev first : Heap
unfolding malloc malloc_config sbrk adjust_size bin_index bin_index_up bin_of bin_up_of from_tab
    lock_bin unbin unlink bin_chunk split_chunk trim grow expand_heap search_bins cut
    search_or_expand take_or_search
first = after (malloc 4096 100 start)

first_malloc : malloc 4096 100 (Client.start 0x100000 0x300000).heap ≡ done (0x100020, first)
unfolding first malloc malloc_config sbrk adjust_size bin_index bin_index_up bin_of bin_up_of
    from_tab lock_bin unbin unlink bin_chunk split_chunk trim grow expand_heap search_bins cut
    search_or_expand take_or_search
first_malloc = refl

bounds-IsConfig : IsConfig 4096 0x100000 0x300000
bounds-IsConfig = record {
  bins_above = omega arith;
  bins_below = omega arith;
  min_small = omega arith;
  max_small = omega arith;
}

abbrev one_block : Client
one_block = record { heap = first; blocks = hold 0x100020 100 (λ p. none) }

one_block-Reach : Reach 4096 (Client.start 0x100000 0x300000) one_block
one_block-Reach =
    next here
      (allocate (Client.start 0x100000 0x300000) 100 0x100020 first (omega arith) first_malloc)

Reach-IsSound_example : IsSound 4096 one_block
Reach-IsSound_example =
    Reach-IsSound 4096 0x100000 0x300000 bounds-IsConfig one_block one_block-Reach

Reach-ends_example :
    ((n : ℕ) → n < 2 ^ 64 → (p : ℕ) × (h' : Heap) × (malloc 4096 n first ≡ done (p, h')))
    × ((p n : ℕ) → one_block.blocks p ≡ some n → (h' : Heap) × (free 4096 p first ≡ done h'))
    × ((p n : ℕ)
        → one_block.blocks p ≡ some n
        → (m : ℕ) → m + 16 ≤ mmap_threshold
        → (q : ℕ) × (h' : Heap) × (realloc 4096 p m first ≡ done (q, h')))
Reach-ends_example = Reach-ends 4096 0x100000 0x300000 bounds-IsConfig one_block one_block-Reach

Reach-apart_example :
    (0x100020 % 32 ≡ 0)
    × (4096 + 24 * 64 ≤ 0x100020)
    × (0x100020 + 100 ≤ program_break first.brk)
    × ((q m : ℕ) → one_block.blocks q ≡ some m → 0x100020 < q → 0x100020 + 100 + 16 ≤ q)
Reach-apart_example =
    Reach-apart 4096 0x100000 0x300000 bounds-IsConfig one_block one_block-Reach 0x100020 100 refl

abbrev one_write : Step 4096 one_block (record one_block { heap = store 0x100028 7 first })
one_write = write one_block 100 0x100020 0x100028 7 refl (omega arith) (omega arith)

Reach-content_example :
    ((store 0x100028 7 first).words 0x100030 ≡ first.words 0x100030) ⊎ Writes one_write 0x100030
Reach-content_example =
    Reach-content 4096 0x100000 0x300000 bounds-IsConfig one_block
      (record one_block { heap = store 0x100028 7 first }) one_write one_block-Reach 0x100020 100
      0x100030 refl refl (omega arith) (omega arith)

-- Behind the first block lies one chunk to the end of the region, so the block grows in place.
abbrev longer : Heap
unfolding first malloc malloc_config sbrk adjust_size bin_index bin_index_up bin_of bin_up_of
    from_tab lock_bin unbin unlink bin_chunk split_chunk trim grow expand_heap search_bins cut
    search_or_expand take_or_search realloc resize extend copy_realloc
longer = after (realloc 4096 0x100020 200 first)

first_realloc : realloc 4096 0x100020 200 one_block.heap ≡ done (0x100020, longer)
unfolding longer first malloc malloc_config sbrk adjust_size bin_index bin_index_up bin_of bin_up_of
    from_tab lock_bin unbin unlink bin_chunk split_chunk trim grow expand_heap search_bins cut
    search_or_expand take_or_search realloc resize extend copy_realloc
first_realloc = refl

abbrev block : ℕ
block = 0x100020

Reach-copied_example :
    ((block ≡ 0)
      × ((k : ℕ) → 8 * k + 8 ≤ 100 → longer.words (block + 8 * k) ≡ first.words (block + 8 * k)))
    ⊎ ((block ≢ 0)
        × ((k : ℕ)
            → 8 * k + 8 ≤ 100
            → 8 * k + 8 ≤ 200
            → longer.words (block + 8 * k) ≡ first.words (block + 8 * k)))
Reach-copied_example =
    Reach-copied 4096 0x100000 0x300000 bounds-IsConfig one_block one_block-Reach block 100 200
      block longer refl (omega arith) first_realloc

-- A heap of one page, whose one chunk is in use.
start-IsFresh : IsFresh 4096 start
unfolding malloc_config
start-IsFresh = record {
  no_end = refl;
  no_bins = refl;
  empty = λ i l. refl;
  brk = record {
    min_positive = omega arith;
    min_small = omega arith;
    max_small = omega arith;
    above_min = inl refl;
    break_small = omega arith;
  };
  unit = refl;
  above = omega arith;
  below = omega arith;
}

abbrev page_break : Break
page_break = record { s_program_break = 0x101000; s_brk_min = 0x100000; s_brk_max = 0x300000 }

page_break-IsBreak : IsBreak page_break
page_break-IsBreak = record {
  min_positive = omega arith;
  min_small = omega arith;
  max_small = omega arith;
  above_min = inr (omega arith);
  break_small = omega arith;
}

abbrev page : Heap
page =
    first_heap 4096 start start-IsFresh page_break 0x100000 4096 (omega arith) refl
      page_break-IsBreak refl (omega arith) refl (omega arith)

abbrev page_view : View
page_view =
    first_view 4096 start start-IsFresh page_break 0x100000 4096 (omega arith) refl
      page_break-IsBreak refl (omega arith) refl (omega arith)

page-IsHeap : IsHeap 4096 0 page page_view
page-IsHeap =
    first-IsHeap 4096 start start-IsFresh page_break 0x100000 4096 (omega arith) refl
      page_break-IsBreak refl (omega arith) refl (omega arith)

malloc-Allocates_example : Allocates 4096 (50 + 16) page page_view (malloc 4096 50 page)
malloc-Allocates_example = malloc-Allocates 4096 50 page page_view page-IsHeap (omega arith)

free-Frees_example :
    (h' : Heap) × (free 4096 0x100020 page ≡ done h') × Frees 4096 page page_view 0x100010 h'
free-Frees_example = free-Frees 4096 page page_view page-IsHeap 0x100010 4064 refl

realloc-Reallocates_example :
    (m : ℕ) × (200 + 16 ≤ m)
    × Reallocates 4096 page page_view 0x100010 4064 m (realloc 4096 0x100020 200 page)
realloc-Reallocates_example =
    realloc-Reallocates 4096 page page_view 0x100010 4064 page-IsHeap refl 200 (omega arith)

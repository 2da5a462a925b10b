-- ===== src/Malloc/Alloc.antt =====
-- include/c-stdlib/src/malloc_impl.c: `malloc`, `realloc` and `free`.
use ckb_js.Prelude.{
  ℕ, zero, suc, ◌+◌, ◌-◌, ◌/◌, true, false, not, Option, none, some, ltb, leb, ◌==◌, ◌&&◌,
  if◌then◌else◌, sub64, u64,
}
use ckb_js.Malloc.{adjust_size, bin_index, bin_index_up, overhead, dontcare, mmap_threshold}
use ckb_js.Malloc.Heap.{
  Heap, Ran, done, crashed, ◌>>=◌, defined, store, chunk_size, chunk_psize, next_chunk, prev_chunk,
  used, set_used, has_bit, bin_to_chunk, lock_bin, unbin, bin_chunk, trim, expand_heap,
}

module _ (bins : ℕ) where
  -- The loop of `malloc` over the bits of `mask`, from bit `j` on: a chunk from the first bin that
  -- is not empty.
  unfoldable pub search_bins : (count j : ℕ) (mask : ℕ) → Heap → Option ℕ × Heap
  search_bins zero j mask h = (none, h)
  search_bins (suc count) j mask h =
      let h' = lock_bin bins j h in
      let c = h'.words (bin_to_chunk bins j + 16) in
      elim (has_bit mask j) [
        | false ↦ search_bins count (j + 1) mask h
        | true ↦ elim (c == bin_to_chunk bins j) [
          | false ↦ (some c, unbin bins c j h')
          | true ↦ search_bins count (j + 1) mask h'
        ]
      ]

  -- The end of `malloc`: the memory of a chunk that is cut to size; 0 is NULL.
  unfoldable pub cut : (n : ℕ) → Option ℕ × Heap → Ran (ℕ × Heap)
  cut n (none, h) = done (0, h)
  cut n (some c, h) = trim bins c n h >>= λ h'. done (c + overhead, h')

  unfoldable pub search_or_expand : (n i : ℕ) → Heap → Ran (ℕ × Heap)
  unfolding search_bins cut
  search_or_expand n i h =
      let (c, h') = search_bins (64 - i) i h.binmap h in
      elim c [ some a ↦ cut n (some a, h') | none ↦ cut n (expand_heap n h') ]

  -- `malloc` behind `bin_index_up`: a chunk of nearly the size from the bin itself comes first.
  unfoldable pub take_or_search : (n i : ℕ) → Heap → Ran (ℕ × Heap)
  unfolding search_or_expand
  take_or_search n i h =
      let h' = lock_bin bins i h in
      let c = h'.words (bin_to_chunk bins i + 16) in
      if ltb i 63 && has_bit h.binmap i
      then if not (c == bin_to_chunk bins i) && leb (sub64 (chunk_size h' c) n) dontcare
        then done (c + overhead, unbin bins c i h')
        else search_or_expand n i h'
      else search_or_expand n i h

  unfoldable pub malloc : (n : ℕ) → Heap → Ran (ℕ × Heap)
  unfolding take_or_search
  malloc n h = elim (adjust_size n) [
    | none ↦ done (0, h)
    | some m ↦
        if leb mmap_threshold m
        then done (0, h)
        else defined (bin_index_up m) >>= λ i. take_or_search m i h
  ]

  -- A chunk and its size, and the chunk behind it, while `__bin_chunk` merges.
  pub record Merge : Type 0 where
    pub self : ℕ
    pub next : ℕ
    pub size : ℕ
    pub heap : Heap

  -- The chunk before, of size `psize`, and the chunk behind, of size `nsize`, if they are free.
  unfoldable pub merge_prev : (psize : ℕ) → Merge → Ran Merge
  merge_prev psize g =
      if psize == 0
      then done g
      else defined (bin_index psize) >>= λ i.
          let h = lock_bin bins i g.heap in
          let prev = prev_chunk h g.self in
          done (
            if used (h.words g.self)
            then record g { heap = h }
            else record g { self = prev; size = u64 (g.size + psize); heap = unbin bins prev i h })

  unfoldable pub merge_next : (nsize : ℕ) → Merge → Ran Merge
  merge_next nsize g =
      if nsize == 0
      then done g
      else defined (bin_index nsize) >>= λ i.
          let h = lock_bin bins i g.heap in
          let h' = unbin bins g.next i h in
          done (
            if used (h.words (g.next + 8))
            then record g { heap = h }
            else record g { next = next_chunk h' g.next; size = u64 (g.size + nsize); heap = h' })

  unfoldable pub bin_merged : Merge → Ran Heap
  bin_merged g = defined (bin_index g.size) >>= λ i. done (
      bin_chunk bins g.self i
        (store g.next g.size (store (g.self + 8) g.size (lock_bin bins i g.heap))))

  -- `__bin_chunk`.
  unfoldable pub free_chunk : ℕ → Heap → Ran Heap
  unfolding merge_prev merge_next bin_merged
  free_chunk self h =
      let next = next_chunk h self in
      let size = chunk_size h self in
      let psize = if used (h.words self) then 0 else chunk_psize h self in
      let nsize = if used (h.words (next + 8)) then 0 else chunk_size h next in
      if h.words next == h.words (self + 8)
      then (merge_prev psize (record { self = self; next = next; size = size; heap = h }) >>= λ g.
          merge_next nsize g >>= λ g'. bin_merged g')
      else crashed

  unfoldable pub free : ℕ → Heap → Ran Heap
  unfolding free_chunk
  free p h = if p == 0 then done h else free_chunk (p - overhead) h

  -- `memcpy` of whole words.
  unfoldable pub copy_words : (to from count : ℕ) → Heap → Heap
  copy_words to from zero h = h
  copy_words to from (suc count) h =
      copy_words (to + 8) (from + 8) count (store to (h.words from) h)

  -- `copy_realloc`.
  unfoldable pub copy_realloc : (p n n0 : ℕ) → Heap → Ran (ℕ × Heap)
  unfolding malloc copy_words free
  copy_realloc p n n0 h = malloc (sub64 n overhead) h >>= λ r.
      if r.0 == 0
      then done (0, r.1)
      else free p (copy_words r.0 p (sub64 (if ltb n n0 then n else n0) overhead / 8) r.1) >>= λ h'.
          done (r.0, h')

  -- `realloc` to a smaller chunk: the rest becomes a chunk, which is freed.
  unfoldable pub shrink : (self next n n0 : ℕ) → Heap → Ran (ℕ × Heap)
  unfolding free_chunk
  shrink self next n n0 h =
      let split = self + n in
      let h₁ = store (self + 8) (set_used n) (store split (set_used n) h) in
      let h₂ = store (split + 8) (set_used (n0 - n)) (store next (set_used (n0 - n)) h₁) in
      free_chunk split h₂ >>= λ h'. done (self + overhead, h')

  -- `realloc` into the free chunk behind.
  unfoldable pub extend : (p self next n n0 nsize : ℕ) → Heap → Ran (ℕ × Heap)
  unfolding copy_realloc
  extend p self next n n0 nsize h = defined (bin_index nsize) >>= λ i.
      let h₁ = lock_bin bins i h in
      let h₂ = unbin bins next i h₁ in
      let next' = next_chunk h₂ next in
      let whole = set_used (n0 + nsize) in
      if used (h₁.words (next + 8))
      then copy_realloc p n n0 h₁
      else trim bins self n (store (self + 8) whole (store next' whole h₂)) >>= λ h'.
          done (self + overhead, h')

  -- `realloc` behind `adjust_size`.
  unfoldable pub resize : (p n : ℕ) → Heap → Ran (ℕ × Heap)
  unfolding shrink extend
  resize p n h =
      let self = p - overhead in
      let n0 = chunk_size h self in
      let next = next_chunk h self in
      let nsize = if used (h.words (next + 8)) then 0 else chunk_size h next in
      if leb n n0 && leb (n0 - n) dontcare
      then done (p, h)
      else if not (h.words next == h.words (self + 8))
      then crashed
      else if ltb n n0
      then (defined (bin_index_up n) >>= λ i. defined (bin_index n0) >>= λ j.
          if ltb i j && has_bit h.binmap i then copy_realloc p n n0 h else shrink self next n n0 h)
      else if leb n (n0 + nsize)
      then extend p self next n n0 nsize h
      else copy_realloc p n n0 h

  unfoldable pub realloc : (p n : ℕ) → Heap → Ran (ℕ × Heap)
  unfolding resize
  realloc p n h =
      if p == 0
      then malloc n h
      else elim (adjust_size n) [ none ↦ done (0, h) | some m ↦ resize p m h ]

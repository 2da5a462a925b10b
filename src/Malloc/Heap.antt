-- ===== src/Malloc/Heap.antt =====
-- include/c-stdlib/src/malloc_impl.c: chunks, bins, and the allocator's operations, over a memory
-- of 64-bit words. A chunk has psize, csize, next and prev at offsets 0, 8, 16 and 24.
use ckb_js.Prelude.{
  ℕ, ◌+◌, ◌-◌, ◌*◌, ◌/◌, ◌%◌, ◌^◌, Bool, not, Option, none, some, leb, ◌==◌, if◌then◌else◌, sub64,
  u64,
}
use ckb_js.Malloc.{Break, sbrk, bin_index, page_rest, overhead, size_align, dontcare}

pub record Heap : Type 0 where
  pub words : ℕ → ℕ
  pub binmap : ℕ
  pub brk : Break
  pub end : ℕ

-- The end of an operation: a result, `a_crash`, or a read outside the table of bins.
pub data Ran (A : Type 0) : Type 0 where
  done : A → Ran A
  crashed : Ran A
  undefined : Ran A

infixl 5 ◌>>=◌
abbrev pub ◌>>=◌ : {A B : Type 0} → Ran A → (A → Ran B) → Ran B
done a >>= f = f a
crashed >>= f = crashed
undefined >>= f = undefined

abbrev pub defined : Option ℕ → Ran ℕ
defined none = undefined
defined (some i) = done i

abbrev pub store : ℕ → ℕ → Heap → Heap
store a v h = record h { words = λ p. if p == a then v else h.words p }

-- `CKB_CHUNK_SIZE`, `CKB_CHUNK_PSIZE`, `CKB_NEXT_CHUNK` and `CKB_PREV_CHUNK`.
abbrev pub even_part : ℕ → ℕ
even_part v = v / 2 * 2

abbrev pub chunk_size : Heap → ℕ → ℕ
chunk_size h c = even_part (h.words (c + 8))

abbrev pub chunk_psize : Heap → ℕ → ℕ
chunk_psize h c = even_part (h.words c)

abbrev pub next_chunk : Heap → ℕ → ℕ
next_chunk h c = c + chunk_size h c

abbrev pub prev_chunk : Heap → ℕ → ℕ
prev_chunk h c = c - chunk_psize h c

-- `CKB_C_INUSE`: tested, and set.
abbrev pub used : ℕ → Bool
used v = v % 2 == 1

abbrev pub set_used : ℕ → ℕ
set_used v = even_part v + 1

-- Bits of `binmap`.
abbrev pub has_bit : ℕ → ℕ → Bool
has_bit m i = (m / 2 ^ i) % 2 == 1

abbrev pub set_bit : ℕ → ℕ → ℕ
set_bit m i = if has_bit m i then m else m + 2 ^ i

abbrev pub clear_bit : ℕ → ℕ → ℕ
clear_bit m i = if has_bit m i then m - 2 ^ i else m

-- The headers that `trim` writes; the sizes are even.
unfoldable pub split_chunk : ℕ → ℕ → Heap → Heap
split_chunk self n h =
    let n1 = chunk_size h self in
    let next = next_chunk h self in
    let split = self + n in
    store (self + 8) (set_used n)
      (store next (sub64 n1 n) (store (split + 8) (sub64 n1 n) (store split (set_used n) h)))

module _ (bins : ℕ) where
  -- `CKB_BIN_TO_CHUNK(i)`: its next and prev are the head and the tail of bin `i`.
  abbrev pub bin_to_chunk : ℕ → ℕ
  bin_to_chunk i = bins + 24 * i - 8

  unfoldable pub lock_bin : ℕ → Heap → Heap
  lock_bin i h =
      if h.words (bin_to_chunk i + 16) == 0
      then store (bin_to_chunk i + 16) (bin_to_chunk i)
          (store (bin_to_chunk i + 24) (bin_to_chunk i) h)
      else h

  -- The first three statements of `unbin`, and all of it.
  unfoldable pub unlink : ℕ → ℕ → Heap → Heap
  unlink c i h =
      let h₁ =
        if h.words (c + 24) == h.words (c + 16)
        then record h { binmap = clear_bit h.binmap i }
        else h in
      let h₂ = store (h₁.words (c + 24) + 16) (h₁.words (c + 16)) h₁ in
      store (h₂.words (c + 16) + 24) (h₂.words (c + 24)) h₂

  unfoldable pub unbin : ℕ → ℕ → Heap → Heap
  unfolding unlink
  unbin c i h =
      let h₁ = unlink c i h in
      let h₂ = store (c + 8) (set_used (h₁.words (c + 8))) h₁ in
      store (next_chunk h₂ c) (set_used (h₂.words (next_chunk h₂ c))) h₂

  unfoldable pub bin_chunk : ℕ → ℕ → Heap → Heap
  bin_chunk self i h =
      let h₁ = store (self + 16) (bin_to_chunk i) h in
      let h₂ = store (self + 24) (h₁.words (bin_to_chunk i + 24)) h₁ in
      let h₃ = store (h₂.words (self + 16) + 24) self h₂ in
      let h₄ = store (h₃.words (self + 24) + 16) self h₃ in
      if h₄.words (self + 24) == bin_to_chunk i
      then record h₄ { binmap = set_bit h₄.binmap i }
      else h₄

  unfoldable pub trim : ℕ → ℕ → Heap → Ran Heap
  unfolding split_chunk lock_bin bin_chunk
  trim self n h =
      let n1 = chunk_size h self in
      if leb (sub64 n1 dontcare) n
      then done h
      else defined (bin_index (sub64 n1 n)) >>= λ i.
          done (bin_chunk (self + n) i (lock_bin i (split_chunk self n h)))

-- `__expand_heap`: the region and its size, a multiple of the page size.
abbrev pub expand_region : ℕ → Break → Option (ℕ × ℕ) × Break
expand_region n b =
    let size = u64 (n + page_rest n) in
    let (p, b') = sbrk size b in (elim p [ none ↦ none | some q ↦ some (q, size) ], b')

-- `expand_heap` behind `__expand_heap`: the headers in a region.
unfoldable pub grow : (p n : ℕ) → Heap → ℕ × Heap
grow p n h =
    let fresh = not (p == h.end) in
    let n' = if fresh then n - size_align else n in
    let p' = if fresh then p + size_align else p in
    let h₁ = if fresh then store (p' - overhead) 1 h else h in
    let end = p' + n' in
    let h₂ = record h₁ { end = end } in
    let h₃ = store (end - overhead) (set_used n') h₂ in
    let h₄ = store (end - overhead + 8) 1 h₃ in
    (p' - overhead, store (p' - overhead + 8) (set_used n') h₄)

-- `expand_heap`; `none` is NULL.
unfoldable pub expand_heap : ℕ → Heap → Option ℕ × Heap
unfolding grow
expand_heap n h =
    let (region, b) = expand_region (n + size_align) h.brk in
    elim region [
      | none ↦ (none, record h { brk = b })
      | some pn ↦ (let (w, h') = grow pn.0 pn.1 (record h { brk = b }) in (some w, h'))
    ]

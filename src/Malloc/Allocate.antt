-- ===== src/Malloc/Allocate.antt =====
-- `malloc` keeps the invariant, and what it gives is a chunk that was not in use before.
use ckb_js.Prelude.{
  ℕ, ◌+◌, ◌-◌, ◌%◌, ◌^◌, ◌<◌, ◌≤◌, ◌≡◌, ◌⊎◌, refl, not, Option, none, some, ◌==◌, ◌&&◌, arith, inl,
  inr, Bool-cases, ltb, leb, sub64,
}
use ckb_js.Malloc.{mmap_threshold}
use ckb_js.Malloc.Bins.{bin_index_up_fits}
use ckb_js.Malloc.Sizes.{adjust_size_least}
use ckb_js.Malloc.Heap.{
  Heap, Ran, done, bin_to_chunk, expand_heap, lock_bin, unbin, has_bit, chunk_size,
}
use ckb_js.Malloc.Alloc.{search_bins, cut, search_or_expand, take_or_search, malloc}
use ckb_js.Malloc.Layout.{nothing, put}
use ckb_js.Malloc.Take.{lock_bin-Locks}
use ckb_js.Malloc.Find.{Fits, first-Takes, search_bins-TakesOr}
use ckb_js.Malloc.Trim.{trim-Trims}
use ckb_js.Malloc.Expand.{Takes, Idles, TakesOr, TakesOr-after, Takes-after, Idles-after}
use ckb_js.Malloc.Invariant.{View, IsHeap, IsKept, IsKept-trans}
use ckb_js.Malloc.Obtain.{expand_heap-TakesOr}

module _ (bins : ℕ) where
  -- How `malloc` ends: with NULL, or with the memory of a chunk that is at least as large as asked.
  abbrev pub Allocates : ℕ → Heap → View → Ran (ℕ × Heap) → Type 0
  Allocates n h g r =
      (p : ℕ) × (h' : Heap) × (r ≡ done (p, h'))
      × (((p ≡ 0) × Idles bins h g h') ⊎ ((c : ℕ) × (p ≡ c + 16) × Takes bins n h g c h'))

  pub cut-Allocates :
      (n : ℕ) (h : Heap) (g : View) (r : Option ℕ × Heap)
      → 32 ≤ n
      → n % 32 ≡ 0
      → TakesOr bins n h g r
      → Allocates n h g (cut bins n r)
  unfolding cut
  cut-Allocates n h g (none, h₁) low units t = (0, h₁, refl, inl (refl, t))
  cut-Allocates n h g (some c, h₁) low units t =
      let (h', e, k) = trim-Trims bins h₁ t.view c t.size n t.heap t.at low units t.enough in
      (
        c + 16,
        h',
        rw e refl,
        inr (
          c,
          refl,
          record {
            view = k.view;
            size = k.size;
            heap = k.heap;
            at = k.at;
            enough = k.enough;
            new = t.new;
            kept =
                IsKept-trans g.slot (put c nothing t.view.slot) k.view.slot h.words h₁.words
                  h'.words
                  (record {
                    live = λ a s f. (let w = t.kept.live a s f in ground (arith, f, w, t.new s));
                    content = t.kept.content;
                  })
                  k.others;
          },
        ),
      )

  Allocates-after :
      (n : ℕ) (h : Heap) (g : View) (h₁ : Heap) (g₁ : View) (r : Ran (ℕ × Heap))
      → IsKept g.slot g₁.slot h.words h₁.words
      → Allocates n h₁ g₁ r
      → Allocates n h g r
  Allocates-after n h g h₁ g₁ r k (p, h', e, inl (z, t)) =
      (p, h', e, inl (z, Idles-after bins h g h₁ g₁ h' k t))
  Allocates-after n h g h₁ g₁ r k (p, h', e, inr (c, z, t)) =
      (p, h', e, inr (c, z, Takes-after bins n h g h₁ g₁ c h' k t))

  module _ (n i : ℕ) (fits : Fits n i) (low : 32 ≤ n) (units : n % 32 ≡ 0)
      (small : n < 2 ^ 61) where
    search_or_expand-Allocates :
        (h : Heap) (g : View) → IsHeap bins 0 h g → Allocates n h g (search_or_expand bins n i h)
    unfolding search_or_expand
    search_or_expand-Allocates h g v =
        by_cases (search_bins bins (64 - i) i h.binmap h)
          (search_bins-TakesOr bins n i fits (64 - i) i h.binmap h g v (omega arith) (omega arith))
      where
        by_cases :
            (r : Option ℕ × Heap)
            → TakesOr bins n h g r
            → Allocates n h g (elim r.0 [
              | some a ↦ cut bins n (some a, r.1)
              | none ↦ cut bins n (expand_heap n r.1)
            ])
        by_cases (some c, h₁) t = cut-Allocates n h g (some c, h₁) low units t
        by_cases (none, h₁) t = cut-Allocates n h g (expand_heap n h₁) low units (
            TakesOr-after bins n h g h₁ t.view (expand_heap n h₁) t.kept
              (expand_heap-TakesOr bins n h₁ t.view t.heap low small))

    take_or_search-Allocates :
        (h : Heap) (g : View) → IsHeap bins 0 h g → Allocates n h g (take_or_search bins n i h)
    unfolding take_or_search
    take_or_search-Allocates h g v = elim (Bool-cases (ltb i 63 && has_bit h.binmap i)) [
      | inr f ↦ rw f (search_or_expand-Allocates h g v)
      | inl t ↦
          let low_bin : i < 64 = ground (arith, t) in
          let (node', k) = lock_bin-Locks bins 0 h g v i low_bin in
          let h' = lock_bin bins i h in
          let g' : View = record g { node = node' } in
          let c = h'.words (bin_to_chunk bins i + 16) in
          elim (Bool-cases (not (c == bin_to_chunk bins i) && leb (sub64 (chunk_size h' c) n) 16)) [
            | inl close ↦
                let taken =
                  first-Takes bins n i fits i h' g' k.heap (omega arith) low_bin k.ready
                    (ground (arith, close)) in
                rw (t, close)
                  (
                    c + 16,
                    unbin bins c i h',
                    refl,
                    inr (c, refl, Takes-after bins n h g h' g' c (unbin bins c i h') k.kept taken),
                  )
            | inr far ↦
                rw (t, far)
                  (Allocates-after n h g h' g' (search_or_expand bins n i h') k.kept
                    (search_or_expand-Allocates h' g' k.heap))
          ]
    ]

  -- On a heap that keeps the invariant, `malloc` of `n` bytes, for `n` below 2^64, ends, neither crashing nor reading outside the
  -- table of bins. The heap keeps the invariant, every chunk in use stays, and so does its
  -- contents. What `malloc` gives is NULL or the memory of a chunk that was not in use and is now,
  -- with at least `n` bytes behind its header.
  pub malloc-Allocates :
      (n : ℕ) (h : Heap) (g : View)
      → IsHeap bins 0 h g
      → n < 2 ^ 64
      → Allocates (n + 16) h g (malloc bins n h)
  unfolding malloc
  malloc-Allocates n h g v small = elim (adjust_size_least n small) [
    | inl (large, e) ↦ rw (e, malloc) (0, h, refl, inl (refl, unchanged))
    | inr (m, e, units, room, close) ↦ elim (Bool-cases (leb mmap_threshold m)) [
      | inl t ↦ rw (e, t, malloc) (0, h, refl, inl (refl, unchanged))
      | inr f ↦
          let below : m < mmap_threshold = ground (arith, f) in
          let low : 32 ≤ m = omega (arith, units, room) in
          let (i, b, fits) = bin_index_up_fits m low units (omega arith) in
          rw (e, f, b, malloc)
            (enough m room (take_or_search bins m i h)
              (take_or_search-Allocates m i fits low units (omega (arith, below)) h g v))
    ]
  ]
    where
      unchanged : Idles bins h g h
      unchanged = record {
        view = g;
        heap = v;
        kept = record { live = λ a s e. e; content = λ a s q e lo hi. refl };
      }

      enough :
          (m : ℕ) → n + 16 ≤ m → (r : Ran (ℕ × Heap)) → Allocates m h g r → Allocates (n + 16) h g r
      enough m le r (p, h', e, inl z) = (p, h', e, inl z)
      enough m le r (p, h', e, inr (c, z, t)) = (
        p,
        h',
        e,
        inr (
          c,
          z,
          record {
            view = t.view;
            size = t.size;
            heap = t.heap;
            at = t.at;
            enough = omega (arith, le, t.enough);
            new = t.new;
            kept = t.kept;
          },
        ),
      )

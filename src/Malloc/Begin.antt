-- ===== src/Malloc/Begin.antt =====
-- The first use of the allocator by `malloc`.
use ckb_js.Prelude.{
  ℕ, zero, suc, ◌+◌, ◌-◌, ◌*◌, ◌/◌, ◌%◌, ◌^◌, ◌<◌, ◌≤◌, ◌≡◌, ◌⊎◌, refl, sym, ap, ◌∙◌, false, Option,
  none, some, ◌&&◌, arith, inl, inr, Bool-cases, u64, ltb, leb,
}
use mathlib.Core.Path.{subst}
use native.Mathlib.Nat.{zero-div}
use ckb_js.Malloc.{Break, sbrk, program_break, page_rest, mmap_threshold}
use ckb_js.Malloc.Bins.{bin_index_up_fits}
use ckb_js.Malloc.Sizes.{IsBreak, Gives, sbrk-Gives, adjust_size_least}
use ckb_js.Malloc.Heap.{Heap, Ran, done, expand_heap, has_bit}
use ckb_js.Malloc.Alloc.{search_bins, cut, search_or_expand, take_or_search, malloc}
use ckb_js.Malloc.Allocate.{Allocates, cut-Allocates}
use ckb_js.Malloc.Obtain.{expanded, expand_heap_lem}
use ckb_js.Malloc.Fresh.{IsFresh, no_chunks, first_heap, first_grow, first-Takes}

has_bit_zero : (i : ℕ) → has_bit 0 i ≡ false
has_bit_zero i = (let e : 0 / 2 ^ i ≡ 0 = zero-div (2 ^ i) in ground (arith, e))

module _ (bins : ℕ) where
  search_bins_zero : (count j : ℕ) (h : Heap) → search_bins bins count j 0 h ≡ (none, h)
  unfolding search_bins
  search_bins_zero zero j h = refl
  search_bins_zero (suc count) j h =
      rw (has_bit_zero j, search_bins) (search_bins_zero count (j + 1) h)

  -- How the first `malloc` ends: with NULL, the allocator as before; or with a heap.
  abbrev pub Begins : ℕ → Heap → Ran (ℕ × Heap) → Type 0
  Begins n h r =
      ((h' : Heap) × (r ≡ done (0, h')) × IsFresh bins h') ⊎ Allocates bins n h no_chunks r

  cut_nothing : (n : ℕ) (h : Heap) → cut bins n (none, h) ≡ done (0, h)
  unfolding cut
  cut_nothing n h = refl

  expand_heap-Begins :
      (n : ℕ) (h : Heap)
      → IsFresh bins h
      → 32 ≤ n
      → n % 32 ≡ 0
      → n < 2 ^ 61
      → Begins n h (cut bins n (expand_heap n h))
  expand_heap-Begins n h v low units small =
      let size : ℕ = u64 (n + 32 + page_rest (n + 32)) in
      let (gives, brk) = sbrk-Gives size h.brk v.brk (omega arith) in
      subst (λ r. Begins n h (cut bins n r)) (sym (expand_heap_lem bins n h))
        (by_cases size (sbrk size h.brk) (omega arith) (omega arith) (omega arith) gives brk)
    where
      by_cases :
          (size : ℕ) (r : Option ℕ × Break)
          → 64 ≤ size
          → size % 32 ≡ 0
          → n + 32 ≤ size
          → Gives size h.brk r
          → IsBreak r.1
          → Begins n h (cut bins n (expanded bins size h r))
      by_cases size (none, b) large unit enough gives brk = inl (
        record h { brk = b },
        cut_nothing n (record h { brk = b }),
        record {
          no_end = v.no_end;
          no_bins = v.no_bins;
          empty = v.empty;
          brk = brk;
          unit = omega (arith, v.unit, gives.1);
          above = v.above;
          below = omega (arith, v.below, gives.1);
        },
      )
      by_cases size (some p, b) large unit enough gives brk =
          let at : p ≡ program_break h.brk = gives.0 in
          let place : p % 32 ≡ 0 = omega (arith, v.unit, at) in
          let above : bins + 24 * 64 ≤ p = omega (arith, v.below, at) in
          let most : p + size < 2 ^ 62 = omega (arith, gives.2, v.brk.max_small) in
          let t = first-Takes bins h v b p size large unit brk place above gives.3 most in
          let same = first_grow bins h v b p size large unit brk place above gives.3 most in
          inr (
            subst (λ r. Allocates bins n h no_chunks (cut bins n (some r.0, r.1))) (sym same)
              (cut-Allocates bins n h no_chunks
                (
                  some (p + 16),
                  first_heap bins h v b p size large unit brk place above gives.3 most,
                )
                low units
                (record {
                  view = t.view;
                  size = t.size;
                  heap = t.heap;
                  at = t.at;
                  enough = omega (arith, enough, t.enough);
                  new = t.new;
                  kept = t.kept;
                })))

  search_or_expand_fresh :
      (n i : ℕ) (h : Heap)
      → h.binmap ≡ 0
      → search_or_expand bins n i h ≡ cut bins n (expand_heap n h)
  unfolding search_or_expand
  search_or_expand_fresh n i h e =
      ap
        (λ r. elim r.0 [
          | some a ↦ cut bins n (some a, r.1)
          | none ↦ cut bins n (expand_heap n r.1)
        ])
        (ap (λ k. search_bins bins (64 - i) i k h) e ∙ search_bins_zero (64 - i) i h)

  take_or_search_fresh :
      (n i : ℕ) (h : Heap) → h.binmap ≡ 0 → take_or_search bins n i h ≡ cut bins n (expand_heap n h)
  unfolding take_or_search
  take_or_search_fresh n i h e =
      let clear : (ltb i 63 && has_bit h.binmap i) ≡ false = ground (arith, e, has_bit_zero i) in
      rw clear (search_or_expand_fresh n i h e)

  -- From the state before the first region, `malloc` ends with NULL, before the first region
  -- still, or makes a heap with the invariant whose only chunk in use is the one that it gives.
  pub malloc-Begins :
      (n : ℕ) (h : Heap) → IsFresh bins h → n < 2 ^ 64 → Begins (n + 16) h (malloc bins n h)
  unfolding malloc
  malloc-Begins n h v small = elim (adjust_size_least n small) [
    | inl (large, e) ↦ rw (e, malloc) (inl (h, refl, v))
    | inr (m, e, units, room, close) ↦ elim (Bool-cases (leb mmap_threshold m)) [
      | inl t ↦ rw (e, t, malloc) (inl (h, refl, v))
      | inr f ↦
          let below : m < mmap_threshold = ground (arith, f) in
          let low : 32 ≤ m = omega (arith, units, room) in
          let (i, b, fits) = bin_index_up_fits m low units (omega arith) in
          rw (e, f, b, malloc, take_or_search_fresh m i h v.no_bins)
            (enough m room (cut bins m (expand_heap m h))
              (expand_heap-Begins m h v low units (omega (arith, below))))
    ]
  ]
    where
      enough : (m : ℕ) → n + 16 ≤ m → (r : Ran (ℕ × Heap)) → Begins m h r → Begins (n + 16) h r
      enough m le r (inl z) = inl z
      enough m le r (inr (p, h', e, inl z)) = inr (p, h', e, inl z)
      enough m le r (inr (p, h', e, inr (c, z, t))) = inr (
        p,
        h',
        e,
        inr (
          c,
          z,
          record {
            view = t.view;
            size = t.size;
            heap = t.heap;
            at = t.at;
            enough = omega (arith, le, t.enough);
            new = t.new;
            kept = t.kept;
          },
        ),
      )

-- ===== src/Malloc/Find.antt =====
-- The search of the bins keeps the invariant, and what it finds is large enough.
use ckb_js.Prelude.{
  ℕ, zero, suc, ◌+◌, ◌-◌, ◌^◌, ◌<◌, ◌≤◌, ◌≡◌, ◌≢◌, refl, sym, true, false, Option, some, ◌==◌,
  arith, inl, inr, Bool-cases,
}
use mathlib.Core.Path.{subst}
use ckb_js.Malloc.{bin_index}
use ckb_js.Malloc.Heap.{Heap, bin_to_chunk, lock_bin, unbin, has_bit}
use ckb_js.Malloc.Alloc.{search_bins}
use ckb_js.Malloc.Links.{Nodes}
use ckb_js.Malloc.Take.{Locks, lock_bin-Locks}
use ckb_js.Malloc.Unbin.{unbin-IsHeap, taken}
use ckb_js.Malloc.Expand.{Takes, TakesOr, TakesOr-after, Takes-after}
use ckb_js.Malloc.Invariant.{View, IsHeap}

-- Chunks in the bins from `i` on have at least `n` bytes.
abbrev pub Fits : (n i : ℕ) → Type 0
Fits n i = (x j : ℕ) → 32 ≤ x → x < 2 ^ 64 → bin_index x ≡ some j → i ≤ j → n ≤ x

module _ (bins n i : ℕ) (fits : Fits n i) where
  -- The first chunk of a bin.
  pub first-Takes :
      (j : ℕ) (h : Heap) (g : View)
      → IsHeap bins 0 h g
      → i ≤ j
      → j < 64
      → g.node (bin_to_chunk bins j) ≡ some j
      → h.words (bin_to_chunk bins j + 16) ≢ bin_to_chunk bins j
      → Takes bins n h g
          (h.words (bin_to_chunk bins j + 16))
          (unbin bins (h.words (bin_to_chunk bins j + 16)) j h)
  first-Takes j h g v le l ready other =
      let c = h.words (bin_to_chunk bins j + 16) in
      let here : g.node c ≡ some j = v.linked.next_node (bin_to_chunk bins j) j ready in
      elim (v.lists.in_bin c j here) [
        | inl p ↦ absurd (other p.0)
        | inr (s, e, b) ↦
            let (heap, kept) = unbin-IsHeap bins 0 h g v c s j e here in
            record {
              view = taken bins 0 h g v c s j e here;
              size = s;
              heap = heap;
              at = ground arith;
              enough =
                  fits s j (omega (arith, v.tiled.aligned c s false e))
                    (omega (arith, v.small, v.tiled.inside c s false e)) b le;
              new = λ t f. ground (arith, e, f);
              kept = kept;
            }
      ]

  -- One turn of the loop, with the bin locked, and `rest` for the turns behind it.
  turn-TakesOr :
      (j : ℕ) (h : Heap) (g : View) (v : IsHeap bins 0 h g) (rest : Heap → Option ℕ × Heap)
      → i ≤ j
      → j < 64
      → ((h' : Heap) (g' : View) → IsHeap bins 0 h' g' → TakesOr bins n h' g' (rest h'))
      → (node' : Nodes) → Locks bins 0 h g v j (lock_bin bins j h) node'
      → TakesOr bins n h g
          (elim ((lock_bin bins j h).words (bin_to_chunk bins j + 16) == bin_to_chunk bins j) [
            | false ↦ (
              some ((lock_bin bins j h).words (bin_to_chunk bins j + 16)),
              unbin bins
                  ((lock_bin bins j h).words (bin_to_chunk bins j + 16))
                  j
                  (lock_bin bins j h),
            )
            | true ↦ rest (lock_bin bins j h)
          ])
  turn-TakesOr j h g v rest le l again node' k =
      let h' = lock_bin bins j h in
      let g' : View = record g { node = node' } in
      let c = h'.words (bin_to_chunk bins j + 16) in
      elim (Bool-cases (c == bin_to_chunk bins j)) [
        | inl same ↦ rw same (TakesOr-after bins n h g h' g' (rest h') k.kept (again h' g' k.heap))
        | inr other ↦ rw other (
            Takes-after bins n h g h' g' c (unbin bins c j h') k.kept
              (first-Takes j h' g' k.heap le l k.ready (ground (arith, other))))
      ]

  search_set :
      (count j mask : ℕ) (h : Heap)
      → has_bit mask j ≡ true
      → search_bins bins (suc count) j mask h
        ≡ elim ((lock_bin bins j h).words (bin_to_chunk bins j + 16) == bin_to_chunk bins j) [
          | false ↦ (
            some ((lock_bin bins j h).words (bin_to_chunk bins j + 16)),
            unbin bins ((lock_bin bins j h).words (bin_to_chunk bins j + 16)) j (lock_bin bins j h),
          )
          | true ↦ search_bins bins count (j + 1) mask (lock_bin bins j h)
        ]
  unfolding search_bins
  search_set count j mask h t = rw (t, search_bins) refl

  search_clear :
      (count j mask : ℕ) (h : Heap)
      → has_bit mask j ≡ false
      → search_bins bins (suc count) j mask h ≡ search_bins bins count (j + 1) mask h
  unfolding search_bins
  search_clear count j mask h f = rw (f, search_bins) refl

  pub search_bins-TakesOr :
      (count j mask : ℕ) (h : Heap) (g : View)
      → IsHeap bins 0 h g
      → i ≤ j
      → count ≤ 64 - j
      → TakesOr bins n h g (search_bins bins count j mask h)
  unfolding search_bins
  search_bins-TakesOr zero j mask h g v le l = record {
    view = g;
    heap = v;
    kept = record { live = λ a s e. e; content = λ a s q e lo hi. refl };
  }
  search_bins-TakesOr (suc count) j mask h g v le l = elim (Bool-cases (has_bit mask j)) [
    | inl t ↦
        let (node', k) = lock_bin-Locks bins 0 h g v j (omega arith) in
        subst (TakesOr bins n h g) (sym (search_set count j mask h t)) (
          turn-TakesOr j h g v (search_bins bins count (j + 1) mask) le (omega arith)
            (λ h' g' v'.
              search_bins-TakesOr count (j + 1) mask h' g' v' (omega arith) (omega arith))
            node' k)
    | inr f ↦
        subst (TakesOr bins n h g) (sym (search_clear count j mask h f))
          (search_bins-TakesOr count (j + 1) mask h g v (omega arith) (omega arith))
  ]

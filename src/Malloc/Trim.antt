-- ===== src/Malloc/Trim.antt =====
-- Cutting a chunk in use to size keeps the invariant: the rest is a free chunk in its bin.
use ckb_js.Prelude.{
  ℕ, ◌+◌, ◌-◌, ◌%◌, ◌^◌, ◌<◌, ◌≤◌, ◌≡◌, refl, ◌∙◌, true, false, some, arith, inl, inr, leb, sub64,
  lt_or_ge,
}
use ckb_js.Malloc.{bin_index}
use ckb_js.Malloc.Bins.{bin_index_total}
use ckb_js.Malloc.Heap.{Heap, done, bin_chunk, lock_bin, split_chunk, trim, chunk_size}
use ckb_js.Malloc.Layout.{nothing, chunk, Slots, put}
use ckb_js.Malloc.Take.{lock_bin-Locks}
use ckb_js.Malloc.Bin.{bin_chunk-IsHeap, shelved}
use ckb_js.Malloc.Invariant.{View, IsHeap, IsKept, IsKept-trans}
use ckb_js.Malloc.Cut.{halved, rest_fresh, split_chunk-IsHeap, split_chunk-IsKept}

-- A chunk in use that has been cut to size; nothing happens to what is in use besides.
pub record Trims (bins : ℕ) (h : Heap) (g : View) (c n : ℕ) (h' : Heap) : Type 0 where
  pub view : View
  pub size : ℕ
  pub heap : IsHeap bins 0 h' view
  pub at : view.slot c ≡ chunk size true
  pub enough : n ≤ size
  pub others : IsKept (put c nothing g.slot) view.slot h.words h'.words
  pub own : (q : ℕ) → c + 16 ≤ q → q < c + n → h'.words q ≡ h.words q

module _ (bins : ℕ) (h : Heap) (g : View) (c s n : ℕ) (v : IsHeap bins 0 h g)
    (e : g.slot c ≡ chunk s true) (low : 32 ≤ n) (units : n % 32 ≡ 0) where
  without_own :
      (slot' : Slots) (w' : ℕ → ℕ)
      → IsKept (put c (chunk n true) g.slot) slot' h.words w'
      → IsKept (put c nothing g.slot) slot' h.words w'
  without_own slot' w' k = record {
    live = λ a t f. k.live a t (ground (arith, f));
    content = λ a t q f lo hi. k.content a t q (ground (arith, f)) lo hi;
  }

  trimmed :
      (high : n + 32 ≤ s) (i : ℕ)
      → i < 64
      → bin_index (s - n) ≡ some i
      → Trims bins h g c n (bin_chunk bins (c + n) i (lock_bin bins i (split_chunk c n h)))
  trimmed high i l b =
      let split = split_chunk-IsHeap bins h g c s n v e low units high in
      let view = halved bins h g c s n v e low units high in
      let (node', locks) = lock_bin-Locks bins (c + n) (split_chunk c n h) view split i l in
      let fresh =
        locks.same_chunks (c + n) (omega (arith, v.tiled.inside c s true e))
        ∙ rest_fresh bins h g c s n v e low units high in
      let place : view.slot (c + n) ≡ chunk (s - n) false = ground arith in
      let (heap, kept) =
        bin_chunk-IsHeap bins (lock_bin bins i (split_chunk c n h)) (record view { node = node' })
          (c + n) (s - n) i locks.heap place fresh b l locks.ready in
      let all =
        IsKept-trans (put c (chunk n true) g.slot) view.slot view.slot h.words
          (lock_bin bins i (split_chunk c n h)).words
          (bin_chunk bins (c + n) i (lock_bin bins i (split_chunk c n h))).words
          (IsKept-trans (put c (chunk n true) g.slot) view.slot view.slot h.words
            (split_chunk c n h).words (lock_bin bins i (split_chunk c n h)).words
            (split_chunk-IsKept bins h g c s n v e low units high) locks.kept)
          kept in
      record {
        view =
            shelved bins (lock_bin bins i (split_chunk c n h)) (record view { node = node' })
              (c + n) (s - n) i locks.heap place fresh b l locks.ready;
        size = n;
        heap = heap;
        at = ground arith;
        enough = omega arith;
        others =
            without_own view.slot
              (bin_chunk bins (c + n) i (lock_bin bins i (split_chunk c n h))).words all;
        own = λ q lo hi. all.content c n q (ground arith) lo hi;
      }

  -- Cutting a chunk in use, of at least the size, keeps the invariant.
  pub trim-Trims : n ≤ s → (h' : Heap) × (trim bins c n h ≡ done h') × Trims bins h g c n h'
  unfolding trim
  trim-Trims fits =
      let (size, small) = sized_chunk in
      elim (lt_or_ge (n + 16) s) [
        | inr tight ↦ (
          h,
          ground (arith, size, small, v.tiled.aligned c s true e),
          record {
            view = g;
            size = s;
            heap = v;
            at = e;
            enough = fits;
            others = record { live = λ a t f. ground (arith, f); content = λ a t q f lo hi. refl };
            own = λ q lo hi. refl;
          },
        )
        | inl room ↦
            let high : n + 32 ≤ s = omega (arith, room, units, v.tiled.aligned c s true e) in
            let (i, j, b, b', le, most) =
              bin_index_total (s - n) (s - n) (omega arith) (omega arith) (omega (arith, small)) in
            let rest : sub64 (chunk_size h c) n ≡ s - n = omega (arith, size, small) in
            let test : leb (sub64 (chunk_size h c) 16) n ≡ false = ground (arith, size, small) in
            (
              bin_chunk bins (c + n) i (lock_bin bins i (split_chunk c n h)),
              rw (test, rest, b) refl,
              trimmed high i (omega (arith, le, most)) b,
            )
      ]
    where
      sized_chunk : (chunk_size h c ≡ s) × (s < 2 ^ 62)
      sized_chunk = (
        ground (arith, v.tags.header c s true e, v.tiled.aligned c s true e),
        omega (arith, v.small, v.tiled.inside c s true e),
      )

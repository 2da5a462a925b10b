-- ===== src/Malloc/Merging.antt =====
-- Merging a chunk that is freed with its free neighbours.
use ckb_js.Prelude.{
  ℕ, ◌+◌, ◌<◌, ◌≡◌, ◌≢◌, refl, sym, ap, ◌∙◌, Bool, true, false, some, arith, inl, inr,
}
use ckb_js.Malloc.{bin_index}
use ckb_js.Malloc.Bins.{bin_index_total}
use ckb_js.Malloc.Heap.{Heap, lock_bin, unbin}
use ckb_js.Malloc.Alloc.{Merge}
use ckb_js.Malloc.Links.{Nodes, remove}
use ckb_js.Malloc.Layout.{nothing, chunk, Slots, put, IsTiled}
use ckb_js.Malloc.Growth.{joined, IsTiled-join}
use ckb_js.Malloc.Take.{lock_bin-Locks}
use ckb_js.Malloc.Unbin.{unbin-IsHeap}
use ckb_js.Malloc.Invariant.{View, IsHeap, IsKept, IsKept-trans}

module _ (bins : ℕ) where
  -- Taking a free chunk out of the bin of its size.
  pub record Pulls (h : Heap) (g : View) (c s i : ℕ) : Type 0 where
    pub index : bin_index s ≡ some i
    pub node : Nodes
    pub locked : IsHeap bins 0 (lock_bin bins i h) (record g { node = node })
    pub pulled :
        IsHeap bins 0
          (unbin bins c i (lock_bin bins i h))
          (record g { slot = put c (chunk s true) g.slot; node = remove c node })
    pub kept :
        IsKept g.slot
          (put c (chunk s true) g.slot)
          h.words
          (unbin bins c i (lock_bin bins i h)).words

  pub free-Pulls :
      (h : Heap) (g : View) (c s : ℕ)
      → IsHeap bins 0 h g
      → g.slot c ≡ chunk s false
      → (i : ℕ) × Pulls h g c s i
  free-Pulls h g c s v e = elim (v.lists.binned c s e) [
    | inl zero ↦ absurd (omega (arith, zero, v.tiled.aligned c s false e))
    | inr (i, n) ↦ elim (v.lists.in_bin c i n) [
      | inl p ↦
          absurd (
            omega
              (arith, v.lists.below, p, v.tiled.inside c s false e, v.tiled.aligned c s false e))
      | inr (t, f, b) ↦
          let same : t ≡ s = ground (arith, e, f) in
          let b' : bin_index s ≡ some i = ap bin_index (sym same) ∙ b in
          let (i', j', b₁, b₂, le, most) =
            bin_index_total s s (omega (arith, v.tiled.aligned c s false e)) (omega arith)
              (omega (arith, v.small, v.tiled.inside c s false e)) in
          let low : i < 64 = ground (arith, b', b₁, le, most) in
          let (node', k) = lock_bin-Locks bins 0 h g v i low in
          let n' : node' c ≡ some i =
            k.same_chunks c (omega (arith, v.tiled.inside c s false e)) ∙ n in
          let (heap, kept) =
            unbin-IsHeap bins 0 (lock_bin bins i h) (record g { node = node' }) k.heap c s i e n' in
          (
            i,
            record {
              index = b';
              node = node';
              locked = k.heap;
              pulled = heap;
              kept =
                  IsKept-trans g.slot g.slot (put c (chunk s true) g.slot) h.words
                    (lock_bin bins i h).words (unbin bins c i (lock_bin bins i h)).words k.kept
                    kept;
            },
          )
    ]
  ]

  -- The state of a merge: the chunks from `self` to `next` are in use and count as one.
  pub record Merging (h₀ : Heap) (g₀ : View) (c₀ : ℕ) (m : Merge bins) : Type 0 where
    pub view : View
    pub heap : IsHeap bins 0 m.heap view
    pub slots : Slots
    pub tiled : IsTiled slots view.first view.top
    pub at : slots m.self ≡ chunk m.size true
    pub behind : m.next ≡ m.self + m.size
    pub same : (a t : ℕ) (u : Bool) → slots a ≡ chunk t u → a ≢ m.self → view.slot a ≡ chunk t u
    pub free : (a t : ℕ) → view.slot a ≡ chunk t false → slots a ≡ chunk t false
    pub gone : (t : ℕ) (u : Bool) → slots c₀ ≡ chunk t u → c₀ ≡ m.self
    pub kept : IsKept (put c₀ nothing g₀.slot) (put m.self nothing slots) h₀.words m.heap.words

  module _ (h₀ : Heap) (g₀ : View) (c₀ : ℕ) (m : Merge bins) (k : Merging h₀ g₀ c₀ m) (d s i : ℕ)
      (e : k.view.slot d ≡ chunk s false) (p : Pulls m.heap k.view d s i) where
    pub merge_next-Merging :
        d ≡ m.next
        → Merging h₀ g₀ c₀ (record m {
          next = m.next + s;
          size = m.size + s;
          heap = unbin bins d i (lock_bin bins i m.heap);
        })
    merge_next-Merging here =
        let place : k.slots (m.self + m.size) ≡ chunk s false =
          ap k.slots (sym (here ∙ k.behind)) ∙ k.free d s e in
        record {
          view = record k.view { slot = put d (chunk s true) k.view.slot; node = remove d p.node };
          heap = p.pulled;
          slots =
              joined k.slots k.view.first k.view.top m.self m.size s true false true k.tiled k.at
                place;
          tiled =
              IsTiled-join k.slots k.view.first k.view.top m.self m.size s true false true k.tiled
                k.at place;
          at = ground (arith, k.tiled.aligned m.self m.size true k.at);
          behind = omega (arith, k.behind);
          same = λ a t u f n. ground (arith, f, n, here, k.behind, k.same a t u);
          free = λ a t f. ground (arith, f, here, k.behind, k.at, k.free a t);
          gone = λ t u f. ground (arith, f, k.gone t u);
          kept =
              IsKept-trans (put c₀ nothing g₀.slot) (put m.self nothing k.slots)
                (put m.self nothing (
                  joined k.slots k.view.first k.view.top m.self m.size s true false true k.tiled
                    k.at place))
                h₀.words m.heap.words (unbin bins d i (lock_bin bins i m.heap)).words k.kept
                (record {
                  live = λ a t f. ground (arith, f, here, k.behind, k.free d s e);
                  content = λ a t q f lo hi.
                      p.kept.content a t q (k.same a t true (ground (arith, f)) (ground (arith, f)))
                        lo hi;
                });
        }

    pub merge_prev-Merging :
        d + s ≡ m.self
        → (k' : Merging h₀ g₀ c₀ (record m {
          self = d;
          size = m.size + s;
          heap = unbin bins d i (lock_bin bins i m.heap);
        }))
          × (k'.view.slot ≡ put d (chunk s true) k.view.slot)
    merge_prev-Merging here =
        let place : k.slots (d + s) ≡ chunk m.size true = ap k.slots here ∙ k.at in
        (
          record {
            view = record k.view {
              slot = put d (chunk s true) k.view.slot;
              node = remove d p.node;
            };
            heap = p.pulled;
            slots =
                joined k.slots k.view.first k.view.top d s m.size false true true k.tiled
                  (k.free d s e) place;
            tiled =
                IsTiled-join k.slots k.view.first k.view.top d s m.size false true true k.tiled
                  (k.free d s e) place;
            at = ground (arith, k.tiled.aligned d s false (k.free d s e));
            behind = omega (arith, k.behind, here);
            same = λ a t u f n. ground (arith, f, n, here, k.same a t u);
            free = λ a t f. ground (arith, f, here, k.at, k.free a t);
            gone = λ t u f. ground (arith, f, here, k.gone t u);
            kept =
                IsKept-trans (put c₀ nothing g₀.slot) (put m.self nothing k.slots)
                  (put d nothing (
                    joined k.slots k.view.first k.view.top d s m.size false true true k.tiled
                      (k.free d s e) place))
                  h₀.words m.heap.words (unbin bins d i (lock_bin bins i m.heap)).words k.kept
                  (record {
                    live = λ a t f. ground (arith, f, here, k.free d s e);
                    content = λ a t q f lo hi.
                        p.kept.content a t q
                          (k.same a t true (ground (arith, f)) (ground (arith, f))) lo hi;
                  });
          },
          refl,
        )

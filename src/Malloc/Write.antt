-- ===== src/Malloc/Write.antt =====
-- A client that writes into its block keeps the invariant.
use ckb_js.Prelude.{ℕ, ◌+◌, ◌≤◌, ◌≡◌, ◌≢◌, Bool, true, false, arith, inl, inr}
use ckb_js.Malloc.Heap.{Heap, store}
use ckb_js.Malloc.Layout.{chunk}
use ckb_js.Malloc.Invariant.{View, IsHeap, IsLinked-frame}

module _ (bins : ℕ) (h : Heap) (g : View) (v : IsHeap bins 0 h g) (c t a x : ℕ)
    (e : g.slot c ≡ chunk t true) (low : c + 16 ≤ a) (high : a + 8 ≤ c + t) where
  no_tag : (q : ℕ) (d s : ℕ) (u : Bool) → g.slot d ≡ chunk s u → (d + 8 ≢ a) × (d + s ≢ a)
  no_tag q d s u f = (
    ground (
      arith,
      low,
      high,
      e,
      f,
      v.tiled.apart c t d s true u e f,
      v.tiled.apart d s c t u true f e,
      v.tiled.aligned d s u f,
      v.tiled.aligned c t true e,
    ),
    ground (
      arith,
      low,
      high,
      e,
      f,
      v.tiled.apart c t d s true u e f,
      v.tiled.apart d s c t u true f e,
      v.tiled.aligned d s u f,
      v.tiled.aligned c t true e,
    ),
  )

  pub written-IsHeap : IsHeap bins 0 (store a x h) g
  written-IsHeap = record {
    tiled = v.tiled;
    tags = record {
      header = λ d s u f. ground (arith, no_tag a d s u f, v.tags.header d s u f);
      footer = λ d s u f. ground (arith, no_tag a d s u f, v.tags.footer d s u f);
      prologue = ground (arith, v.tags.prologue, low, v.tiled.inside c t true e);
      sentinel = ground (arith, v.tags.sentinel, high, v.tiled.inside c t true e);
    };
    linked =
        IsLinked-frame h.words (store a x h).words g.node
          (λ b j f. elim (v.lists.in_bin b j f) [
            | inl p ↦ (
              ground (arith, p, low, v.lists.below, v.tiled.inside c t true e),
              ground (arith, p, low, v.lists.below, v.tiled.inside c t true e),
            )
            | inr (s, p, q) ↦ (
              ground (
                arith,
                low,
                high,
                v.tiled.apart c t b s true false e p,
                v.tiled.apart b s c t false true p e,
                v.tiled.aligned b s false p,
                e,
                p,
              ),
              ground (
                arith,
                low,
                high,
                v.tiled.apart c t b s true false e p,
                v.tiled.apart b s c t false true p e,
                v.tiled.aligned b s false p,
                e,
                p,
              ),
            )
          ])
          v.linked;
    lists = record {
      in_bin = v.lists.in_bin;
      binned = v.lists.binned;
      unused = λ i l f.
          ground (arith, v.lists.unused i l f, low, v.lists.below, v.tiled.inside c t true e);
      out = v.lists.out;
      above = v.lists.above;
      below = v.lists.below;
    };
    at_end = v.at_end;
    brk = v.brk;
    break_at = v.break_at;
    small = v.small;
  }

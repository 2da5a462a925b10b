-- ===== src/Malloc/Take.antt =====
-- Using a bin for the first time, and taking a chunk out of its bin, keep the invariant.
use ckb_js.Prelude.{
  ℕ, ◌+◌, ◌<◌, ◌≤◌, ◌≡◌, refl, sym, ap, ◌∙◌, true, none, some, ◌==◌, arith, inl, inr, Bool-cases,
  Option-cases,
}
use mathlib.Core.Path.{subst}
use ckb_js.Malloc.Heap.{Heap, bin_to_chunk, lock_bin}
use ckb_js.Malloc.Links.{Nodes, insert}
use ckb_js.Malloc.Insert.{emptied, IsLinked-emptied}
use ckb_js.Malloc.Invariant.{
  View, IsBinned, IsHeap, HasTags-frame, top_aligned, node-IsLink, bin-IsApart, bin_own, IsKept,
}

module _ (bins limbo : ℕ) (h : Heap) (g : View) (v : IsHeap bins limbo h g) where
  -- What locking a bin makes of the view.
  pub record Locks (i : ℕ) (h' : Heap) (node' : Nodes) : Type 0 where
    pub heap : IsHeap bins limbo h' (record g { node = node' })
    pub ready : node' (bin_to_chunk bins i) ≡ some i
    pub same_chunks : (c : ℕ) → g.first ≤ c → node' c ≡ g.node c
    pub kept : IsKept g.slot g.slot h.words h'.words

  emptied_lists :
      (i : ℕ)
      → i < 64
      → g.node (bin_to_chunk bins i) ≡ none
      → IsBinned bins limbo
          (emptied h.words (bin_to_chunk bins i))
          (record g { node = insert (bin_to_chunk bins i) i g.node })
  emptied_lists i l e = record {
    in_bin = λ a j f. elim (Bool-cases (a == bin_to_chunk bins i)) [
      | inl here ↦ inl (ground (arith, here, f, l))
      | inr other ↦ v.lists.in_bin a j (ground (arith, f, other))
    ];
    binned = λ c s f. elim (v.lists.binned c s f) [
      | inl out ↦ inl out
      | inr (j, b) ↦ inr (j, ground (arith, b, e))
    ];
    unused = λ j m f. ground (arith, v.lists.unused j m, v.lists.above, f);
    out = elim v.lists.out [
      | inl zero ↦ inl zero
      | inr (m, n) ↦ inr (m, ground (arith, n, v.lists.below, v.lists.above))
    ];
    above = v.lists.above;
    below = v.lists.below;
  }

  lock_emptied :
      (i : ℕ)
      → i < 64
      → g.node (bin_to_chunk bins i) ≡ none
      → lock_bin bins i h ≡ record h { words = emptied h.words (bin_to_chunk bins i) }
  unfolding lock_bin
  lock_emptied i l e = rw (v.lists.unused i l e) refl

  lock_ready : (i : ℕ) → i < 64 → g.node (bin_to_chunk bins i) ≡ some i → lock_bin bins i h ≡ h
  unfolding lock_bin
  lock_ready i l e = ground (
    arith,
    node-IsLink bins limbo h g v (h.words (bin_to_chunk bins i + 16)) i
        (v.linked.next_node (bin_to_chunk bins i) i e),
  )

  pub lock_bin-Locks : (i : ℕ) → i < 64 → (node' : Nodes) × Locks i (lock_bin bins i h) node'
  lock_bin-Locks i l = elim (Option-cases (g.node (bin_to_chunk bins i))) [
    | inl e ↦ (
      insert (bin_to_chunk bins i) i g.node,
      subst (λ h'. Locks i h' (insert (bin_to_chunk bins i) i g.node)) (sym (lock_emptied i l e))
          (record {
            heap = record {
              tiled = v.tiled;
              tags =
                  HasTags-frame h.words (emptied h.words (bin_to_chunk bins i)) g.slot g.first g.top
                    v.tiled (top_aligned bins limbo h g v).1 (top_aligned bins limbo h g v).0
                    (λ q t. ground (arith, t, l, v.lists.below, v.lists.above)) v.tags;
              linked =
                  IsLinked-emptied h.words g.node (bin_to_chunk bins i) i v.linked e
                    (bin-IsApart bins limbo h g v i l);
              lists = emptied_lists i l e;
              at_end = v.at_end;
              brk = v.brk;
              break_at = v.break_at;
              small = v.small;
            };
            ready = ground arith;
            same_chunks = λ c m. ground (arith, v.lists.below, v.lists.above);
            kept = record {
              live = λ a s f. f;
              content = λ a s q f lo hi.
                  ground (arith, v.tiled.inside a s true f, v.lists.below, v.lists.above);
            };
          }),
    )
    | inr (j, e) ↦
        (let own = bin_own bins limbo h g v i j l e in
          let e' : g.node (bin_to_chunk bins i) ≡ some i = e ∙ ap some own in
          (
            g.node,
            subst (λ h'. Locks i h' g.node) (sym (lock_ready i l e'))
                (record {
                  heap = v;
                  ready = e';
                  same_chunks = λ c m. refl;
                  kept = record { live = λ a s f. f; content = λ a s q f lo hi. refl };
                }),
          ))
  ]

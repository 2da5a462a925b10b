-- ===== src/Malloc/Bin.antt =====
-- Putting a free chunk into its bin keeps the invariant.
use ckb_js.Prelude.{
  ℕ, ◌+◌, ◌<◌, ◌≤◌, ◌≡◌, ◌≢◌, refl, sym, ap, ◌∙◌, true, false, none, some, ◌==◌, arith, inl, inr,
  Bool-cases,
}
use mathlib.Core.Path.{subst, fun_ext}
use ckb_js.Malloc.{bin_index, program_break}
use ckb_js.Malloc.Sizes.{IsBreak}
use ckb_js.Malloc.Heap.{Heap, bin_to_chunk, bin_chunk, store}
use ckb_js.Malloc.Links.{IsLinked, insert}
use ckb_js.Malloc.Insert.{linked, IsLinked-insert}
use ckb_js.Malloc.Layout.{chunk}
use ckb_js.Malloc.Invariant.{
  HasTags, View, IsBinned, IsHeap, IsTag, HasTags-frame, top_aligned, node-IsLink, chunk-IsApart,
  bin-IsApart, link_not_tag, IsKept,
}

module _ (bins : ℕ) (h : Heap) (g : View) (c s i : ℕ) (v : IsHeap bins c h g)
    (e : g.slot c ≡ chunk s false) (fresh : g.node c ≡ none) (size : bin_index s ≡ some i)
    (low : i < 64) (ready : g.node (bin_to_chunk bins i) ≡ some i) where
  abbrev pub shelved : View
  shelved = record g { node = insert c i g.node }

  abbrev last : ℕ
  last = h.words (bin_to_chunk bins i + 24)

  last_node : g.node last ≡ some i
  last_node = v.linked.prev_node (bin_to_chunk bins i) i ready

  bin_chunk_words :
      (q : ℕ) → (bin_chunk bins c i h).words q ≡ linked h.words (bin_to_chunk bins i) c q
  unfolding bin_chunk
  bin_chunk_words q = ground (
    arith,
    fresh,
    ready,
    last_node,
    chunk-IsApart bins c h g v c s false e (bin_to_chunk bins i) i ready,
    chunk-IsApart bins c h g v c s false e last i last_node,
    v.linked.apart (bin_to_chunk bins i) last i i ready last_node,
  )

  bin_chunk_rest : ((bin_chunk bins c i h).end ≡ h.end) × ((bin_chunk bins c i h).brk ≡ h.brk)
  unfolding bin_chunk
  bin_chunk_rest =
      elim (Bool-cases
        ((store (last' + 16) c (store (next' + 24) c h₂)).words (c + 24) == bin_to_chunk bins i)) [
          | inl t ↦ rw t (refl, refl)
          | inr f ↦ rw f (refl, refl)
        ]
    where
      h₁ : Heap
      h₁ = store (c + 16) (bin_to_chunk bins i) h

      h₂ : Heap
      h₂ = store (c + 24) (h₁.words (bin_to_chunk bins i + 24)) h₁

      next' : ℕ
      next' = h₂.words (c + 16)

      last' : ℕ
      last' = (store (next' + 24) c h₂).words (c + 24)

  linked_tag : (q : ℕ) → IsTag g.first q → linked h.words (bin_to_chunk bins i) c q ≡ h.words q
  linked_tag q t = ground (
    arith,
    t,
    v.lists.below,
    v.lists.above,
    v.tiled.aligned c s false e,
    link_not_tag g.first (last + 16) q (node-IsLink bins c h g v last i last_node).0 t,
  )

  linked_lists : IsBinned bins 0 (linked h.words (bin_to_chunk bins i) c) shelved
  linked_lists = record {
    in_bin = λ a j f. elim (Bool-cases (a == c)) [
      | inl here ↦ inr (s, ground (arith, here, e), ground (arith, here, f, size))
      | inr other ↦ v.lists.in_bin a j (ground (arith, f, other))
    ];
    binned = λ a t f. elim (Bool-cases (a == c)) [
      | inl here ↦ inr (i, ground (arith, here))
      | inr other ↦ elim (v.lists.binned a t f) [
        | inl out ↦ absurd (ground (arith, out, other))
        | inr (j, b) ↦ inr (j, ground (arith, b, other))
      ]
    ];
    unused = λ j m f. ground (
      arith,
      f,
      v.lists.unused j m,
      v.lists.below,
      v.lists.above,
      v.tiled.inside c s false e,
      last_node,
      ready,
      bin-IsApart bins c h g v j m (bin_to_chunk bins i) i ready,
    );
    out = inl refl;
    above = v.lists.above;
    below = v.lists.below;
  }

  linked-IsKept : IsKept g.slot g.slot h.words (linked h.words (bin_to_chunk bins i) c)
  linked-IsKept = record {
    live = λ a t f. f;
    content = λ a t q f lo hi. ground (
      arith,
      f,
      e,
      v.lists.below,
      v.lists.above,
      v.tiled.inside a t true f,
      v.tiled.apart a t c s true false f e,
      v.tiled.apart c s a t false true e f,
      v.tiled.aligned c s false e,
      not_last a t q f lo hi,
    );
  }
    where
      not_last : (a t q : ℕ) → g.slot a ≡ chunk t true → a + 16 ≤ q → q < a + t → q ≢ last + 16
      not_last a t q f lo hi = elim (v.lists.in_bin last i last_node) [
        | inl p ↦ omega (arith, v.lists.below, v.lists.above, v.tiled.inside a t true f)
        | inr (r, p, b) ↦ ground (
          arith,
          v.tiled.apart a t last r true false f p,
          v.tiled.apart last r a t false true p f,
          v.tiled.aligned last r false p,
          f,
          p,
        )
      ]

  -- A free chunk that is put into its bin is in no limbo any more; the invariant holds.
  pub bin_chunk-IsHeap :
      IsHeap bins 0 (bin_chunk bins c i h) shelved
      × IsKept g.slot g.slot h.words (bin_chunk bins c i h).words
  bin_chunk-IsHeap =
      let same = fun_ext bin_chunk_words in
      let (low_top, top_unit) = top_aligned bins c h g v in
      (
        record {
          tiled = v.tiled;
          tags =
              subst (λ w. HasTags w g.slot g.first g.top) (sym same)
                (HasTags-frame h.words (linked h.words (bin_to_chunk bins i) c) g.slot g.first g.top
                  v.tiled top_unit low_top linked_tag v.tags);
          linked =
              subst (λ w. IsLinked w shelved.node) (sym same)
                (IsLinked-insert h.words g.node (bin_to_chunk bins i) c i v.linked ready fresh
                  (chunk-IsApart bins c h g v c s false e));
          lists = subst (λ w. IsBinned bins 0 w shelved) (sym same) linked_lists;
          at_end = bin_chunk_rest.0 ∙ v.at_end;
          brk = subst IsBreak (sym bin_chunk_rest.1) v.brk;
          break_at = ap program_break bin_chunk_rest.1 ∙ v.break_at ∙ sym bin_chunk_rest.0;
          small = v.small;
        },
        subst (IsKept g.slot g.slot h.words) (sym same) linked-IsKept,
      )

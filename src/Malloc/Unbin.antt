-- ===== src/Malloc/Unbin.antt =====
-- Taking a chunk out of its bin keeps the invariant, and the chunk is in use then.
use ckb_js.Prelude.{
  ℕ, ◌+◌, ◌<◌, ◌≤◌, ◌≡◌, ◌≢◌, ◌⊎◌, refl, sym, ap, ◌∙◌, Bool, true, false, some, ◌==◌, if◌then◌else◌,
  arith, inl, inr, Bool-cases,
}
use mathlib.Core.Path.{subst, fun_ext}
use ckb_js.Malloc.{program_break}
use ckb_js.Malloc.Sizes.{IsBreak}
use ckb_js.Malloc.Heap.{Heap, unlink, unbin, set_used, even_part, store, next_chunk}
use ckb_js.Malloc.Links.{IsLinked, unlinked, remove, IsLinked-remove}
use ckb_js.Malloc.Layout.{chunk, put, IsTiled-mark}
use ckb_js.Malloc.Invariant.{
  HasTags, View, IsBinned, IsHeap, IsTag, IsLinked-frame, top_aligned, node-IsLink, bin-IsApart,
  link_not_tag, IsKept,
}

-- The end of `unbin`: the chunk is in use.
abbrev mark_used : ℕ → Heap → Heap
mark_used c k =
    let h₂ = store (c + 8) (set_used (k.words (c + 8))) k in
    store (next_chunk h₂ c) (set_used (h₂.words (next_chunk h₂ c))) h₂

-- The memory behind `unbin`, word by word.
abbrev unbinned : (ℕ → ℕ) → (c s q : ℕ) → ℕ
unbinned w c s q = if q == c + s then s + 1 else if q == c + 8 then s + 1 else unlinked w c q

module _ (bins limbo : ℕ) (h : Heap) (g : View) (v : IsHeap bins limbo h g) (c s i : ℕ)
    (e : g.slot c ≡ chunk s false) (ec : g.node c ≡ some i) where
  unlink_words : (q : ℕ) → (unlink bins c i h).words q ≡ unlinked h.words c q
  unfolding unlink
  unlink_words q = ground (
    arith,
    v.linked.prev_next c i ec,
    v.linked.apart c (h.words (c + 24)) i i ec (v.linked.prev_node c i ec),
  )

  -- Tags are not touched by taking the chunk out of its list.
  unlinked_tag : (q : ℕ) → IsTag g.first q → unlinked h.words c q ≡ h.words q
  unlinked_tag q t = ground (
    arith,
    link_not_tag g.first (h.words (c + 16) + 24) q
        (node-IsLink bins limbo h g v (h.words (c + 16)) i (v.linked.next_node c i ec)).1 t,
    link_not_tag g.first (h.words (c + 24) + 16) q
        (node-IsLink bins limbo h g v (h.words (c + 24)) i (v.linked.prev_node c i ec)).0 t,
  )

  chunk_tags : IsTag g.first (c + 8) × IsTag g.first (c + s)
  chunk_tags = (
    (omega (arith, v.tiled.inside c s false e), inr (omega (arith, v.tiled.aligned c s false e))),
    (omega (arith, v.tiled.inside c s false e), inl (omega (arith, v.tiled.aligned c s false e))),
  )

  chunk_words : (unlink bins c i h).words (c + 8) ≡ s
  chunk_words = unlink_words (c + 8) ∙ unlinked_tag (c + 8) chunk_tags.0 ∙ v.tags.header c s false e

  foot_words : (unlink bins c i h).words (c + s) ≡ s
  foot_words = unlink_words (c + s) ∙ unlinked_tag (c + s) chunk_tags.1 ∙ v.tags.footer c s false e

  marked :
      (k : Heap) (q : ℕ)
      → k.words (c + 8) ≡ s
      → k.words (c + s) ≡ s
      → (mark_used c k).words q
        ≡ (if q == c + s then s + 1 else if q == c + 8 then s + 1 else k.words q)
  marked k q head foot =
      let even : set_used s ≡ s + 1 = omega (arith, v.tiled.aligned c s false e) in
      let part : even_part (s + 1) ≡ s = omega (arith, v.tiled.aligned c s false e) in
      ground (arith, v.tiled.aligned c s false e)

  unbin_words : (q : ℕ) → (unbin bins c i h).words q ≡ unbinned h.words c s q
  unfolding unbin
  unbin_words q =
      marked (unlink bins c i h) q chunk_words foot_words
      ∙ ap (λ r. if q == c + s then s + 1 else if q == c + 8 then s + 1 else r) (unlink_words q)

  chunk_apart : (a t : ℕ) (u : Bool) → g.slot a ≡ chunk t u → a ≢ c → (a + t ≤ c) ⊎ (c + s ≤ a)
  chunk_apart a t u f other =
      ground (arith, v.tiled.apart c s a t false u e f, v.tiled.apart a t c s u false f e)

  abbrev pub taken : View
  taken = record g { slot = put c (chunk s true) g.slot; node = remove c g.node }

  unbinned_tags : HasTags (unbinned h.words c s) taken.slot g.first g.top
  unbinned_tags = record {
    header = λ a t u f. elim (Bool-cases (a == c)) [
      | inl here ↦ ground (arith, here, f, v.tiled.aligned c s false e)
      | inr other ↦
          (let f' : g.slot a ≡ chunk t u = ground (arith, f, other) in
            ground (
              arith,
              other,
              unlinked_tag (a + 8) (
                omega (arith, v.tiled.inside a t u f'),
                inr (omega (arith, v.tiled.aligned a t u f')),
              ),
              v.tags.header a t u f',
              v.tiled.aligned a t u f',
              v.tiled.aligned c s false e,
            ))
    ];
    footer = λ a t u f. elim (Bool-cases (a == c)) [
      | inl here ↦ ground (arith, here, f, v.tiled.aligned c s false e)
      | inr other ↦
          (let f' : g.slot a ≡ chunk t u = ground (arith, f, other) in
            ground (
              arith,
              other,
              unlinked_tag (a + t) (
                omega (arith, v.tiled.inside a t u f'),
                inl (omega (arith, v.tiled.aligned a t u f')),
              ),
              v.tags.footer a t u f',
              v.tiled.aligned a t u f',
              v.tiled.aligned c s false e,
              chunk_apart a t u f',
            ))
    ];
    prologue = ground (
      arith,
      unlinked_tag g.first (omega arith, inl v.tiled.first_aligned),
      v.tags.prologue,
      v.tiled.inside c s false e,
      v.tiled.aligned c s false e,
      v.tiled.first_aligned,
    );
    sentinel = ground (
      arith,
      unlinked_tag (g.top + 8) (
        omega (arith, top_aligned bins limbo h g v),
        inr (omega (arith, top_aligned bins limbo h g v)),
      ),
      v.tags.sentinel,
      v.tiled.inside c s false e,
      v.tiled.aligned c s false e,
      top_aligned bins limbo h g v,
    );
  }

  unbinned_links : IsLinked (unbinned h.words c s) taken.node
  unbinned_links =
      IsLinked-frame (unlinked h.words c) (unbinned h.words c s) (remove c g.node)
        (λ a j f.
          let f' : g.node a ≡ some j = ground (arith, f) in
          let (n, p, q) = node-IsLink bins limbo h g v a j f' in
          (
            ground (
              arith,
              link_not_tag g.first (a + 16) (c + s) n chunk_tags.1,
              link_not_tag g.first (a + 16) (c + 8) n chunk_tags.0,
            ),
            ground (
              arith,
              link_not_tag g.first (a + 24) (c + s) p chunk_tags.1,
              link_not_tag g.first (a + 24) (c + 8) p chunk_tags.0,
            ),
          ))
        (IsLinked-remove h.words g.node c i v.linked ec)

  unbinned_lists : IsBinned bins limbo (unbinned h.words c s) taken
  unbinned_lists = record {
    in_bin = λ a j f.
        let f' : g.node a ≡ some j = ground (arith, f) in
        let n : (a == c) ≡ false = ground (arith, f) in
        elim (v.lists.in_bin a j f') [ inl p ↦ inl p | inr (t, d, b) ↦ inr (t, rw n d, b) ];
    binned = λ a t f.
        let n : (a == c) ≡ false = ground (arith, f) in
        elim (v.lists.binned a t (ground (arith, f, n))) [
          | inl out ↦ inl out
          | inr (j, b) ↦ inr (j, rw n b)
        ];
    unused = λ j m f. ground (
      arith,
      f,
      v.lists.unused j m,
      v.lists.below,
      v.lists.above,
      v.tiled.inside c s false e,
      v.linked.next_node c i ec,
      v.linked.prev_node c i ec,
      bin-IsApart bins limbo h g v j m (h.words (c + 16)) i (v.linked.next_node c i ec),
    );
    out = elim v.lists.out [ inl zero ↦ inl zero | inr (m, n) ↦ inr (m, ground (arith, n)) ];
    above = v.lists.above;
    below = v.lists.below;
  }

  abbrev WordsSame : (k : Heap) → Type 0
  WordsSame k = (q : ℕ) → k.words q ≡ unbinned h.words c s q

  unbinned-IsKept : IsKept g.slot taken.slot h.words (unbinned h.words c s)
  unbinned-IsKept = record {
    live = λ a t f. ground (arith, f, e);
    content = λ a t q f lo hi.
        let other : a ≢ c = ground (arith, f, e) in
        ground (
          arith,
          chunk_apart a t true f other,
          untouched a t q f lo hi (h.words (c + 16)) i (v.linked.next_node c i ec),
          untouched a t q f lo hi (h.words (c + 24)) i (v.linked.prev_node c i ec),
          v.tiled.aligned c s false e,
        );
  }
    where
      untouched :
          (a t q : ℕ)
          → g.slot a ≡ chunk t true
          → a + 16 ≤ q
          → q < a + t
          → (d j : ℕ) → g.node d ≡ some j
          → (q ≢ d + 16) × (q ≢ d + 24)
      untouched a t q f lo hi d j n = elim (v.lists.in_bin d j n) [
        | inl p ↦ (
          omega (arith, v.lists.below, v.lists.above, v.tiled.inside a t true f),
          omega (arith, v.lists.below, v.lists.above, v.tiled.inside a t true f),
        )
        | inr (r, p, b) ↦ ground (
          arith,
          v.tiled.apart a t d r true false f p,
          v.tiled.apart d r a t false true p f,
          v.tiled.aligned d r false p,
          f,
          p,
        )
      ]

  unbin_rest : ((unbin bins c i h).end ≡ h.end) × ((unbin bins c i h).brk ≡ h.brk)
  unfolding unbin unlink
  unbin_rest = elim (Bool-cases (h.words (c + 24) == h.words (c + 16))) [
    | inl y ↦ rw y (refl, refl)
    | inr n ↦ rw n (refl, refl)
  ]

  -- Taking a free chunk out of its bin makes it a chunk in use, keeps every other one, and keeps
  -- the invariant.
  pub unbin-IsHeap :
      IsHeap bins limbo (unbin bins c i h) taken
      × IsKept g.slot taken.slot h.words (unbin bins c i h).words
  unbin-IsHeap =
      let same = fun_ext unbin_words in
      (
        record {
          tiled = IsTiled-mark g.slot g.first g.top c s false true v.tiled e;
          tags = subst (λ w. HasTags w taken.slot g.first g.top) (sym same) unbinned_tags;
          linked = subst (λ w. IsLinked w taken.node) (sym same) unbinned_links;
          lists = subst (λ w. IsBinned bins limbo w taken) (sym same) unbinned_lists;
          at_end = unbin_rest.0 ∙ v.at_end;
          brk = subst IsBreak (sym unbin_rest.1) v.brk;
          break_at = ap program_break unbin_rest.1 ∙ v.break_at ∙ sym unbin_rest.0;
          small = v.small;
        },
        subst (IsKept g.slot taken.slot h.words) (sym same) unbinned-IsKept,
      )

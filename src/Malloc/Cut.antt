-- ===== src/Malloc/Cut.antt =====
-- The headers that `trim` writes keep the invariant, but for the rest, which is in no bin yet.
use ckb_js.Prelude.{
  ℕ, ◌+◌, ◌-◌, ◌%◌, ◌^◌, ◌<◌, ◌≤◌, ◌≡◌, ◌≢◌, sym, ap, ◌∙◌, true, false, none, ◌==◌, if◌then◌else◌,
  arith, inl, inr, Bool-cases, Option-cases,
}
use mathlib.Core.Path.{subst, fun_ext}
use ckb_js.Malloc.Heap.{Heap, split_chunk, chunk_size}
use ckb_js.Malloc.Links.{IsLinked}
use ckb_js.Malloc.Layout.{chunk, put, IsTiled-cut}
use ckb_js.Malloc.Invariant.{
  HasTags, View, IsBinned, IsHeap, IsLinked-frame, top_aligned, node-IsLink, IsKept,
}

-- The memory behind `split_chunk`, word by word.
abbrev split_words : (ℕ → ℕ) → (c s n q : ℕ) → ℕ
split_words w c s n q =
    if q == c + 8
    then n + 1
    else if q == c + s
    then s - n
    else if q == c + n + 8
    then s - n
    else if q == c + n
    then n + 1
    else w q

module _ (bins : ℕ) (h : Heap) (g : View) (c s n : ℕ) (v : IsHeap bins 0 h g)
    (e : g.slot c ≡ chunk s true) (low : 32 ≤ n) (units : n % 32 ≡ 0) (high : n + 32 ≤ s) where
  sized : (chunk_size h c ≡ s) × (s < 2 ^ 62)
  sized = (
    ground (arith, v.tags.header c s true e, v.tiled.aligned c s true e),
    omega (arith, v.small, v.tiled.inside c s true e),
  )

  abbrev pub halved : View
  halved = record g { slot = put (c + n) (chunk (s - n) false) (put c (chunk n true) g.slot) }

  split_chunk_words : (q : ℕ) → (split_chunk c n h).words q ≡ split_words h.words c s n q
  unfolding split_chunk
  split_chunk_words q = ground (arith, sized, v.tiled.aligned c s true e)

  split_tag :
      (q : ℕ)
      → q ≢ c + 8
      → q ≢ c + s
      → q ≢ c + n + 8
      → q ≢ c + n
      → split_words h.words c s n q ≡ h.words q
  split_tag q a b d f = ground (arith)

  halved_tags : HasTags (split_words h.words c s n) halved.slot g.first g.top
  halved_tags = record {
    header = λ a t u f. ground (
      arith,
      f,
      low,
      units,
      high,
      v.tags.header a t u,
      v.tiled.aligned a t u,
      v.tiled.aligned c s true e,
      v.tiled.apart c s a t true u e,
      v.tiled.apart a t c s u true,
    );
    footer = λ a t u f. ground (
      arith,
      f,
      low,
      units,
      high,
      v.tags.footer a t u,
      v.tiled.aligned a t u,
      v.tiled.aligned c s true e,
      v.tiled.apart c s a t true u e,
      v.tiled.apart a t c s u true,
    );
    prologue = ground (
      arith,
      v.tags.prologue,
      v.tiled.inside c s true e,
      v.tiled.aligned c s true e,
      v.tiled.first_aligned,
    );
    sentinel = ground (
      arith,
      v.tags.sentinel,
      v.tiled.inside c s true e,
      v.tiled.aligned c s true e,
      top_aligned bins 0 h g v,
    );
  }

  halved-IsLinked : IsLinked (split_words h.words c s n) g.node
  halved-IsLinked =
      IsLinked-frame h.words (split_words h.words c s n) g.node
        (λ a j f.
          let (x, y, z) = node-IsLink bins 0 h g v a j f in
          (
            ground (arith, x, v.tiled.inside c s true e, v.tiled.aligned c s true e),
            ground (arith, y, v.tiled.inside c s true e, v.tiled.aligned c s true e),
          ))
        v.linked

  pub rest_fresh : g.node (c + n) ≡ none
  rest_fresh = elim (Option-cases (g.node (c + n))) [
    | inl free ↦ free
    | inr (j, f) ↦ elim (v.lists.in_bin (c + n) j f) [
      | inl p ↦ absurd (omega (arith, v.lists.below, v.tiled.inside c s true e))
      | inr (t, p, q) ↦ absurd (
          omega (arith, v.tiled.apart c s (c + n) t true false e p (omega (arith, low)), low, high))
    ]
  ]

  halved-IsBinned : IsBinned bins (c + n) (split_words h.words c s n) halved
  halved-IsBinned = record {
    in_bin = λ a j f. elim (v.lists.in_bin a j f) [
      | inl p ↦ inl p
      | inr (t, d, b) ↦ inr (t, ground (arith, d, e, f, rest_fresh), b)
    ];
    binned = λ a t f. elim (Bool-cases (a == c + n)) [
      | inl here ↦ inl (ground (arith, here))
      | inr other ↦ elim (v.lists.binned a t (ground (arith, f, other))) [
        | inl out ↦ absurd (ground (arith, out, f, other, e, v.tiled.aligned a t false))
        | inr b ↦ inr b
      ]
    ];
    unused =
        λ j m f. ground (arith, v.lists.unused j m f, v.lists.below, v.tiled.inside c s true e);
    out = inr (omega (arith, v.tiled.inside c s true e), rest_fresh);
    above = v.lists.above;
    below = v.lists.below;
  }

  halved-IsHeap : IsHeap bins (c + n) (record h { words = split_words h.words c s n }) halved
  halved-IsHeap = record {
    tiled = IsTiled-cut g.slot g.first g.top c s n true true false v.tiled e low units high;
    tags = halved_tags;
    linked = halved-IsLinked;
    lists = halved-IsBinned;
    at_end = v.at_end;
    brk = v.brk;
    break_at = v.break_at;
    small = v.small;
  }

  split_same : split_chunk c n h ≡ record h { words = split_words h.words c s n }
  unfolding split_chunk
  split_same = ap (λ w. record h { words = w }) (fun_ext split_chunk_words)

  pub split_chunk-IsHeap : IsHeap bins (c + n) (split_chunk c n h) halved
  split_chunk-IsHeap = subst (λ k. IsHeap bins (c + n) k halved) (sym split_same) halved-IsHeap

  -- Of the chunk itself, its first `n` bytes.
  pub split_chunk-IsKept :
      IsKept (put c (chunk n true) g.slot) halved.slot h.words (split_chunk c n h).words
  split_chunk-IsKept = record {
    live = λ a t f. ground (arith, f, v.tiled.apart c s a t true true e, low, high);
    content = λ a t q f lo hi.
        split_chunk_words q
        ∙ ground (
          arith,
          f,
          low,
          high,
          lo,
          hi,
          v.tiled.aligned a t true,
          v.tiled.aligned c s true e,
          v.tiled.apart c s a t true true e,
          v.tiled.apart a t c s true true,
        );
  }

-- ===== src/Malloc/Shrink.antt =====
-- `realloc` to a smaller size: the rest becomes a chunk in use, which is freed.
use ckb_js.Prelude.{
  ℕ, ◌+◌, ◌-◌, ◌%◌, ◌≤◌, ◌≡◌, refl, sym, ◌∙◌, true, false, ◌==◌, if◌then◌else◌, arith, inl, inr,
}
use mathlib.Core.Path.{subst, fun_ext}
use ckb_js.Malloc.Heap.{Heap, done, store, set_used}
use ckb_js.Malloc.Alloc.{shrink}
use ckb_js.Malloc.Links.{IsLinked}
use ckb_js.Malloc.Layout.{nothing, chunk, put, IsTiled-cut}
use ckb_js.Malloc.Trim.{Trims}
use ckb_js.Malloc.Release.{free_chunk-Frees}
use ckb_js.Malloc.Invariant.{
  View, IsHeap, IsBinned, HasTags, IsKept, IsKept-trans, IsLinked-frame, node-IsLink, top_aligned,
}

-- The memory with the tags of the two chunks, word by word.
abbrev cut_words : (ℕ → ℕ) → (c s n q : ℕ) → ℕ
cut_words w c s n q =
    if q == c + n + 8
    then s - n + 1
    else if q == c + s
    then s - n + 1
    else if q == c + 8
    then n + 1
    else if q == c + n
    then n + 1
    else w q

module _ (bins : ℕ) (h : Heap) (g : View) (c s n : ℕ) (v : IsHeap bins 0 h g)
    (e : g.slot c ≡ chunk s true) (low : 32 ≤ n) (units : n % 32 ≡ 0) (high : n + 32 ≤ s) where
  abbrev cut_view : View
  cut_view = record g { slot = put (c + n) (chunk (s - n) true) (put c (chunk n true) g.slot) }

  cut-HasTags : HasTags (cut_words h.words c s n) cut_view.slot g.first g.top
  cut-HasTags = record {
    header = λ a t u f. ground (
      arith,
      f,
      low,
      units,
      high,
      v.tags.header a t u,
      v.tiled.aligned a t u,
      v.tiled.aligned c s true e,
      v.tiled.apart c s a t true u e,
      v.tiled.apart a t c s u true,
    );
    footer = λ a t u f. ground (
      arith,
      f,
      low,
      units,
      high,
      v.tags.footer a t u,
      v.tiled.aligned a t u,
      v.tiled.aligned c s true e,
      v.tiled.apart c s a t true u e,
      v.tiled.apart a t c s u true,
    );
    prologue = ground (
      arith,
      v.tags.prologue,
      v.tiled.inside c s true e,
      v.tiled.aligned c s true e,
      v.tiled.first_aligned,
    );
    sentinel = ground (
      arith,
      v.tags.sentinel,
      v.tiled.inside c s true e,
      v.tiled.aligned c s true e,
      top_aligned bins 0 h g v,
    );
  }

  cut-IsLinked : IsLinked (cut_words h.words c s n) g.node
  cut-IsLinked =
      IsLinked-frame h.words (cut_words h.words c s n) g.node
        (λ a j f.
          let (x, y, z) = node-IsLink bins 0 h g v a j f in
          (
            ground (arith, x, v.tiled.inside c s true e, v.tiled.aligned c s true e),
            ground (arith, y, v.tiled.inside c s true e, v.tiled.aligned c s true e),
          ))
        v.linked

  cut-IsBinned : IsBinned bins 0 (cut_words h.words c s n) cut_view
  cut-IsBinned = record {
    in_bin = λ a j f. elim (v.lists.in_bin a j f) [
      | inl p ↦ inl p
      | inr (t, d, b) ↦
          inr (t, ground (arith, d, e, low, high, v.tiled.apart c s a t true false e d), b)
    ];
    binned = λ a t f. v.lists.binned a t (ground (arith, f));
    unused =
        λ j m f. ground (arith, v.lists.unused j m f, v.lists.below, v.tiled.inside c s true e);
    out = inl refl;
    above = v.lists.above;
    below = v.lists.below;
  }

  abbrev cut_heap : Heap
  cut_heap =
      store (c + n + 8) (set_used (s - n)) (
        store (c + s) (set_used (s - n))
          (store (c + 8) (set_used n) (store (c + n) (set_used n) h)))

  cut_heap_words : (q : ℕ) → cut_heap.words q ≡ cut_words h.words c s n q
  cut_heap_words q = ground (arith, units, v.tiled.aligned c s true e)

  cut-IsHeap : IsHeap bins 0 cut_heap cut_view
  cut-IsHeap =
      let same = fun_ext cut_heap_words in
      record {
        tiled = IsTiled-cut g.slot g.first g.top c s n true true true v.tiled e low units high;
        tags = subst (λ w. HasTags w cut_view.slot g.first g.top) (sym same) cut-HasTags;
        linked = subst (λ w. IsLinked w g.node) (sym same) cut-IsLinked;
        lists = subst (λ w. IsBinned bins 0 w cut_view) (sym same) cut-IsBinned;
        at_end = v.at_end;
        brk = v.brk;
        break_at = v.break_at;
        small = v.small;
      }

  cut-IsKept :
      IsKept
        (put c (chunk n true) g.slot)
        (put (c + n) nothing cut_view.slot)
        h.words
        cut_heap.words
  cut-IsKept = record {
    live = λ a t f. ground (arith, f, v.tiled.apart c s a t true true e, low, high);
    content = λ a t q f lo hi.
        cut_heap_words q
        ∙ ground (
          arith,
          f,
          low,
          high,
          lo,
          hi,
          v.tiled.aligned a t true,
          v.tiled.aligned c s true e,
          v.tiled.apart c s a t true true e,
          v.tiled.apart a t c s true true,
        );
  }

  -- Shrinking a chunk in use by 32 bytes or more ends, and keeps the invariant and the first bytes.
  pub shrink-Trims :
      (h' : Heap) × (shrink bins c (c + s) n s h ≡ done (c + 16, h')) × Trims bins h g c n h'
  unfolding shrink
  shrink-Trims =
      let rest : cut_view.slot (c + n) ≡ chunk (s - n) true = ground arith in
      let (h', q, frees) =
        free_chunk-Frees bins cut_heap cut_view cut-IsHeap (c + n) (s - n) rest in
      let own = put c (chunk n true) g.slot in
      let all =
        IsKept-trans own (put (c + n) nothing cut_view.slot) frees.view.slot h.words cut_heap.words
          h'.words cut-IsKept frees.kept in
      (
        h',
        rw q refl,
        record {
          view = frees.view;
          size = n;
          heap = frees.heap;
          at = all.live c n (ground arith);
          enough = omega arith;
          others = record {
            live = λ a t f. all.live a t (ground (arith, f));
            content = λ a t q f lo hi. all.content a t q (ground (arith, f)) lo hi;
          };
          own = λ q lo hi. all.content c n q (ground arith) lo hi;
        },
      )

-- ===== src/Malloc/Extend.antt =====
-- `realloc` into the free chunk behind: the two chunks become one, which is cut to size.
use ckb_js.Prelude.{
  ℕ, ◌+◌, ◌%◌, ◌<◌, ◌≤◌, ◌≡◌, refl, sym, ◌∙◌, true, false, ◌==◌, if◌then◌else◌, arith, inl, inr,
}
use mathlib.Core.Path.{subst, fun_ext}
use ckb_js.Malloc.Heap.{Heap, done, store, set_used, used, even_part, lock_bin, unbin}
use ckb_js.Malloc.Alloc.{extend}
use ckb_js.Malloc.Links.{IsLinked, remove}
use ckb_js.Malloc.Layout.{nothing, chunk, put}
use ckb_js.Malloc.Growth.{joined, IsTiled-join}
use ckb_js.Malloc.Trim.{trim-Trims}
use ckb_js.Malloc.Merging.{free-Pulls}
use ckb_js.Malloc.Invariant.{
  View, IsHeap, IsBinned, HasTags, IsKept, IsLinked-frame, node-IsLink, top_aligned,
}

-- The memory with the tags of the one chunk, word by word.
abbrev join_words : (ℕ → ℕ) → (c s q : ℕ) → ℕ
join_words w c s q = if q == c + 8 then s + 1 else if q == c + s then s + 1 else w q

module _ (bins : ℕ) (h : Heap) (g : View) (c a b : ℕ) (v : IsHeap bins 0 h g)
    (e : g.slot c ≡ chunk a true) (f : g.slot (c + a) ≡ chunk b true) where
  abbrev join_view : View
  join_view = record g { slot = joined g.slot g.first g.top c a b true true true v.tiled e f }

  place :
      (c % 32 ≡ 16)
      × (a % 32 ≡ 0)
      × (32 ≤ a)
      × (b % 32 ≡ 0)
      × (32 ≤ b)
      × (g.first ≤ c)
      × (c + (a + b) ≤ g.top)
  place =
      let (x, y, z) = v.tiled.aligned c a true e in
      let (x', y', z') = v.tiled.aligned (c + a) b true f in
      (
        x,
        y,
        z,
        y',
        z',
        (v.tiled.inside c a true e).0,
        omega (arith, v.tiled.inside (c + a) b true f),
      )

  join-HasTags : HasTags (join_words h.words c (a + b)) join_view.slot g.first g.top
  join-HasTags = record {
    header = λ d t u k. ground (arith, k, place, v.tags.header d t u, v.tiled.aligned d t u);
    footer = λ d t u k. ground (
      arith,
      k,
      place,
      v.tags.footer d t u,
      v.tiled.aligned d t u,
      v.tiled.apart (c + a) b d t true u f,
      v.tiled.apart d t (c + a) b u true,
    );
    prologue = ground (arith, v.tags.prologue, place, v.tiled.first_aligned);
    sentinel = ground (arith, v.tags.sentinel, place, top_aligned bins 0 h g v);
  }

  join-IsLinked : IsLinked (join_words h.words c (a + b)) g.node
  join-IsLinked =
      IsLinked-frame h.words (join_words h.words c (a + b)) g.node
        (λ d j k.
          let (x, y, z) = node-IsLink bins 0 h g v d j k in
          (ground (arith, x, place), ground (arith, y, place)))
        v.linked

  join-IsBinned : IsBinned bins 0 (join_words h.words c (a + b)) join_view
  join-IsBinned = record {
    in_bin = λ d j k. elim (v.lists.in_bin d j k) [
      | inl p ↦ inl p
      | inr (t, p, q) ↦ inr (t, ground (arith, p, e, f), q)
    ];
    binned = λ d t k. v.lists.binned d t (ground (arith, k));
    unused = λ j m k. ground (arith, v.lists.unused j m k, v.lists.below, place);
    out = inl refl;
    above = v.lists.above;
    below = v.lists.below;
  }

  abbrev join_heap : Heap
  join_heap = store (c + 8) (set_used (a + b)) (store (c + a + b) (set_used (a + b)) h)

  join_heap_words : (q : ℕ) → join_heap.words q ≡ join_words h.words c (a + b) q
  join_heap_words q = ground (arith, place)

  pub join-IsHeap : IsHeap bins 0 join_heap join_view
  join-IsHeap =
      let same = fun_ext join_heap_words in
      record {
        tiled = IsTiled-join g.slot g.first g.top c a b true true true v.tiled e f;
        tags = subst (λ w. HasTags w join_view.slot g.first g.top) (sym same) join-HasTags;
        linked = subst (λ w. IsLinked w g.node) (sym same) join-IsLinked;
        lists = subst (λ w. IsBinned bins 0 w join_view) (sym same) join-IsBinned;
        at_end = v.at_end;
        brk = v.brk;
        break_at = v.break_at;
        small = v.small;
      }

  pub join-IsKept :
      IsKept
        (put c nothing (put (c + a) nothing g.slot))
        (put c nothing join_view.slot)
        h.words
        join_heap.words
  join-IsKept = record {
    live = λ d t k. ground (arith, k);
    content = λ d t q k lo hi.
        join_heap_words q
        ∙ ground (
          arith,
          k,
          lo,
          hi,
          place,
          v.tiled.aligned d t true,
          v.tiled.apart c a d t true true e,
          v.tiled.apart d t c a true true,
          v.tiled.apart (c + a) b d t true true f,
          v.tiled.apart d t (c + a) b true true,
        );
  }

  -- What the owner of the first chunk has written stays.
  pub join_own : (q : ℕ) → c + 16 ≤ q → q < c + a → join_heap.words q ≡ h.words q
  join_own q lo hi = join_heap_words q ∙ ground (arith, lo, hi, place)

-- A chunk in use, of `s` bytes, has `n` bytes or more now, and its first bytes are what they were.
pub record Resizes (bins : ℕ) (h : Heap) (g : View) (c s n : ℕ) (h' : Heap) : Type 0 where
  pub view : View
  pub size : ℕ
  pub heap : IsHeap bins 0 h' view
  pub at : view.slot c ≡ chunk size true
  pub enough : n ≤ size
  pub others : IsKept (put c nothing g.slot) view.slot h.words h'.words
  pub own : (q : ℕ) → c + 16 ≤ q → q < c + s → q < c + n → h'.words q ≡ h.words q

module _ (bins : ℕ) (h : Heap) (g : View) (c s r n : ℕ) (v : IsHeap bins 0 h g)
    (e : g.slot c ≡ chunk s true) (f : g.slot (c + s) ≡ chunk r false) (low : 32 ≤ n)
    (units : n % 32 ≡ 0) (fits : n ≤ s + r) where
  pub extend-Resizes :
      (h' : Heap) × (extend bins (c + 16) c (c + s) n s r h ≡ done (c + 16, h'))
      × Resizes bins h g c s n h'
  unfolding extend
  extend-Resizes =
      let (i, p) = free-Pulls bins h g (c + s) r v f in
      let h₂ = unbin bins (c + s) i (lock_bin bins i h) in
      let g₂ : View = record g {
        slot = put (c + s) (chunk r true) g.slot;
        node = remove (c + s) p.node;
      } in
      let e₂ : g₂.slot c ≡ chunk s true = ground (arith, e, v.tiled.aligned c s true e) in
      let f₂ : g₂.slot (c + s) ≡ chunk r true = ground arith in
      let h₃ = join_heap bins h₂ g₂ c s r p.pulled e₂ f₂ in
      let g₃ = join_view bins h₂ g₂ c s r p.pulled e₂ f₂ in
      let v₃ = join-IsHeap bins h₂ g₂ c s r p.pulled e₂ f₂ in
      let e₃ : g₃.slot c ≡ chunk (s + r) true = ground (arith, v.tiled.aligned c s true e) in
      let (h', q, t) = trim-Trims bins h₃ g₃ c (s + r) n v₃ e₃ low units fits in
      let free_bit : used ((lock_bin bins i h).words (c + s + 8)) ≡ false =
        ground (arith, p.locked.tags.header (c + s) r false f, v.tiled.aligned (c + s) r false f) in
      let behind : even_part (h₂.words (c + s + 8)) ≡ r =
        ground (arith, p.pulled.tags.header (c + s) r true f₂, v.tiled.aligned (c + s) r false f) in
      let kept = join-IsKept bins h₂ g₂ c s r p.pulled e₂ f₂ in
      (
        h',
        rw (p.index, free_bit, behind, q) refl,
        record {
          view = t.view;
          size = t.size;
          heap = t.heap;
          at = t.at;
          enough = t.enough;
          others = record {
            live = λ a w k. t.others.live a w (kept.live a w (ground (arith, k, f)));
            content = λ a w q k lo hi.
                t.others.content a w q (kept.live a w (ground (arith, k, f))) lo hi
                ∙ kept.content a w q (ground (arith, k, f)) lo hi
                ∙ p.kept.content a w q (ground (arith, k)) lo hi;
          };
          own = λ q lo hi most.
              t.own q lo most
              ∙ join_own bins h₂ g₂ c s r p.pulled e₂ f₂ q lo hi
              ∙ p.kept.content c s q e lo hi;
        },
      )

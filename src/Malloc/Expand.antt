-- ===== src/Malloc/Expand.antt =====
-- A heap that has been grown keeps the invariant, with one new chunk at its end.
use ckb_js.Prelude.{
  ℕ, ◌+◌, ◌%◌, ◌^◌, ◌<◌, ◌≤◌, ◌≡◌, ◌≢◌, refl, true, false, Option, none, some, ◌==◌, if◌then◌else◌,
  arith, inl, inr,
}
use mathlib.Core.Path.{fun_ext}
use ckb_js.Malloc.{Break, program_break}
use ckb_js.Malloc.Sizes.{IsBreak}
use ckb_js.Malloc.Heap.{Heap, grow}
use ckb_js.Malloc.Links.{IsLinked}
use ckb_js.Malloc.Layout.{chunk, put}
use ckb_js.Malloc.Growth.{IsTiled-grow}
use ckb_js.Malloc.Invariant.{
  HasTags, View, IsBinned, IsHeap, IsLinked-frame, top_aligned, node-IsLink, IsKept, IsKept-trans,
}

-- A chunk of at least `n` bytes that was not in use is in use; nothing happens to the others that
-- are.
pub record Takes (bins n : ℕ) (h : Heap) (g : View) (c : ℕ) (h' : Heap) : Type 0 where
  pub view : View
  pub size : ℕ
  pub heap : IsHeap bins 0 h' view
  pub at : view.slot c ≡ chunk size true
  pub enough : n ≤ size
  pub new : (t : ℕ) → g.slot c ≢ chunk t true
  pub kept : IsKept g.slot view.slot h.words h'.words

-- Nothing happens to what is in use.
pub record Idles (bins : ℕ) (h : Heap) (g : View) (h' : Heap) : Type 0 where
  pub view : View
  pub heap : IsHeap bins 0 h' view
  pub kept : IsKept g.slot view.slot h.words h'.words

abbrev pub TakesOr : (bins n : ℕ) → Heap → View → Option ℕ × Heap → Type 0
TakesOr bins n h g (none, h') = Idles bins h g h'
TakesOr bins n h g (some c, h') = Takes bins n h g c h'

pub Takes-after :
    (bins n : ℕ) (h : Heap) (g : View) (h₁ : Heap) (g₁ : View) (c : ℕ) (h' : Heap)
    → IsKept g.slot g₁.slot h.words h₁.words
    → Takes bins n h₁ g₁ c h'
    → Takes bins n h g c h'
Takes-after bins n h g h₁ g₁ c h' k t = record {
  view = t.view;
  size = t.size;
  heap = t.heap;
  at = t.at;
  enough = t.enough;
  new = λ r e. t.new r (k.live c r e);
  kept = IsKept-trans g.slot g₁.slot t.view.slot h.words h₁.words h'.words k t.kept;
}

pub Idles-after :
    (bins : ℕ) (h : Heap) (g : View) (h₁ : Heap) (g₁ : View) (h' : Heap)
    → IsKept g.slot g₁.slot h.words h₁.words
    → Idles bins h₁ g₁ h'
    → Idles bins h g h'
Idles-after bins h g h₁ g₁ h' k t = record {
  view = t.view;
  heap = t.heap;
  kept = IsKept-trans g.slot g₁.slot t.view.slot h.words h₁.words h'.words k t.kept;
}

pub TakesOr-after :
    (bins n : ℕ) (h : Heap) (g : View) (h₁ : Heap) (g₁ : View) (r : Option ℕ × Heap)
    → IsKept g.slot g₁.slot h.words h₁.words
    → TakesOr bins n h₁ g₁ r
    → TakesOr bins n h g r
TakesOr-after bins n h g h₁ g₁ (none, h') k t = Idles-after bins h g h₁ g₁ h' k t
TakesOr-after bins n h g h₁ g₁ (some c, h') k t = Takes-after bins n h g h₁ g₁ c h' k t

-- The memory behind `grow` at the end of the heap, word by word.
abbrev grown_words : (ℕ → ℕ) → (top n q : ℕ) → ℕ
grown_words w top n q =
    if q == top + 8
    then n + 1
    else if q == top + n + 8
    then 1
    else if q == top + n
    then n + 1
    else w q

module _ (bins : ℕ) (h : Heap) (g : View) (v : IsHeap bins 0 h g) where
  top_place : (g.first ≤ g.top) × (g.top % 32 ≡ 16)
  top_place = top_aligned bins 0 h g v

  module _ (b : Break) (n : ℕ) (low : 64 ≤ n) (units : n % 32 ≡ 0) (brk : IsBreak b)
      (moved : program_break b ≡ h.end + n) (most : h.end + n < 2 ^ 62) where
    abbrev pub longer : View
    longer = record g { slot = put g.top (chunk n true) g.slot; top = g.top + n }

    longer_tags : HasTags (grown_words h.words g.top n) longer.slot g.first (g.top + n)
    longer_tags = record {
      header = λ a t u f. ground (
        arith,
        f,
        low,
        units,
        v.tags.header a t u,
        v.tiled.aligned a t u,
        v.tiled.inside a t u,
        top_place,
      );
      footer = λ a t u f. ground (
        arith,
        f,
        low,
        units,
        v.tags.footer a t u,
        v.tiled.aligned a t u,
        v.tiled.inside a t u,
        top_place,
      );
      prologue = ground (arith, v.tags.prologue, low, top_place);
      sentinel = ground (arith, low);
    }

    longer_links : IsLinked (grown_words h.words g.top n) g.node
    longer_links =
        IsLinked-frame h.words (grown_words h.words g.top n) g.node
          (λ a j f.
            let (x, y, z) = node-IsLink bins 0 h g v a j f in
            (ground (arith, x, top_place, units), ground (arith, y, top_place, units)))
          v.linked

    longer_lists : IsBinned bins 0 (grown_words h.words g.top n) longer
    longer_lists = record {
      in_bin = λ a j f. elim (v.lists.in_bin a j f) [
        | inl p ↦ inl p
        | inr (t, d, e) ↦
            inr (t, ground (arith, d, v.tiled.inside a t false d, v.tiled.aligned a t false d), e)
      ];
      binned = λ a t f. v.lists.binned a t (ground (arith, f));
      unused = λ j m f. ground (arith, v.lists.unused j m f, v.lists.below, top_place);
      out = inl refl;
      above = v.lists.above;
      below = v.lists.below;
    }

    abbrev pub longer_heap : Heap
    longer_heap = record {
      words = grown_words h.words g.top n;
      binmap = h.binmap;
      brk = b;
      end = h.end + n;
    }

    grow_words :
        (q : ℕ) → (grow h.end n (record h { brk = b })).1.words q ≡ grown_words h.words g.top n q
    unfolding grow
    grow_words q = ground (arith, v.at_end)

    grow_rest :
        ((grow h.end n (record h { brk = b })).0 ≡ g.top)
        × ((grow h.end n (record h { brk = b })).1.binmap ≡ h.binmap)
        × ((grow h.end n (record h { brk = b })).1.brk ≡ b)
        × ((grow h.end n (record h { brk = b })).1.end ≡ h.end + n)
    unfolding grow
    grow_rest =
        let here : (h.end == h.end) ≡ true = ground arith in
        rw here (omega (arith, v.at_end), refl, refl, refl)

    pub grow_same : grow h.end n (record h { brk = b }) ≡ (g.top, longer_heap)
    grow_same = λ i. (
      grow_rest.0 i,
      record {
        words = fun_ext grow_words i;
        binmap = grow_rest.1 i;
        brk = grow_rest.2 i;
        end = grow_rest.3 i;
      },
    )

    pub longer-Takes : Takes bins n h g g.top longer_heap
    longer-Takes = record {
      view = longer;
      size = n;
      heap = record {
        tiled = IsTiled-grow g.slot g.first g.top n true v.tiled (omega (arith, low)) units;
        tags = longer_tags;
        linked = longer_links;
        lists = longer_lists;
        at_end = omega (arith, v.at_end);
        brk = brk;
        break_at = moved;
        small = omega (arith, v.at_end, most);
      };
      at = ground arith;
      enough = omega arith;
      new = λ t e. omega (arith, v.tiled.inside g.top t true e, v.tiled.aligned g.top t true e);
      kept = record {
        live = λ a t f. ground (arith, f, v.tiled.inside a t true f, v.tiled.aligned a t true f);
        content =
            λ a t q f lo hi. ground (arith, v.tiled.inside a t true f, lo, hi, top_place, low);
      };
    }

-- ===== src/Malloc/Move.antt =====
-- `realloc` by a new block: allocation, copy and `free` of the old block.
use ckb_js.Prelude.{
  ℕ, ◌+◌, ◌-◌, ◌*◌, ◌/◌, ◌^◌, ◌<◌, ◌≤◌, ◌≡◌, ◌≢◌, ◌⊎◌, refl, ap, ◌∙◌, true, false, ◌==◌,
  if◌then◌else◌, arith, inl, inr, ltb, sub64,
}
use ckb_js.Malloc.Heap.{Heap, Ran, done}
use ckb_js.Malloc.Alloc.{malloc, free, copy_words, copy_realloc}
use ckb_js.Malloc.Layout.{nothing, chunk, put}
use ckb_js.Malloc.Expand.{Takes, Idles}
use ckb_js.Malloc.Allocate.{Allocates, malloc-Allocates}
use ckb_js.Malloc.Settle.{Frees}
use ckb_js.Malloc.Release.{free-Frees}
use ckb_js.Malloc.Copy.{copy_words-IsHeap, copy_words_outside, copy_words_lem}
use ckb_js.Malloc.Invariant.{View, IsHeap, IsKept}

-- A chunk in use, of `s` bytes at `c`, is replaced by one of at least `n` bytes, there or at a place
-- that was not in use; the words that both have room for are what they were, and nothing happens
-- to the other chunks in use.
pub record Moves (bins : ℕ) (h : Heap) (g : View) (c s n d : ℕ) (h' : Heap) : Type 0 where
  pub view : View
  pub size : ℕ
  pub heap : IsHeap bins 0 h' view
  pub at : view.slot d ≡ chunk size true
  pub enough : n ≤ size
  pub new : (d ≡ c) ⊎ ((t : ℕ) → g.slot d ≢ chunk t true)
  pub others : IsKept (put c nothing g.slot) view.slot h.words h'.words
  pub copied :
      (k : ℕ)
      → 8 * k + 24 ≤ s
      → 8 * k + 24 ≤ n
      → h'.words (d + 16 + 8 * k) ≡ h.words (c + 16 + 8 * k)

-- How `realloc` ends: with NULL, the chunk as before, or with the memory of its replacement.
abbrev pub Reallocates : (bins : ℕ) → Heap → View → (c s n : ℕ) → Ran (ℕ × Heap) → Type 0
Reallocates bins h g c s n r =
    (p : ℕ) × (h' : Heap) × (r ≡ done (p, h'))
    × (((p ≡ 0) × Idles bins h g h') ⊎ ((d : ℕ) × (p ≡ d + 16) × Moves bins h g c s n d h'))

module _ (bins : ℕ) (h : Heap) (g : View) (c s n : ℕ) (v : IsHeap bins 0 h g)
    (e : g.slot c ≡ chunk s true) (low : 32 ≤ n) (small : n < 2 ^ 63) where
  abbrev count : ℕ
  count = sub64 (if ltb n s then n else s) 16 / 8

  enough_count : (8 * count + 16 ≤ n) × (8 * count + 16 ≤ s)
  enough_count =
      ground (arith, low, small, v.tiled.aligned c s true e, v.tiled.inside c s true e, v.small)

  counted : (k : ℕ) → 8 * k + 24 ≤ s → 8 * k + 24 ≤ n → k < count
  counted k l m =
      ground
        (arith, low, small, l, m, v.tiled.aligned c s true e, v.tiled.inside c s true e, v.small)

  moved :
      (d : ℕ) (h₁ : Heap) (t : Takes bins (n - 16 + 16) h g d h₁) (h' : Heap)
      → Frees bins (copy_words bins (d + 16) (c + 16) count h₁) t.view c h'
      → Moves bins h g c s n d h'
  moved d h₁ t h' frees =
      let e₁ = t.kept.live c s e in
      let differs : d ≢ c = ground (arith, t.new s, e) in
      let apart : (c + s ≤ d) ⊎ (d + t.size ≤ c) = ground (
        arith,
        differs,
        t.heap.tiled.apart c s d t.size true true e₁ t.at,
        t.heap.tiled.apart d t.size c s true true t.at e₁,
      ) in
      let stays : put c nothing t.view.slot d ≡ chunk t.size true = ground (arith, differs, t.at) in
      record {
        view = frees.view;
        size = t.size;
        heap = frees.heap;
        at = frees.kept.live d t.size stays;
        enough = omega (arith, t.enough, low);
        new = inr t.new;
        others = record {
          live = λ a w k.
              frees.kept.live a w
                (let k₁ = t.kept.live a w (ground (arith, k)) in ground (arith, k, k₁));
          content = λ a w q k lo hi.
              let k₁ = t.kept.live a w (ground (arith, k)) in
              let other : a ≢ d = ground (arith, k, t.new w) in
              frees.kept.content a w q (ground (arith, k, k₁)) lo hi
              ∙ copy_words_outside bins count (d + 16) (c + 16) q h₁ (
                  ground (
                    arith,
                    other,
                    lo,
                    hi,
                    enough_count,
                    t.enough,
                    low,
                    t.heap.tiled.apart a w d t.size true true k₁ t.at,
                    t.heap.tiled.apart d t.size a w true true t.at k₁,
                  ))
              ∙ t.kept.content a w q (ground (arith, k)) lo hi;
        };
        copied = λ k l m.
            frees.kept.content d t.size (d + 16 + 8 * k) stays (omega arith)
              (omega (arith, m, t.enough, low))
            ∙ copy_words_lem bins count (d + 16) (c + 16) k h₁
                (ground (arith, apart, enough_count, t.enough, low)) (counted k l m)
            ∙ t.kept.content c s (c + 16 + 8 * k) e (omega arith) (omega (arith, l));
      }

  refused :
      (h₁ : Heap)
      → malloc bins (sub64 n 16) h ≡ done (0, h₁)
      → copy_realloc bins (c + 16) n s h ≡ done (0, h₁)
  unfolding copy_realloc
  refused h₁ q = rw q refl

  copied_over :
      (d : ℕ) (h₁ h' : Heap)
      → malloc bins (sub64 n 16) h ≡ done (d + 16, h₁)
      → free bins (c + 16) (copy_words bins (d + 16) (c + 16) count h₁) ≡ done h'
      → copy_realloc bins (c + 16) n s h ≡ done (d + 16, h')
  unfolding copy_realloc
  copied_over d h₁ h' q r =
      let some_place : (d + 16 == 0) ≡ false = ground arith in rw (q, some_place, r) refl

  less : sub64 n 16 ≡ n - 16
  less = omega (arith, low, small)

  -- A copy to a new block.
  pub copy_realloc-Reallocates : Reallocates bins h g c s n (copy_realloc bins (c + 16) n s h)
  copy_realloc-Reallocates = by_cases (malloc-Allocates bins (n - 16) h g v (omega (arith, small)))
    where
      by_cases :
          Allocates bins (n - 16 + 16) h g (malloc bins (n - 16) h)
          → Reallocates bins h g c s n (copy_realloc bins (c + 16) n s h)
      by_cases (p, h₁, q, inl (z, t)) = (
        0,
        h₁,
        refused h₁ (ap (λ m. malloc bins m h) less ∙ q ∙ ap (λ p. done (p, h₁)) z),
        inl (refl, t),
      )
      by_cases (p, h₁, q, inr (d, z, t)) =
          let v₂ =
            copy_words-IsHeap bins count (d + 16) (c + 16) d t.size h₁ t.view t.heap t.at
              (omega arith) (omega (arith, enough_count, t.enough, low)) in
          let (h', r, frees) =
            free-Frees bins (copy_words bins (d + 16) (c + 16) count h₁) t.view v₂ c s
              (t.kept.live c s e) in
          (
            d + 16,
            h',
            copied_over d h₁ h' (ap (λ m. malloc bins m h) less ∙ q ∙ ap (λ p. done (p, h₁)) z) r,
            inr (d, refl, moved d h₁ t h' frees),
          )

-- ===== src/Malloc/Copy.antt =====
-- The copy that `realloc` makes of the words of a block.
use ckb_js.Prelude.{ℕ, zero, suc, ◌+◌, ◌*◌, ◌<◌, ◌≤◌, ◌≡◌, ◌⊎◌, refl, ap, ◌∙◌, true, arith, inl}
use ckb_js.Malloc.Heap.{Heap, store}
use ckb_js.Malloc.Alloc.{copy_words}
use ckb_js.Malloc.Layout.{chunk}
use ckb_js.Malloc.Write.{written-IsHeap}
use ckb_js.Malloc.Invariant.{View, IsHeap}

module _ (bins : ℕ) where
  -- Writing words into a chunk in use keeps the invariant.
  pub copy_words-IsHeap :
      (count to from c t : ℕ) (h : Heap) (g : View)
      → IsHeap bins 0 h g
      → g.slot c ≡ chunk t true
      → c + 16 ≤ to
      → to + 8 * count ≤ c + t
      → IsHeap bins 0 (copy_words bins to from count h) g
  unfolding copy_words
  copy_words-IsHeap zero to from c t h g v e lo hi = v
  copy_words-IsHeap (suc count) to from c t h g v e lo hi =
      copy_words-IsHeap count (to + 8) (from + 8) c t (store to (h.words from) h) g
        (written-IsHeap bins h g v c t to (h.words from) e lo (omega (arith, hi))) e (omega arith)
        (omega (arith, hi))

  pub copy_words_outside :
      (count to from q : ℕ) (h : Heap)
      → (q < to) ⊎ (to + 8 * count ≤ q)
      → (copy_words bins to from count h).words q ≡ h.words q
  unfolding copy_words
  copy_words_outside zero to from q h o = refl
  copy_words_outside (suc count) to from q h o =
      copy_words_outside count (to + 8) (from + 8) q (store to (h.words from) h) (ground (arith, o))
      ∙ ground (arith, o)

  -- Between places that lie apart, every word is copied.
  pub copy_words_lem :
      (count to from k : ℕ) (h : Heap)
      → (from + 8 * count ≤ to) ⊎ (to + 8 * count ≤ from)
      → k < count
      → (copy_words bins to from count h).words (to + 8 * k) ≡ h.words (from + 8 * k)
  unfolding copy_words
  copy_words_lem zero to from k h o l = absurd (omega (arith, l))
  copy_words_lem (suc count) to from zero h o l =
      copy_words_outside count (to + 8) (from + 8) (to + 8 * 0) (store to (h.words from) h)
        (inl (omega arith))
      ∙ ground arith
  copy_words_lem (suc count) to from (suc k) h o l =
      let h₁ = store to (h.words from) h in
      let here : to + 8 * suc k ≡ to + 8 + 8 * k = omega arith in
      let there : from + 8 + 8 * k ≡ from + 8 * suc k = omega arith in
      ap (copy_words bins (to + 8) (from + 8) count h₁).words here
      ∙ copy_words_lem count (to + 8) (from + 8) k h₁ (ground (arith, o)) (omega (arith, l))
      ∙ ap h₁.words there
      ∙ ground (arith, o, l)

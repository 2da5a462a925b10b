-- ===== src/Malloc/Splice.antt =====
-- What the operations on chunks and bins leave in memory.
use native.Mathlib.Nat.{add-div_right, one-le-pow}
use ckb_js.Prelude.{
  ℕ, ◌+◌, ◌-◌, ◌%◌, ◌^◌, ◌<◌, ◌≤◌, ◌≡◌, ◌≢◌, refl, sym, ap, ◌∙◌, Bool, true, false, not, ◌==◌,
  if◌then◌else◌, arith, inl, inr, Bool-cases, ==_iff,
}
use ckb_js.Malloc.Heap.{
  Heap, even_part, chunk_size, used, set_used, has_bit, set_bit, clear_bit, bin_to_chunk, unlink,
  bin_chunk, split_chunk, grow,
}

eq_same : (a : ℕ) → (a == a) ≡ true
eq_same a = ground arith

eq_other : (a b : ℕ) → a ≢ b → (a == b) ≡ false
eq_other a b h = ground arith

even_part-set_used : (n : ℕ) → n % 2 ≡ 0 → even_part (set_used n) ≡ n
even_part-set_used n h = omega arith

-- A chunk of `n` bytes at `c`, in use, with a footer behind it that agrees.
pub record IsChunk (h : Heap) (c n : ℕ) (in_use : Bool) : Type 0 where
  pub size : chunk_size h c ≡ n
  pub in_use_bit : used (h.words (c + 8)) ≡ in_use
  pub footer : h.words (c + n) ≡ h.words (c + 8)

-- Cutting a chunk of even size in two, with 32 bytes and an even size at least for the first, and
-- more than 16 for the second, leaves a chunk in use of the first size and, behind it, a free one
-- of the rest, with footers that agree.
pub split_chunk_two :
    (h : Heap) (self n : ℕ)
    → n % 2 ≡ 0
    → 32 ≤ n
    → n + 16 < chunk_size h self
    → chunk_size h self < 2 ^ 64
    → IsChunk (split_chunk self n h) self n true
      × IsChunk (split_chunk self n h) (self + n) (chunk_size h self - n) false
unfolding split_chunk
split_chunk_two h self n even large fits small = (
  record {
    size = ground (arith, even_part-set_used n even);
    in_use_bit = ground arith;
    footer = ground arith;
  },
  record { size = ground arith; in_use_bit = ground arith; footer = ground arith },
)

-- A chunk of `n` bytes, in use, at the end of the heap, behind which a chunk of no bytes, in use,
-- stands for the rest.
pub record IsTop (r : ℕ × Heap) (c n : ℕ) : Type 0 where
  pub at : r.0 ≡ c
  pub chunk : IsChunk r.1 c n true
  pub sentinel : r.1.words (c + n + 8) ≡ 1
  pub at_end : r.1.end ≡ c + n + 16

-- A new region of at least 64 bytes, a multiple of 32, becomes one chunk in use at the end of the
-- heap: of all its bytes where it goes on from the end so far, whose last chunk header it takes
-- over, and of 32 bytes less where it does not.
pub grow-IsTop :
    (h : Heap) (p n : ℕ)
    → 16 ≤ p
    → 64 ≤ n
    → n % 32 ≡ 0
    → (p ≡ h.end → IsTop (grow p n h) (p - 16) n)
      × (p ≢ h.end → IsTop (grow p n h) (p + 16) (n - 32))
unfolding grow
grow-IsTop h p n low large units = (
  λ e. record {
    at = ground arith;
    chunk = record { size = ground arith; in_use_bit = ground arith; footer = ground arith };
    sentinel = ground arith;
    at_end = ground arith;
  },
  λ e. record {
    at = ground arith;
    chunk = record { size = ground arith; in_use_bit = ground arith; footer = ground arith };
    sentinel = ground arith;
    at_end = ground arith;
  },
)

pow_pos : (i : ℕ) → 0 < 2 ^ i
pow_pos i = one-le-pow i 2 (omega arith)

has_bit_set : (m i : ℕ) → has_bit m i ≡ false → has_bit (m + 2 ^ i) i ≡ true
has_bit_set m i h =
    let next = add-div_right m {k = 2 ^ i} (pow_pos i) in rw next (ground (arith, h))

clear_bit-set_bit : (m i : ℕ) → has_bit m i ≡ false → clear_bit (set_bit m i) i ≡ m
clear_bit-set_bit m i h = rw (h, has_bit_set m i h) (omega arith)

module _ (bins : ℕ) where
  -- A bin's list as far as binning looks at it: the last chunk points back to the bin, and the bit
  -- of the bin says whether there is one.
  pub record IsBin (h : Heap) (i : ℕ) : Type 0 where
    pub closed : h.words (h.words (bin_to_chunk bins i + 24) + 16) ≡ bin_to_chunk bins i
    pub bit : has_bit h.binmap i ≡ not (h.words (bin_to_chunk bins i + 24) == bin_to_chunk bins i)

  -- The links of a chunk lie apart from those that binning changes.
  pub record IsApart (h : Heap) (c i : ℕ) : Type 0 where
    pub next_tail : c + 16 ≢ bin_to_chunk bins i + 24
    pub prev_tail : c + 24 ≢ bin_to_chunk bins i + 24
    pub next_last : c + 16 ≢ h.words (bin_to_chunk bins i + 24) + 16
    pub prev_last : c + 24 ≢ h.words (bin_to_chunk bins i + 24) + 16
    pub tail_last : bin_to_chunk bins i + 24 ≢ h.words (bin_to_chunk bins i + 24) + 16

  -- The memory behind `bin_chunk`, word by word.
  abbrev binned : Heap → (c i a : ℕ) → ℕ
  binned h c i a =
      let last = h.words (bin_to_chunk bins i + 24) in
      if a == last + 16
      then c
      else if a == bin_to_chunk bins i + 24
      then c
      else if a == c + 24
      then last
      else if a == c + 16
      then bin_to_chunk bins i
      else h.words a

  bin_chunk_words :
      (h : Heap) (c i : ℕ)
      → IsApart h c i
      → (a : ℕ) → (bin_chunk bins c i h).words a ≡ binned h c i a
  unfolding bin_chunk
  bin_chunk_words h c i d a =
      ground (arith, d.next_tail, d.prev_tail, d.next_last, d.prev_last, d.tail_last)

  unlink_words :
      (h : Heap) (c i a : ℕ)
      → c + 16 ≢ h.words (c + 24) + 16
      → c + 24 ≢ h.words (c + 24) + 16
      → (unlink bins c i h).words a ≡ (
          if a == h.words (c + 16) + 24
          then h.words (c + 24)
          else if a == h.words (c + 24) + 16
          then h.words (c + 16)
          else h.words a)
  unfolding unlink
  unlink_words h c i a n1 n2 = ground arith

  words-unlink-bin_chunk :
      (h : Heap) (c i : ℕ)
      → IsBin h i
      → IsApart h c i
      → (a : ℕ) → a ≢ c + 16
      → a ≢ c + 24
      → (unlink bins c i (bin_chunk bins c i h)).words a ≡ h.words a
  words-unlink-bin_chunk h c i b d a n1 n2 =
      unlink_words (bin_chunk bins c i h) c i a (rw prev d.next_last) (rw prev d.prev_last)
      ∙ rw (next, prev, bin_chunk_words h c i d a) restored
    where
      last : ℕ
      last = h.words (bin_to_chunk bins i + 24)

      next : (bin_chunk bins c i h).words (c + 16) ≡ bin_to_chunk bins i
      next = bin_chunk_words h c i d (c + 16) ∙ ground (arith, d.next_tail, d.next_last)

      prev : (bin_chunk bins c i h).words (c + 24) ≡ last
      prev = bin_chunk_words h c i d (c + 24) ∙ ground (arith, d.prev_tail, d.prev_last)

      restored :
          (if a == bin_to_chunk bins i + 24
            then last
            else if a == last + 16
            then bin_to_chunk bins i
            else binned h c i a)
          ≡ h.words a
      restored = elim (Bool-cases (a == bin_to_chunk bins i + 24)) [
        | inl e ↦ rw e (ap h.words (sym ((==_iff a (bin_to_chunk bins i + 24)).0 e)))
        | inr e ↦ elim (Bool-cases (a == last + 16)) [
          | inl f ↦ rw (e, f) (sym b.closed ∙ ap h.words (sym ((==_iff a (last + 16)).0 f)))
          | inr f ↦ ground (arith, e, f)
        ]
      ]

  binmap-bin_chunk :
      (h : Heap) (c i : ℕ)
      → IsApart h c i
      → (bin_chunk bins c i h).binmap ≡ (
          if h.words (bin_to_chunk bins i + 24) == bin_to_chunk bins i
          then set_bit h.binmap i
          else h.binmap)
  unfolding bin_chunk
  binmap-bin_chunk h c i d =
      ground (arith, d.next_tail, d.prev_tail, d.next_last, d.prev_last, d.tail_last)

  binmap-unlink-bin_chunk :
      (h : Heap) (c i : ℕ)
      → IsBin h i
      → IsApart h c i
      → (unlink bins c i (bin_chunk bins c i h)).binmap ≡ h.binmap
  unfolding unlink
  binmap-unlink-bin_chunk h c i b d =
      rw (next, prev, binmap-bin_chunk h c i d)
        (elim (Bool-cases (last == bin_to_chunk bins i)) [
          | inl e ↦ rw e (clear_bit-set_bit h.binmap i (b.bit ∙ ap not e))
          | inr e ↦ rw e refl
        ])
    where
      last : ℕ
      last = h.words (bin_to_chunk bins i + 24)

      next : (bin_chunk bins c i h).words (c + 16) ≡ bin_to_chunk bins i
      next = bin_chunk_words h c i d (c + 16) ∙ ground (arith, d.next_tail, d.next_last)

      prev : (bin_chunk bins c i h).words (c + 24) ≡ last
      prev = bin_chunk_words h c i d (c + 24) ∙ ground (arith, d.prev_tail, d.prev_last)

  -- Unlinking a chunk that has just been put at the end of a bin, whose links lie apart from the
  -- chunk's, brings back every word but the chunk's own two links, and the bits of the bins.
  pub unlink-bin_chunk :
      (h : Heap) (c i : ℕ)
      → IsBin h i
      → IsApart h c i
      → ((unlink bins c i (bin_chunk bins c i h)).binmap ≡ h.binmap)
        × ((a : ℕ)
            → a ≢ c + 16
            → a ≢ c + 24
            → (unlink bins c i (bin_chunk bins c i h)).words a ≡ h.words a)
  unlink-bin_chunk h c i b d = (binmap-unlink-bin_chunk h c i b d, words-unlink-bin_chunk h c i b d)

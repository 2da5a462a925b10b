-- ===== src/Malloc/Invariant.antt =====
-- The invariant of the allocator's heap: its chunks, their tags in memory, and the bins' lists of
-- the free ones.
use ckb_js.Prelude.{
  ℕ, ◌+◌, ◌*◌, ◌%◌, ◌^◌, ◌<◌, ◌≤◌, ◌≡◌, ◌≢◌, ◌⊎◌, ◌∙◌, Bool, true, false, none, some, if◌then◌else◌,
  arith, inl, inr,
}
use ckb_js.Malloc.{bin_index, program_break}
use ckb_js.Malloc.Sizes.{IsBreak}
use ckb_js.Malloc.Heap.{Heap, bin_to_chunk}
use ckb_js.Malloc.Links.{Nodes, IsLinked}
use ckb_js.Malloc.Insert.{IsApart}
use ckb_js.Malloc.Layout.{chunk, Slots, IsTiled}

-- The word that stands at both ends of a chunk.
abbrev pub tag : ℕ → Bool → ℕ
tag s u = if u then s + 1 else s

-- The tags of the chunks, and of the two sentinels in use around them.
pub record HasTags (w : ℕ → ℕ) (slot : Slots) (first top : ℕ) : Type 0 where
  pub header : (c s : ℕ) (u : Bool) → slot c ≡ chunk s u → w (c + 8) ≡ tag s u
  pub footer : (c s : ℕ) (u : Bool) → slot c ≡ chunk s u → w (c + s) ≡ tag s u
  pub prologue : w first ≡ 1
  pub sentinel : w (top + 8) ≡ 1

-- What memory stands for: the chunks between two addresses, and the bin of each free one.
pub record View : Type 0 where
  pub slot : Slots
  pub node : Nodes
  pub first : ℕ
  pub top : ℕ

-- Which nodes the lists have: the heads of the bins in use, and the free chunks, each in the bin of
-- its size; but for one chunk, if `limbo` is not 0, that is free and in no bin yet.
pub record IsBinned (bins limbo : ℕ) (w : ℕ → ℕ) (g : View) : Type 0 where
  pub in_bin :
      (a i : ℕ)
      → g.node a ≡ some i
      → ((a ≡ bin_to_chunk bins i) × (i < 64))
        ⊎ ((s : ℕ) × (g.slot a ≡ chunk s false) × (bin_index s ≡ some i))
  pub binned : (c s : ℕ) → g.slot c ≡ chunk s false → (c ≡ limbo) ⊎ ((i : ℕ) × (g.node c ≡ some i))
  pub unused :
      (i : ℕ) → i < 64 → g.node (bin_to_chunk bins i) ≡ none → w (bin_to_chunk bins i + 16) ≡ 0
  pub out : (limbo ≡ 0) ⊎ ((g.first ≤ limbo) × (g.node limbo ≡ none))
  pub above : 16 ≤ bins
  pub below : bins + 24 * 64 ≤ g.first

pub record IsHeap (bins limbo : ℕ) (h : Heap) (g : View) : Type 0 where
  pub tiled : IsTiled g.slot g.first g.top
  pub tags : HasTags h.words g.slot g.first g.top
  pub linked : IsLinked h.words g.node
  pub lists : IsBinned bins limbo h.words g
  pub at_end : h.end ≡ g.top + 16
  pub brk : IsBreak h.brk
  pub break_at : program_break h.brk ≡ h.end
  pub small : g.top < 2 ^ 62

-- An address of a tag: in the heap, at 16 or 24 modulo 32.
abbrev pub IsTag : (first q : ℕ) → Type 0
IsTag first q = (first ≤ q) × ((q % 32 ≡ 16) ⊎ (q % 32 ≡ 24))

-- An address of a link: below the heap, or at 0 or 8 modulo 32.
abbrev pub IsLink : (first q : ℕ) → Type 0
IsLink first q = (q < first) ⊎ ((q % 32 ≡ 0) ⊎ (q % 32 ≡ 8))

-- Memory that agrees at the tags, or at the links.
pub HasTags-frame :
    (w w' : ℕ → ℕ) (slot : Slots) (first top : ℕ)
    → IsTiled slot first top
    → top % 32 ≡ 16
    → first ≤ top
    → ((q : ℕ) → IsTag first q → w' q ≡ w q)
    → HasTags w slot first top
    → HasTags w' slot first top
HasTags-frame w w' slot first top k t l same r = record {
  header = λ c s u e. same (c + 8) (place c s u e).0 ∙ r.header c s u e;
  footer = λ c s u e. same (c + s) (place c s u e).1 ∙ r.footer c s u e;
  prologue = same first (omega arith, inl k.first_aligned) ∙ r.prologue;
  sentinel = same (top + 8) (omega arith, inr (omega arith)) ∙ r.sentinel;
}
  where
    place : (c s : ℕ) (u : Bool) → slot c ≡ chunk s u → IsTag first (c + 8) × IsTag first (c + s)
    place c s u e =
        let (a, b, low) = k.aligned c s u e in
        let (d, f) = k.inside c s u e in
        ((omega arith, inr (omega arith)), (omega arith, inl (omega arith)))

pub IsLinked-frame :
    (w w' : ℕ → ℕ) (node : Nodes)
    → ((a i : ℕ) → node a ≡ some i → (w' (a + 16) ≡ w (a + 16)) × (w' (a + 24) ≡ w (a + 24)))
    → IsLinked w node
    → IsLinked w' node
IsLinked-frame w w' node same l = record {
  next_node = λ a i e. rw ((same a i e).0) (l.next_node a i e);
  prev_node = λ a i e. rw ((same a i e).1) (l.prev_node a i e);
  next_prev = λ a i e.
      rw ((same a i e).0) ((same (w (a + 16)) i (l.next_node a i e)).1 ∙ l.next_prev a i e);
  prev_next = λ a i e.
      rw ((same a i e).1) ((same (w (a + 24)) i (l.prev_node a i e)).0 ∙ l.prev_next a i e);
  apart = l.apart;
}

module _ (bins limbo : ℕ) (h : Heap) (g : View) (v : IsHeap bins limbo h g) where
  pub top_aligned : (g.first ≤ g.top) × (g.top % 32 ≡ 16)
  top_aligned = elim v.tiled.last [
    | inl at_first ↦ omega (arith, v.tiled.first_aligned)
    | inr (d, t, u, e, m) ↦ omega (arith, v.tiled.aligned d t u e, v.tiled.inside d t u e)
  ]

  -- The links of a node are links, and its address is not 0.
  pub node-IsLink :
      (a i : ℕ) → g.node a ≡ some i → IsLink g.first (a + 16) × IsLink g.first (a + 24) × (0 < a)
  node-IsLink a i e = elim (v.lists.in_bin a i e) [
    | inl p ↦ (
      inl (omega (arith, v.lists.below, v.lists.above)),
      inl (omega (arith, v.lists.below, v.lists.above)),
      omega (arith, v.lists.above),
    )
    | inr (s, c, b) ↦ (
      inr (inl (omega (arith, v.tiled.aligned a s false c))),
      inr (inr (omega (arith, v.tiled.aligned a s false c))),
      omega (arith, v.tiled.aligned a s false c),
    )
  ]

  -- A chunk that is in no list lies apart from all nodes.
  pub chunk-IsApart : (c s : ℕ) (u : Bool) → g.slot c ≡ chunk s u → IsApart g.node c
  chunk-IsApart c s u e a j f = elim (v.lists.in_bin a j f) [
    | inl p ↦ (
      omega (arith, v.lists.below, v.lists.above, v.tiled.inside c s u e),
      omega (arith, v.lists.below, v.lists.above, v.tiled.inside c s u e),
    )
    | inr (t, d, b) ↦ (
      omega (arith, v.tiled.aligned c s u e, v.tiled.aligned a t false d),
      omega (arith, v.tiled.aligned c s u e, v.tiled.aligned a t false d),
    )
  ]

  -- So does the head of a bin.
  pub bin-IsApart : (i : ℕ) → i < 64 → IsApart g.node (bin_to_chunk bins i)
  bin-IsApart i l a j f = elim (v.lists.in_bin a j f) [
    | inl p ↦ (omega (arith, v.lists.above), omega (arith, v.lists.above))
    | inr (t, d, b) ↦ (
      omega (arith, v.lists.below, v.lists.above, v.tiled.inside a t false d),
      omega (arith, v.lists.below, v.lists.above, v.tiled.inside a t false d),
    )
  ]

  -- A bin's head is in its own bin.
  pub bin_own : (i j : ℕ) → i < 64 → g.node (bin_to_chunk bins i) ≡ some j → j ≡ i
  bin_own i j l e = elim (v.lists.in_bin (bin_to_chunk bins i) j e) [
    | inl p ↦ omega (arith, v.lists.above)
    | inr (t, d, b) ↦ absurd (
        omega (arith, v.lists.below, v.lists.above, v.tiled.inside (bin_to_chunk bins i) t false d))
  ]

pub link_not_tag : (first q r : ℕ) → IsLink first q → IsTag first r → q ≢ r
link_not_tag first q r l t = omega arith

-- Every chunk in use stays, and so does what its owner has written.
pub record IsKept (slot slot' : Slots) (w w' : ℕ → ℕ) : Type 0 where
  pub live : (a s : ℕ) → slot a ≡ chunk s true → slot' a ≡ chunk s true
  pub content : (a s q : ℕ) → slot a ≡ chunk s true → a + 16 ≤ q → q < a + s → w' q ≡ w q

pub IsKept-trans :
    (s₁ s₂ s₃ : Slots) (w₁ w₂ w₃ : ℕ → ℕ)
    → IsKept s₁ s₂ w₁ w₂
    → IsKept s₂ s₃ w₂ w₃
    → IsKept s₁ s₃ w₁ w₃
IsKept-trans s₁ s₂ s₃ w₁ w₂ w₃ k l = record {
  live = λ a s e. l.live a s (k.live a s e);
  content = λ a s q e lo hi. l.content a s q (k.live a s e) lo hi ∙ k.content a s q e lo hi;
}

-- ===== src/Malloc/History.antt =====
-- A client of the allocator: any sequence of `malloc`, `realloc`, `free` and writes into blocks,
-- from the start on.
use ckb_js.Prelude.{
  ℕ, ◌+◌, ◌^◌, ◌<◌, ◌≤◌, ◌≡◌, ◌⊎◌, sym, ap, ◌∙◌, true, Option, none, some, ◌==◌, if◌then◌else◌,
  arith, inl, inr, Bool-cases,
}
use mathlib.Core.Path.{subst}
use ckb_js.Malloc.Heap.{Heap, Ran, done, crashed, undefined, store}
use ckb_js.Malloc.{mmap_threshold}
use ckb_js.Malloc.Alloc.{malloc, free, realloc}
use ckb_js.Malloc.Move.{Moves, Reallocates}
use ckb_js.Malloc.Resize.{realloc-Reallocates}
use ckb_js.Malloc.Layout.{chunk}
use ckb_js.Malloc.Links.{remove, insert}
use ckb_js.Malloc.Allocate.{Allocates, malloc-Allocates}
use ckb_js.Malloc.Release.{free-Frees}
use ckb_js.Malloc.Settle.{Frees}
use ckb_js.Malloc.Fresh.{IsFresh, no_chunks}
use ckb_js.Malloc.Begin.{Begins, malloc-Begins}
use ckb_js.Malloc.Expand.{Takes, Idles}
use ckb_js.Malloc.Invariant.{View, IsHeap}
use ckb_js.Malloc.Write.{written-IsHeap}

-- The heap, and the blocks that the client holds, with the sizes asked for.
pub record Client : Type 0 where
  pub heap : Heap
  pub blocks : ℕ → Option ℕ

abbrev ended : {A : Type 0} → A → Ran A → A
ended x (done y) = y
ended x crashed = x
ended x undefined = x

pub done_injective : {A : Type 0} (x y : A) → done x ≡ done y → x ≡ y
done_injective x y e = ap (ended x) e

-- NULL is no block.
abbrev pub hold : (p n : ℕ) → (ℕ → Option ℕ) → ℕ → Option ℕ
hold p n blocks q = if p == 0 then blocks q else insert p n blocks q

-- What the client holds after `realloc` of the block at `p` to `m` bytes, which gave `q`.
abbrev pub hold_moved : (p q m : ℕ) → (ℕ → Option ℕ) → ℕ → Option ℕ
hold_moved p q m blocks r = if q == 0 then blocks r else insert q m (remove p blocks) r

module _ (bins : ℕ) where
  pub data Step : Client → Client → Type 0 where
    allocate :
        (s : Client) (n p : ℕ) (h' : Heap)
        → n < 2 ^ 64
        → malloc bins n s.heap ≡ done (p, h')
        → Step s (record { heap = h'; blocks = hold p n s.blocks })
    release :
        (s : Client) (n p : ℕ) (h' : Heap)
        → s.blocks p ≡ some n
        → free bins p s.heap ≡ done h'
        → Step s (record { heap = h'; blocks = remove p s.blocks })
    reallocate :
        (s : Client) (n p m q : ℕ) (h' : Heap)
        → s.blocks p ≡ some n
        → m + 16 ≤ mmap_threshold
        → realloc bins p m s.heap ≡ done (q, h')
        → Step s (record { heap = h'; blocks = hold_moved p q m s.blocks })
    write :
        (s : Client) (n p a v : ℕ)
        → s.blocks p ≡ some n
        → p ≤ a
        → a + 8 ≤ p + n
        → Step s (record s { heap = store a v s.heap })

  pub data Reach (s : Client) : Client → Type 0 where
    here : Reach s s
    next : {t u : Client} → Reach s t → Step t u → Reach s u

  -- A block is the memory of a chunk in use behind its header.
  abbrev pub IsBlock : View → (p n : ℕ) → Type 0
  IsBlock g p n = (c : ℕ) × (t : ℕ) × (p ≡ c + 16) × (g.slot c ≡ chunk t true) × (n + 16 ≤ t)

  -- Before the first region there is no block; from then on, the heap keeps its invariant, and
  -- every block is one.
  abbrev pub IsSound : Client → Type 0
  IsSound s =
      (IsFresh bins s.heap × ((p : ℕ) → s.blocks p ≡ none))
      ⊎ ((g : View) × IsHeap bins 0 s.heap g × ((p n : ℕ) → s.blocks p ≡ some n → IsBlock g p n))

  abbrev Held : View → (ℕ → Option ℕ) → Type 0
  Held g blocks = (p n : ℕ) → blocks p ≡ some n → IsBlock g p n

  Takes-IsSound :
      (n : ℕ) (h : Heap) (g : View) (blocks : ℕ → Option ℕ) (c : ℕ) (h' : Heap)
      → Held g blocks
      → Takes bins (n + 16) h g c h'
      → IsSound (record { heap = h'; blocks = hold (c + 16) n blocks })
  Takes-IsSound n h g blocks c h' held t = inr (
    t.view,
    t.heap,
    λ p m e. elim (Bool-cases (p == c + 16)) [
      | inl same ↦ (c, t.size, ground (arith, same), t.at, ground (arith, e, same, t.enough))
      | inr other ↦
          let (d, s, at, f, room) = held p m (ground (arith, e, other)) in
          (d, s, at, t.kept.live d s f, room)
    ],
  )

  Idles-IsSound :
      (n : ℕ) (h : Heap) (g : View) (blocks : ℕ → Option ℕ) (h' : Heap)
      → Held g blocks
      → Idles bins h g h'
      → IsSound (record { heap = h'; blocks = hold 0 n blocks })
  Idles-IsSound n h g blocks h' held t = inr (
    t.view,
    t.heap,
    λ p m e. let (d, s, at, f, room) = held p m e in (d, s, at, t.kept.live d s f, room),
  )

  Frees-IsSound :
      (h : Heap) (g : View) (blocks : ℕ → Option ℕ) (c : ℕ) (h' : Heap)
      → Held g blocks
      → Frees bins h g c h'
      → IsSound (record { heap = h'; blocks = remove (c + 16) blocks })
  Frees-IsSound h g blocks c h' held t = inr (
    t.view,
    t.heap,
    λ p m e.
        let (d, s, at, f, room) = held p m (ground (arith, e)) in
        (d, s, at, t.kept.live d s (ground (arith, f, e, at)), room),
  )

  Moves-IsSound :
      (m n : ℕ) (h : Heap) (g : View) (blocks : ℕ → Option ℕ) (c s d : ℕ) (h' : Heap)
      → Held g blocks
      → m + 16 ≤ n
      → Moves bins h g c s n d h'
      → IsSound (record { heap = h'; blocks = hold_moved (c + 16) (d + 16) m blocks })
  Moves-IsSound m n h g blocks c s d h' held room t = inr (
    t.view,
    t.heap,
    λ p k e. elim (Bool-cases (p == d + 16)) [
      | inl same ↦ (d, t.size, ground (arith, same), t.at, ground (arith, e, same, t.enough, room))
      | inr other ↦
          let (a, w, at, f, fits) = held p k (ground (arith, e, other)) in
          (a, w, at, t.others.live a w (ground (arith, f, e, at, other)), fits)
    ],
  )

  Reallocates-IsSound :
      (m n : ℕ) (h : Heap) (g : View) (blocks : ℕ → Option ℕ) (c s q : ℕ) (h' : Heap)
      → Held g blocks
      → m + 16 ≤ n
      → Reallocates bins h g c s n (done (q, h'))
      → IsSound (record { heap = h'; blocks = hold_moved (c + 16) q m blocks })
  Reallocates-IsSound m n h g blocks c s q h' held room (q', h'', e, inl (z, t)) =
      subst (λ r. IsSound (record { heap = r.1; blocks = hold_moved (c + 16) r.0 m blocks }))
        (done_injective (q', h'') (q, h') (sym e)) (rw z (Idles-IsSound m h g blocks h'' held t))
  Reallocates-IsSound m n h g blocks c s q h' held room (q', h'', e, inr (d, z, t)) =
      subst (λ r. IsSound (record { heap = r.1; blocks = hold_moved (c + 16) r.0 m blocks }))
        (done_injective (q', h'') (q, h') (sym e))
        (rw z (Moves-IsSound m n h g blocks c s d h'' held room t))

  Allocates-IsSound :
      (n p : ℕ) (h : Heap) (g : View) (blocks : ℕ → Option ℕ) (h' : Heap)
      → Held g blocks
      → Allocates bins (n + 16) h g (done (p, h'))
      → IsSound (record { heap = h'; blocks = hold p n blocks })
  Allocates-IsSound n p h g blocks h' held (p', h'', d, inl (z, t)) =
      subst (λ r. IsSound (record { heap = r.1; blocks = hold r.0 n blocks }))
        (done_injective (p', h'') (p, h') (sym d)) (rw z (Idles-IsSound n h g blocks h'' held t))
  Allocates-IsSound n p h g blocks h' held (p', h'', d, inr (c, z, t)) =
      subst (λ r. IsSound (record { heap = r.1; blocks = hold r.0 n blocks }))
        (done_injective (p', h'') (p, h') (sym d)) (rw z (Takes-IsSound n h g blocks c h'' held t))

  Begins-IsSound :
      (n p : ℕ) (h : Heap) (blocks : ℕ → Option ℕ) (h' : Heap)
      → ((q : ℕ) → blocks q ≡ none)
      → Begins bins (n + 16) h (done (p, h'))
      → IsSound (record { heap = h'; blocks = hold p n blocks })
  Begins-IsSound n p h blocks h' empty (inl (h'', d, f)) =
      subst (λ r. IsSound (record { heap = r.1; blocks = hold r.0 n blocks }))
        (done_injective (0, h'') (p, h') (sym d)) (inl (f, empty))
  Begins-IsSound n p h blocks h' empty (inr t) =
      Allocates-IsSound n p h no_chunks blocks h' (λ q m e. absurd (ground (arith, e, empty q))) t

  pub Step-IsSound : {s s' : Client} → Step s s' → IsSound s → IsSound s'
  Step-IsSound (allocate s n p h' small e) (inl (f, empty)) =
      Begins-IsSound n p s.heap s.blocks h' empty
        (subst (Begins bins (n + 16) s.heap) e (malloc-Begins bins n s.heap f small))
  Step-IsSound (allocate s n p h' small e) (inr (g, v, held)) =
      Allocates-IsSound n p s.heap g s.blocks h' held
        (subst (Allocates bins (n + 16) s.heap g) e (malloc-Allocates bins n s.heap g v small))
  Step-IsSound (release s n p h' b e) (inl (f, empty)) = absurd (ground (arith, empty p, b))
  Step-IsSound (release s n p h' b e) (inr (g, v, held)) =
      let (c, t, at, f, room) = held p n b in
      let (h'', d, frees) = free-Frees bins s.heap g v c t f in
      let same : h'' ≡ h' =
        done_injective h'' h' (sym d ∙ ap (λ q. free bins q s.heap) (sym at) ∙ e) in
      subst (λ k. IsSound (record { heap = k; blocks = remove p s.blocks })) same
        (rw at (Frees-IsSound s.heap g s.blocks c h'' held frees))
  Step-IsSound (reallocate s n p m q h' b small e) (inl (f, empty)) =
      absurd (ground (arith, empty p, b))
  Step-IsSound (reallocate s n p m q h' b small e) (inr (g, v, held)) =
      let (c, t, at, f, fits) = held p n b in
      let (l, room, t') = realloc-Reallocates bins s.heap g c t v f m small in
      let e' = ap (λ r. realloc bins r m s.heap) (sym at) ∙ e in
      rw at (
        Reallocates-IsSound m l s.heap g s.blocks c t q h' held room
          (subst (Reallocates bins s.heap g c t l) e' t'))
  Step-IsSound (write s n p a x b lo hi) (inl (f, empty)) = absurd (ground (arith, empty p, b))
  Step-IsSound (write s n p a x b lo hi) (inr (g, v, held)) =
      let (c, t, at, e, room) = held p n b in
      inr (
        g,
        written-IsHeap bins s.heap g v c t a x e (omega (arith, at, lo))
            (omega (arith, at, hi, room)),
        held,
      )

-- ===== src/Malloc/Contents.antt =====
-- What a client of the allocator finds in its blocks after each step.
use ckb_js.Prelude.{
  ℕ, ◌+◌, ◌*◌, ◌<◌, ◌≤◌, ◌≡◌, ◌≢◌, ◌⊎◌, sym, ap, ◌∙◌, true, some, ◌==◌, arith, inl, inr, Bool-cases,
}
use mathlib.Core.Path.{subst}
use ckb_js.Malloc.{mmap_threshold}
use ckb_js.Malloc.Heap.{Heap, done}
use ckb_js.Malloc.Alloc.{free, realloc}
use ckb_js.Malloc.Resize.{realloc-Reallocates}
use ckb_js.Malloc.Move.{Reallocates}
use ckb_js.Malloc.Layout.{nothing, chunk, put}
use ckb_js.Malloc.Allocate.{Allocates, malloc-Allocates}
use ckb_js.Malloc.Release.{free-Frees}
use ckb_js.Malloc.History.{
  Client, Step, allocate, release, reallocate, write, Reach, done_injective,
}
use ckb_js.Malloc.Invariant.{View}
use ckb_js.Malloc.Client.{IsConfig, start, Reach-IsSound}

-- The words that a step of the client writes: one, or those of the block that it reallocates.
abbrev pub Writes : {bins : ℕ} {s s' : Client} → Step bins s s' → ℕ → Type 0
Writes (allocate s n p h' small e) q = ⊥
Writes (release s n p h' b e) q = ⊥
Writes (reallocate s n p m r h' b small e) q = (p ≤ q) × (q < p + n)
Writes (write s n p a x b lo hi) q = q ≡ a

module _ (bins min max : ℕ) (v : IsConfig bins min max) where
  malloc-words :
      (n p : ℕ) (h : Heap) (g : View) (h' : Heap)
      → Allocates bins (n + 16) h g (done (p, h'))
      → (c t q : ℕ) → g.slot c ≡ chunk t true
      → c + 16 ≤ q
      → q < c + t
      → h'.words q ≡ h.words q
  malloc-words n p h g h' (p', h'', e, r) c t q f lo hi =
      let same = done_injective (p, h') (p', h'') e in
      ap (λ r. r.1.words q) same ∙ (elim r [
        | inl (z, idles) ↦ idles.kept.content c t q f lo hi
        | inr (d, z, takes) ↦ takes.kept.content c t q f lo hi
      ])

  realloc-words :
      (h : Heap) (g : View) (c s n q : ℕ) (h' : Heap)
      → Reallocates bins h g c s n (done (q, h'))
      → (d t a : ℕ) → g.slot d ≡ chunk t true
      → d ≢ c
      → d + 16 ≤ a
      → a < d + t
      → h'.words a ≡ h.words a
  realloc-words h g c s n q h' (q', h'', e, r) d t a f other lo hi =
      let same = done_injective (q, h') (q', h'') e in
      ap (λ r. r.1.words a) same ∙ (elim r [
        | inl (z, idles) ↦ idles.kept.content d t a f lo hi
        | inr (b, z, moves) ↦ moves.others.content d t a (ground (arith, f, other)) lo hi
      ])

  -- With the bins below the lower bound of the break, and the bounds below 2^61 and 2^62: in every
  -- state that the client can reach, a step changes no word of a
  -- block that the client holds before and after it, but for the one that the client writes and
  -- those of the block that it reallocates.
  pub Reach-content :
      (s s' : Client) (k : Step bins s s')
      → Reach bins (start min max) s
      → (p n q : ℕ) → s.blocks p ≡ some n
      → s'.blocks p ≡ some n
      → p ≤ q
      → q < p + n
      → (s'.heap.words q ≡ s.heap.words q) ⊎ Writes k q
  Reach-content s _ (allocate _ n' p' h' small e) r p n q b b' lo hi =
      elim (Reach-IsSound bins min max v s r) [
        | inl (f, empty) ↦ absurd (ground (arith, b, empty p))
        | inr (g, v, held) ↦
            let (c, t, at, f, room) = held p n b in
            let run =
              subst (Allocates bins (n' + 16) s.heap g) e
                (malloc-Allocates bins n' s.heap g v small) in
            inl (
              malloc-words n' p' s.heap g h' run c t q f (omega (arith, lo, at))
                (omega (arith, hi, at, room)))
      ]
  Reach-content s _ (release _ n' p' h' b₁ e) r p n q b b' lo hi =
      elim (Reach-IsSound bins min max v s r) [
        | inl (f, empty) ↦ absurd (ground (arith, b, empty p))
        | inr (g, v, held) ↦
            let (c, t, at, f, room) = held p n b in
            let (d, u, at', f', room') = held p' n' b₁ in
            let (h'', e', frees) = free-Frees bins s.heap g v d u f' in
            let same : h'' ≡ h' =
              done_injective h'' h' (sym e' ∙ ap (λ q. free bins q s.heap) (sym at') ∙ e) in
            let other : put d nothing g.slot c ≡ chunk t true = ground (arith, b', at, at', f) in
            inl (
              ap (λ h. h.words q) (sym same)
              ∙ frees.kept.content c t q other (omega (arith, lo, at))
                  (omega (arith, hi, at, room)))
      ]
  Reach-content s _ (reallocate _ n' p' m q' h' b₁ small e) r p n q b b' lo hi =
      elim (Reach-IsSound bins min max v s r) [
        | inl (f, empty) ↦ absurd (ground (arith, b, empty p))
        | inr (g, v, held) ↦
            let (c, t, at, f, room) = held p n b in
            let (d, u, at', f', room') = held p' n' b₁ in
            elim (Bool-cases (p == p')) [
              | inl same ↦ inr (ground (arith, same, lo, hi, b, b₁))
              | inr other ↦
                  let (l, fits, t') = realloc-Reallocates bins s.heap g d u v f' m small in
                  let e' = ap (λ r. realloc bins r m s.heap) (sym at') ∙ e in
                  inl (
                    realloc-words s.heap g d u l q' h'
                      (subst (Reallocates bins s.heap g d u l) e' t') c t q f
                      (ground (arith, at, at', other)) (omega (arith, lo, at))
                      (omega (arith, hi, at, room)))
            ]
      ]
  Reach-content s _ (write _ n' p' a x b₁ lo₁ hi₁) r p n q b b' lo hi = elim (Bool-cases (q == a)) [
    | inl same ↦ inr (ground (arith, same))
    | inr other ↦ inl (ground (arith, other))
  ]

  -- With the bins below the lower bound of the break, and the bounds below 2^61 and 2^62: when `realloc` of a block of `n` bytes to `m`, with the header no more
  -- than the threshold, ends in a state that the client can reach, it has given NULL and the block
  -- keeps its whole words, or it has given the memory of a block, and the whole words that both
  -- sizes have room for are in it as they were in the old one.
  pub Reach-copied :
      (s : Client)
      → Reach bins (start min max) s
      → (p n m q : ℕ) (h' : Heap) → s.blocks p ≡ some n
      → m + 16 ≤ mmap_threshold
      → realloc bins p m s.heap ≡ done (q, h')
      → ((q ≡ 0) × ((k : ℕ) → 8 * k + 8 ≤ n → h'.words (p + 8 * k) ≡ s.heap.words (p + 8 * k)))
        ⊎ ((q ≢ 0)
            × ((k : ℕ)
                → 8 * k + 8 ≤ n
                → 8 * k + 8 ≤ m
                → h'.words (q + 8 * k) ≡ s.heap.words (p + 8 * k)))
  Reach-copied s r p n m q h' b small e = elim (Reach-IsSound bins min max v s r) [
    | inl (f, empty) ↦ absurd (ground (arith, b, empty p))
    | inr (g, v, held) ↦
        let (c, t, at, f, room) = held p n b in
        let (l, fits, (q', h'', e', cases)) = realloc-Reallocates bins s.heap g c t v f m small in
        let same : (q', h'') ≡ (q, h') =
          done_injective (q', h'') (q, h')
            (sym e' ∙ ap (λ r. realloc bins r m s.heap) (sym at) ∙ e) in
        elim cases [
          | inl (z, idles) ↦ inl (
            sym (ap (λ r. r.0) same) ∙ z,
            λ k least.
                subst (λ a. h'.words (a + 8 * k) ≡ s.heap.words (a + 8 * k)) (sym at)
                  (ap (λ r. r.1.words (c + 16 + 8 * k)) (sym same)
                    ∙ idles.kept.content c t (c + 16 + 8 * k) f (omega arith)
                        (omega (arith, least, room))),
          )
          | inr (d, z, moves) ↦ inr (
            ground (arith, ap (λ r. r.0) same, z),
            λ k least most.
                ap (λ r. r.1.words (r.0 + 8 * k)) (sym same)
                ∙ ap (λ a. h''.words (a + 8 * k)) z
                ∙ moves.copied k (omega (arith, least, room)) (omega (arith, most, fits))
                ∙ ap (λ a. s.heap.words (a + 8 * k)) (sym at),
          )
        ]
  ]

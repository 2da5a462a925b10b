-- ===== src/Malloc/Client.antt =====
-- A client of the allocator from the start of the program on, whatever sequence of `malloc`,
-- `realloc`, `free` and writes into its blocks it makes.
use ckb_js.Prelude.{
  ℕ, ◌+◌, ◌*◌, ◌%◌, ◌^◌, ◌<◌, ◌≤◌, ◌≡◌, refl, ap, ◌∙◌, true, none, some, arith, inl, inr,
}
use ckb_js.Malloc.{program_break, malloc_config, mmap_threshold}
use ckb_js.Malloc.Heap.{Heap, done}
use ckb_js.Malloc.Alloc.{malloc, free, realloc}
use ckb_js.Malloc.Resize.{realloc-Reallocates}
use ckb_js.Malloc.Allocate.{malloc-Allocates}
use ckb_js.Malloc.Release.{free-Frees}
use ckb_js.Malloc.Fresh.{IsFresh}
use ckb_js.Malloc.Begin.{malloc-Begins}
use ckb_js.Malloc.History.{Client, Reach, here, next, IsSound, Step-IsSound}

-- The bins and the bounds of the break, as the program places them.
pub record IsConfig (bins min max : ℕ) : Type 0 where
  pub bins_above : 16 ≤ bins
  pub bins_below : bins + 24 * 64 ≤ min
  pub min_small : min < 2 ^ 61
  pub max_small : max < 2 ^ 62

-- The allocator after `malloc_config`: its static variables are 0.
abbrev pub start : (min max : ℕ) → Client
start min max = record {
  heap = record { words = λ a. 0; binmap = 0; brk = malloc_config min max; end = 0 };
  blocks = λ p. none;
}

module _ (bins min max : ℕ) (v : IsConfig bins min max) where
  start-IsFresh : IsFresh bins (start min max).heap
  unfolding malloc_config
  start-IsFresh = record {
    no_end = refl;
    no_bins = refl;
    empty = λ i l. refl;
    brk = record {
      min_positive = omega (arith, v.bins_above, v.bins_below);
      min_small = omega (arith, v.min_small);
      max_small = v.max_small;
      above_min = inl refl;
      break_small = omega arith;
    };
    unit = omega arith;
    above = v.bins_above;
    below = omega (arith, v.bins_below, v.min_small);
  }

  -- With the bins below the lower bound of the break, and the bounds below 2^61 and 2^62: in every
  -- state that the client can reach, the allocator has no region and the client no block, or the
  -- heap keeps its invariant, and each block lies in a chunk in use that has room for it.
  pub Reach-IsSound : (s : Client) → Reach bins (start min max) s → IsSound bins s
  Reach-IsSound _ here = inl (start-IsFresh, λ p. refl)
  Reach-IsSound _ (next {t} r q) = Step-IsSound bins q (Reach-IsSound t r)

  -- With the same bounds: in every state that the client can reach, `malloc` of a size below 2^64
  -- and, on a block, `free` and `realloc` to a size with the header no more than the threshold
  -- end, neither crashing nor reading outside the table of bins.
  pub Reach-ends :
      (s : Client)
      → Reach bins (start min max) s
      → ((n : ℕ) → n < 2 ^ 64 → (p : ℕ) × (h' : Heap) × (malloc bins n s.heap ≡ done (p, h')))
        × ((p n : ℕ) → s.blocks p ≡ some n → (h' : Heap) × (free bins p s.heap ≡ done h'))
        × ((p n : ℕ)
            → s.blocks p ≡ some n
            → (m : ℕ) → m + 16 ≤ mmap_threshold
            → (q : ℕ) × (h' : Heap) × (realloc bins p m s.heap ≡ done (q, h')))
  Reach-ends s r = elim (Reach-IsSound s r) [
    | inl (f, empty) ↦ (
      λ n small. (elim (malloc-Begins bins n s.heap f small) [
        | inl (h', e, f') ↦ (0, h', e)
        | inr (p, h', e, t) ↦ (p, h', e)
      ]),
      λ p n b. absurd (ground (arith, b, empty p)),
      λ p n b. absurd (ground (arith, b, empty p)),
    )
    | inr (g, v, held) ↦ (
      λ n small. (let (p, h', e, t) = malloc-Allocates bins n s.heap g v small in (p, h', e)),
      λ p n b.
          let (c, t, at, f, room) = held p n b in
          let (h', e, frees) = free-Frees bins s.heap g v c t f in
          (h', ap (λ q. free bins q s.heap) at ∙ e),
      λ p n b m small.
          let (c, t, at, f, fits) = held p n b in
          let (l, room, (q, h', e, t')) = realloc-Reallocates bins s.heap g c t v f m small in
          (q, h', ap (λ r. realloc bins r m s.heap) at ∙ e),
    )
  ]

  -- With the same bounds: in every state that the client can reach, a block is aligned to 32 bytes
  -- and lies between the bins and the break, and of two blocks the second begins 16 bytes or more
  -- behind the end of the first.
  pub Reach-apart :
      (s : Client)
      → Reach bins (start min max) s
      → (p n : ℕ) → s.blocks p ≡ some n
      → (p % 32 ≡ 0)
        × (bins + 24 * 64 ≤ p)
        × (p + n ≤ program_break s.heap.brk)
        × ((q m : ℕ) → s.blocks q ≡ some m → p < q → p + n + 16 ≤ q)
  Reach-apart s r p n b = elim (Reach-IsSound s r) [
    | inl (f, empty) ↦ absurd (ground (arith, b, empty p))
    | inr (g, v, held) ↦
        let (c, t, at, f, room) = held p n b in
        (
          omega (arith, at, v.tiled.aligned c t true f),
          omega (arith, at, v.lists.below, v.tiled.inside c t true f),
          omega (arith, at, room, v.tiled.inside c t true f, v.at_end, v.break_at),
          λ q m e less.
              let (d, u, at', f', room') = held q m e in
              omega (
                arith,
                at,
                at',
                room,
                less,
                v.tiled.apart c t d u true true f f' (omega (arith, at, at', less)),
              ),
        )
  ]

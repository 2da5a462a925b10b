-- ===== src/Malloc/Fresh.antt =====
-- The first region: a heap out of nothing.
use ckb_js.Prelude.{
  ℕ, ◌+◌, ◌-◌, ◌*◌, ◌%◌, ◌^◌, ◌<◌, ◌≤◌, ◌≡◌, refl, Bool, true, false, none, ◌==◌, if◌then◌else◌,
  arith, inl, inr,
}
use mathlib.Core.Path.{fun_ext}
use ckb_js.Malloc.{Break, program_break}
use ckb_js.Malloc.Sizes.{IsBreak}
use ckb_js.Malloc.Heap.{Heap, bin_to_chunk, grow}
use ckb_js.Malloc.Layout.{nothing, chunk, put}
use ckb_js.Malloc.Expand.{Takes}
use ckb_js.Malloc.Invariant.{View, IsHeap}

-- A heap before the first region: no bin is in use, and the break, which is a multiple of 32, lies
-- above the bins.
pub record IsFresh (bins : ℕ) (h : Heap) : Type 0 where
  pub no_end : h.end ≡ 0
  pub no_bins : h.binmap ≡ 0
  pub empty : (i : ℕ) → i < 64 → h.words (bin_to_chunk bins i + 16) ≡ 0
  pub brk : IsBreak h.brk
  pub unit : program_break h.brk % 32 ≡ 0
  pub above : 16 ≤ bins
  pub below : bins + 24 * 64 ≤ program_break h.brk

abbrev pub no_chunks : View
no_chunks = record { slot = λ a. nothing; node = λ a. none; first = 0; top = 0 }

-- The memory behind the first `grow`, word by word.
abbrev first_words : (ℕ → ℕ) → (first n q : ℕ) → ℕ
first_words w first n q =
    if q == first + 8
    then n + 1
    else if q == first + n + 8
    then 1
    else if q == first + n
    then n + 1
    else if q == first
    then 1
    else w q

module _ (bins : ℕ) (h : Heap) (v : IsFresh bins h) (b : Break) (p n : ℕ) (low : 64 ≤ n)
    (units : n % 32 ≡ 0) (brk : IsBreak b) (place : p % 32 ≡ 0) (above : bins + 24 * 64 ≤ p)
    (moved : program_break b ≡ p + n) (most : p + n < 2 ^ 62) where
  abbrev pub first_view : View
  first_view = record {
    slot = put (p + 16) (chunk (n - 32) true) (λ a. nothing);
    node = λ a. none;
    first = p + 16;
    top = p + 16 + (n - 32);
  }

  abbrev pub first_heap : Heap
  first_heap = record {
    words = first_words h.words (p + 16) (n - 32);
    binmap = h.binmap;
    brk = b;
    end = p + n;
  }

  first_slot :
      (c s : ℕ) (u : Bool)
      → first_view.slot c ≡ chunk s u
      → (c ≡ p + 16) × (s ≡ n - 32) × (u ≡ true)
  first_slot c s u e = ground arith

  pub first-IsHeap : IsHeap bins 0 first_heap first_view
  first-IsHeap = record {
    tiled = record {
      aligned = λ c s u e. omega (arith, first_slot c s u e, place, units, low);
      inside = λ c s u e. omega (arith, first_slot c s u e);
      apart = λ c s d t u x e f less. omega (arith, first_slot c s u e, first_slot d t x f, less);
      next = λ c s u e. inl (omega (arith, first_slot c s u e));
      prev = λ c s u e. inl (omega (arith, first_slot c s u e));
      last = inr (p + 16, n - 32, true, ground arith, refl);
      first_aligned = omega (arith, place);
    };
    tags = record {
      header = λ c s u e. ground (arith, first_slot c s u e);
      footer = λ c s u e. ground (arith, first_slot c s u e, low, units);
      prologue = ground (arith, low);
      sentinel = ground (arith, low);
    };
    linked = record {
      next_node = λ a i e. absurd (ground (arith, e));
      prev_node = λ a i e. absurd (ground (arith, e));
      next_prev = λ a i e. absurd (ground (arith, e));
      prev_next = λ a i e. absurd (ground (arith, e));
      apart = λ a c i j e f. absurd (ground (arith, e));
    };
    lists = record {
      in_bin = λ a i e. absurd (ground (arith, e));
      binned = λ c s e. absurd (ground (arith, first_slot c s false e));
      unused = λ i l e. ground (arith, v.empty i l, above, l, v.above);
      out = inl refl;
      above = v.above;
      below = omega (arith, above);
    };
    at_end = omega (arith, low);
    brk = brk;
    break_at = moved;
    small = omega (arith, most);
  }

  grow_words :
      (q : ℕ)
      → (grow p n (record h { brk = b })).1.words q ≡ first_words h.words (p + 16) (n - 32) q
  unfolding grow
  grow_words q = ground (arith, v.no_end, v.above, above)

  grow_rest :
      ((grow p n (record h { brk = b })).0 ≡ p + 16)
      × ((grow p n (record h { brk = b })).1.binmap ≡ h.binmap)
      × ((grow p n (record h { brk = b })).1.brk ≡ b)
      × ((grow p n (record h { brk = b })).1.end ≡ p + n)
  unfolding grow
  grow_rest =
      let fresh : (p == h.end) ≡ false = ground (arith, v.no_end, v.above, above) in
      rw fresh (omega arith, refl, refl, omega (arith, low))

  pub first_grow : grow p n (record h { brk = b }) ≡ (p + 16, first_heap)
  first_grow = λ i. (
    grow_rest.0 i,
    record {
      words = fun_ext grow_words i;
      binmap = grow_rest.1 i;
      brk = grow_rest.2 i;
      end = grow_rest.3 i;
    },
  )

  pub first-Takes : Takes bins (n - 32) h no_chunks (p + 16) first_heap
  first-Takes = record {
    view = first_view;
    size = n - 32;
    heap = first-IsHeap;
    at = ground arith;
    enough = omega arith;
    new = λ t e. absurd (ground (arith, e));
    kept = record {
      live = λ a s e. absurd (ground (arith, e));
      content = λ a s q e lo hi. absurd (ground (arith, e));
    };
  }

-- ===== src/Malloc/Obtain.antt =====
-- `expand_heap` keeps the invariant, whether the break has room or not.
use ckb_js.Prelude.{
  ℕ, ◌+◌, ◌%◌, ◌^◌, ◌<◌, ◌≤◌, ◌≡◌, refl, sym, ◌∙◌, Option, none, some, arith, inl, inr,
  Option-cases, u64,
}
use mathlib.Core.Path.{subst}
use ckb_js.Malloc.{Break, sbrk, program_break, page_rest}
use ckb_js.Malloc.Sizes.{IsBreak, Gives, sbrk-Gives}
use ckb_js.Malloc.Heap.{Heap, grow, expand_heap}
use ckb_js.Malloc.Expand.{TakesOr, longer-Takes, grow_same}
use ckb_js.Malloc.Invariant.{View, IsHeap}

module _ (bins : ℕ) where
  -- What `expand_heap` does with what `_sbrk` gives.
  abbrev pub expanded : ℕ → Heap → Option ℕ × Break → Option ℕ × Heap
  expanded size h (none, b) = (none, record h { brk = b })
  expanded size h (some p, b) =
      (some (grow p size (record h { brk = b })).0, (grow p size (record h { brk = b })).1)

  pub expand_heap_lem :
      (n : ℕ) (h : Heap)
      → expand_heap n h
        ≡ expanded
            (u64 (n + 32 + page_rest (n + 32)))
            h
            (sbrk (u64 (n + 32 + page_rest (n + 32))) h.brk)
  unfolding expand_heap
  expand_heap_lem n h = elim (Option-cases (sbrk (u64 (n + 32 + page_rest (n + 32))) h.brk).0) [
    | inl e ↦ rw (e, expand_heap) refl
    | inr (p, e) ↦ rw (e, expand_heap) refl
  ]

  expanded-TakesOr :
      (n size : ℕ) (h : Heap) (g : View) (r : Option ℕ × Break)
      → IsHeap bins 0 h g
      → 64 ≤ size
      → size % 32 ≡ 0
      → n ≤ size
      → Gives size h.brk r
      → IsBreak r.1
      → TakesOr bins n h g (expanded size h r)
  expanded-TakesOr n size h g (none, b) v low units enough gives brk = record {
    view = g;
    heap = record {
      tiled = v.tiled;
      tags = v.tags;
      linked = v.linked;
      lists = v.lists;
      at_end = v.at_end;
      brk = brk;
      break_at = gives.1 ∙ v.break_at;
      small = v.small;
    };
    kept = record { live = λ a s e. e; content = λ a s q e lo hi. refl };
  }
  expanded-TakesOr n size h g (some p, b) v low units enough gives brk =
      let at : p ≡ h.end = gives.0 ∙ v.break_at in
      let most : h.end + size < 2 ^ 62 = omega (arith, gives.2, v.brk.max_small, at) in
      let moved : program_break b ≡ h.end + size = omega (arith, gives.3, at) in
      let t = longer-Takes bins h g v b size low units brk moved most in
      let same = grow_same bins h g v b size low units brk moved most in
      rw at (
        subst (λ r. TakesOr bins n h g (some r.0, r.1)) (sym same)
          (record {
            view = t.view;
            size = t.size;
            heap = t.heap;
            at = t.at;
            enough = omega (arith, enough, t.enough);
            new = t.new;
            kept = t.kept;
          }))

  -- `expand_heap` grows the heap by a chunk of the size, unless the break is at its end.
  pub expand_heap-TakesOr :
      (n : ℕ) (h : Heap) (g : View)
      → IsHeap bins 0 h g
      → 32 ≤ n
      → n < 2 ^ 61
      → TakesOr bins n h g (expand_heap n h)
  expand_heap-TakesOr n h g v low small =
      let size : ℕ = u64 (n + 32 + page_rest (n + 32)) in
      let (gives, brk) = sbrk-Gives size h.brk v.brk (omega arith) in
      subst (TakesOr bins n h g) (sym (expand_heap_lem n h)) (
        expanded-TakesOr n size h g (sbrk size h.brk) v (omega arith) (omega arith) (omega arith)
          gives brk)

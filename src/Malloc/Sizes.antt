-- ===== src/Malloc/Sizes.antt =====
-- The size of a chunk for a request, and the regions that the program break gives out.
use ckb_js.Prelude.{
  ℕ, ◌+◌, ◌-◌, ◌%◌, ◌^◌, ◌<◌, ◌≤◌, ◌≡◌, ◌⊎◌, refl, Option, none, some, u64, arith, inl, inr,
  lt_or_ge, lt→ltb, le→ltb,
}
use ckb_js.Malloc.{Break, program_break, sbrk, adjust_size}

-- `adjust_size` refuses the requests above 2^63 - 4128, and gives every other one the least
-- multiple of 32 that has room for it and for the overhead of 16 bytes.
pub adjust_size_least :
    (n : ℕ)
    → n < 2 ^ 64
    → ((2 ^ 63 - 4128 < n) × (adjust_size n ≡ none))
      ⊎ ((m : ℕ) × (adjust_size n ≡ some m) × (m % 32 ≡ 0) × (n + 16 ≤ m) × (m < n + 48))
unfolding adjust_size
adjust_size_least n h = ground arith

-- A break that has not been used, or lies above its minimum.
pub record IsBreak (b : Break) : Type 0 where
  pub min_positive : 0 < b.s_brk_min
  pub min_small : b.s_brk_min < 2 ^ 62
  pub max_small : b.s_brk_max < 2 ^ 62
  pub above_min : (b.s_program_break ≡ 0) ⊎ (b.s_brk_min ≤ b.s_program_break)
  pub break_small : b.s_program_break < 2 ^ 63

abbrev pub Gives : ℕ → Break → Option ℕ × Break → Type 0
Gives incr b (none, b') =
    (b.s_brk_max < program_break b + incr) × (program_break b' ≡ program_break b)
Gives incr b (some p, b') =
    (p ≡ program_break b)
    × (b.s_brk_min ≤ p)
    × (p + incr ≤ b.s_brk_max)
    × (program_break b' ≡ p + incr)

program_break_bounds :
    (b : Break)
    → IsBreak b
    → (0 < program_break b) × (b.s_brk_min ≤ program_break b) × (program_break b < 2 ^ 63)
program_break_bounds b v = ground (arith, v.min_positive, v.min_small, v.above_min, v.break_small)

program_break_set : (b : Break) → 0 < b.s_program_break → program_break b ≡ b.s_program_break
program_break_set b h = ground arith

-- For an increment below 2^62, `_sbrk` keeps its variables valid; it gives the region from the
-- break on, inside the configured bounds, and moves the break to its end, so that the next region
-- begins there; or it fails, exactly if that region would pass the upper bound, and the break
-- stays.
pub sbrk-Gives :
    (incr : ℕ) (b : Break)
    → IsBreak b
    → incr < 2 ^ 62
    → Gives incr b (sbrk incr b) × IsBreak (sbrk incr b).1
unfolding sbrk
sbrk-Gives incr b v small = elim (lt_or_ge b.s_brk_max (program_break b + incr)) [
  | inl full ↦
      rw (no_wrap, lt→ltb b.s_brk_max (program_break b + incr) full)
        (
          (full, program_break_set (record b { s_program_break = program_break b }) p.0),
          record {
            min_positive = v.min_positive;
            min_small = v.min_small;
            max_small = v.max_small;
            above_min = inr p.1;
            break_small = p.2;
          },
        )
  | inr room ↦
      rw (no_wrap, le→ltb b.s_brk_max (program_break b + incr) room)
        (
          (
            refl,
            p.1,
            room,
            program_break_set (record b { s_program_break = program_break b + incr })
                (omega (arith, p.0)),
          ),
          record {
            min_positive = v.min_positive;
            min_small = v.min_small;
            max_small = v.max_small;
            above_min = inr (omega (arith, p.1));
            break_small = omega (arith, v.max_small);
          },
        )
]
  where
    p : (0 < program_break b) × (b.s_brk_min ≤ program_break b) × (program_break b < 2 ^ 63)
    p = program_break_bounds b v

    no_wrap : u64 (program_break b + incr) ≡ program_break b + incr
    no_wrap = omega (arith, p.2)

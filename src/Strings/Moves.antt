-- ===== src/Strings/Moves.antt =====
-- A turn of the search of `twoway_strstr` moves on, and stays inside the haystack.
use Prim.Native.Nat.{bit_or, digits, max, bit_or-bitwise, ◌/◌}
use ckb_js.Prelude.{
  ℕ, zero, suc, ◌+◌, ◌-◌, ◌<◌, ◌≤◌, ◌≡◌, ◌≢◌, refl, not, Option, none, some, [], ◌∷◌, ◌==◌, ltb,
  leb, if◌then◌else◌, length, drop, arith, inl, inr, Bool-cases,
}
use ckb_js.CellFs.{CString}
use ckb_js.Strings.{byte_at}
use ckb_js.Strings.Sets.{has_byte}
use ckb_js.Strings.Spans.{IsText}
use ckb_js.Strings.Memory.{memchr}
use ckb_js.Strings.Passes.{IsFirst}
use ckb_js.Strings.Chr.{memchr-IsFirst}
use ckb_js.Strings.Needle.{right_half, left_half, Needle}
use ckb_js.Strings.Find.{Turn, ends, turn, compare_halves, check_last, search_turn}

pub byte_at_past : (s : CString) (i : ℕ) → length s ≤ i → byte_at s i ≡ 0
byte_at_past [] i l = refl
byte_at_past (b ∷ s) zero l = absurd (omega (arith, l))
byte_at_past (b ∷ s) (suc i) l = byte_at_past s i (omega (arith, l))

pub byte_at_within : (s : CString) (i : ℕ) → IsText s → i < length s → byte_at s i ≢ 0
byte_at_within [] i v l = absurd (omega (arith, l))
byte_at_within (b ∷ s) zero ((lo, hi), v) l = ground (arith, lo)
byte_at_within (b ∷ s) (suc i) (k, v) l = byte_at_within s i v (omega (arith, l))

byte_at_small : (s : CString) (i : ℕ) → IsText s → byte_at s i < 256
byte_at_small [] i v = omega arith
byte_at_small (b ∷ s) zero ((lo, hi), v) = hi
byte_at_small (b ∷ s) (suc i) (k, v) = byte_at_small s i v

right_half_from : (n h : CString) (k : ℕ) → k ≤ right_half n h k
unfolding right_half
right_half_from [] h k = omega arith
right_half_from (c ∷ n) h k = elim (Bool-cases (c == byte_at h 0)) [
  | inl t ↦
      rw (t, right_half) (let rest = right_half_from n (drop 1 h) (suc k) in omega (arith, rest))
  | inr f ↦ rw (f, right_half) (omega arith)
]

-- What the search relies on of the needle.
pub record IsNeedle (needle : Needle) : Type 0 where
  pub long : 1 ≤ needle.l
  pub whole : needle.l ≡ length needle.text
  pub left_part : needle.next_ms < needle.l
  pub period : 1 ≤ needle.p
  pub period_inside : needle.p ≤ needle.l
  pub memory : needle.mem0 < needle.l

-- A turn that does not end the search moves on, and stays inside the haystack.
abbrev pub Moves : Needle → CString → (h : ℕ) → Turn → Type 0
Moves needle hay h (ends none) = Unit
Moves needle hay h (ends (some i)) = i + needle.l ≤ length hay
Moves needle hay h (turn h₁ mem₁ z₁) = (h < h₁) × (h₁ ≤ z₁) × (z₁ ≤ length hay) × (mem₁ < needle.l)

module _ (needle : Needle) (v : IsNeedle needle) (hay : CString) where
  compare_halves-Moves :
      (h mem z : ℕ)
      → h + needle.l ≤ z
      → z ≤ length hay
      → mem < needle.l
      → Moves needle hay h (compare_halves needle hay h mem z)
  unfolding compare_halves
  compare_halves-Moves h mem z fits inside small =
      let from = if ltb needle.next_ms mem then mem else needle.next_ms in
      let k = right_half (drop from needle.text) (drop (h + from) hay) from in
      let left = left_half needle.text (drop h hay) mem needle.next_ms in
      let lower : from ≤ k = right_half_from (drop from needle.text) (drop (h + from) hay) from in
      let low : needle.next_ms ≤ k = ground (arith, lower) in
      elim (Bool-cases (not (byte_at needle.text k == 0))) [
        | inl t ↦
            let high : k < length needle.text = elim (Bool-cases (leb (length needle.text) k)) [
              | inl far ↦
                  absurd (ground (arith, t, byte_at_past needle.text k (ground (arith, far))))
              | inr near ↦ ground (arith, near)
            ] in
            rw t (
              omega (arith, low),
              omega (arith, high, v.whole, fits),
              inside,
              omega (arith, v.long),
            )
        | inr f ↦ elim (Bool-cases (leb left mem)) [
          | inl found ↦ rw (f, found) (omega (arith, fits, inside))
          | inr wrong ↦
              rw (f, wrong)
                (omega (arith, v.period), omega (arith, v.period_inside, fits), inside, v.memory)
        ]
      ]

  check_last-Moves :
      (h mem z : ℕ)
      → h + needle.l ≤ z
      → z ≤ length hay
      → mem < needle.l
      → Moves needle hay h (check_last needle hay h mem z)
  unfolding check_last
  check_last-Moves h mem z fits inside small =
      let last = byte_at hay (h + needle.l - 1) in
      let k = needle.l - needle.shift last in
      elim (Bool-cases (has_byte last needle.byteset)) [
        | inl t ↦ elim (Bool-cases (k == 0)) [
          | inl zero_shift ↦ rw (t, zero_shift) (compare_halves-Moves h mem z fits inside small)
          | inr shifted ↦
              rw (t, shifted)
                (
                  ground (arith, shifted),
                  ground (arith, fits, small),
                  inside,
                  omega (arith, v.long),
                )
        ]
        | inr f ↦ rw f (omega (arith, v.long), omega (arith, fits), inside, omega (arith, v.long))
      ]

or_digits_least : (count a b : ℕ) → a ≤ count → a ≤ digits (λ y. y) max count a b
or_digits_least zero a b l = omega (arith, l)
or_digits_least (suc count) zero b l = omega arith
or_digits_least (suc count) (suc a) b l =
    let rest = or_digits_least count (suc a / 2) (b / 2) (omega (arith, l)) in omega (arith, rest)

bit_or_least : (a b : ℕ) → a ≤ bit_or a b
bit_or_least a b =
    let rest = or_digits_least a a b (omega arith) in omega (arith, rest, bit_or-bitwise a b)

-- The end of the haystack, as `memchr` finds it.
end_found :
    (hay : CString) (z grow z₂ : ℕ)
    → IsText hay
    → z ≤ length hay
    → IsFirst (byte_at hay) 0 grow z (some z₂)
    → (z ≤ z₂) × (z₂ ≤ length hay)
end_found hay z grow z₂ v inside (i, l, at, is, before) = elim (Bool-cases (leb z₂ (length hay))) [
  | inl near ↦ (omega (arith, at), ground (arith, near))
  | inr far ↦
      let place : z + (length hay - z) ≡ length hay = omega (arith, inside) in
      absurd (
        before (length hay - z) (ground (arith, far, at))
          (byte_at_past hay (z + (length hay - z)) (omega (arith, place))))
]

end_far :
    (hay : CString) (z grow : ℕ)
    → z ≤ length hay
    → IsFirst (byte_at hay) 0 grow z none
    → z + grow ≤ length hay
end_far hay z grow inside without = elim (Bool-cases (leb (z + grow) (length hay))) [
  | inl near ↦ ground (arith, near)
  | inr far ↦
      let place : z + (length hay - z) ≡ length hay = omega (arith, inside) in
      absurd (
        without (length hay - z) (ground (arith, far, inside))
          (byte_at_past hay (z + (length hay - z)) (omega (arith, place))))
]

module _ (needle : Needle) (v : IsNeedle needle) (hay : CString) (text : IsText hay) where
  pub search_turn-Moves :
      (h mem z : ℕ)
      → h ≤ z
      → z ≤ length hay
      → mem < needle.l
      → Moves needle hay h (search_turn needle hay h mem z)
  unfolding search_turn
  search_turn-Moves h mem z le inside small =
      let grow = bit_or needle.l 63 in
      elim (Bool-cases (ltb (z - h) needle.l)) [
        | inl t ↦ rw t (
            by_memchr (memchr (byte_at hay) z 0 grow)
              (memchr-IsFirst (byte_at hay) (λ a. byte_at_small hay a text) z 0 grow))
        | inr f ↦ rw f (check_last-Moves needle v hay h mem z (ground (arith, f, le)) inside small)
      ]
    where
      by_memchr :
          (r : Option ℕ)
          → IsFirst (byte_at hay) 0 (bit_or needle.l 63) z r
          → Moves needle hay h (elim r as (λ x. Turn) [
            | some z₂ ↦ if ltb (z₂ - h) needle.l then ends none else check_last needle hay h mem z₂
            | none ↦ check_last needle hay h mem (z + bit_or needle.l 63)
          ])
      by_memchr none w =
          check_last-Moves needle v hay h mem (z + bit_or needle.l 63)
            (omega (arith, le, bit_or_least needle.l 63))
            (end_far hay z (bit_or needle.l 63) inside w) small
      by_memchr (some z₂) w =
          let (lo, hi) = end_found hay z (bit_or needle.l 63) z₂ text inside w in
          elim (Bool-cases (ltb (z₂ - h) needle.l)) [
            | inl s ↦ rw s tt
            | inr s ↦
                rw s (check_last-Moves needle v hay h mem z₂ (ground (arith, s, le, lo)) hi small)
          ]

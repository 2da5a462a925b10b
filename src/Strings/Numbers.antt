-- ===== src/Strings/Numbers.antt =====
-- include/c-stdlib/src/string_impl.c: `strtof`, `strtod` and `strtold`, over the arithmetic of the
-- floating-point type. The text is the list of the bytes from the pointer on, those behind the NUL
-- counted in; `*endptr` is the list of the bytes that are left.
use ckb_js.Prelude.{
  ℕ, zero, suc, ◌+◌, ◌-◌, ◌*◌, ◌/◌, ◌%◌, Bool, true, false, Option, none, some, List, [], ◌∷◌, ltb,
  ◌==◌, ◌||◌, if◌then◌else◌, sub32, u32,
}
use ckb_js.Strings.{char2int}

-- The arithmetic of a type: conversion of an unsigned number, the operators, the constant 0.1 and
-- the multiplication by it, and -1.
pub record Real : Type 1 where
  pub R : Type 0
  pub of_nat : ℕ → R
  pub add : R → R → R
  pub mul : R → R → R
  pub div : R → R → R
  pub tenth : R
  pub by_tenth : R → R
  pub minus_one : R

unfoldable pub isspace : ℕ → Bool
isspace c = c == 32 || ltb (sub32 c 9) 5

-- `(unsigned int)(*p - '0') < 10u`.
abbrev pub isdigit : ℕ → Bool
isdigit b = ltb (sub32 b 48) 10

-- `(*p | 32) == c` for a lower-case letter `c`.
abbrev pub is_letter : (c b : ℕ) → Bool
is_letter c b = b == c || b == c - 32

unfoldable pub skip_spaces : List ℕ → List ℕ
skip_spaces [] = []
skip_spaces (b ∷ s) = elim (isspace b) [ true ↦ skip_spaces s | false ↦ b ∷ s ]

abbrev pub skip_sign : List ℕ → Bool × List ℕ
skip_sign [] = (false, [])
skip_sign (b ∷ s) = if b == 45 then (true, s) else if b == 43 then (false, s) else (false, b ∷ s)

-- The digits of an exponent, as an unsigned int.
unfoldable pub read_expo : ℕ → List ℕ → ℕ × List ℕ
read_expo expo [] = (expo, [])
read_expo expo (b ∷ s) = elim (isdigit b) [
  | true ↦ read_expo (u32 (10 * expo + (b - 48))) s
  | false ↦ (expo, b ∷ s)
]

module _ (F : Real) where
  abbrev pub signed : Bool → F.R → F.R
  signed negative v = F.mul v (if negative then F.minus_one else F.of_nat 1)

  -- The loop that multiplies by a power of the factor; an unsigned int has 32 bits.
  unfoldable pub scale : (bits : ℕ) → F.R → F.R → ℕ → F.R
  scale zero v factor expo = v
  scale (suc bits) v factor expo =
      let v' = if expo % 2 == 1 then F.mul v factor else v in
      let rest = scale bits v' (F.mul factor factor) (expo / 2) in
      if expo / 2 == 0 then v' else rest

  -- The exponent behind an `e`; `none` is the jump to `done` with the value 0 and `p = s`.
  unfoldable pub exponent : F.R → List ℕ → Option (F.R × List ℕ)
  unfolding read_expo scale
  exponent v [] = none
  exponent v (b ∷ s) =
      if b == 45
      then (let (expo, p) = read_expo 0 s in some (scale 32 v F.tenth expo, p))
      else if b == 43
      then (let (expo, p) = read_expo 0 s in some (scale 32 v (F.of_nat 10) expo, p))
      else if isdigit b
      then (let (expo, p) = read_expo 0 (b ∷ s) in some (scale 32 v (F.of_nat 10) expo, p))
      else none

  -- The value of a text with an optional exponent, and what is left; `s` is the whole text.
  abbrev pub with_exponent : (s : List ℕ) → (negative : Bool) → F.R × List ℕ → F.R × List ℕ
  with_exponent s negative (v, []) = (signed negative v, [])
  with_exponent s negative (v, b ∷ p) =
      if is_letter 101 b
      then elim (exponent v p) [
        | none ↦ (signed negative (F.of_nat 0), s)
        | some (v', p') ↦ (signed negative v', p')
      ]
      else (signed negative v, b ∷ p)

  -- The loops of `strtof` over the digits before and behind the point.
  unfoldable pub read_whole : F.R → List ℕ → F.R × List ℕ
  read_whole v [] = (v, [])
  read_whole v (b ∷ s) = elim (isdigit b) [
    | true ↦ read_whole (F.add (F.mul v (F.of_nat 10)) (F.of_nat (b - 48))) s
    | false ↦ (v, b ∷ s)
  ]

  unfoldable pub read_part : F.R → F.R → List ℕ → F.R × List ℕ
  read_part v factor [] = (v, [])
  read_part v factor (b ∷ s) = elim (isdigit b) [
    | true ↦
        (let factor' = F.by_tenth factor in
          read_part (F.add v (F.mul (F.of_nat (b - 48)) factor')) factor' s)
    | false ↦ (v, b ∷ s)
  ]

  abbrev pub with_part : F.R × List ℕ → F.R × List ℕ
  with_part (v, []) = (v, [])
  with_part (v, b ∷ p) = if b == 46 then read_part v (F.of_nat 1) p else (v, b ∷ p)

  unfoldable pub strtof : List ℕ → F.R × List ℕ
  unfolding skip_spaces read_whole read_part exponent
  strtof s =
      let (negative, p) = skip_sign (skip_spaces s) in
      with_exponent s negative (with_part (read_whole (F.of_nat 0) p))

  -- The text of `strtof`, over `long double`.
  unfoldable pub strtold : List ℕ → F.R × List ℕ
  unfolding strtof
  strtold s = strtof s

  -- `strtod`: the case '0' of its switch, which the signs fall into.
  abbrev pub skip_zero : List ℕ → ℕ × List ℕ
  skip_zero [] = (10, [])
  skip_zero (b ∷ []) = (10, b ∷ [])
  skip_zero (b ∷ x ∷ s) = if is_letter 120 x then (16, s) else (10, b ∷ x ∷ s)

  abbrev pub skip_prefix : List ℕ → Bool × ℕ × List ℕ
  skip_prefix [] = (false, 10, [])
  skip_prefix (b ∷ s) =
      if b == 45
      then (let (base, p) = skip_zero s in (true, base, p))
      else if b == 43
      then (let (base, p) = skip_zero s in (false, base, p))
      else if b == 48
      then (let (base, p) = skip_zero (b ∷ s) in (false, base, p))
      else (false, 10, b ∷ s)

  -- The loops over the digits; the Boolean is `has_digits`.
  unfoldable pub read_digits : (base : ℕ) → Bool → F.R → List ℕ → Bool × F.R × List ℕ
  read_digits base has v [] = (has, v, [])
  read_digits base has v (b ∷ s) = elim (char2int b base) [
    | some d ↦ read_digits base true (F.add (F.mul v (F.of_nat base)) (F.of_nat d)) s
    | none ↦ (has, v, b ∷ s)
  ]

  unfoldable pub read_point : (base : ℕ) → Bool → F.R → F.R → List ℕ → Bool × F.R × List ℕ
  read_point base has v factor [] = (has, v, [])
  read_point base has v factor (b ∷ s) = elim (char2int b base) [
    | some d ↦
        (let factor' = F.mul factor (F.div (F.of_nat 1) (F.of_nat base)) in
          read_point base true (F.add v (F.mul (F.of_nat d) factor')) factor' s)
    | none ↦ (has, v, b ∷ s)
  ]

  abbrev pub with_point : (base : ℕ) → Bool × F.R × List ℕ → Bool × F.R × List ℕ
  with_point base (has, v, []) = (has, v, [])
  with_point base (has, v, b ∷ p) =
      if b == 46 then read_point base has v (F.of_nat 1) p else (has, v, b ∷ p)

  -- The end of `strtod`; `s` is the whole text.
  abbrev pub finish : (s : List ℕ) (base : ℕ) → Bool → Bool × F.R × List ℕ → F.R × List ℕ
  finish s base negative (has, v, p) =
      let (value, rest) =
        if base == 10 then with_exponent s negative (v, p) else (signed negative v, p) in
      (value, if has then rest else s)

  unfoldable pub strtod : List ℕ → F.R × List ℕ
  unfolding skip_spaces read_digits read_point exponent
  strtod s =
      let (negative, base, p) = skip_prefix (skip_spaces s) in
      finish s base negative (with_point base (read_digits base false (F.of_nat 0) p))

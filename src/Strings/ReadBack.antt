-- ===== src/Strings/ReadBack.antt =====
-- The decimal text of a number, read back by `strtod` and `strtof`.
use ckb_js.Prelude.{
  ℕ, ◌+◌, ◌-◌, ◌*◌, ◌<◌, ◌≤◌, ◌≡◌, refl, sym, Bool, true, false, List, [], ◌∷◌, ◌++◌, ◌==◌, arith,
  All, inl, inr, Bool-cases, map,
}
use mathlib.Core.Path.{subst}
use ckb_js.Strings.Numbers.{
  Real, isspace, isdigit, is_letter, skip_spaces, skip_sign, signed, skip_zero, skip_prefix,
  read_digits, read_whole, with_point, with_part, with_exponent, finish, strtod, strtof,
}
use ckb_js.Strings.Decimal.{
  decimal, Sign, unsigned, plus, minus, sign_text, is_minus, Ends, value_from, value_from-digits_of,
  value_from_least, AreDigits, digits_of-AreDigits, IsExactTo, digits_of-first, digit_char,
  other_char, is_digit,
}

module _ (F : Real) (most : ℕ) (exact : IsExactTo F most) where
  read_digits_lem :
      (ds : List ℕ) (a : ℕ) (s : List ℕ)
      → AreDigits ds
      → Ends s
      → value_from a ds ≤ most
      → read_digits F 10 true (F.of_nat a) (map (λ d. 48 + d) ds ++ s)
        ≡ (true, F.of_nat (value_from a ds), s)
  unfolding read_digits
  read_digits_lem [] a [] v e fits = refl
  read_digits_lem [] a (b ∷ s) v e fits =
      let other = other_char b (ground (arith, e)) in rw (other, read_digits) refl
  read_digits_lem (d ∷ ds) a s (l, v) e fits =
      let least = value_from_least (a * 10 + d) ds in
      rw (digit_char d l, read_digits, exact.step a d (omega (arith, least, fits)))
        (read_digits_lem ds (a * 10 + d) s v e fits)

  read_whole_lem :
      (ds : List ℕ) (a : ℕ) (s : List ℕ)
      → AreDigits ds
      → Ends s
      → value_from a ds ≤ most
      → read_whole F (F.of_nat a) (map (λ d. 48 + d) ds ++ s) ≡ (F.of_nat (value_from a ds), s)
  unfolding read_whole
  read_whole_lem [] a [] v e fits = refl
  read_whole_lem [] a (b ∷ s) v e fits =
      let other : isdigit b ≡ false = ground (arith, e) in rw (other, read_whole) refl
  read_whole_lem (d ∷ ds) a s (l, v) e fits =
      let least = value_from_least (a * 10 + d) ds in
      let value : 48 + d - 48 ≡ d = omega arith in
      rw (is_digit d l, read_whole, value, exact.step a d (omega (arith, least, fits)))
        (read_whole_lem ds (a * 10 + d) s v e fits)

  -- What stands behind the digits is neither a point nor an exponent.
  finished :
      (whole : List ℕ) (negative : Bool) (x : F.R) (s : List ℕ)
      → Ends s
      → finish F whole 10 negative (with_point F 10 (true, x, s)) ≡ (signed F negative x, s)
  finished whole negative x [] e = refl
  finished whole negative x (b ∷ s) e =
      let point : (b == 46) ≡ false = ground (arith, e) in
      let letter : is_letter 101 b ≡ false = ground (arith, e) in rw (point, letter) refl

  finished_short :
      (whole : List ℕ) (negative : Bool) (x : F.R) (s : List ℕ)
      → Ends s
      → with_exponent F whole negative (with_part F (x, s)) ≡ (signed F negative x, s)
  finished_short whole negative x [] e = refl
  finished_short whole negative x (b ∷ s) e =
      let point : (b == 46) ≡ false = ground (arith, e) in
      let letter : is_letter 101 b ≡ false = ground (arith, e) in rw (point, letter) refl

  -- A text in front of which there may be a sign.
  abbrev NoLetter : List ℕ → Type 0
  NoLetter [] = Unit
  NoLetter (b ∷ s) = is_letter 120 b ≡ false

  no_letter : (ds s : List ℕ) → AreDigits ds → Ends s → NoLetter (map (λ d. 48 + d) ds ++ s)
  no_letter [] [] v e = tt
  no_letter [] (b ∷ s) v e = ground (arith, e)
  no_letter (d ∷ ds) s (l, v) e = ground (arith, l)

  skip_zero_lem : (b : ℕ) (t : List ℕ) → NoLetter t → skip_zero F (b ∷ t) ≡ (10, b ∷ t)
  skip_zero_lem b [] v = refl
  skip_zero_lem b (x ∷ t) v = rw v refl

  skip_prefix_lem :
      (sign : Sign) (d : ℕ) (t : List ℕ)
      → d < 10
      → NoLetter t
      → skip_prefix F (sign_text sign ++ ((48 + d) ∷ t)) ≡ (is_minus sign, 10, (48 + d) ∷ t)
  skip_prefix_lem plus d t l v = rw (skip_zero_lem (48 + d) t v) refl
  skip_prefix_lem minus d t l v = rw (skip_zero_lem (48 + d) t v) refl
  skip_prefix_lem unsigned d t l v =
      let no_minus : (48 + d == 45) ≡ false = ground arith in
      let no_plus : (48 + d == 43) ≡ false = ground arith in
      elim (Bool-cases (48 + d == 48)) [
        | inl z ↦ rw (no_minus, no_plus, z, skip_zero_lem (48 + d) t v) refl
        | inr z ↦ rw (no_minus, no_plus, z) refl
      ]

  skip_sign_lem :
      (sign : Sign) (d : ℕ) (t : List ℕ)
      → skip_sign (sign_text sign ++ ((48 + d) ∷ t)) ≡ (is_minus sign, (48 + d) ∷ t)
  skip_sign_lem plus d t = refl
  skip_sign_lem minus d t = refl
  skip_sign_lem unsigned d t =
      let no_minus : (48 + d == 45) ≡ false = ground arith in
      let no_plus : (48 + d == 43) ≡ false = ground arith in rw (no_minus, no_plus) refl

  skip_spaces_lem :
      (spaces : List ℕ) (sign : Sign) (d : ℕ) (t : List ℕ)
      → All (λ b. isspace b ≡ true) spaces
      → d < 10
      → skip_spaces (spaces ++ (sign_text sign ++ ((48 + d) ∷ t)))
        ≡ sign_text sign ++ ((48 + d) ∷ t)
  unfolding skip_spaces isspace
  skip_spaces_lem [] plus d t v l = refl
  skip_spaces_lem [] minus d t v l = refl
  skip_spaces_lem [] unsigned d t v l =
      let no_space : isspace (48 + d) ≡ false = ground (arith, l) in rw (no_space, skip_spaces) refl
  skip_spaces_lem (b ∷ spaces) sign d t (e, v) l =
      rw (e, skip_spaces) (skip_spaces_lem spaces sign d t v l)

  read_first :
      (d : ℕ) (ds s : List ℕ)
      → AreDigits (d ∷ ds)
      → Ends s
      → value_from 0 (d ∷ ds) ≤ most
      → read_digits F 10 false (F.of_nat 0) ((48 + d) ∷ (map (λ d. 48 + d) ds ++ s))
        ≡ (true, F.of_nat (value_from 0 (d ∷ ds)), s)
  unfolding read_digits
  read_first d ds s (l, v) e fits =
      let least = value_from_least (0 * 10 + d) ds in
      rw (digit_char d l, read_digits, exact.step 0 d (omega (arith, least, fits)))
        (read_digits_lem ds (0 * 10 + d) s v e fits)

  -- Both functions read a text as a number with a sign, and leave the same.
  abbrev ReadAs : (text : List ℕ) → Bool → (n : ℕ) → (rest : List ℕ) → Type 0
  ReadAs text negative n rest =
      (strtod F text ≡ (signed F negative (F.of_nat n), rest))
      × (strtof F text ≡ (signed F negative (F.of_nat n), rest))

  abbrev ReadsDigits : List ℕ → Sign → List ℕ → List ℕ → Type 0
  ReadsDigits spaces sign s ds =
      ReadAs (spaces ++ (sign_text sign ++ (map (λ d. 48 + d) ds ++ s))) (is_minus sign)
        (value_from 0 ds) s

  texts_read :
      (spaces : List ℕ) (sign : Sign) (d : ℕ) (ds s : List ℕ)
      → All (λ b. isspace b ≡ true) spaces
      → AreDigits (d ∷ ds)
      → Ends s
      → value_from 0 (d ∷ ds) ≤ most
      → ReadsDigits spaces sign s (d ∷ ds)
  unfolding strtod strtof
  texts_read spaces sign d ds s blank (l, v) e fits =
      let t = map (λ d. 48 + d) ds ++ s in
      let text = spaces ++ (sign_text sign ++ ((48 + d) ∷ t)) in
      let begun = skip_spaces_lem spaces sign d t blank l in
      let x = F.of_nat (value_from 0 (d ∷ ds)) in
      (
        rw (begun, skip_prefix_lem sign d t l (no_letter ds s v e), read_first d ds s (l, v) e fits)
            (finished text (is_minus sign) x s e),
        rw (begun, skip_sign_lem sign d t, read_whole_lem (d ∷ ds) 0 s (l, v) e fits)
            (finished_short text (is_minus sign) x s e),
      )

  -- With arithmetic that is exact up to `most`: `strtod` and `strtof` read the decimal text of a
  -- number up to `most`, behind spaces and a sign or none, as that number with the sign, and leave
  -- the text behind it, if that does not begin with a digit, a point, an `e` or an `x`.
  pub strtod-decimal :
      (spaces : List ℕ) (sign : Sign) (n : ℕ) (s : List ℕ)
      → All (λ b. isspace b ≡ true) spaces
      → n ≤ most
      → Ends s
      → let text = spaces ++ (sign_text sign ++ (decimal n ++ s)) in
        let value = signed F (is_minus sign) (F.of_nat n) in
        (strtod F text ≡ (value, s)) × (strtof F text ≡ (value, s))
  strtod-decimal spaces sign n s blank fits e =
      let (d, ds, first) = digits_of-first n n in
      let digits : AreDigits (d ∷ ds) =
        subst AreDigits first (digits_of-AreDigits n n (omega arith)) in
      let total = value_from-digits_of n n (omega arith) in
      let fits' : value_from 0 (d ∷ ds) ≤ most =
        subst (λ r. value_from 0 r ≤ most) first (omega (arith, total, fits)) in
      let read =
        subst (ReadsDigits spaces sign s) (sym first)
          (texts_read spaces sign d ds s blank digits e fits') in
      subst (λ m. ReadAs (spaces ++ (sign_text sign ++ (decimal n ++ s))) (is_minus sign) m s) total
        read

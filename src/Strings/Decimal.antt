-- ===== src/Strings/Decimal.antt =====
-- The decimal text of a number.
use ckb_js.Prelude.{
  ℕ, zero, suc, ◌+◌, ◌*◌, ◌/◌, ◌%◌, ◌<◌, ◌≤◌, ◌≡◌, refl, ap, ◌∙◌, Bool, true, false, none, some,
  List, [], ◌∷◌, ◌++◌, ltb, leb, ◌==◌, ◌&&◌, ◌||◌, if◌then◌else◌, arith, All, inl, inr, Bool-cases,
  map,
}
use ckb_js.Strings.{char2int}
use ckb_js.Strings.Numbers.{Real, isdigit, is_letter}

-- The digits of a number, the highest first; `fuel` bounds their number.
abbrev pub digits_of : (fuel n : ℕ) → List ℕ
digits_of zero n = n ∷ []
digits_of (suc fuel) n =
    let rest = digits_of fuel (n / 10) in if ltb n 10 then n ∷ [] else rest ++ (n % 10 ∷ [])

abbrev pub decimal : ℕ → List ℕ
decimal n = map (λ d. 48 + d) (digits_of n n)

-- A sign, or none.
pub data Sign : Type 0 where
  unsigned : Sign
  plus : Sign
  minus : Sign

abbrev pub sign_text : Sign → List ℕ
sign_text unsigned = []
sign_text plus = 43 ∷ []
sign_text minus = 45 ∷ []

abbrev pub is_minus : Sign → Bool
is_minus unsigned = false
is_minus plus = false
is_minus minus = true

-- A text that does not go on with the number before it.
abbrev pub Ends : List ℕ → Type 0
Ends [] = Unit
Ends (b ∷ s) = (isdigit b || (b == 46 || (is_letter 101 b || is_letter 120 b))) ≡ false

-- The value of digits behind a number.
abbrev pub value_from : ℕ → List ℕ → ℕ
value_from a [] = a
value_from a (d ∷ ds) = value_from (a * 10 + d) ds

value_from-append :
    (a : ℕ) (ds : List ℕ) (d : ℕ) → value_from a (ds ++ (d ∷ [])) ≡ value_from a ds * 10 + d
value_from-append a [] d = refl
value_from-append a (x ∷ ds) d = value_from-append (a * 10 + x) ds d

pub value_from-digits_of : (fuel n : ℕ) → n ≤ fuel → value_from 0 (digits_of fuel n) ≡ n
value_from-digits_of zero n l = omega arith
value_from-digits_of (suc fuel) n l = elim (Bool-cases (ltb n 10)) [
  | inl t ↦ rw t (omega arith)
  | inr f ↦ rw f (
      value_from-append 0 (digits_of fuel (n / 10)) (n % 10)
      ∙ (let rest = value_from-digits_of fuel (n / 10) (ground (arith, l, f)) in
          omega (arith, rest)))
]

pub value_from_least : (a : ℕ) (ds : List ℕ) → a ≤ value_from a ds
value_from_least a [] = omega arith
value_from_least a (d ∷ ds) = omega (arith, value_from_least (a * 10 + d) ds)

abbrev pub AreDigits : List ℕ → Type 0
AreDigits ds = All (λ d. d < 10) ds

AreDigits-append : (ds : List ℕ) (d : ℕ) → AreDigits ds → d < 10 → AreDigits (ds ++ (d ∷ []))
AreDigits-append [] d v l = (l, tt)
AreDigits-append (x ∷ ds) d (k, v) l = (k, AreDigits-append ds d v l)

pub digits_of-AreDigits : (fuel n : ℕ) → n ≤ fuel → AreDigits (digits_of fuel n)
digits_of-AreDigits zero n l = (omega (arith, l), tt)
digits_of-AreDigits (suc fuel) n l = elim (Bool-cases (ltb n 10)) [
  | inl t ↦ rw t (ground (arith, t), tt)
  | inr f ↦ rw f (
      AreDigits-append (digits_of fuel (n / 10)) (n % 10)
        (digits_of-AreDigits fuel (n / 10) (ground (arith, l, f))) (omega arith))
]

-- Arithmetic that is exact on natural numbers up to `most`.
pub record IsExactTo (F : Real) (most : ℕ) : Type 0 where
  pub step :
      (a d : ℕ)
      → a * 10 + d ≤ most
      → F.add (F.mul (F.of_nat a) (F.of_nat 10)) (F.of_nat d) ≡ F.of_nat (a * 10 + d)

pub digits_of-first : (fuel n : ℕ) → (d : ℕ) × (ds : List ℕ) × (digits_of fuel n ≡ d ∷ ds)
digits_of-first zero n = (n, [], refl)
digits_of-first (suc fuel) n = elim (Bool-cases (ltb n 10)) [
  | inl t ↦ (n, [], rw t refl)
  | inr f ↦
      let (d, ds, e) = digits_of-first fuel (n / 10) in
      (d, ds ++ (n % 10 ∷ []), rw f (ap (λ r. r ++ (n % 10 ∷ [])) e))
]

pub digit_char : (d : ℕ) → d < 10 → char2int (48 + d) 10 ≡ some d
unfolding char2int
digit_char d l =
    let test : (leb 48 (48 + d) && leb (48 + d) 57) ≡ true = ground (arith, l) in
    rw test (ap some (omega arith))

pub other_char : (b : ℕ) → isdigit b ≡ false → char2int b 10 ≡ none
unfolding char2int
other_char b e = let test : (leb 48 b && leb b 57) ≡ false = ground (arith, e) in rw test refl

pub is_digit : (d : ℕ) → d < 10 → isdigit (48 + d) ≡ true
is_digit d l = ground (arith, l)

-- ===== src/Strings/Tests.antt =====
-- Searches in short strings.
use native.Mathlib.Nat.{mul_assoc}
use ckb_js.Prelude.{
  ℕ, ◌+◌, ◌*◌, ◌/◌, [], ◌∷◌, ◌≡◌, refl, some, arith, false, not, ◌%◌, ◌^◌, ◌==◌, ◌&&◌,
  if◌then◌else◌, ◌<◌, length, get_or, u8,
}
use ckb_js.Fixtures.{codes}
use ckb_js.Strings.{strchr, strchrnul, scan_to, char2int, islower, isupper, tolower, toupper}
use ckb_js.Strings.Numbers.{
  Real, isspace, isdigit, skip_spaces, read_digits, read_point, read_expo, scale, exponent, strtod,
  strtof,
}
use ckb_js.Strings.Memory.{memchr}
use ckb_js.Strings.Passes.{IsFirst}
use ckb_js.Strings.Chr.{memchr-IsFirst}
use ckb_js.Strings.Find.{strstr}
use ckb_js.Strings.Windows.{first_place}
use ckb_js.Strings.Found.{strstr_first}
use ckb_js.Strings.Ctype.{
  ctype_b_table, toupper_table, tolower_table, ctype_toupper, ctype_tolower, has_class,
}
use ckb_js.Strings.Classes.{tables_agree, of_character, in_class, tables_classify}
use ckb_js.Strings.Decimal.{plus, IsExactTo}
use ckb_js.Strings.ReadBack.{strtod-decimal}
use ckb_js.Strings.Sets.{strspn, strcspn}
use ckb_js.Strings.Spans.{among, prefix_length, spans_count}
use ckb_js.Strings.Power.{IsExact, strtod_sign_any}

first_slash : strchr (codes "a/b/c") 47 ≡ some 1
unfolding strchr strchrnul scan_to
first_slash = refl

hexadecimal : char2int 70 16 ≡ some 15
unfolding char2int
hexadecimal = refl

-- Whole numbers as the arithmetic.
abbrev naturals : Real
naturals = record {
  R = ℕ;
  of_nat = λ n. n;
  add = λ a b. a + b;
  mul = λ a b. a * b;
  div = λ a b. a / b;
  tenth = 0;
  by_tenth = λ a. a / 10;
  minus_one = 0;
}

naturals-IsExact : IsExact naturals
naturals-IsExact = record { assoc = λ a b c. mul_assoc a b c; unit = λ a. omega arith }

thousands : strtod naturals (codes " 25e3,") ≡ (25000, codes ",")
unfolding strtod skip_spaces isspace read_digits read_point exponent read_expo scale char2int
thousands = refl

hexadecimal_text : strtod naturals (codes "0x1F,") ≡ (31, codes ",")
unfolding strtod skip_spaces isspace read_digits read_point exponent read_expo scale char2int
hexadecimal_text = refl

digit_one : char2int 49 16 ≡ some 1
unfolding char2int
digit_one = refl

-- A sign and the end of the text, with `x1,` behind it in memory.
strtod_sign_any_example :
    (strtod naturals (45 ∷ 0 ∷ 120 ∷ 49 ∷ 44 ∷ []) ≡ strtod naturals (45 ∷ 48 ∷ 120 ∷ 49 ∷ 44 ∷ []))
    × (strtod naturals (43 ∷ 0 ∷ 120 ∷ 49 ∷ 44 ∷ [])
        ≡ strtod naturals (43 ∷ 48 ∷ 120 ∷ 49 ∷ 44 ∷ []))
strtod_sign_any_example = strtod_sign_any naturals 0 49 1 (44 ∷ []) digit_one

spans_count_example :
    (strspn (codes "aab,c") (codes "ab")
      ≡ prefix_length (λ b. among b (codes "ab")) (codes "aab,c"))
    × (strcspn (codes "aab,c") (codes "ab")
        ≡ prefix_length (λ b. not (among b (codes "ab"))) (codes "aab,c"))
spans_count_example =
    spans_count (codes "aab,c") (codes "ab")
      ((omega arith, omega arith), ((omega arith, omega arith), tt))

-- A text over and over.
abbrev letters : ℕ → ℕ
letters a = 97 + a % 11

memchr-IsFirst_example : IsFirst letters (u8 106) 30 3 (memchr letters 3 106 30)
memchr-IsFirst_example = memchr-IsFirst letters (λ a. omega arith) 3 106 30

strstr_first_example :
    strstr (λ s t count. false) (codes "banana") (codes "nan")
    ≡ first_place (codes "nan") (codes "banana")
strstr_first_example =
    strstr_first (λ s t count. false) (codes "banana") (codes "nan") (ground arith) (ground arith)
      (omega arith)

tables_agree_example :
    (ctype_toupper 107 ≡ toupper 107)
    × (ctype_tolower 107 ≡ tolower 107)
    × (has_class 8 107 ≡ isupper 107)
    × (has_class 9 107 ≡ islower 107)
    × (has_class 11 107 ≡ isdigit 107)
    × (has_class 13 107 ≡ isspace 107)
tables_agree_example = tables_agree 107 (omega arith)

-- The entry of "A" and the class of hexadecimal digits.
tables_classify_example :
    ((length ctype_b_table ≡ 384) × (length toupper_table ≡ 384) × (length tolower_table ≡ 384))
    × (get_or ctype_b_table 193 0 < 2 ^ 16)
    × ((get_or ctype_b_table 193 0 / 2 ^ 12 % 2 == 1) ≡ (of_character 193 && in_class 12 65))
    × (get_or toupper_table 193 0 ≡ (if of_character 193 then toupper 65 else 0))
    × (get_or tolower_table 193 0 ≡ (if of_character 193 then tolower 65 else 0))
tables_classify_example = tables_classify 193 12 (omega arith) (omega arith)

naturals-IsExactTo : IsExactTo naturals (2 ^ 64)
naturals-IsExactTo = record { step = λ a d l. refl }

strtod-decimal_example :
    (strtod naturals (codes "  +1234,") ≡ (1234 * 1, codes ","))
    × (strtof naturals (codes "  +1234,") ≡ (1234 * 1, codes ","))
unfolding isspace
strtod-decimal_example =
    strtod-decimal naturals (2 ^ 64) naturals-IsExactTo (32 ∷ 32 ∷ []) plus 1234 (44 ∷ [])
      (refl, (refl, tt)) (omega arith) refl

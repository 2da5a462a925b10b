-- ===== src/Strings/Classes.antt =====
-- The tables of the characters and the functions on characters.
use ckb_js.Prelude.{
  ℕ, zero, suc, ◌<◌, ◌≡◌, refl, Bool, true, false, not, ◌==◌, ◌&&◌, ◌||◌, ltb, leb, arith, length,
  get_or, ◌^◌, ◌-◌, ◌/◌, ◌%◌, if◌then◌else◌,
}
use ckb_js.Strings.{islower, isupper, tolower, toupper}
use ckb_js.Strings.Numbers.{isspace, isdigit}
use ckb_js.Strings.Ctype.{
  ctype_b_table, toupper_table, tolower_table, ctype_b, ctype_toupper, ctype_tolower, has_class,
}

-- Over a small range, every value is tried.
all_below : ℕ → (ℕ → Bool) → Bool
all_below zero p = true
all_below (suc n) p = p n && all_below n p

all_below_lem : (n : ℕ) (p : ℕ → Bool) (x : ℕ) → all_below n p ≡ true → x < n → p x ≡ true
unfolding all_below
all_below_lem zero p x h l = absurd (omega arith)
all_below_lem (suc n) p x h l = ground (arith, all_below_lem n p x)

abbrev bool_eq : Bool → Bool → Bool
bool_eq true b = b
bool_eq false b = not b

bool_eq_lem : (a b : Bool) → bool_eq a b ≡ true → a ≡ b
bool_eq_lem a b h = ground (arith, h)

abbrev mapped : ℕ → Bool
mapped c = ctype_toupper c == toupper c && ctype_tolower c == tolower c

mapped_all : all_below 128 mapped ≡ true
unfolding all_below ctype_toupper ctype_tolower toupper tolower toupper_table tolower_table islower
    isupper
mapped_all = refl

abbrev classed : ℕ → Bool
classed c =
    bool_eq (has_class 8 c) (isupper c)
    && bool_eq (has_class 9 c) (islower c)
    && bool_eq (has_class 11 c) (isdigit c)
    && bool_eq (has_class 13 c) (isspace c)

classed_all : all_below 128 classed ≡ true
unfolding all_below ctype_b ctype_b_table islower isupper isspace
classed_all = refl

-- For a character below 128 the tables hold what `toupper` and `tolower` give, and the bits 8, 9,
-- 11 and 13 of its entry are those of `isupper`, `islower`, the digits and `isspace`.
pub tables_agree :
    (c : ℕ)
    → c < 128
    → (ctype_toupper c ≡ toupper c)
      × (ctype_tolower c ≡ tolower c)
      × (has_class 8 c ≡ isupper c)
      × (has_class 9 c ≡ islower c)
      × (has_class 11 c ≡ isdigit c)
      × (has_class 13 c ≡ isspace c)
tables_agree c l =
    let m = all_below_lem 128 mapped c mapped_all l in
    let k = all_below_lem 128 classed c classed_all l in
    let upper : bool_eq (has_class 8 c) (isupper c) ≡ true = ground (arith, k) in
    let lower : bool_eq (has_class 9 c) (islower c) ≡ true = ground (arith, k) in
    let digit : bool_eq (has_class 11 c) (isdigit c) ≡ true = ground (arith, k) in
    let space : bool_eq (has_class 13 c) (isspace c) ≡ true = ground (arith, k) in
    (
      ground (arith, m),
      ground (arith, m),
      bool_eq_lem (has_class 8 c) (isupper c) upper,
      bool_eq_lem (has_class 9 c) (islower c) lower,
      bool_eq_lem (has_class 11 c) (isdigit c) digit,
      bool_eq_lem (has_class 13 c) (isspace c) space,
    )

-- The classes of the characters in the "C" locale, by ranges of ASCII.
abbrev between : (low high c : ℕ) → Bool
between low high c = leb low c && leb c high

abbrev letter : ℕ → Bool
letter c = between 65 90 c || between 97 122 c

abbrev alphanumeric : ℕ → Bool
alphanumeric c = letter c || between 48 57 c

abbrev hexadecimal : ℕ → Bool
hexadecimal c = between 48 57 c || between 65 70 c || between 97 102 c

-- By their bits: blank, control, punctuation and alphanumeric, then from 8 on upper case, lower
-- case, letter, digit, hexadecimal, space, printing and graphical. No character has another bit.
abbrev pub in_class : (class c : ℕ) → Bool
in_class class c =
    if class == 0
    then c == 9 || c == 32
    else if class == 1
    then between 0 31 c || c == 127
    else if class == 2
    then between 33 126 c && not (alphanumeric c)
    else if class == 3
    then alphanumeric c
    else if class == 8
    then between 65 90 c
    else if class == 9
    then between 97 122 c
    else if class == 10
    then letter c
    else if class == 11
    then between 48 57 c
    else if class == 12
    then hexadecimal c
    else if class == 13
    then between 9 13 c || c == 32
    else if class == 14
    then between 32 126 c
    else if class == 15
    then between 33 126 c
    else false

-- What an entry is for: the 128 in the middle of a table are those of the characters.
abbrev pub of_character : (i : ℕ) → Bool
of_character i = between 128 255 i

abbrev bits_right : (i class : ℕ) → Bool
bits_right i class =
    bool_eq (get_or ctype_b_table i 0 / 2 ^ class % 2 == 1)
      (of_character i && in_class class (i - 128))

abbrev entry_right : ℕ → Bool
entry_right i =
    ltb (get_or ctype_b_table i 0) (2 ^ 16)
    && get_or toupper_table i 0 == (if of_character i then toupper (i - 128) else 0)
    && get_or tolower_table i 0 == (if of_character i then tolower (i - 128) else 0)
    && all_below 16 (bits_right i)

entries_right : all_below 384 entry_right ≡ true
unfolding all_below ctype_b_table toupper_table tolower_table toupper tolower islower isupper
entries_right = refl

lengths : (length ctype_b_table ≡ 384) × (length toupper_table ≡ 384) × (length tolower_table ≡ 384)
unfolding ctype_b_table toupper_table tolower_table
lengths = (refl, refl, refl)

-- Each of the three tables has 384 entries, and every one is right. The entries from 128 to 255 are those of the characters
-- from 0 on: that of `__ctype_b_loc` has 16 bits, which are set exactly for the classes that the
-- character has in the "C" locale, and those of the other two are what `toupper` and `tolower` give.
-- All entries before and behind are 0.
pub tables_classify :
    (i class : ℕ)
    → i < 384
    → class < 16
    → ((length ctype_b_table ≡ 384) × (length toupper_table ≡ 384) × (length tolower_table ≡ 384))
      × (get_or ctype_b_table i 0 < 2 ^ 16)
      × ((get_or ctype_b_table i 0 / 2 ^ class % 2 == 1)
          ≡ (of_character i && in_class class (i - 128)))
      × (get_or toupper_table i 0 ≡ (if of_character i then toupper (i - 128) else 0))
      × (get_or tolower_table i 0 ≡ (if of_character i then tolower (i - 128) else 0))
tables_classify i class l k =
    let right : entry_right i ≡ true = all_below_lem 384 entry_right i entries_right l in
    let bits : all_below 16 (bits_right i) ≡ true = ground (arith, right) in
    (
      lengths,
      ground (arith, right),
      bool_eq_lem (get_or ctype_b_table i 0 / 2 ^ class % 2 == 1)
          (of_character i && in_class class (i - 128))
          (all_below_lem 16 (bits_right i) class bits k),
      ground (arith, right),
      ground (arith, right),
    )

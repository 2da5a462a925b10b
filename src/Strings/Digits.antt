-- ===== src/Strings/Digits.antt =====
-- The bitwise operations on the native numbers, by their binary digits, and their bytes.
use Prim.Native.Nat.{bit_and, bit_xor, digits, differ, bit_and-bitwise, bit_xor-bitwise}
use ckb_js.Prelude.{
  ℕ, zero, suc, ◌+◌, ◌*◌, ◌/◌, ◌%◌, ◌≤◌, ◌<◌, ◌≡◌, ◌≢◌, ◌⊎◌, refl, sym, ap, ap₂, ◌∙◌, min, arith,
}

-- Any count of digits to go that is no less than the first number gives the same.
module _ (past : ℕ → ℕ) (join : ℕ → ℕ → ℕ) where
  digits_enough :
      (x y count more : ℕ)
      → x ≤ count
      → x ≤ more
      → digits past join count x y ≡ digits past join more x y
  digits_enough zero y zero zero p q = refl
  digits_enough zero y zero (suc more) p q = refl
  digits_enough zero y (suc count) zero p q = refl
  digits_enough zero y (suc count) (suc more) p q = refl
  digits_enough (suc x) y zero more p q = absurd (omega (arith, p))
  digits_enough (suc x) y (suc count) zero p q = absurd (omega (arith, q))
  digits_enough (suc x) y (suc count) (suc more) p q =
      let rest =
        digits_enough (suc x / 2) (y / 2) count more (omega (arith, p)) (omega (arith, q)) in
      omega (arith, rest)

  -- The lowest digit apart from the others.
  lowest :
      (x y : ℕ)
      → past y ≡ past (y / 2) * 2 + join 0 (y % 2)
      → digits past join x x y ≡ digits past join (x / 2) (x / 2) (y / 2) * 2 + join (x % 2) (y % 2)
  lowest zero y e = e
  lowest (suc x) y e =
      let rest = digits_enough (suc x / 2) (y / 2) x (suc x / 2) (omega arith) (omega arith) in
      omega (arith, rest)

bit_and_step : (a b : ℕ) → bit_and a b ≡ bit_and (a / 2) (b / 2) * 2 + min (a % 2) (b % 2)
bit_and_step a b =
    let rest = lowest (λ y. zero) min a b (omega arith) in
    omega (arith, bit_and-bitwise a b, bit_and-bitwise (a / 2) (b / 2), rest)

bit_xor_step : (a b : ℕ) → bit_xor a b ≡ bit_xor (a / 2) (b / 2) * 2 + differ (a % 2) (b % 2)
bit_xor_step a b =
    let rest = lowest (λ y. y) differ a b (omega arith) in
    omega (arith, bit_xor-bitwise a b, bit_xor-bitwise (a / 2) (b / 2), rest)

differ_same : (a b : ℕ) → a ≡ b → differ a b ≡ 0
differ_same zero zero e = refl
differ_same zero (suc b) e = absurd (omega (arith, e))
differ_same (suc a) zero e = absurd (omega (arith, e))
differ_same (suc a) (suc b) e = differ_same a b (omega (arith, e))

differ_digit : (a b : ℕ) → a < 2 → b < 2 → differ a b < 2
differ_digit zero b p q = q
differ_digit (suc zero) zero p q = omega arith
differ_digit (suc zero) (suc zero) p q = omega arith
differ_digit (suc zero) (suc (suc b)) p q = absurd (omega (arith, q))
differ_digit (suc (suc a)) b p q = absurd (omega (arith, p))

and_half : (a b : ℕ) → bit_and a b / 2 ≡ bit_and (a / 2) (b / 2)
and_half a b = omega (arith, bit_and_step a b)

xor_half : (a b : ℕ) → bit_xor a b / 2 ≡ bit_xor (a / 2) (b / 2)
xor_half a b =
    omega (arith, bit_xor_step a b, differ_digit (a % 2) (b % 2) (omega arith) (omega arith))

abbrev halves : ℕ → ℕ → ℕ
halves zero a = a
halves (suc n) a = halves n (a / 2)

and_halves : (n a b : ℕ) → halves n (bit_and a b) ≡ bit_and (halves n a) (halves n b)
and_halves zero a b = refl
and_halves (suc n) a b = ap (halves n) (and_half a b) ∙ and_halves n (a / 2) (b / 2)

xor_halves : (n a b : ℕ) → halves n (bit_xor a b) ≡ bit_xor (halves n a) (halves n b)
xor_halves zero a b = refl
xor_halves (suc n) a b = ap (halves n) (xor_half a b) ∙ xor_halves n (a / 2) (b / 2)

and_byte : (a b : ℕ) → bit_and a b / 256 ≡ bit_and (a / 256) (b / 256)
and_byte a b =
    let e : (x : ℕ) → halves 8 x ≡ x / 256 = λ x. omega arith in
    sym (e (bit_and a b)) ∙ and_halves 8 a b ∙ ap₂ bit_and (e a) (e b)

pub xor_byte : (a b : ℕ) → bit_xor a b / 256 ≡ bit_xor (a / 256) (b / 256)
xor_byte a b =
    let e : (x : ℕ) → halves 8 x ≡ x / 256 = λ x. omega arith in
    sym (e (bit_xor a b)) ∙ xor_halves 8 a b ∙ ap₂ bit_xor (e a) (e b)

-- The highest bit of the lowest byte.
and_high : (a b : ℕ) → bit_and a b / 128 % 2 ≡ min (a / 128 % 2) (b / 128 % 2)
and_high a b =
    let e : (x : ℕ) → halves 7 x ≡ x / 128 = λ x. omega arith in
    let f : bit_and a b / 128 ≡ bit_and (a / 128) (b / 128) =
      sym (e (bit_and a b)) ∙ and_halves 7 a b ∙ ap₂ bit_and (e a) (e b) in
    omega (arith, f, bit_and_step (a / 128) (b / 128))

-- The lowest `n` digits of two numbers agree, or those of a number are 0.
abbrev Agree : (n a b : ℕ) → Type 0
Agree zero a b = Unit
Agree (suc n) a b = (a % 2 ≡ b % 2) × Agree n (a / 2) (b / 2)

abbrev Even : (n x : ℕ) → Type 0
Even zero x = Unit
Even (suc n) x = (x % 2 ≡ 0) × Even n (x / 2)

Agree-xor : (n a b : ℕ) → Agree n a b → Even n (bit_xor a b)
Agree-xor zero a b h = tt
Agree-xor (suc n) a b (e, h) = (
  omega (arith, bit_xor_step a b, differ_same (a % 2) (b % 2) e),
  rw (xor_half a b) (Agree-xor n (a / 2) (b / 2) h),
)

Even-byte : (x : ℕ) → Even 8 x → x % 256 ≡ 0
Even-byte x h = omega (arith, h)

pub xor_same : (a b : ℕ) → a % 256 ≡ b % 256 → bit_xor a b % 256 ≡ 0
xor_same a b e =
    let same : Agree 8 a b = ground (arith, e) in Even-byte (bit_xor a b) (Agree-xor 8 a b same)

-- A word of `k` bytes that are all 1, and the number of such words.
abbrev pub ones : ℕ → ℕ
ones zero = 0
ones (suc k) = 1 + 256 * ones k

abbrev pub words : ℕ → ℕ
words zero = 1
words (suc k) = 256 * words k

abbrev pub byte_of : (i x : ℕ) → ℕ
byte_of zero x = x % 256
byte_of (suc i) x = byte_of i (x / 256)

-- `(x - ones) & ~x & highs` is 0 only if no byte of `x` is.
no_low :
    (k x y z : ℕ)
    → (y + ones (suc k) ≡ x) ⊎ (y + ones (suc k) ≡ x + words (suc k))
    → z + x + 1 ≡ words (suc k)
    → bit_and (bit_and y z) (128 * ones (suc k)) ≡ 0
    → x % 256 ≢ 0
no_low k x y z sub neg none e =
    ground (arith, sub, neg, none, e, and_high (bit_and y z) (128 * ones (suc k)), and_high y z)

pub no_zero :
    (k x y z : ℕ)
    → (y + ones k ≡ x) ⊎ (y + ones k ≡ x + words k)
    → z + x + 1 ≡ words k
    → bit_and (bit_and y z) (128 * ones k) ≡ 0
    → (i : ℕ) → i < k
    → byte_of i x ≢ 0
no_zero zero x y z sub neg none i l = absurd (omega (arith, l))
no_zero (suc k) x y z sub neg none zero l = no_low k x y z sub neg none
no_zero (suc k) x y z sub neg none (suc i) l =
    let low = no_low k x y z sub neg none in
    no_zero k (x / 256) (y / 256) (z / 256) (ground (arith, sub, low)) (omega (arith, neg))
      (let high : 128 * ones (suc k) / 256 ≡ 128 * ones k = omega arith in
        let rest = and_byte (bit_and y z) (128 * ones (suc k)) in
        ap₂ bit_and (sym (and_byte y z)) (sym high) ∙ sym rest ∙ omega (arith, none))
      i (omega (arith, l))

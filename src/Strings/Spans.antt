-- ===== src/Strings/Spans.antt =====
-- What the spans of bytes mean.
use native.Mathlib.Nat.{div-div-eq-div-mul, pow-succ', zero-div, add-div_right, one-le-pow}
use ckb_js.Prelude.{
  ℕ, zero, suc, ◌+◌, ◌*◌, ◌/◌, ◌%◌, ◌^◌, ◌<◌, ◌≡◌, ◌≢◌, refl, sym, ap, ap₂, ◌∙◌, Bool, true, false,
  not, [], ◌∷◌, ◌==◌, ◌||◌, if◌then◌else◌, All, arith, Bool-cases, inl, inr, length, u8,
}
use ckb_js.CellFs.{CString}
use ckb_js.Strings.{strchrnul, scan_to}
use ckb_js.Strings.Sets.{
  Byteset, bit, add_byte, has_byte, fill, span_in, span_out, span_one, strspn, strcspn,
}

bit_suc : (m i : ℕ) → bit m (suc i) ≡ bit (m / 2) i
bit_suc m i =
    let e : m / 2 / 2 ^ i ≡ m / 2 ^ suc i =
      div-div-eq-div-mul m 2 (2 ^ i) ∙ ap (λ k. m / k) (sym (pow-succ' 2 i)) in
    ap (λ q. q % 2 == 1) (sym e)

half_add : (m i : ℕ) → (m + 2 ^ suc i) / 2 ≡ m / 2 + 2 ^ i
half_add m i = let e : 2 ^ suc i ≡ 2 * 2 ^ i = pow-succ' 2 i in omega (arith, e)

-- A bit that is set changes no other.
bit_other : (i j m : ℕ) → i ≢ j → bit m i ≡ false → bit (m + 2 ^ i) j ≡ bit m j
bit_other zero zero m n f = absurd (n refl)
bit_other zero (suc j) m n f =
    let even : (m + 1) / 2 ≡ m / 2 = ground (arith, f) in
    bit_suc (m + 1) j ∙ ap (λ q. bit q j) even ∙ sym (bit_suc m j)
bit_other (suc i) zero m n f =
    let e : 2 ^ suc i ≡ 2 * 2 ^ i = pow-succ' 2 i in
    let parity : (m + 2 ^ suc i) / 1 % 2 ≡ m / 1 % 2 = omega (arith, e) in ap (λ q. q == 1) parity
bit_other (suc i) (suc j) m n f =
    bit_suc (m + 2 ^ suc i) j
    ∙ ap (λ q. bit q j) (half_add m i)
    ∙ bit_other i j (m / 2) (λ e. n (ap suc e)) (sym (bit_suc m i) ∙ f)
    ∙ sym (bit_suc m j)

bit_same : (i m : ℕ) → bit m i ≡ false → bit (m + 2 ^ i) i ≡ true
bit_same i m f =
    let e = add-div_right m {k = 2 ^ i} (one-le-pow i 2 (omega arith)) in rw e (ground (arith, f))

bit-set : (m i j : ℕ) → bit (if bit m i then m else m + 2 ^ i) j ≡ (i == j || bit m j)
bit-set m i j = elim (Bool-cases (bit m i)) [
  | inl t ↦ rw t (elim (Bool-cases (i == j)) [
    | inl same ↦ (let e : i ≡ j = ground (arith, same) in rw same (ap (bit m) (sym e) ∙ t))
    | inr other ↦ rw other refl
  ])
  | inr f ↦ rw f (elim (Bool-cases (i == j)) [
    | inl same ↦
        (let e : i ≡ j = ground (arith, same) in
          rw same (ap (bit (m + 2 ^ i)) (sym e) ∙ bit_same i m f))
    | inr other ↦ rw other (bit_other i j m (ground (arith, other)) f)
  ])
]

or_left : (a b c : Bool) → (a || (b || c)) ≡ ((b || a) || c)
or_left true true c = refl
or_left true false c = refl
or_left false true c = refl
or_left false false c = refl

or_false : (a : Bool) → (a || false) ≡ a
or_false true = refl
or_false false = refl

if_not : (a : Bool) (n : ℕ) → (if a then 0 else n) ≡ (if not a then n else 0)
if_not true n = refl
if_not false n = refl

-- Whether a byte is among those of a string.
abbrev pub among : ℕ → CString → Bool
among b [] = false
among b (c ∷ cs) = b == c || among b cs

has_byte-add_byte :
    (b c : ℕ) (set : Byteset) → has_byte b (add_byte c set) ≡ (b == c || has_byte b set)
has_byte-add_byte b c set = elim (Bool-cases (b / 64 == c / 64)) [
  | inl same ↦
      let place : (c % 64 == b % 64) ≡ (b == c) = ground (arith, same) in
      rw same (bit-set (set (b / 64)) (c % 64) (b % 64) ∙ ap (λ q. q || has_byte b set) place)
  | inr other ↦ (let differs : (b == c) ≡ false = ground (arith, other) in rw (other, differs) refl)
]

zero_bit : (i : ℕ) → bit 0 i ≡ false
zero_bit i = (let e : 0 / 2 ^ i ≡ 0 = zero-div (2 ^ i) in ground (arith, e))

has_byte-fill :
    (b : ℕ) (c : CString) (set : Byteset) → has_byte b (fill c set) ≡ (among b c || has_byte b set)
unfolding fill
has_byte-fill b [] set = refl
has_byte-fill b (c ∷ cs) set =
    has_byte-fill b cs (add_byte c set)
    ∙ ap (λ q. among b cs || q) (has_byte-add_byte b c set)
    ∙ or_left (among b cs) (b == c) (has_byte b set)

-- How many bytes at the front of a string pass a test.
abbrev pub prefix_length : (ℕ → Bool) → CString → ℕ
prefix_length p [] = 0
prefix_length p (b ∷ s) = let rest = prefix_length p s in if p b then suc rest else 0

among-fill : (b : ℕ) (c : CString) → has_byte b (fill c (λ w. 0)) ≡ among b c
among-fill b c =
    has_byte-fill b c (λ w. 0) ∙ ap (λ q. among b c || q) (zero_bit (b % 64)) ∙ or_false (among b c)

span_in_lem :
    (c : CString) (set : Byteset)
    → ((b : ℕ) → has_byte b set ≡ among b c)
    → (s : CString) → span_in set s ≡ prefix_length (λ b. among b c) s
unfolding span_in
span_in_lem c set e [] = refl
span_in_lem c set e (b ∷ s) = ap₂ (λ q r. if q then suc r else 0) (e b) (span_in_lem c set e s)

span_out_lem :
    (c : CString) (set : Byteset)
    → ((b : ℕ) → has_byte b set ≡ among b c)
    → (s : CString) → span_out set s ≡ prefix_length (λ b. not (among b c)) s
unfolding span_out
span_out_lem c set e [] = refl
span_out_lem c set e (b ∷ s) =
    ap₂ (λ q r. if q then 0 else suc r) (e b) (span_out_lem c set e s)
    ∙ if_not (among b c) (suc (prefix_length (λ b. not (among b c)) s))

span_one_lem : (c : ℕ) (s : CString) → span_one c s ≡ prefix_length (λ b. among b (c ∷ [])) s
unfolding span_one
span_one_lem c [] = refl
span_one_lem c (b ∷ s) =
    ap₂ (λ q r. if q then suc r else 0) (sym (or_false (b == c))) (span_one_lem c s)

scan_to_lem : (c : ℕ) (s : CString) → scan_to c s ≡ prefix_length (λ b. not (among b (c ∷ []))) s
unfolding scan_to
scan_to_lem c [] = refl
scan_to_lem c (b ∷ s) =
    ap₂ (λ q r. if q then 0 else suc r) (sym (or_false (b == c))) (scan_to_lem c s)
    ∙ if_not (b == c || false) (suc (prefix_length (λ b. not (among b (c ∷ []))) s))

prefix_length_all : (s : CString) → prefix_length (λ b. true) s ≡ length s
prefix_length_all [] = refl
prefix_length_all (b ∷ s) = ap suc (prefix_length_all s)

prefix_length_none : (s : CString) → prefix_length (λ b. false) s ≡ 0
prefix_length_none [] = refl
prefix_length_none (b ∷ s) = refl

strspn_lem : (s c : CString) → strspn s c ≡ prefix_length (λ b. among b c) s
unfolding strspn
strspn_lem s [] = sym (prefix_length_none s)
strspn_lem s (c ∷ []) = span_one_lem c s
strspn_lem s (c ∷ d ∷ cs) =
    span_in_lem (c ∷ d ∷ cs) (fill (c ∷ d ∷ cs) (λ w. 0)) (λ b. among-fill b (c ∷ d ∷ cs)) s

-- The characters of a string: bytes, and none of them the NUL.
abbrev pub IsText : CString → Type 0
IsText s = All (λ b. (0 < b) × (b < 256)) s

strcspn_lem : (s c : CString) → IsText c → strcspn s c ≡ prefix_length (λ b. not (among b c)) s
unfolding strcspn strchrnul
strcspn_lem s [] v = sym (prefix_length_all s)
strcspn_lem s (c ∷ []) (l, v) =
    let byte : u8 c ≡ c = omega (arith, l) in
    let some_byte : (u8 c == 0) ≡ false = ground (arith, l, byte) in
    rw (some_byte, byte) (scan_to_lem c s)
strcspn_lem s (c ∷ d ∷ cs) v =
    span_out_lem (c ∷ d ∷ cs) (fill (c ∷ d ∷ cs) (λ w. 0)) (λ b. among-fill b (c ∷ d ∷ cs)) s

-- `strspn` is the number of bytes at the front of a string that are among those of the other, which
-- are bytes from 1 to 255, and `strcspn` of those that are not.
pub spans_count :
    (s c : CString)
    → IsText c
    → (strspn s c ≡ prefix_length (λ b. among b c) s)
      × (strcspn s c ≡ prefix_length (λ b. not (among b c)) s)
spans_count s c v = (strspn_lem s c, strcspn_lem s c v)

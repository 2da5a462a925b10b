-- ===== src/Strings/Power.antt =====
-- What the numbers mean: powers of the factor, and where a text ends.
use ckb_js.Prelude.{
  ℕ, zero, suc, ◌+◌, ◌*◌, ◌/◌, ◌%◌, ◌^◌, ◌<◌, ◌≡◌, refl, sym, ap, ◌∙◌, Bool, true, false, some,
  List, [], ◌∷◌, ◌==◌, if◌then◌else◌, arith, inl, inr, Bool-cases, Option-cases,
}
use native.Mathlib.Nat.{pow-suc}
use ckb_js.Strings.{char2int}
use ckb_js.Strings.Numbers.{
  Real, scale, skip_spaces, isspace, read_digits, read_point, with_point, finish, strtod,
}

module _ (F : Real) where
  -- The `n`-th power of a factor.
  abbrev pub power : F.R → ℕ → F.R
  power f zero = F.of_nat 1
  power f (suc n) = F.mul f (power f n)

  -- Exact multiplication.
  pub record IsExact : Type 0 where
    pub assoc : (a b c : F.R) → F.mul (F.mul a b) c ≡ F.mul a (F.mul b c)
    pub unit : (a : F.R) → F.mul a (F.of_nat 1) ≡ a

  module _ (x : IsExact) where
    power_even : (f : F.R) (n : ℕ) → power (F.mul f f) n ≡ power f (n + n)
    power_even f zero = refl
    power_even f (suc n) =
        let e : suc n + suc n ≡ suc (suc (n + n)) = omega arith in
        rw e (x.assoc f f (power (F.mul f f) n) ∙ ap (λ r. F.mul f (F.mul f r)) (power_even f n))

    -- One turn of the loop, by the parity of the exponent.
    turn-power :
        (v f : F.R) (e : ℕ)
        → F.mul (if e % 2 == 1 then F.mul v f else v) (power (F.mul f f) (e / 2))
          ≡ F.mul v (power f e)
    turn-power v f e = elim (Bool-cases (e % 2 == 1)) [
      | inl odd ↦
          let split : e ≡ suc (e / 2 + e / 2) = ground (arith, odd) in
          rw odd (
            x.assoc v f (power (F.mul f f) (e / 2))
            ∙ ap (λ r. F.mul v (F.mul f r)) (power_even f (e / 2))
            ∙ ap (λ n. F.mul v (power f n)) (sym split))
      | inr even ↦
          let split : e ≡ e / 2 + e / 2 = ground (arith, even) in
          rw even (ap (F.mul v) (power_even f (e / 2)) ∙ ap (λ n. F.mul v (power f n)) (sym split))
    ]

    -- Where multiplication is exact, the loop by the bits of the exponent multiplies by its power
    -- of the factor, if the exponent has no more bits than the loop has turns.
    pub scale-power :
        (bits : ℕ) (v f : F.R) (e : ℕ) → e < 2 ^ bits → scale F bits v f e ≡ F.mul v (power f e)
    unfolding scale
    scale-power zero v f e l =
        let e₀ : e ≡ 0 = omega (arith, l) in sym (x.unit v) ∙ ap (λ n. F.mul v (power f n)) (sym e₀)
    scale-power (suc bits) v f e l =
        let double : 2 ^ suc bits ≡ 2 ^ bits * 2 = pow-suc 2 bits in
        let v' = if e % 2 == 1 then F.mul v f else v in
        let ih = scale-power bits v' (F.mul f f) (e / 2) (omega (arith, l, double)) in
        elim (Bool-cases (e / 2 == 0)) [
          | inl last ↦
              let e₀ : e / 2 ≡ 0 = ground (arith, last) in
              rw (last, scale)
                (sym (x.unit v')
                  ∙ ap (λ n. F.mul v' (power (F.mul f f) n)) (sym e₀)
                  ∙ turn-power v f e)
          | inr more ↦ rw (more, scale) (ih ∙ turn-power v f e)
        ]

  read_digits_has : (base : ℕ) (v : F.R) (s : List ℕ) → (read_digits F base true v s).0 ≡ true
  unfolding read_digits
  read_digits_has base v [] = refl
  read_digits_has base v (b ∷ s) = elim (Option-cases (char2int b base)) [
    | inl e ↦ rw (e, read_digits) refl
    | inr (d, e) ↦
        rw (e, read_digits) (read_digits_has base (F.add (F.mul v (F.of_nat base)) (F.of_nat d)) s)
  ]

  read_point_has :
      (base : ℕ) (v factor : F.R) (s : List ℕ) → (read_point F base true v factor s).0 ≡ true
  unfolding read_point
  read_point_has base v factor [] = refl
  read_point_has base v factor (b ∷ s) = elim (Option-cases (char2int b base)) [
    | inl e ↦ rw (e, read_point) refl
    | inr (d, e) ↦
        let factor' = F.mul factor (F.div (F.of_nat 1) (F.of_nat base)) in
        rw (e, read_point) (read_point_has base (F.add v (F.mul (F.of_nat d) factor')) factor' s)
  ]

  with_point_has :
      (base : ℕ) (r : Bool × F.R × List ℕ) → r.0 ≡ true → (with_point F base r).0 ≡ true
  with_point_has base (has, v, []) e = e
  with_point_has base (has, v, b ∷ p) e = elim (Bool-cases (b == 46)) [
    | inl t ↦ rw (t, e) (read_point_has base v (F.of_nat 1) p)
    | inr f ↦ rw f e
  ]

  -- The end of `strtod` in base 16, where there have been digits, does not depend on the text.
  finish_has :
      (s s' : List ℕ) (negative : Bool) (r : Bool × F.R × List ℕ)
      → r.0 ≡ true
      → finish F s 16 negative r ≡ finish F s' 16 negative r
  finish_has s s' negative (has, v, p) e = rw e refl

  digits_has :
      (d w : ℕ) (t : List ℕ)
      → char2int d 16 ≡ some w
      → (with_point F 16 (read_digits F 16 false (F.of_nat 0) (d ∷ t))).0 ≡ true
  unfolding read_digits
  digits_has d w t e = with_point_has 16 (read_digits F 16 false (F.of_nat 0) (d ∷ t)) (
      rw (e, read_digits)
        (read_digits_has 16 (F.add (F.mul (F.of_nat 0) (F.of_nat 16)) (F.of_nat w)) t))

  -- Behind a sign, `strtod` skips any byte that an `x` follows, the NUL as well, and reads on in
  -- hexadecimal: with a digit there, the value and the end are those of the text with `0x`.
  pub strtod_sign_any :
      (b d w : ℕ) (t : List ℕ)
      → char2int d 16 ≡ some w
      → (strtod F (45 ∷ b ∷ 120 ∷ d ∷ t) ≡ strtod F (45 ∷ 48 ∷ 120 ∷ d ∷ t))
        × (strtod F (43 ∷ b ∷ 120 ∷ d ∷ t) ≡ strtod F (43 ∷ 48 ∷ 120 ∷ d ∷ t))
  unfolding strtod skip_spaces isspace
  strtod_sign_any b d w t e =
      let r = with_point F 16 (read_digits F 16 false (F.of_nat 0) (d ∷ t)) in
      let has = digits_has d w t e in
      (
        finish_has (45 ∷ b ∷ 120 ∷ d ∷ t) (45 ∷ 48 ∷ 120 ∷ d ∷ t) true r has,
        finish_has (43 ∷ b ∷ 120 ∷ d ∷ t) (43 ∷ 48 ∷ 120 ∷ d ∷ t) false r has,
      )

-- ===== src/Strings/Windows.antt =====
-- The loops of `strstr` with a window of two, three or four bytes.
use ckb_js.Prelude.{
  ℕ, suc, ◌+◌, ◌*◌, ◌^◌, ◌<◌, ◌≡◌, refl, sym, Bool, true, false, Option, none, some, List, [], ◌∷◌,
  ◌==◌, ◌&&◌, if◌then◌else◌, length, arith, All,
}
use mathlib.Core.Option
use ckb_js.CellFs.{CString}
use ckb_js.Strings.{byte_at}
use ckb_js.Strings.Spans.{IsText}
use ckb_js.Strings.Find.{window, shift_two, shift_three, shift_four}

-- Whether a string begins with another, and the first place where it is.
abbrev pub begins : CString → CString → Bool
begins [] h = true
begins (c ∷ n) [] = false
begins (c ∷ n) (b ∷ h) = b == c && begins n h

abbrev pub first_place : CString → CString → Option ℕ
first_place n [] = if begins n [] then some 0 else none
first_place n (b ∷ h) = if begins n (b ∷ h) then some 0 else Option.map suc (first_place n h)

begins_short : (n h : CString) → length h < length n → begins n h ≡ false
begins_short [] h l = absurd (omega (arith, l))
begins_short (c ∷ n) [] l = refl
begins_short (c ∷ n) (b ∷ h) l =
    let rest = begins_short n h (omega (arith, l)) in ground (arith, rest)

pub first_place_short : (n h : CString) → length h < length n → first_place n h ≡ none
first_place_short n [] l = rw (begins_short n [] l) refl
first_place_short n (b ∷ h) l =
    rw (begins_short n (b ∷ h) l, first_place_short n h (omega (arith, l))) refl

window_short :
    (shift : ℕ → ℕ → ℕ) (nw hw : ℕ) (n h : CString)
    → length h < length n
    → window shift nw hw [] ≡ first_place n h
unfolding window
window_short shift nw hw n h l = sym (first_place_short n h l)

-- A turn of a window's loop, where the window fits exactly if the needle begins there.
window_step :
    (shift : ℕ → ℕ → ℕ) (nw hw b x : ℕ) (n h t : CString)
    → (hw == nw) ≡ begins n (x ∷ t)
    → window shift nw (shift hw (byte_at h 0)) h ≡ first_place n t
    → window shift nw hw (b ∷ h) ≡ first_place n (x ∷ t)
unfolding window
window_step shift nw hw b x n h t e rest = rw (e, rest) refl

-- The bytes of a window and of a needle.
two_equal :
    (m n a b : ℕ)
    → m < 256
    → n < 256
    → a < 256
    → b < 256
    → (a * 2 ^ 8 + b == m * 2 ^ 8 + n) ≡ (a == m && (b == n && true))
two_equal m n a b lm ln la lb = ground (arith, lm, ln, la, lb)

pub two_lem :
    (m n a b : ℕ) (h : CString)
    → m < 256
    → n < 256
    → a < 256
    → b < 256
    → IsText h
    → window shift_two (m * 2 ^ 8 + n) (a * 2 ^ 8 + b) (b ∷ h)
      ≡ first_place (m ∷ n ∷ []) (a ∷ b ∷ h)
two_lem m n a b [] lm ln la lb v =
    window_step shift_two (m * 2 ^ 8 + n) (a * 2 ^ 8 + b) b a (m ∷ n ∷ []) [] (b ∷ [])
      (two_equal m n a b lm ln la lb)
      (window_short shift_two (m * 2 ^ 8 + n) (shift_two (a * 2 ^ 8 + b) 0) (m ∷ n ∷ []) (b ∷ [])
        (omega arith))
two_lem m n a b (c ∷ h) lm ln la lb ((lo, hi), v) =
    window_step shift_two (m * 2 ^ 8 + n) (a * 2 ^ 8 + b) b a (m ∷ n ∷ []) (c ∷ h) (b ∷ c ∷ h)
      (two_equal m n a b lm ln la lb)
      (let e : shift_two (a * 2 ^ 8 + b) c ≡ b * 2 ^ 8 + c = omega (arith, la, lb, hi) in
        rw e (two_lem m n b c h lm ln lb hi v))

abbrev three : (a b c : ℕ) → ℕ
three a b c = a * 2 ^ 24 + b * 2 ^ 16 + c * 2 ^ 8

abbrev Small : List ℕ → Type 0
Small s = All (λ b. b < 256) s

three_equal :
    (m n o a b c : ℕ)
    → Small (m ∷ n ∷ o ∷ a ∷ b ∷ c ∷ [])
    → (three a b c == three m n o) ≡ (a == m && (b == n && (c == o && true)))
three_equal m n o a b c v = ground (arith, v)

pub three_lem :
    (m n o a b c : ℕ) (h : CString)
    → Small (m ∷ n ∷ o ∷ a ∷ b ∷ c ∷ [])
    → IsText h
    → window shift_three (three m n o) (three a b c) (c ∷ h)
      ≡ first_place (m ∷ n ∷ o ∷ []) (a ∷ b ∷ c ∷ h)
three_lem m n o a b c [] v t =
    window_step shift_three (three m n o) (three a b c) c a (m ∷ n ∷ o ∷ []) [] (b ∷ c ∷ [])
      (three_equal m n o a b c v)
      (window_short shift_three (three m n o) (shift_three (three a b c) 0) (m ∷ n ∷ o ∷ [])
        (b ∷ c ∷ []) (omega arith))
three_lem m n o a b c (d ∷ h) v ((lo, hi), t) =
    window_step shift_three (three m n o) (three a b c) c a (m ∷ n ∷ o ∷ []) (d ∷ h) (b ∷ c ∷ d ∷ h)
      (three_equal m n o a b c v)
      (let e : shift_three (three a b c) d ≡ three b c d = omega (arith, v, hi) in
        rw e (three_lem m n o b c d h (ground (arith, v, hi)) t))

abbrev four : (a b c d : ℕ) → ℕ
four a b c d = three a b c + d

four_equal :
    (m n o p a b c d : ℕ)
    → Small (m ∷ n ∷ o ∷ p ∷ a ∷ b ∷ c ∷ d ∷ [])
    → (four a b c d == four m n o p) ≡ (a == m && (b == n && (c == o && (d == p && true))))
four_equal m n o p a b c d v = ground (arith, v)

pub four_lem :
    (m n o p a b c d : ℕ) (h : CString)
    → Small (m ∷ n ∷ o ∷ p ∷ a ∷ b ∷ c ∷ d ∷ [])
    → IsText h
    → window shift_four (four m n o p) (four a b c d) (d ∷ h)
      ≡ first_place (m ∷ n ∷ o ∷ p ∷ []) (a ∷ b ∷ c ∷ d ∷ h)
four_lem m n o p a b c d [] v t =
    window_step shift_four (four m n o p) (four a b c d) d a (m ∷ n ∷ o ∷ p ∷ []) []
      (b ∷ c ∷ d ∷ []) (four_equal m n o p a b c d v)
      (window_short shift_four (four m n o p) (shift_four (four a b c d) 0) (m ∷ n ∷ o ∷ p ∷ [])
        (b ∷ c ∷ d ∷ []) (omega arith))
four_lem m n o p a b c d (e ∷ h) v ((lo, hi), t) =
    window_step shift_four (four m n o p) (four a b c d) d a (m ∷ n ∷ o ∷ p ∷ []) (e ∷ h)
      (b ∷ c ∷ d ∷ e ∷ h) (four_equal m n o p a b c d v)
      (let same : shift_four (four a b c d) e ≡ four b c d e = omega (arith, v, hi) in
        rw same (four_lem m n o p b c d e h (ground (arith, v, hi)) t))

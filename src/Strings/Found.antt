-- ===== src/Strings/Found.antt =====
-- What `strstr` finds.
use ckb_js.Prelude.{
  ℕ, zero, suc, ◌+◌, ◌<◌, ◌≤◌, ◌≡◌, ◌⊎◌, refl, sym, ap, ◌∙◌, Bool, true, false, Option, none, some,
  [], ◌∷◌, ◌==◌, length, drop, arith, inl, inr, Bool-cases, u8,
}
use mathlib.Core.Option
use ckb_js.CellFs.{CString}
use ckb_js.Strings.{byte_at, strchr, strchrnul, scan_to}
use ckb_js.Strings.Spans.{IsText}
use ckb_js.Strings.Find.{twobyte_strstr, threebyte_strstr, fourbyte_strstr, strstr_from, strstr}
use ckb_js.Strings.Windows.{first_place, first_place_short, two_lem, three_lem, four_lem}

some_byte : (b : ℕ) → 0 < b → (b == 0) ≡ false
some_byte b l = ground (arith, l)

-- From a place of the needle's first byte on, with up to three bytes behind it.
from_lem :
    (memcmp : (s t : CString) (count : ℕ) → Bool) (m : ℕ) (n h : CString)
    → m < 256
    → IsText n
    → IsText h
    → length n ≤ 3
    → strstr_from memcmp (m ∷ h) (m ∷ n) ≡ first_place (m ∷ n) (m ∷ h)
unfolding strstr_from twobyte_strstr threebyte_strstr fourbyte_strstr
from_lem cmp m [] h lm v w l = ground arith
from_lem cmp m (x ∷ []) [] lm ((x₀, lx), v) w l =
    rw (some_byte x x₀) (sym (first_place_short (m ∷ x ∷ []) (m ∷ []) (omega arith)))
from_lem cmp m (x ∷ []) (a ∷ h) lm ((x₀, lx), v) ((a₀, la), w) l =
    rw (some_byte x x₀, some_byte a a₀) (two_lem m x m a h lm lx lm la w)
from_lem cmp m (x ∷ y ∷ []) [] lm ((x₀, lx), ((y₀, ly), v)) w l =
    rw (some_byte x x₀) (sym (first_place_short (m ∷ x ∷ y ∷ []) (m ∷ []) (omega arith)))
from_lem cmp m (x ∷ y ∷ []) (a ∷ []) lm ((x₀, lx), ((y₀, ly), v)) ((a₀, la), w) l =
    rw (some_byte x x₀, some_byte a a₀, some_byte y y₀)
      (sym (first_place_short (m ∷ x ∷ y ∷ []) (m ∷ a ∷ []) (omega arith)))
from_lem cmp m (x ∷ y ∷ []) (a ∷ b ∷ h) lm ((x₀, lx), ((y₀, ly), v)) ((a₀, la), ((b₀, lb), w)) l =
    rw (some_byte x x₀, some_byte a a₀, some_byte y y₀, some_byte b b₀)
      (three_lem m x y m a b h (lm, (lx, (ly, (lm, (la, (lb, tt)))))) w)
from_lem cmp m (x ∷ y ∷ z ∷ []) [] lm ((x₀, lx), ((y₀, ly), ((z₀, lz), v))) w l =
    rw (some_byte x x₀) (sym (first_place_short (m ∷ x ∷ y ∷ z ∷ []) (m ∷ []) (omega arith)))
from_lem cmp m (x ∷ y ∷ z ∷ []) (a ∷ []) lm ((x₀, lx), ((y₀, ly), ((z₀, lz), v))) ((a₀, la), w) l =
    rw (some_byte x x₀, some_byte a a₀, some_byte y y₀)
      (sym (first_place_short (m ∷ x ∷ y ∷ z ∷ []) (m ∷ a ∷ []) (omega arith)))
from_lem cmp m (x ∷ y ∷ z ∷ []) (a ∷ b ∷ []) lm ((x₀, lx), ((y₀, ly), ((z₀, lz), v)))
      ((a₀, la), ((b₀, lb), w)) l =
    rw (some_byte x x₀, some_byte a a₀, some_byte y y₀, some_byte b b₀, some_byte z z₀)
      (sym (first_place_short (m ∷ x ∷ y ∷ z ∷ []) (m ∷ a ∷ b ∷ []) (omega arith)))
from_lem cmp m (x ∷ y ∷ z ∷ []) (a ∷ b ∷ c ∷ h) lm ((x₀, lx), ((y₀, ly), ((z₀, lz), v)))
      ((a₀, la), ((b₀, lb), ((c₀, lc), w))) l =
    rw
      (
        some_byte x x₀,
        some_byte a a₀,
        some_byte y y₀,
        some_byte b b₀,
        some_byte z z₀,
        some_byte c c₀,
      )
      (four_lem m x y z m a b c h (lm, (lx, (ly, (lz, (lm, (la, (lb, (lc, tt)))))))) w)
from_lem cmp m (x ∷ y ∷ z ∷ u ∷ n) h lm v w l = absurd (omega (arith, l))

map_zero : (o : Option ℕ) → Option.map (λ i. 0 + i) o ≡ o
map_zero none = refl
map_zero (some i) = ap some (omega arith)

map_further :
    (k : ℕ) (o : Option ℕ)
    → Option.map suc (Option.map (λ i. k + i) o) ≡ Option.map (λ i. suc k + i) o
map_further k none = refl
map_further k (some i) = ap some (omega arith)

-- `strchr` passes over no place of the needle.
scan_to-first_place :
    (c : ℕ) (n h : CString)
    → first_place (c ∷ n) h
      ≡ Option.map (λ i. scan_to c h + i) (first_place (c ∷ n) (drop (scan_to c h) h))
unfolding scan_to
scan_to-first_place c n [] = refl
scan_to-first_place c n (b ∷ h) = elim (Bool-cases (b == c)) [
  | inl t ↦
      let here : scan_to c (b ∷ h) ≡ 0 = rw (t, scan_to) refl in
      sym (map_zero (first_place (c ∷ n) (b ∷ h)))
      ∙ ap (λ k. Option.map (λ i. k + i) (first_place (c ∷ n) (drop k (b ∷ h)))) (sym here)
  | inr f ↦
      rw (f, scan_to)
        (ap (Option.map suc) (scan_to-first_place c n h)
          ∙ map_further (scan_to c h) (first_place (c ∷ n) (drop (scan_to c h) h)))
]

scan_to-drop :
    (c : ℕ) (h : CString)
    → IsText h
    → (drop (scan_to c h) h ≡ [])
      ⊎ ((t : CString) × IsText t × (drop (scan_to c h) h ≡ c ∷ t) × (byte_at h (scan_to c h) ≡ c))
unfolding scan_to
scan_to-drop c [] v = inl refl
scan_to-drop c (b ∷ h) (l, v) = elim (Bool-cases (b == c)) [
  | inl t ↦ rw (t, scan_to) (inr (h, v, ap (λ x. x ∷ h) (ground (arith, t)), ground (arith, t)))
  | inr f ↦ rw (f, scan_to) (scan_to-drop c h v)
]

byte_at_end : (h : CString) (i : ℕ) → drop i h ≡ [] → byte_at h i ≡ 0
byte_at_end [] i e = refl
byte_at_end (b ∷ h) zero e = ground (arith, e)
byte_at_end (b ∷ h) (suc i) e = byte_at_end h i e

-- The case of a needle whose first byte `strchr` finds or not.
strstr_lem :
    (memcmp : (s t : CString) (count : ℕ) → Bool) (h : CString) (m : ℕ) (n : CString)
    → 0 < m
    → m < 256
    → IsText n
    → IsText h
    → length n ≤ 3
    → strstr memcmp h (m ∷ n) ≡ first_place (m ∷ n) h
unfolding strstr strchr strchrnul
strstr_lem cmp h m n m₀ lm v w l =
    let byte : u8 m ≡ m = omega (arith, lm) in
    elim (scan_to-drop m h w) [
      | inl none_left ↦
          let end : (byte_at h (scan_to m h) == m) ≡ false =
            ground (arith, byte_at_end h (scan_to m h) none_left, m₀) in
          rw (some_byte m m₀, byte, some_byte m m₀, end)
            (sym (
              scan_to-first_place m n h
              ∙ ap (λ x. Option.map (λ i. scan_to m h + i) (first_place (m ∷ n) x)) none_left))
      | inr (t, w', at, is) ↦
          let found : (byte_at h (scan_to m h) == m) ≡ true = ground (arith, is) in
          rw (some_byte m m₀, byte, some_byte m m₀, found)
            (ap (λ x. Option.map (λ i. scan_to m h + i) (strstr_from cmp x (m ∷ n))) at
              ∙ ap (Option.map (λ i. scan_to m h + i)) (from_lem cmp m n t lm v w' l)
              ∙ ap (λ x. Option.map (λ i. scan_to m h + i) (first_place (m ∷ n) x)) (sym at)
              ∙ sym (scan_to-first_place m n h))
    ]

-- A string of up to four bytes: `strstr` finds its first place in another string, or none.
pub strstr_first :
    (memcmp : (s t : CString) (count : ℕ) → Bool) (h n : CString)
    → IsText h
    → IsText n
    → length n ≤ 4
    → strstr memcmp h n ≡ first_place n h
unfolding strstr
strstr_first cmp [] [] w v l = refl
strstr_first cmp (b ∷ h) [] w v l = refl
strstr_first cmp h (m ∷ n) w ((m₀, lm), v) l = strstr_lem cmp h m n m₀ lm v w (omega (arith, l))

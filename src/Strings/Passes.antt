-- ===== src/Strings/Passes.antt =====
-- The loops of `memchr` over bytes, and the bytes of its words.
use Prim.Native.Nat.{bit_xor}
use ckb_js.Prelude.{
  ℕ, zero, suc, ◌+◌, ◌-◌, ◌*◌, ◌/◌, ◌%◌, ◌<◌, ◌≡◌, ◌≢◌, sym, ap, ◌∙◌, Option, none, some, ◌==◌,
  ◌||◌, leb, arith, inl, inr, Bool-cases,
}
use mathlib.Core.Path.{subst}
use ckb_js.Strings.Digits.{ones, words, byte_of, xor_byte, xor_same}
use ckb_js.Strings.Memory.{load, align, by_bytes}

-- The first place of a byte among `n` in memory, or that there is none.
abbrev pub IsFirst : (mem : ℕ → ℕ) (c n s : ℕ) → Option ℕ → Type 0
IsFirst mem c n s none = (i : ℕ) → i < n → mem (s + i) ≢ c
IsFirst mem c n s (some a) =
    (i : ℕ) × (i < n) × (a ≡ s + i) × (mem a ≡ c) × ((j : ℕ) → j < i → mem (s + j) ≢ c)

module _ (mem : ℕ → ℕ) (bytes : (a : ℕ) → mem a < 256) where
  -- What a loop has passed over on the way from `n` bytes at `s` to the rest.
  pub record Passes (c n s : ℕ) (r : ℕ × ℕ) : Type 0 where
    pub by : ℕ
    pub at : r.1 ≡ s + by
    pub left : n ≡ r.0 + by
    pub without : (j : ℕ) → j < by → mem (s + j) ≢ c

  pub stays : (c n s : ℕ) → Passes c n s (n, s)
  stays c n s = record {
    by = 0;
    at = omega arith;
    left = omega arith;
    without = λ j l. absurd (omega (arith, l));
  }

  -- On from `m` bytes further.
  pub onwards :
      (c n s m : ℕ) (r : ℕ × ℕ)
      → ((j : ℕ) → j < m → mem (s + j) ≢ c)
      → Passes c n (s + m) r
      → Passes c (n + m) s r
  onwards c n s m r free p = record {
    by = m + p.by;
    at = omega (arith, p.at);
    left = omega (arith, p.left);
    without = λ j l. elim (Bool-cases (leb m j)) [
      | inl far ↦
          let place : s + m + (j - m) ≡ s + j = ground (arith, far) in
          rw (sym place) (p.without (j - m) (ground (arith, far, l)))
      | inr near ↦ free j (ground (arith, near))
    ];
  }

  pub align-Passes : (c n s : ℕ) → Passes c n s (align mem c n s)
  unfolding align
  align-Passes c zero s = stays c 0 s
  align-Passes c (suc n) s = elim (Bool-cases (s % 8 == 0 || mem s == c)) [
    | inl t ↦ rw (t, align) (stays c (suc n) s)
    | inr f ↦
        rw (f, align)
          (subst (λ m. Passes c m s (align mem c n (suc s))) (omega arith)
            (onwards c n s 1 (align mem c n (suc s))
              (λ j l. let z : j ≡ 0 = omega (arith, l) in ground (arith, f, z))
              (subst (λ a. Passes c n a (align mem c n (suc s))) (omega arith)
                (align-Passes c n (suc s)))))
  ]

  -- What is found behind bytes that are passed over.
  pub passed :
      (c n s n₀ m s' : ℕ) (r : Option ℕ)
      → n₀ ≡ n + m
      → s' ≡ s + m
      → ((j : ℕ) → j < m → mem (s + j) ≢ c)
      → IsFirst mem c n s' r
      → IsFirst mem c n₀ s r
  passed c n s n₀ m s' none e f free h = λ i l. elim (Bool-cases (leb m i)) [
    | inl far ↦
        let place : s' + (i - m) ≡ s + i = ground (arith, far, f) in
        rw (sym place) (h (i - m) (ground (arith, far, l, e)))
    | inr near ↦ free i (ground (arith, near))
  ]
  passed c n s n₀ m s' (some a) e f free (i, l, at, is, before) = (
    m + i,
    omega (arith, l, e),
    omega (arith, at, f),
    is,
    λ j k. elim (Bool-cases (leb m j)) [
      | inl far ↦
          let place : s' + (j - m) ≡ s + j = ground (arith, far, f) in
          rw (sym place) (before (j - m) (ground (arith, far, k)))
      | inr near ↦ free j (ground (arith, near))
    ],
  )

  pub by_bytes-IsFirst : (c n s : ℕ) → IsFirst mem c n s (by_bytes mem c n s)
  unfolding by_bytes
  by_bytes-IsFirst c zero s = λ i l. absurd (omega (arith, l))
  by_bytes-IsFirst c (suc n) s = elim (Bool-cases (mem s == c)) [
    | inl t ↦
        rw (t, by_bytes)
          (0, omega arith, omega arith, ground (arith, t), λ j l. absurd (omega (arith, l)))
    | inr f ↦
        rw (f, by_bytes)
          (passed c n s (suc n) 1 (suc s) (by_bytes mem c n (suc s)) (omega arith) (omega arith)
            (λ j l. let z : j ≡ 0 = omega (arith, l) in ground (arith, f, z))
            (by_bytes-IsFirst c n (suc s)))
  ]

  -- The bytes of a word.
  pub byte-load : (k s i : ℕ) → i < k → byte_of i (load mem k s) ≡ mem (s + i)
  byte-load zero s i l = absurd (omega (arith, l))
  byte-load (suc k) s zero l = ground (arith, bytes s)
  byte-load (suc k) s (suc i) l =
      let rest : (mem s + 256 * load mem k (suc s)) / 256 ≡ load mem k (suc s) =
        omega (arith, bytes s) in
      ap (byte_of i) rest ∙ byte-load k (suc s) i (omega (arith, l)) ∙ ap mem (omega arith)

  pub load_small : (k s : ℕ) → load mem k s < words k
  load_small zero s = omega arith
  load_small (suc k) s = omega (arith, bytes s, load_small k (suc s))

pub xor_small : (k a b : ℕ) → a < words k → b < words k → bit_xor a b < words k
xor_small zero zero zero p q = omega arith
xor_small zero zero (suc b) p q = absurd (omega (arith, q))
xor_small zero (suc a) b p q = absurd (omega (arith, p))
xor_small (suc k) a b p q =
    omega
      (arith, xor_byte a b, xor_small k (a / 256) (b / 256) (omega (arith, p)) (omega (arith, q)))

-- The bytes of the words that `memchr` makes of `c`.
pub byte_of-xor :
    (c : ℕ)
    → c < 256
    → (k i x : ℕ) → i < k
    → byte_of i x ≡ c
    → byte_of i (bit_xor x (ones k * c)) ≡ 0
byte_of-xor c small zero i x l e = absurd (omega (arith, l))
byte_of-xor c small (suc k) zero x l e = xor_same x (ones (suc k) * c) (omega (arith, small, e))
byte_of-xor c small (suc k) (suc i) x l e =
    let rest : ones (suc k) * c / 256 ≡ ones k * c = omega (arith, small) in
    ap (byte_of i) (xor_byte x (ones (suc k) * c) ∙ ap (bit_xor (x / 256)) rest)
    ∙ byte_of-xor c small k i (x / 256) (omega (arith, l)) e

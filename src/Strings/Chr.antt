-- ===== src/Strings/Chr.antt =====
-- What `memchr` finds.
use Prim.Native.Nat.{bit_xor}
use ckb_js.Prelude.{
  ℕ, zero, suc, ◌+◌, ◌-◌, ◌*◌, ◌^◌, ◌≤◌, ◌<◌, ◌≡◌, ◌≢◌, ◌∙◌, false, not, Option, ◌==◌, ◌&&◌, leb,
  arith, inl, inr, Bool-cases, u8, sub64,
}
use mathlib.Core.Path.{subst}
use ckb_js.Strings.Digits.{byte_of, no_zero}
use ckb_js.Strings.Memory.{ckb_ones, ckb_haszero, load, align, by_words, by_bytes, memchr}
use ckb_js.Strings.Passes.{
  IsFirst, Passes, stays, onwards, align-Passes, passed, by_bytes-IsFirst, byte-load, load_small,
  xor_small, byte_of-xor,
}

-- A word in which `CKB_HASZERO` finds nothing.
haszero_zero : (x : ℕ) → x < 2 ^ 64 → ckb_haszero x ≡ false → (i : ℕ) → i < 8 → byte_of i x ≢ 0
haszero_zero x l e i k =
    no_zero 8 x (sub64 x ckb_ones) (2 ^ 64 - 1 - x) (ground (arith, l)) (omega (arith, l))
      (ground (arith, e)) i k

module _ (mem : ℕ → ℕ) (bytes : (a : ℕ) → mem a < 256) where
  no_match :
      (c s : ℕ)
      → c < 256
      → ckb_haszero (bit_xor (load mem 8 s) (ckb_ones * c)) ≡ false
      → (j : ℕ) → j < 8
      → mem (s + j) ≢ c
  no_match c s small e j l is =
      haszero_zero (bit_xor (load mem 8 s) (ckb_ones * c))
        (xor_small 8 (load mem 8 s) (ckb_ones * c) (load_small mem bytes 8 s)
          (omega (arith, small)))
        e j l (byte_of-xor c small 8 j (load mem 8 s) l (byte-load mem bytes 8 s j l ∙ is))

  by_words-Passes :
      (fuel c n s : ℕ) → c < 256 → Passes mem bytes c n s (by_words mem fuel (ckb_ones * c) n s)
  unfolding by_words
  by_words-Passes zero c n s small = stays mem bytes c n s
  by_words-Passes (suc fuel) c n s small =
      elim (Bool-cases (leb 8 n && not (ckb_haszero (bit_xor (load mem 8 s) (ckb_ones * c))))) [
        | inl t ↦
            rw (t, by_words)
              (let rest = by_words mem fuel (ckb_ones * c) (n - 8) (s + 8) in
                subst (λ m. Passes mem bytes c m s rest) (ground (arith, t))
                  (onwards mem bytes c (n - 8) s 8 rest (no_match c s small (ground (arith, t)))
                    (by_words-Passes fuel c (n - 8) (s + 8) small)))
        | inr f ↦ rw (f, by_words) (stays mem bytes c n s)
      ]

  -- The loop over words ends by its own test, not for want of fuel.
  by_words_ended :
      (fuel k n s : ℕ)
      → n ≤ fuel
      → (leb 8 (by_words mem fuel k n s).0
          && not (ckb_haszero (bit_xor (load mem 8 (by_words mem fuel k n s).1) k)))
        ≡ false
  unfolding by_words
  by_words_ended zero k n s h = ground (arith, h)
  by_words_ended (suc fuel) k n s h =
      elim (Bool-cases (leb 8 n && not (ckb_haszero (bit_xor (load mem 8 s) k)))) [
        | inl t ↦ rw (t, by_words) (by_words_ended fuel k (n - 8) (s + 8) (ground (arith, h, t)))
        | inr f ↦ rw (f, by_words) f
      ]

  rest-IsFirst :
      (c n s : ℕ) (r : ℕ × ℕ) (a : Option ℕ)
      → Passes mem bytes c n s r
      → IsFirst mem c r.0 r.1 a
      → IsFirst mem c n s a
  rest-IsFirst c n s r a p h = passed mem bytes c r.0 s n p.by r.1 a p.left p.at p.without h

  -- Among bytes, `memchr` gives the place of the first that is the character's lowest byte, if one
  -- of the `n` is, and NULL otherwise.
  pub memchr-IsFirst : (src c n : ℕ) → IsFirst mem (u8 c) n src (memchr mem src c n)
  unfolding memchr
  memchr-IsFirst src c n =
      let r = align mem (u8 c) n src in
      let p = align-Passes mem bytes (u8 c) n src in
      let w = by_words mem r.0 (ckb_ones * u8 c) r.0 r.1 in
      elim (Bool-cases (not (r.0 == 0) && not (mem r.1 == u8 c))) [
        | inl t ↦ rw t (
            let a = by_bytes mem (u8 c) w.0 w.1 in
            rest-IsFirst (u8 c) n src r a p (
              rest-IsFirst (u8 c) r.0 r.1 w a (by_words-Passes r.0 (u8 c) r.0 r.1 (omega arith))
                (by_bytes-IsFirst mem bytes (u8 c) w.0 w.1)))
        | inr f ↦ rw f (
            rest-IsFirst (u8 c) n src r (by_bytes mem (u8 c) r.0 r.1) p
              (by_bytes-IsFirst mem bytes (u8 c) r.0 r.1))
      ]

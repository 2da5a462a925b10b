-- ===== src/Strings/Memory.antt =====
-- include/c-stdlib/src/string_impl.c: `memchr`, which looks at eight bytes at once. The memory is
-- its bytes by address, and the host's words are stored with the lowest byte first.
use Prim.Native.Nat.{bit_and, bit_xor}
use ckb_js.Prelude.{
  ℕ, zero, suc, ◌+◌, ◌-◌, ◌*◌, ◌/◌, ◌%◌, ◌^◌, Bool, true, false, not, Option, none, some, ◌==◌,
  ◌&&◌, ◌||◌, leb, if◌then◌else◌, u8, sub64,
}

-- `CKB_ONES` and `CKB_HIGHS`.
abbrev pub ckb_ones : ℕ
ckb_ones = (2 ^ 64 - 1) / 255

abbrev pub ckb_highs : ℕ
ckb_highs = ckb_ones * (255 / 2 + 1)

-- `CKB_HASZERO`, on a word.
abbrev pub ckb_haszero : ℕ → Bool
ckb_haszero x = not (bit_and (bit_and (sub64 x ckb_ones) (2 ^ 64 - 1 - x)) ckb_highs == 0)

-- The number that `k` bytes at an address are.
abbrev pub load : (mem : ℕ → ℕ) (k s : ℕ) → ℕ
load mem zero s = 0
load mem (suc k) s = mem s + 256 * load mem k (suc s)

module _ (mem : ℕ → ℕ) where
  -- The first loop, to a place for words; with the number of bytes left.
  unfoldable pub align : (c n s : ℕ) → ℕ × ℕ
  align c zero s = (0, s)
  align c (suc n) s = elim (s % 8 == 0 || mem s == c) [
    | true ↦ (suc n, s)
    | false ↦ align c n (suc s)
  ]

  -- The loop over words. A turn takes 8 from `n`, so that `n` turns are enough.
  unfoldable pub by_words : (fuel k n s : ℕ) → ℕ × ℕ
  by_words zero k n s = (n, s)
  by_words (suc fuel) k n s = elim (leb 8 n && not (ckb_haszero (bit_xor (load mem 8 s) k))) [
    | true ↦ by_words fuel k (n - 8) (s + 8)
    | false ↦ (n, s)
  ]

  -- The last loop, and the result.
  unfoldable pub by_bytes : (c n s : ℕ) → Option ℕ
  by_bytes c zero s = none
  by_bytes c (suc n) s = elim (mem s == c) [ true ↦ some s | false ↦ by_bytes c n (suc s) ]

  unfoldable pub memchr : (src c n : ℕ) → Option ℕ
  unfolding align by_words by_bytes
  memchr src c n =
      let (n₁, s₁) = align (u8 c) n src in
      let (n₂, s₂) =
        if not (n₁ == 0) && not (mem s₁ == u8 c)
        then by_words n₁ (ckb_ones * u8 c) n₁ s₁
        else (n₁, s₁) in
      by_bytes (u8 c) n₂ s₂

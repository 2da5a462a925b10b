-- ===== src/Strings/Search.antt =====
-- What the searches find, and what the comparison means.
use ckb_js.Prelude.{
  ℕ, zero, suc, ◌+◌, ◌<◌, ◌≤◌, ◌≡◌, ◌≢◌, ◌↔◌, false, Option, none, some, [], ◌∷◌, ◌==◌, length,
  take, arith, u8, lt_or_ge, inl, inr, Bool-cases, ==_iff,
}
use mathlib.Core.Path.{subst}
use ckb_js.Prelude.Int.{pos}
use ckb_js.CellFs.{CString}
use ckb_js.CellFs.Archive.{IsName}
use ckb_js.Strings.{byte_at, compare_loop, strncmp, memrchr, strrchr}

compare_loop_zero :
    (l r : CString) (n : ℕ)
    → IsName l
    → IsName r
    → (compare_loop l r n ≡ pos 0) ↔ (take (suc n) l ≡ take (suc n) r)
unfolding compare_loop
compare_loop_zero [] [] n hl hr = grind arith
compare_loop_zero [] (b ∷ r) n hl (hb, hr) = grind arith
compare_loop_zero (a ∷ l) [] n (ha, hl) hr = grind arith
compare_loop_zero (a ∷ l) (b ∷ r) zero (ha, hl) (hb, hr) = grind arith
compare_loop_zero (a ∷ l) (b ∷ r) (suc n) (ha, hl) (hb, hr) =
    let ih = compare_loop_zero l r n hl hr in grind arith

-- `strncmp` of two strings is 0 exactly if they agree in their first `n` characters, or as many as
-- they have.
pub strncmp_zero_iff :
    (l r : CString) (n : ℕ) → IsName l → IsName r → (strncmp l r n ≡ pos 0) ↔ (take n l ≡ take n r)
unfolding strncmp
strncmp_zero_iff l r zero hl hr = grind arith
strncmp_zero_iff l r (suc n) hl hr = compare_loop_zero l r n hl hr

last_index : (j n : ℕ) → j < suc n → n ≤ j → n ≡ j
last_index j n l m = omega arith

-- Where a character stands last among the first `n` bytes, the NUL behind a string among them.
abbrev pub Last : CString → (c n : ℕ) → Option ℕ → Type 0
Last s c n none = (j : ℕ) → j < n → byte_at s j ≢ c
Last s c n (some i) = (byte_at s i ≡ c) × (i < n) × ((j : ℕ) → i < j → j < n → byte_at s j ≢ c)

Last-suc :
    (s : CString) (c n : ℕ) (o : Option ℕ) → byte_at s n ≢ c → Last s c n o → Last s c (suc n) o
Last-suc s c n none other h = λ j l. elim (lt_or_ge j n) [
  | inl less ↦ h j less
  | inr more ↦ subst (λ k. byte_at s k ≢ c) (last_index j n l more) other
]
Last-suc s c n (some i) other (at, below, later) = (
  at,
  omega arith,
  λ j m l. elim (lt_or_ge j n) [
    | inl less ↦ later j m less
    | inr more ↦ subst (λ k. byte_at s k ≢ c) (last_index j n l more) other
  ],
)

memrchr-Last : (s : CString) (c n : ℕ) → Last s (u8 c) n (memrchr s c n)
unfolding memrchr
memrchr-Last s c zero = λ j l. absurd (omega arith)
memrchr-Last s c (suc n) = elim (Bool-cases (byte_at s n == u8 c)) [
  | inl here ↦
      rw here ((==_iff (byte_at s n) (u8 c)).0 here, omega arith, λ j m l. absurd (omega arith))
  | inr other ↦
      rw other (Last-suc s (u8 c) n (memrchr s c n) (different n other) (memrchr-Last s c n))
]
  where
    different : (i : ℕ) → (byte_at s i == u8 c) ≡ false → byte_at s i ≢ u8 c
    different i h = ground arith

-- `strrchr` gives the last place of the character in the string, the NUL at its end among them, or
-- NULL if there is none.
pub strrchr-Last : (s : CString) (c : ℕ) → Last s (u8 c) (length s + 1) (strrchr s c)
unfolding strrchr
strrchr-Last s c = memrchr-Last s c (length s + 1)

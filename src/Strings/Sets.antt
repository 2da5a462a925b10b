-- ===== src/Strings/Sets.antt =====
-- include/c-stdlib/src/string_impl.c: `strspn`, `strcspn` and `strpbrk`, with their sets of bytes
-- as bits in four words.
use ckb_js.Prelude.{
  ℕ, suc, ◌+◌, ◌/◌, ◌%◌, ◌^◌, Bool, Option, none, some, [], ◌∷◌, ◌==◌, if◌then◌else◌,
}
use ckb_js.CellFs.{CString}
use ckb_js.Strings.{byte_at, strchrnul}

abbrev pub Byteset : Type 0
Byteset = ℕ → ℕ

abbrev pub bit : ℕ → ℕ → Bool
bit m i = (m / 2 ^ i) % 2 == 1

-- `BITOP(byteset, b, |=)` and `BITOP(byteset, b, &)`.
abbrev pub add_byte : ℕ → Byteset → Byteset
add_byte b set w =
    if w == b / 64 then (if bit (set w) (b % 64) then set w else set w + 2 ^ (b % 64)) else set w

abbrev pub has_byte : ℕ → Byteset → Bool
has_byte b set = bit (set (b / 64)) (b % 64)

unfoldable pub fill : CString → Byteset → Byteset
fill [] set = set
fill (b ∷ c) set = fill c (add_byte b set)

-- How far bytes go on that are in a set, or not in it, and how far one byte goes on.
unfoldable pub span_in : Byteset → CString → ℕ
span_in set [] = 0
span_in set (b ∷ s) = let rest = span_in set s in if has_byte b set then suc rest else 0

unfoldable pub span_out : Byteset → CString → ℕ
span_out set [] = 0
span_out set (b ∷ s) = let rest = span_out set s in if has_byte b set then 0 else suc rest

unfoldable pub span_one : ℕ → CString → ℕ
span_one c [] = 0
span_one c (b ∷ s) = let rest = span_one c s in if b == c then suc rest else 0

unfoldable pub strspn : CString → CString → ℕ
unfolding fill span_in span_one
strspn s [] = 0
strspn s (c ∷ []) = span_one c s
strspn s (c ∷ d ∷ cs) = span_in (fill (c ∷ d ∷ cs) (λ w. 0)) s

unfoldable pub strcspn : CString → CString → ℕ
unfolding fill span_out strchrnul
strcspn s [] = strchrnul s 0
strcspn s (c ∷ []) = strchrnul s c
strcspn s (c ∷ d ∷ cs) = span_out (fill (c ∷ d ∷ cs) (λ w. 0)) s

unfoldable pub strpbrk : CString → CString → Option ℕ
unfolding strcspn
strpbrk s b = let r = strcspn s b in if byte_at s r == 0 then none else some r

-- ===== src/Strings.antt =====
-- include/c-stdlib/src/string_impl.c: searching and comparing strings, and single characters. A
-- string is the list of its bytes before the NUL; a result pointer is an index.
use ckb_js.Prelude.{
  ℕ, zero, suc, ◌+◌, ◌-◌, ◌*◌, ◌/◌, ◌%◌, Bool, true, false, not, Option, none, some, List, [], ◌∷◌,
  ltb, leb, ◌==◌, ◌&&◌, ◌||◌, if◌then◌else◌, length, get_or, u8, sub32,
}
use ckb_js.Prelude.Int.{ℤ, pos, negsuc}
use ckb_js.CellFs.{CString}
pub mod Search
pub mod Numbers
pub mod Power
pub mod Decimal
pub mod ReadBack
pub mod Ctype
pub mod Classes
pub mod Digits
pub mod Memory
pub mod Passes
pub mod Chr
pub mod Needle
pub mod Find
pub mod Windows
pub mod Turns
pub mod Moves
pub mod Loop
pub mod Haystack
pub mod Found
pub mod Sets
pub mod Spans
mod Searches
mod Tests

-- The byte at an index up to the NUL.
abbrev pub byte_at : CString → ℕ → ℕ
byte_at s i = get_or s i 0

-- The loop of `__strchrnul`.
unfoldable pub scan_to : ℕ → CString → ℕ
scan_to c [] = 0
scan_to c (b ∷ s) = if b == c then 0 else suc (scan_to c s)

unfoldable pub strchrnul : CString → ℕ → ℕ
unfolding scan_to
strchrnul s c = if u8 c == 0 then length s else scan_to (u8 c) s

unfoldable pub strchr : CString → ℕ → Option ℕ
unfolding strchrnul
strchr s c = let r = strchrnul s c in if byte_at s r == u8 c then some r else none

-- `*l - *r` as an int.
abbrev pub difference : ℕ → ℕ → ℤ
difference l r = if leb r l then pos (l - r) else negsuc (r - l - 1)

-- The loop of `strncmp`, with `n` already less by one.
unfoldable pub compare_loop : CString → CString → ℕ → ℤ
compare_loop [] r n = difference 0 (byte_at r 0)
compare_loop (a ∷ l) [] n = difference a 0
compare_loop (a ∷ l) (b ∷ r) zero = difference a b
compare_loop (a ∷ l) (b ∷ r) (suc n) = if a == b then compare_loop l r n else difference a b

unfoldable pub strncmp : CString → CString → ℕ → ℤ
strncmp l r zero = pos 0
strncmp l r (suc n) = compare_loop l r n

-- `__memrchr` on the first `n` bytes, the NUL among them.
unfoldable pub memrchr : CString → (c n : ℕ) → Option ℕ
memrchr s c zero = none
memrchr s c (suc n) = let rest = memrchr s c n in if byte_at s n == u8 c then some n else rest

unfoldable pub strrchr : CString → ℕ → Option ℕ
strrchr s c = memrchr s c (length s + 1)

-- `(unsigned)c - 'a' < 26`.
unfoldable pub islower : ℕ → Bool
islower c = ltb (sub32 c 97) 26

unfoldable pub isupper : ℕ → Bool
isupper c = ltb (sub32 c 65) 26

-- `c | 32` and `c & 0x5f`.
unfoldable pub tolower : ℕ → ℕ
unfolding isupper
tolower c = if isupper c then c / 64 * 64 + 32 + c % 32 else c

unfoldable pub toupper : ℕ → ℕ
unfolding islower
toupper c = if islower c then c / 64 % 2 * 64 + c % 32 else c

unfoldable pub char2int : (ch base : ℕ) → Option ℕ
char2int ch base =
    if leb 48 ch && leb ch 57
    then some (ch - 48)
    else if base == 16
    then if leb 65 ch && leb ch 70
      then some (ch - 65 + 10)
      else if leb 97 ch && leb ch 102
      then some (ch - 97 + 10)
      else none
    else none

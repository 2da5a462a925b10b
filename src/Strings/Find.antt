-- ===== src/Strings/Find.antt =====
-- include/c-stdlib/src/string_impl.c: `strstr`. A pointer into a string is the string from there on,
-- or, in the search of `twoway_strstr`, a number of bytes; a result is the number of bytes before it.
-- `memcmp` is no code of the repository: the parameter says whether it finds a difference.
use Prim.Native.Nat.{bit_or}
use ckb_js.Prelude.{
  ℕ, zero, suc, ◌+◌, ◌-◌, ◌*◌, ◌%◌, ◌^◌, Bool, not, Option, none, some, [], ◌∷◌, ◌==◌, ltb, leb,
  if◌then◌else◌, length, drop, sub64,
}
use mathlib.Core.Option
use ckb_js.CellFs.{CString}
use ckb_js.Strings.{byte_at, strchr}
use ckb_js.Strings.Sets.{Byteset, has_byte}
use ckb_js.Strings.Memory.{memchr}
use ckb_js.Strings.Needle.{maximal_suffix, suffix_start, measure, right_half, left_half, Needle}

-- The loops of `twobyte_strstr`, `threebyte_strstr` and `fourbyte_strstr`, with the last byte of
-- the window in front.
unfoldable pub window : (shift : ℕ → ℕ → ℕ) (nw hw : ℕ) → CString → Option ℕ
window shift nw hw [] = none
window shift nw hw (b ∷ h) =
    if hw == nw then some 0 else Option.map suc (window shift nw (shift hw (byte_at h 0)) h)

-- The lowest byte of a shifted window is 0, so that `|` adds.
abbrev pub shift_two : ℕ → ℕ → ℕ
shift_two hw b = (hw * 256 + b) % 2 ^ 16

abbrev pub shift_three : ℕ → ℕ → ℕ
shift_three hw b = (hw + b) * 256 % 2 ^ 32

abbrev pub shift_four : ℕ → ℕ → ℕ
shift_four hw b = (hw * 256 + b) % 2 ^ 32

abbrev pub word_two : CString → ℕ
word_two s = byte_at s 0 * 2 ^ 8 + byte_at s 1

abbrev pub word_three : CString → ℕ
word_three s = byte_at s 0 * 2 ^ 24 + byte_at s 1 * 2 ^ 16 + byte_at s 2 * 2 ^ 8

abbrev pub word_four : CString → ℕ
word_four s = word_three s + byte_at s 3

unfoldable pub twobyte_strstr : CString → CString → Option ℕ
unfolding window
twobyte_strstr h n = window shift_two (word_two n) (word_two h) (drop 1 h)

unfoldable pub threebyte_strstr : CString → CString → Option ℕ
unfolding window
threebyte_strstr h n = window shift_three (word_three n) (word_three h) (drop 2 h)

unfoldable pub fourbyte_strstr : CString → CString → Option ℕ
unfolding window
fourbyte_strstr h n = window shift_four (word_four n) (word_four h) (drop 3 h)

-- How a turn of the search goes on: with a result, or with the values of `h`, `mem` and `z`.
pub data Turn : Type 0 where
  ends : Option ℕ → Turn
  turn : (h mem z : ℕ) → Turn

-- The comparisons of a turn whose last byte fits.
unfoldable pub compare_halves : Needle → CString → (h mem z : ℕ) → Turn
unfolding right_half left_half
compare_halves needle hay h mem z =
    let from = if ltb needle.next_ms mem then mem else needle.next_ms in
    let k = right_half (drop from needle.text) (drop (h + from) hay) from in
    let left = left_half needle.text (drop h hay) mem needle.next_ms in
    if not (byte_at needle.text k == 0)
    then turn (h + (k + 1 - needle.next_ms)) 0 z
    else if leb left mem
    then ends (some h)
    else turn (h + needle.p) needle.mem0 z

-- The test of the last byte.
unfoldable pub check_last : Needle → CString → (h mem z : ℕ) → Turn
unfolding compare_halves
check_last needle hay h mem z =
    let last = byte_at hay (h + needle.l - 1) in
    let k = needle.l - needle.shift last in
    if has_byte last needle.byteset
    then if k == 0
      then compare_halves needle hay h mem z
      else turn (h + (if ltb k mem then mem else k)) 0 z
    else turn (h + needle.l) 0 z

-- One turn of the search, with the haystack at the address 0.
unfoldable pub search_turn : Needle → CString → (h mem z : ℕ) → Turn
unfolding check_last memchr
search_turn needle hay h mem z =
    let grow = bit_or needle.l 63 in
    if ltb (z - h) needle.l
    then elim (memchr (byte_at hay) z 0 grow) [
      | some z₂ ↦ if ltb (z₂ - h) needle.l then ends none else check_last needle hay h mem z₂
      | none ↦ check_last needle hay h mem (z + grow)
    ]
    else check_last needle hay h mem z

-- The search. Each turn moves `h` on; out of fuel, the loop is left in the middle.
unfoldable pub search_loop : (fuel : ℕ) → Needle → CString → (h mem z : ℕ) → Turn
unfolding search_turn
search_loop zero needle hay h mem z = turn h mem z
search_loop (suc fuel) needle hay h mem z = elim (search_turn needle hay h mem z) [
  | ends r ↦ ends r
  | turn h₁ mem₁ z₁ ↦ search_loop fuel needle hay h₁ mem₁ z₁
]

module _ (memcmp : (s t : CString) (count : ℕ) → Bool) where
  -- The needle's factorization, and its period.
  unfoldable pub factorize : (n : CString) (l : ℕ) → Byteset → (ℕ → ℕ) → Needle
  unfolding maximal_suffix
  factorize n l set shift =
      let by_more = maximal_suffix (2 * l) (λ a b. ltb b a) l n suffix_start in
      let by_less = maximal_suffix (2 * l) (λ a b. ltb a b) l n suffix_start in
      let s = if ltb by_more.next_ip by_less.next_ip then by_less else by_more in
      let rest = l - s.next_ip in
      if memcmp n (drop s.p n) s.next_ip
      then record {
        text = n;
        l = l;
        byteset = set;
        shift = shift;
        next_ms = s.next_ip;
        p = (if ltb rest (sub64 s.next_ip 1) then sub64 s.next_ip 1 else rest) + 1;
        mem0 = 0;
      }
      else record {
        text = n;
        l = l;
        byteset = set;
        shift = shift;
        next_ms = s.next_ip;
        p = s.p;
        mem0 = l - s.p;
      }

  unfoldable pub twoway_strstr : CString → CString → Option ℕ
  unfolding measure factorize search_loop
  twoway_strstr h n =
      let (l, set, shift) = measure 0 h n (λ w. 0) (λ c. 0) in
      if byte_at n l == 0
      then elim (search_loop (length h + 1) (factorize n l set shift) h 0 0 0) [
        | ends r ↦ r
        | turn _ _ _ ↦ none
      ]
      else none

  -- `strstr` from the first place of the needle's first byte on.
  unfoldable pub strstr_from : CString → CString → Option ℕ
  unfolding twobyte_strstr threebyte_strstr fourbyte_strstr twoway_strstr
  strstr_from h n =
      if byte_at n 1 == 0
      then some 0
      else if byte_at h 1 == 0
      then none
      else if byte_at n 2 == 0
      then twobyte_strstr h n
      else if byte_at h 2 == 0
      then none
      else if byte_at n 3 == 0
      then threebyte_strstr h n
      else if byte_at h 3 == 0
      then none
      else if byte_at n 4 == 0
      then fourbyte_strstr h n
      else twoway_strstr h n

  unfoldable pub strstr : CString → CString → Option ℕ
  unfolding strstr_from strchr
  strstr h n = if byte_at n 0 == 0 then some 0 else elim (strchr h (byte_at n 0)) [
    | none ↦ none
    | some r ↦ Option.map (λ i. r + i) (strstr_from (drop r h) n)
  ]

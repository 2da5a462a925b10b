-- ===== src/Strings/Searches.antt =====
-- Searches for strings and bytes, and the tables of characters, on short inputs.
use ckb_js.Prelude.{
  ◌+◌, ◌<◌, ◌≤◌, ltb, arith, ℕ, zero, suc, Bool, true, false, ◌==◌, if◌then◌else◌, ◌≡◌, refl, some,
  none,
}
use ckb_js.Fixtures.{codes}
use ckb_js.CellFs.{CString}
use ckb_js.Strings.{byte_at, strchr, strchrnul, scan_to}
use ckb_js.Strings.Memory.{align, by_words, by_bytes, memchr}
use ckb_js.Strings.Needle.{maximal_suffix, measure, right_half, left_half}
use ckb_js.Strings.Haystack.{twoway_strstr-Fits}
use ckb_js.Strings.Needle.{suffix_start}
use ckb_js.Strings.Find.{
  ends, compare_halves, check_last, search_turn, search_loop, factorize, twoway_strstr, strstr_from,
  strstr,
}

-- Whether the first `count` bytes differ.
abbrev bytes_differ : (s t : CString) (count : ℕ) → Bool
bytes_differ s t zero = false
bytes_differ s t (suc k) = if byte_at s k == byte_at t k then bytes_differ s t k else true

-- A needle that `twoway_strstr` searches for.
long_needle : strstr bytes_differ (codes "abababacababab") (codes "abacab") ≡ some 4
unfolding strstr strstr_from twoway_strstr measure factorize maximal_suffix search_loop search_turn
    check_last compare_halves right_half left_half memchr align by_words by_bytes strchr strchrnul
    scan_to
long_needle = refl

periodic_needle : strstr bytes_differ (codes "aabaabaaabaabaabx") (codes "aabaabaab") ≡ some 7
unfolding strstr strstr_from twoway_strstr measure factorize maximal_suffix search_loop search_turn
    check_last compare_halves right_half left_half memchr align by_words by_bytes strchr strchrnul
    scan_to
periodic_needle = refl

no_needle : strstr bytes_differ (codes "the quick brown fox") (codes "quack") ≡ none
unfolding strstr strstr_from twoway_strstr measure factorize maximal_suffix search_loop search_turn
    check_last compare_halves right_half left_half memchr align by_words by_bytes strchr strchrnul
    scan_to
no_needle = refl

nothing_differs : (s t : CString) → bytes_differ s t 0 ≡ false
nothing_differs s t = refl

twoway_strstr-Fits_example :
    ((above : ℕ → ℕ → Bool)
      → ltb
          ((maximal_suffix 12 above 6 (codes "abacab") suffix_start).jp
            + (maximal_suffix 12 above 6 (codes "abacab") suffix_start).k)
          6
        ≡ false)
    × ((fuel : ℕ)
        → 14 < fuel
        → 6 ≤ 14
        → let (l, set, shift) =
            measure 0 (codes "abababacababab") (codes "abacab") (λ w. 0) (λ c. 0) in
          search_loop fuel
            (factorize bytes_differ (codes "abacab") l set shift)
            (codes "abababacababab")
            0
            0
            0
          ≡ ends (twoway_strstr bytes_differ (codes "abababacababab") (codes "abacab")))
    × ((i : ℕ)
        → twoway_strstr bytes_differ (codes "abababacababab") (codes "abacab") ≡ some i
        → i + 6 ≤ 14)
twoway_strstr-Fits_example =
    twoway_strstr-Fits bytes_differ nothing_differs (codes "abababacababab") (codes "abacab")
      (ground arith) (ground arith) (omega arith) (omega arith)

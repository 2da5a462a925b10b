-- ===== src/Strings/Needle.antt =====
-- include/c-stdlib/src/string_impl.c: what `twoway_strstr` learns of the needle.
use ckb_js.Prelude.{
  ℕ, zero, suc, ◌+◌, ◌-◌, Bool, true, false, [], ◌∷◌, ◌==◌, ◌&&◌, ltb, if◌then◌else◌, drop,
}
use ckb_js.CellFs.{CString}
use ckb_js.Strings.{byte_at}
use ckb_js.Strings.Sets.{Byteset, add_byte}

-- The state of a loop for the maximal suffix. `next_ip` is `ip + 1`, as `ip` begins at -1.
pub record Suffix : Type 0 where
  pub next_ip : ℕ
  pub jp : ℕ
  pub k : ℕ
  pub p : ℕ

-- A turn of a loop for the maximal suffix, by an order of bytes.
abbrev pub suffix_step : (above : ℕ → ℕ → Bool) → CString → Suffix → Suffix
suffix_step above n s =
    let a = byte_at n (s.next_ip + s.k - 1) in
    let b = byte_at n (s.jp + s.k) in
    if a == b
    then if s.k == s.p then record s { jp = s.jp + s.p; k = 1 } else record s { k = s.k + 1 }
    else if above a b
    then record s { jp = s.jp + s.k; k = 1; p = s.jp + s.k + 1 - s.next_ip }
    else record { next_ip = s.jp + 1; jp = s.jp + 1; k = 1; p = 1 }

-- The loop for the maximal suffix. Each turn raises `ip + jp + k`, which stays below twice the
-- length.
unfoldable pub maximal_suffix :
    (fuel : ℕ) (above : ℕ → ℕ → Bool) (l : ℕ) → CString → Suffix → Suffix
maximal_suffix zero above l n s = s
maximal_suffix (suc fuel) above l n s = elim (ltb (s.jp + s.k) l) [
  | true ↦ maximal_suffix fuel above l n (suffix_step above n s)
  | false ↦ s
]

abbrev pub suffix_start : Suffix
suffix_start = record { next_ip = 0; jp = 0; k = 1; p = 1 }

-- The loop that measures the needle, while the haystack is as long, and fills the tables.
unfoldable pub measure : (l : ℕ) (h n : CString) → Byteset → (ℕ → ℕ) → ℕ × Byteset × (ℕ → ℕ)
measure l [] n set shift = (l, set, shift)
measure l (b ∷ h) [] set shift = (l, set, shift)
measure l (b ∷ h) (c ∷ n) set shift =
    measure (suc l) h n (add_byte c set) (λ d. if d == c then suc l else shift d)

-- The comparisons of the two halves.
unfoldable pub right_half : (n h : CString) → ℕ → ℕ
right_half [] h k = k
right_half (c ∷ n) h k = elim (c == byte_at h 0) [
  | true ↦ right_half n (drop 1 h) (suc k)
  | false ↦ k
]

unfoldable pub left_half : (n h : CString) (mem k : ℕ) → ℕ
left_half n h mem zero = 0
left_half n h mem (suc k) = elim (ltb mem (suc k) && byte_at n k == byte_at h k) [
  | true ↦ left_half n h mem k
  | false ↦ suc k
]

-- What `twoway_strstr` knows of the needle before it searches. `next_ms` is `ms + 1`.
pub record Needle : Type 0 where
  pub text : CString
  pub l : ℕ
  pub byteset : Byteset
  pub shift : ℕ → ℕ
  pub next_ms : ℕ
  pub p : ℕ
  pub mem0 : ℕ

-- ===== src/Strings/Ctype.antt =====
-- include/c-stdlib/src/string_impl.c: the tables of the characters, `__ctype_b_loc`,
-- `__ctype_toupper_loc` and `__ctype_tolower_loc`, each as the list of its 384 entries. The pointer
-- that such a function gives is 128 entries behind the start of its table.
use Prim.Native.Nat.{bit_or}
use ckb_js.Prelude.{ℕ, zero, suc, ◌+◌, ◌*◌, ◌/◌, ◌%◌, ◌^◌, Bool, List, [], ◌∷◌, ◌==◌, get_or}

-- `X`: the two bytes of an entry the other way round.
abbrev pub swap_bytes : ℕ → ℕ
swap_bytes x = bit_or (x / 256) (x * 256) % 65536

-- `n` entries of the same value, before others.
abbrev pub copies : (n x : ℕ) → List ℕ → List ℕ
copies zero x rest = rest
copies (suc n) x rest = x ∷ copies n x rest

-- `n` entries that count up from `x`, before others.
abbrev pub counted : (n x : ℕ) → List ℕ → List ℕ
counted zero x rest = rest
counted (suc n) x rest = x ∷ counted n (suc x) rest

unfoldable pub ctype_b_table : List ℕ
ctype_b_table = copies 128 0 (
    copies 9 (swap_bytes 0x200) (
      copies 1 (swap_bytes 0x320) (
        copies 4 (swap_bytes 0x220) (
          copies 18 (swap_bytes 0x200) (
            copies 1 (swap_bytes 0x160) (
              copies 15 (swap_bytes 0x4c0) (
                copies 10 (swap_bytes 0x8d8) (
                  copies 7 (swap_bytes 0x4c0) (
                    copies 6 (swap_bytes 0x8d5) (
                      copies 20 (swap_bytes 0x8c5) (
                        copies 6 (swap_bytes 0x4c0) (
                          copies 6 (swap_bytes 0x8d6) (
                            copies 20 (swap_bytes 0x8c6) (
                              copies 4 (swap_bytes 0x4c0)
                                (copies 1 (swap_bytes 0x200) (copies 128 0 []))))))))))))))))

unfoldable pub toupper_table : List ℕ
toupper_table = copies 128 0 (counted 97 0 (counted 26 65 (counted 5 123 (copies 128 0 []))))

unfoldable pub tolower_table : List ℕ
tolower_table = copies 128 0 (counted 65 0 (counted 26 97 (counted 37 91 (copies 128 0 []))))

-- What a function's pointer reads at a character from 0 on.
unfoldable pub ctype_b : ℕ → ℕ
unfolding ctype_b_table
ctype_b c = get_or ctype_b_table (128 + c) 0

unfoldable pub ctype_toupper : ℕ → ℕ
unfolding toupper_table
ctype_toupper c = get_or toupper_table (128 + c) 0

unfoldable pub ctype_tolower : ℕ → ℕ
unfolding tolower_table
ctype_tolower c = get_or tolower_table (128 + c) 0

-- The bits of an entry, by the C library's numbers for the classes.
abbrev pub has_class : (class c : ℕ) → Bool
has_class class c = ctype_b c / 2 ^ class % 2 == 1

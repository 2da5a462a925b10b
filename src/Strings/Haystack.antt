-- ===== src/Strings/Haystack.antt =====
-- The search of `twoway_strstr` ends, and stays inside the haystack.
use ckb_js.Prelude.{
  ℕ, suc, ◌+◌, ◌*◌, ◌^◌, ◌<◌, ◌≤◌, ◌≡◌, ◌≢◌, refl, ap, ◌∙◌, Bool, true, false, Option, none, some,
  [], ◌∷◌, ◌==◌, ltb, leb, if◌then◌else◌, length, drop, min, arith, inl, inr, Bool-cases,
}
use mathlib.Core.Path.{subst}
use mathlib.Core.Option.{none-ne-some}
use ckb_js.CellFs.{CString}
use ckb_js.Strings.{byte_at}
use ckb_js.Strings.Sets.{Byteset, add_byte}
use ckb_js.Strings.Spans.{IsText}
use ckb_js.Strings.Needle.{maximal_suffix, suffix_start, measure}
use ckb_js.Strings.Find.{ends, search_loop, factorize, twoway_strstr}
use ckb_js.Strings.Turns.{IsSuffix, maximal_suffix-IsSuffix, start-IsSuffix}
use ckb_js.Strings.Loop.{Fits, search_loop-Ended, search_loop-more}
use ckb_js.Strings.Moves.{byte_at_past, byte_at_within, IsNeedle}

-- The length of the needle, or of the haystack if that ends before.
measure_length :
    (l : ℕ) (h n : CString) (set : Byteset) (shift : ℕ → ℕ)
    → (measure l h n set shift).0 ≡ l + min (length h) (length n)
unfolding measure
measure_length l [] n set shift = omega arith
measure_length l (b ∷ h) [] set shift = omega arith
measure_length l (b ∷ h) (c ∷ n) set shift =
    omega
      (arith, measure_length (suc l) h n (add_byte c set) (λ d. if d == c then suc l else shift d))

module _ (memcmp : (s t : CString) (count : ℕ) → Bool)
    (nothing_differs : (s t : CString) → memcmp s t 0 ≡ false) where
  factorize-IsNeedle :
      (n : CString) (l : ℕ) (set : Byteset) (shift : ℕ → ℕ)
      → l ≡ length n
      → 1 ≤ l
      → l < 2 ^ 64
      → IsNeedle (factorize memcmp n l set shift)
  unfolding factorize
  factorize-IsNeedle n l set shift whole few small =
      let more = maximal_suffix (2 * l) (λ a b. ltb b a) l n suffix_start in
      let less = maximal_suffix (2 * l) (λ a b. ltb a b) l n suffix_start in
      let s = if ltb more.next_ip less.next_ip then less else more in
      let of : (above : ℕ → ℕ → Bool) → IsSuffix l (maximal_suffix (2 * l) above l n suffix_start) =
        λ above.
          (maximal_suffix-IsSuffix (2 * l) above l n suffix_start (start-IsSuffix l few)
            (omega arith)).0 in
      let v : IsSuffix l s = elim (Bool-cases (ltb more.next_ip less.next_ip)) [
        | inl t ↦ rw t (of (λ a b. ltb a b))
        | inr f ↦ rw f (of (λ a b. ltb b a))
      ] in
      elim (Bool-cases (memcmp n (drop s.p n) s.next_ip)) [
        | inl t ↦
            let some_part : s.next_ip ≢ 0 = λ z.
              (let none_differ = ap (memcmp n (drop s.p n)) z ∙ nothing_differs n (drop s.p n) in
                ground (arith, t, none_differ)) in
            rw t (record {
              long = few;
              whole = whole;
              left_part = omega (arith, v.order, v.inside, v.some_k);
              period = omega arith;
              period_inside = ground (arith, some_part, small, v.order, v.inside, v.some_k);
              memory = omega (arith, few);
            })
        | inr f ↦ rw f (record {
          long = few;
          whole = whole;
          left_part = omega (arith, v.order, v.inside, v.some_k);
          period = omega (arith, v.some_k, v.in_period);
          period_inside = omega (arith, v.period, v.inside, v.some_k);
          memory = omega (arith, v.some_k, v.in_period, few);
        })
      ]

  factorize_length :
      (n : CString) (l : ℕ) (set : Byteset) (shift : ℕ → ℕ) → (factorize memcmp n l set shift).l ≡ l
  unfolding factorize
  factorize_length n l set shift =
      let more = maximal_suffix (2 * l) (λ a b. ltb b a) l n suffix_start in
      let less = maximal_suffix (2 * l) (λ a b. ltb a b) l n suffix_start in
      let s = if ltb more.next_ip less.next_ip then less else more in
      elim (Bool-cases (memcmp n (drop s.p n) s.next_ip)) [ inl t ↦ rw t refl | inr f ↦ rw f refl ]

  -- The search for a needle that is no longer than the haystack, with turns enough.
  searched :
      (h n : CString) (l : ℕ) (set : Byteset) (shift : ℕ → ℕ)
      → IsText h
      → l ≡ length n
      → 1 ≤ l
      → l < 2 ^ 64
      → (r : Option ℕ) × (search_loop (length h + 1) (factorize memcmp n l set shift) h 0 0 0
          ≡ ends r)
        × Fits l h r
  searched h n l set shift v whole few small =
      let needle = factorize memcmp n l set shift in
      let is = factorize-IsNeedle n l set shift whole few small in
      let e = factorize_length n l set shift in
      let (r, ended, fits) =
        search_loop-Ended needle is h v (length h + 1) 0 0 0 (omega arith) (omega arith)
          (omega (arith, is.long)) (omega arith) in
      (r, ended, subst (λ k. Fits k h r) e fits)

  -- For a `memcmp` that finds no difference in nothing, and a needle that is not empty and shorter
  -- than 2^64: the loops of `twoway_strstr` over the needle end by their own tests in turns of twice
  -- its length; if the needle is no longer than the haystack, the search ends by its own tests, in
  -- one turn for each byte of the haystack and one more, with the result of `twoway_strstr`; and a
  -- result is a place where the needle has room.
  pub twoway_strstr-Fits :
      (h n : CString)
      → IsText h
      → IsText n
      → 1 ≤ length n
      → length n < 2 ^ 64
      → ((above : ℕ → ℕ → Bool)
          → let r = maximal_suffix (2 * length n) above (length n) n suffix_start in
            ltb (r.jp + r.k) (length n) ≡ false)
        × ((fuel : ℕ)
            → length h < fuel
            → length n ≤ length h
            → let (l, set, shift) = measure 0 h n (λ w. 0) (λ c. 0) in
              search_loop fuel (factorize memcmp n l set shift) h 0 0 0
              ≡ ends (twoway_strstr memcmp h n))
        × ((i : ℕ) → twoway_strstr memcmp h n ≡ some i → i + length n ≤ length h)
  unfolding twoway_strstr
  twoway_strstr-Fits h n v w few small =
      let (l, set, shift) = measure 0 h n (λ w. 0) (λ c. 0) in
      let size = measure_length 0 h n (λ w. 0) (λ c. 0) in
      let whole : length n ≤ length h → l ≡ length n = λ room. omega (arith, size, room) in
      let found : length n ≤ length h → (byte_at n l == 0) ≡ true =
        λ room. (let past = byte_at_past n l (omega (arith, whole room)) in ground (arith, past)) in
      let search = λ (room : length n ≤ length h).
        searched h n l set shift v (whole room) (omega (arith, whole room, few))
          (omega (arith, whole room, small)) in
      (
        λ above.
            (maximal_suffix-IsSuffix (2 * length n) above (length n) n suffix_start
              (start-IsSuffix (length n) few) (omega arith)).1,
        λ fuel enough room.
            let (r, ended, fits) = search room in
            rw (found room, ended)
              (search_loop-more (factorize memcmp n l set shift) h (length h + 1) fuel 0 0 0 r
                (omega (arith, enough)) ended),
        λ i e. elim (Bool-cases (leb (length n) (length h))) [
          | inl t ↦
              let room : length n ≤ length h = ground (arith, t) in
              let (r, ended, fits) = search room in
              let result : r ≡ some i = rw (found room, ended) at e in
              let placed : i + l ≤ length h = subst (Fits l h) result fits in
              omega (arith, placed, whole room)
          | inr longer ↦
              let short : l < length n = ground (arith, longer, size) in
              let within = byte_at_within n l w short in
              let left : (byte_at n l == 0) ≡ false = ground (arith, within) in
              let result : none ≡ some i = rw left at e in absurd (none-ne-some i result)
        ],
      )

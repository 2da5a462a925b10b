-- ===== src/Strings/Turns.antt =====
-- The loops of `twoway_strstr` end, and stay inside the haystack.
use ckb_js.Prelude.{
  ℕ, zero, suc, ◌+◌, ◌-◌, ◌*◌, ◌<◌, ◌≤◌, ◌≡◌, Bool, false, ◌==◌, ltb, arith, inl, inr, Bool-cases,
}
use ckb_js.CellFs.{CString}
use ckb_js.Strings.{byte_at}
use ckb_js.Strings.Needle.{Suffix, suffix_step, maximal_suffix, suffix_start}

-- What holds of the loops for the maximal suffix in each turn.
pub record IsSuffix (l : ℕ) (s : Suffix) : Type 0 where
  pub order : s.next_ip ≤ s.jp
  pub inside : s.jp + s.k ≤ l
  pub some_k : 1 ≤ s.k
  pub in_period : s.k ≤ s.p
  pub period : s.p + s.next_ip ≤ s.jp + 1

abbrev pub progress : Suffix → ℕ
progress s = s.next_ip + s.jp + s.k

step-IsSuffix :
    (above : ℕ → ℕ → Bool) (l : ℕ) (n : CString) (s : Suffix)
    → s.jp + s.k < l
    → IsSuffix l s
    → IsSuffix l (suffix_step above n s) × (progress s < progress (suffix_step above n s))
step-IsSuffix above l n s less v =
    elim (Bool-cases (byte_at n (s.next_ip + s.k - 1) == byte_at n (s.jp + s.k))) [
      | inl same ↦ elim (Bool-cases (s.k == s.p)) [
        | inl full ↦
            rw (same, full)
              (
                record {
                  order = omega (arith, v.order);
                  inside = ground (arith, less, full);
                  some_k = omega arith;
                  in_period = omega (arith, v.some_k, v.in_period);
                  period = omega (arith, v.period);
                },
                ground (arith, full),
              )
        | inr further ↦
            rw (same, further)
              (
                record {
                  order = v.order;
                  inside = omega (arith, less);
                  some_k = omega arith;
                  in_period = ground (arith, v.in_period, further);
                  period = v.period;
                },
                omega arith,
              )
      ]
      | inr other ↦
          elim (Bool-cases (above (byte_at n (s.next_ip + s.k - 1)) (byte_at n (s.jp + s.k)))) [
            | inl t ↦
                rw (other, t)
                  (
                    record {
                      order = omega (arith, v.order);
                      inside = omega (arith, less);
                      some_k = omega arith;
                      in_period = omega (arith, v.order);
                      period = omega (arith, v.order);
                    },
                    omega arith,
                  )
            | inr f ↦
                rw (other, f)
                  (
                    record {
                      order = omega arith;
                      inside = omega (arith, less, v.some_k);
                      some_k = omega arith;
                      in_period = omega arith;
                      period = omega arith;
                    },
                    omega (arith, v.period, v.in_period),
                  )
          ]
    ]

-- Enough turns: the loop ends by its own test.
pub maximal_suffix-IsSuffix :
    (fuel : ℕ) (above : ℕ → ℕ → Bool) (l : ℕ) (n : CString) (s : Suffix)
    → IsSuffix l s
    → 2 * l ≤ fuel + progress s
    → let r = maximal_suffix fuel above l n s in IsSuffix l r × (ltb (r.jp + r.k) l ≡ false)
unfolding maximal_suffix
maximal_suffix-IsSuffix zero above l n s v enough =
    (v, ground (arith, enough, v.order, v.inside, v.period, v.in_period, v.some_k))
maximal_suffix-IsSuffix (suc fuel) above l n s v enough = elim (Bool-cases (ltb (s.jp + s.k) l)) [
  | inl t ↦
      let (w, more) = step-IsSuffix above l n s (ground (arith, t)) v in
      rw (t, maximal_suffix)
        (maximal_suffix-IsSuffix fuel above l n (suffix_step above n s) w
          (omega (arith, enough, more)))
  | inr f ↦ rw (f, maximal_suffix) (v, f)
]

pub start-IsSuffix : (l : ℕ) → 1 ≤ l → IsSuffix l suffix_start
start-IsSuffix l few = record {
  order = omega arith;
  inside = omega (arith, few);
  some_k = omega arith;
  in_period = omega arith;
  period = omega arith;
}

-- ===== src/Malloc/Growth.antt =====
-- Two chunks that meet become one, and the heap grows by a chunk.
use ckb_js.Prelude.{
  ℕ, ◌+◌, ◌%◌, ◌<◌, ◌≤◌, ◌≡◌, ◌≢◌, ◌⊎◌, refl, sym, Bool, ◌==◌, arith, inl, inr, Bool-cases,
}
use mathlib.Core.Path.{subst}
use ckb_js.Malloc.Layout.{nothing, chunk, Slots, put, EndsAt, IsTiled}

module _ (slot : Slots) (first top d a b : ℕ) (u v x : Bool) (k : IsTiled slot first top)
    (e : slot d ≡ chunk a u) (f : slot (d + a) ≡ chunk b v) where
  abbrev pub joined : Slots
  joined = put (d + a) nothing (put d (chunk (a + b) x) slot)

  joined_view :
      (c s : ℕ) (y : Bool)
      → joined c ≡ chunk s y
      → ((c ≡ d) × (s ≡ a + b)) ⊎ ((slot c ≡ chunk s y) × (c ≢ d) × (c ≢ d + a))
  joined_view c s y g = ground arith

  joined_keeps :
      (c s : ℕ) (y : Bool) → slot c ≡ chunk s y → c ≢ d → c ≢ d + a → joined c ≡ chunk s y
  joined_keeps c s y g n m = ground arith

  joined_apart :
      (c s r t : ℕ) (y z : Bool) → joined c ≡ chunk s y → joined r ≡ chunk t z → c < r → c + s ≤ r
  joined_apart c s r t y z g h less = elim (joined_view c s y g) [
    | inl p ↦ elim (joined_view r t z h) [
      | inl q ↦ omega arith
      | inr (q, q', q'') ↦ ground (arith, k.apart d a r t u z e q, k.apart (d + a) b r t v z f q)
    ]
    | inr (p, p', p'') ↦ elim (joined_view r t z h) [
      | inl q ↦ ground (arith, k.apart c s d a y u p e)
      | inr (q, q', q'') ↦ k.apart c s r t y z p q less
    ]
  ]

  joined_ends : (p : ℕ) → p ≢ d + a → EndsAt slot first p → EndsAt joined first p
  joined_ends p other (inl at_first) = inl at_first
  joined_ends p other (inr (c, s, y, g, m)) = elim (Bool-cases (c == d + a)) [
    | inl second ↦
        inr (d, a + b, x, ground (arith, k.aligned d a u e), ground (arith, second, g, f))
    | inr n ↦
        inr (c, s, y, joined_keeps c s y g (ground (arith, other, g, e)) (ground (arith, n)), m)
  ]

  joined_next :
      (c s : ℕ) (y : Bool)
      → joined c ≡ chunk s y
      → (c + s ≡ top) ⊎ ((t : ℕ) × (z : Bool) × (joined (c + s) ≡ chunk t z))
  joined_next c s y g = elim (joined_view c s y g) [
    | inl p ↦
        (let same : c + s ≡ d + a + b = omega arith in
          elim (k.next (d + a) b v f) [
            | inl at_top ↦ inl (omega arith)
            | inr (t, z, h) ↦ inr (
              t,
              z,
              rw same (
                  joined_keeps (d + a + b) t z h (omega (arith, k.aligned (d + a) b v f))
                    (omega (arith, k.aligned (d + a) b v f))),
            )
          ])
    | inr (p, p', p'') ↦ elim (k.next c s y p) [
      | inl at_top ↦ inl at_top
      | inr (t, z, h) ↦ elim (Bool-cases (c + s == d)) [
        | inl meets ↦ inr (a + b, x, ground (arith, meets, k.aligned d a u e))
        | inr n ↦ inr (t, z, joined_keeps (c + s) t z h (ground (arith, n)) (not_second c s y p p'))
      ]
    ]
  ]
    where
      not_second : (c s : ℕ) (y : Bool) → slot c ≡ chunk s y → c ≢ d → c + s ≢ d + a
      not_second c s y p p' = ground (
        arith,
        k.apart d a c s u y e p,
        k.apart c s d a y u p e,
        k.aligned c s y p,
        k.aligned d a u e,
      )

  pub IsTiled-join : IsTiled joined first top
  IsTiled-join = record {
    aligned = λ c s y g. elim (joined_view c s y g) [
      | inl p ↦ omega (arith, k.aligned d a u e, k.aligned (d + a) b v f)
      | inr (p, p', p'') ↦ k.aligned c s y p
    ];
    inside = λ c s y g. elim (joined_view c s y g) [
      | inl p ↦ omega (arith, k.inside d a u e, k.inside (d + a) b v f)
      | inr (p, p', p'') ↦ k.inside c s y p
    ];
    apart = joined_apart;
    next = joined_next;
    prev = λ c s y g. elim (joined_view c s y g) [
      | inl p ↦
          subst (EndsAt joined first) (sym p.0)
            (joined_ends d (omega (arith, k.aligned d a u e)) (k.prev d a u e))
      | inr (p, p', p'') ↦ joined_ends c p'' (k.prev c s y p)
    ];
    last = joined_ends top (omega (arith, k.inside (d + a) b v f, k.aligned (d + a) b v f)) k.last;
    first_aligned = k.first_aligned;
  }

module _ (slot : Slots) (first top n : ℕ) (u : Bool) (k : IsTiled slot first top) (low : 32 ≤ n)
    (units : n % 32 ≡ 0) where
  abbrev pub grown : Slots
  grown = put top (chunk n u) slot

  top_aligned : (first ≤ top) × (top % 32 ≡ 16)
  top_aligned = elim k.last [
    | inl at_first ↦ omega (arith, k.first_aligned)
    | inr (d, t, v, g, m) ↦ omega (arith, k.aligned d t v g, k.inside d t v g)
  ]

  grown_view :
      (c s : ℕ) (y : Bool)
      → grown c ≡ chunk s y
      → ((c ≡ top) × (s ≡ n)) ⊎ ((slot c ≡ chunk s y) × (c + s ≤ top) × (32 ≤ s))
  grown_view c s y g = ground (arith, k.inside c s y, k.aligned c s y)

  grown_keeps : (c s : ℕ) (y : Bool) → slot c ≡ chunk s y → grown c ≡ chunk s y
  grown_keeps c s y g = ground (arith, k.inside c s y g, k.aligned c s y g)

  grown_ends : (p : ℕ) → EndsAt slot first p → EndsAt grown first p
  grown_ends p (inl at_first) = inl at_first
  grown_ends p (inr (d, r, y, g, m)) = inr (d, r, y, grown_keeps d r y g, m)

  pub IsTiled-grow : IsTiled grown first (top + n)
  IsTiled-grow = record {
    aligned = λ c s y g. elim (grown_view c s y g) [
      | inl p ↦ omega (arith, top_aligned)
      | inr (p, p', p'') ↦ k.aligned c s y p
    ];
    inside = λ c s y g. elim (grown_view c s y g) [
      | inl p ↦ omega (arith, top_aligned)
      | inr (p, p', p'') ↦ omega (arith, k.inside c s y p)
    ];
    apart = λ c s r t y z g h less. elim (grown_view c s y g) [
      | inl p ↦ elim (grown_view r t z h) [ inl q ↦ omega arith | inr q ↦ omega arith ]
      | inr (p, p', p'') ↦ elim (grown_view r t z h) [
        | inl q ↦ omega arith
        | inr (q, q', q'') ↦ k.apart c s r t y z p q less
      ]
    ];
    next = λ c s y g. elim (grown_view c s y g) [
      | inl p ↦ inl (omega arith)
      | inr (p, p', p'') ↦ elim (k.next c s y p) [
        | inl at_top ↦ inr (n, u, ground (arith, at_top))
        | inr (t, z, h) ↦ inr (t, z, grown_keeps (c + s) t z h)
      ]
    ];
    prev = λ c s y g. elim (grown_view c s y g) [
      | inl p ↦ subst (EndsAt grown first) (sym p.0) (grown_ends top k.last)
      | inr (p, p', p'') ↦ grown_ends c (k.prev c s y p)
    ];
    last = inr (top, n, u, ground arith, refl);
    first_aligned = k.first_aligned;
  }

-- ===== src/Malloc/Layout.antt =====
-- How chunks divide the heap: which chunk begins at an address, of what size, and whether it is in
-- use.
use ckb_js.Prelude.{
  ℕ, ◌+◌, ◌-◌, ◌%◌, ◌<◌, ◌≤◌, ◌≡◌, ◌≢◌, ◌⊎◌, sym, Bool, ◌==◌, if◌then◌else◌, arith, inl, inr,
  Bool-cases,
}
use mathlib.Core.Path.{subst}

pub data Slot : Type 0 where
  nothing : Slot
  chunk : (size : ℕ) (in_use : Bool) → Slot

abbrev pub Slots : Type 0
Slots = ℕ → Slot

abbrev pub put : ℕ → Slot → Slots → Slots
put c x slot a = if a == c then x else slot a

-- A place where a chunk ends, or the heap begins.
abbrev pub EndsAt : Slots → (first p : ℕ) → Type 0
EndsAt slot first p =
    (p ≡ first) ⊎ ((d : ℕ) × (t : ℕ) × (v : Bool) × (slot d ≡ chunk t v) × (d + t ≡ p))

-- Chunks from `first` on stand side by side up to `top`.
pub record IsTiled (slot : Slots) (first top : ℕ) : Type 0 where
  pub aligned : (c s : ℕ) (u : Bool) → slot c ≡ chunk s u → (c % 32 ≡ 16) × (s % 32 ≡ 0) × (32 ≤ s)
  pub inside : (c s : ℕ) (u : Bool) → slot c ≡ chunk s u → (first ≤ c) × (c + s ≤ top)
  pub apart :
      (c s d t : ℕ) (u v : Bool) → slot c ≡ chunk s u → slot d ≡ chunk t v → c < d → c + s ≤ d
  pub next :
      (c s : ℕ) (u : Bool)
      → slot c ≡ chunk s u
      → (c + s ≡ top) ⊎ ((t : ℕ) × (v : Bool) × (slot (c + s) ≡ chunk t v))
  pub prev : (c s : ℕ) (u : Bool) → slot c ≡ chunk s u → EndsAt slot first c
  pub last : EndsAt slot first top
  pub first_aligned : first % 32 ≡ 16

-- Whether a chunk is in use makes no difference.
pub IsTiled-mark :
    (slot : Slots) (first top c s : ℕ) (u v : Bool)
    → IsTiled slot first top
    → slot c ≡ chunk s u
    → IsTiled (put c (chunk s v) slot) first top
IsTiled-mark slot first top c s u v k e = record {
  aligned = λ a t x f. (let (y, g) = was a t x f in k.aligned a t y g);
  inside = λ a t x f. (let (y, g) = was a t x f in k.inside a t y g);
  apart = λ a t b r x y f g.
      (let (x', f') = was a t x f in let (y', g') = was b r y g in k.apart a t b r x' y' f' g');
  next = λ a t x f.
      (let (y, g) = was a t x f in
        elim (k.next a t y g) [
          | inl at_top ↦ inl at_top
          | inr (r, z, h) ↦ (let (z', h') = now (a + t) r z h in inr (r, z', h'))
        ]);
  prev = λ a t x f. (let (y, g) = was a t x f in ends a (k.prev a t y g));
  last = ends top k.last;
  first_aligned = k.first_aligned;
}
  where
    was :
        (a t : ℕ) (x : Bool)
        → put c (chunk s v) slot a ≡ chunk t x
        → (y : Bool) × (slot a ≡ chunk t y)
    was a t x f = elim (Bool-cases (a == c)) [
      | inl here ↦ (u, ground (arith, f, here))
      | inr other ↦ (x, ground (arith, f, other))
    ]

    now :
        (a t : ℕ) (x : Bool)
        → slot a ≡ chunk t x
        → (y : Bool) × (put c (chunk s v) slot a ≡ chunk t y)
    now a t x f = elim (Bool-cases (a == c)) [
      | inl here ↦ (v, ground (arith, f, here))
      | inr other ↦ (x, ground (arith, f, other))
    ]

    ends : (p : ℕ) → EndsAt slot first p → EndsAt (put c (chunk s v) slot) first p
    ends p (inl at_first) = inl at_first
    ends p (inr (d, r, z, h, m)) = let (z', h') = now d r z h in inr (d, r, z', h', m)

-- A chunk is cut in two.
module _ (slot : Slots) (first top c s n : ℕ) (u v w : Bool) (k : IsTiled slot first top)
    (e : slot c ≡ chunk s u) (low : 32 ≤ n) (units : n % 32 ≡ 0) (high : n + 32 ≤ s) where
  abbrev pub cut_slots : Slots
  cut_slots = put (c + n) (chunk (s - n) w) (put c (chunk n v) slot)

  cut_view :
      (a t : ℕ) (x : Bool)
      → cut_slots a ≡ chunk t x
      → ((a ≡ c + n) × (t ≡ s - n))
        ⊎ (((a ≡ c) × (t ≡ n)) ⊎ ((slot a ≡ chunk t x) × (a ≢ c) × (a ≢ c + n)))
  cut_view a t x f = ground arith

  cut_keeps : (a t : ℕ) (x : Bool) → slot a ≡ chunk t x → a ≢ c → cut_slots a ≡ chunk t x
  cut_keeps a t x f other = ground (arith, k.apart c s a t u x e f)

  cut_apart :
      (a t b r : ℕ) (x y : Bool)
      → cut_slots a ≡ chunk t x
      → cut_slots b ≡ chunk r y
      → a < b
      → a + t ≤ b
  cut_apart a t b r x y f g less = elim (cut_view a t x f) [
    | inl p ↦ elim (cut_view b r y g) [
      | inl q ↦ omega arith
      | inr (inl q) ↦ omega arith
      | inr (inr (q, q', q'')) ↦ omega (arith, k.apart c s b r u y e q, k.apart b r c s y u q e)
    ]
    | inr (inl p) ↦ elim (cut_view b r y g) [
      | inl q ↦ omega arith
      | inr (inl q) ↦ omega arith
      | inr (inr (q, q', q'')) ↦ omega (arith, k.apart c s b r u y e q)
    ]
    | inr (inr (p, p', p'')) ↦ elim (cut_view b r y g) [
      | inl q ↦ ground (arith, k.apart c s a t u x e p, k.apart a t c s x u p e)
      | inr (inl q) ↦ ground (arith, k.apart a t c s x u p e)
      | inr (inr (q, q', q'')) ↦ k.apart a t b r x y p q less
    ]
  ]

  cut_next :
      (a t : ℕ) (x : Bool)
      → cut_slots a ≡ chunk t x
      → (a + t ≡ top) ⊎ ((r : ℕ) × (y : Bool) × (cut_slots (a + t) ≡ chunk r y))
  cut_next a t x f = elim (cut_view a t x f) [
    | inl p ↦
        (let same : a + t ≡ c + s = omega arith in
          elim (k.next c s u e) [
            | inl at_top ↦ inl (omega arith)
            | inr (r, y, g) ↦ inr (r, y, rw same (cut_keeps (c + s) r y g (omega arith)))
          ])
    | inr (inl p) ↦ inr (s - n, w, ground arith)
    | inr (inr (p, p', p'')) ↦ elim (k.next a t x p) [
      | inl at_top ↦ inl at_top
      | inr (r, y, g) ↦ elim (Bool-cases (a + t == c)) [
        | inl meets ↦ inr (n, v, ground (arith, meets))
        | inr other ↦ inr (r, y, cut_keeps (a + t) r y g (ground (arith, other)))
      ]
    ]
  ]

  cut_ends : (p : ℕ) → EndsAt slot first p → EndsAt cut_slots first p
  cut_ends p (inl at_first) = inl at_first
  cut_ends p (inr (d, r, y, g, m)) = elim (Bool-cases (d == c)) [
    | inl meets ↦ inr (c + n, s - n, w, ground arith, ground (arith, meets, g, e))
    | inr other ↦ inr (d, r, y, cut_keeps d r y g (ground (arith, other)), m)
  ]

  cut_prev : (a t : ℕ) (x : Bool) → cut_slots a ≡ chunk t x → EndsAt cut_slots first a
  cut_prev a t x f = elim (cut_view a t x f) [
    | inl p ↦ inr (c, n, v, ground arith, omega arith)
    | inr (inl p) ↦ subst (EndsAt cut_slots first) (sym p.0) (cut_ends c (k.prev c s u e))
    | inr (inr (p, p', p'')) ↦ cut_ends a (k.prev a t x p)
  ]

  pub IsTiled-cut : IsTiled cut_slots first top
  IsTiled-cut = record {
    aligned = λ a t x f. elim (cut_view a t x f) [
      | inl p ↦ omega (arith, k.aligned c s u e)
      | inr (inl p) ↦ omega (arith, k.aligned c s u e)
      | inr (inr (p, p', p'')) ↦ k.aligned a t x p
    ];
    inside = λ a t x f. elim (cut_view a t x f) [
      | inl p ↦ omega (arith, k.inside c s u e)
      | inr (inl p) ↦ omega (arith, k.inside c s u e)
      | inr (inr (p, p', p'')) ↦ k.inside a t x p
    ];
    apart = cut_apart;
    next = cut_next;
    prev = cut_prev;
    last = cut_ends top k.last;
    first_aligned = k.first_aligned;
  }

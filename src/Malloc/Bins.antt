-- ===== src/Malloc/Bins.antt =====
-- Which sizes the bins hold.
use ckb_js.Prelude.{
  ℕ, zero, suc, ◌+◌, ◌-◌, ◌*◌, ◌/◌, ◌%◌, ◌^◌, ◌<◌, ◌≤◌, ◌≡◌, refl, sym, ap, ◌∙◌, Bool, true, false,
  none, some, ltb, leb, ◌==◌, ◌&&◌, if◌then◌else◌, get_elem?, sub64, arith, inl, inr, lt_or_ge,
  get_elem?_past,
}
use ckb_js.Malloc.{bin_tab, from_tab, bin_of, bin_index, bin_up_of, bin_index_up, mmap_threshold}

-- The table in closed form, from 4 on: four bins for each power of two.
abbrev pub step : ℕ → ℕ
step q =
    if ltb q 8
    then q + 28
    else if ltb q 16
    then q / 2 + 32
    else if ltb q 32
    then q / 4 + 36
    else q / 8 + 40

-- A test holds at every number below a bound.
all_below : ℕ → (ℕ → Bool) → Bool
all_below zero p = true
all_below (suc n) p = p n && all_below n p

all_below_lem : (n : ℕ) (p : ℕ → Bool) (i : ℕ) → all_below n p ≡ true → i < n → p i ≡ true
unfolding all_below
all_below_lem zero p i h l = absurd (omega arith)
all_below_lem (suc n) p i h l = elim (lt_or_ge i n) [
  | inl less ↦ all_below_lem n p i (ground (arith, h)) less
  | inr more ↦ (let e : i ≡ n = omega arith in rw e (ground (arith, h)))
]

abbrev tab_agrees : ℕ → Bool
tab_agrees i = elim (get_elem? bin_tab i) [ none ↦ false | some t ↦ t == step (i + 4) ]

tab_agrees_everywhere : all_below 60 tab_agrees ≡ true
unfolding all_below
tab_agrees_everywhere = refl

from_tab-step : (i k : ℕ) → i < 60 → from_tab i k ≡ some (step (i + 4) + k)
unfolding from_tab
from_tab-step i k h =
    let agrees = all_below_lem 60 tab_agrees i tab_agrees_everywhere h in ground (arith, agrees)

step_mono : (a b : ℕ) → 4 ≤ a → a ≤ b → b < 64 → step a ≤ step b
step_mono a b h l m = ground arith

-- The bins in closed form, by the number of units of 32 bytes, less one.
abbrev pub bin : ℕ → ℕ
bin y =
    if leb y 32
    then y
    else if ltb y 512
    then step (y / 8)
    else if ltb 0x1c00 y
    then 63
    else step (y / 128) + 16

abbrev pub bin_up : ℕ → ℕ
bin_up y =
    if leb y 32
    then y
    else if ltb (y - 1) 512
    then step ((y - 1) / 8) + 1
    else step ((y - 1) / 128) + 17

from_tab-div : (i q k : ℕ) → i ≡ q - 4 → 4 ≤ q → q < 64 → from_tab i k ≡ some (step q + k)
from_tab-div i q k e low high = from_tab-step i k (omega arith) ∙ ap (λ p. some (step p + k)) here
  where
    here : i + 4 ≡ q
    here = omega arith

bin_of-bin : (y : ℕ) → bin_of y ≡ some (bin y)
unfolding bin_of
bin_of-bin y =
    ground (arith, from_tab-div (y / 8 - 4) (y / 8) 0, from_tab-div (y / 128 - 4) (y / 128) 16)

bin_up_of-bin_up : (y : ℕ) → y ≤ 8192 → bin_up_of y ≡ some (bin_up y)
unfolding bin_up_of
bin_up_of-bin_up y h = ground (
  arith,
  from_tab-div ((y - 1) / 8 - 4) ((y - 1) / 8) 1,
  from_tab-div ((y - 1) / 128 - 4) ((y - 1) / 128) 17,
)

step_bounds : (q : ℕ) → 4 ≤ q → q < 64 → (32 ≤ step q) × (step q ≤ 47)
step_bounds q h l = ground arith

-- The four kinds of bins: one for each size, four for each power of two below and from 512 units,
-- and the last.
data Kind (a : ℕ) : Type 0 where
  exact : a ≤ 32 → bin a ≡ a → Kind a
  fine : 32 < a → a < 512 → bin a ≡ step (a / 8) → Kind a
  coarse : 512 ≤ a → a ≤ 0x1c00 → bin a ≡ step (a / 128) + 16 → Kind a
  last : 0x1c00 < a → bin a ≡ 63 → Kind a

kind : (a : ℕ) → Kind a
kind a = elim (lt_or_ge 32 a) [
  | inr h ↦ exact h (ground arith)
  | inl h ↦ elim (lt_or_ge a 512) [
    | inl l ↦ fine h l (ground arith)
    | inr l ↦ elim (lt_or_ge 0x1c00 a) [
      | inl m ↦ last m (ground arith)
      | inr m ↦ coarse l m (ground arith)
    ]
  ]
]

fine_bounds : (a : ℕ) → 32 < a → a < 512 → (32 ≤ step (a / 8)) × (step (a / 8) ≤ 47)
fine_bounds a h l = step_bounds (a / 8) (omega arith) (omega arith)

coarse_bounds : (a : ℕ) → 512 ≤ a → a ≤ 0x1c00 → (32 ≤ step (a / 128)) × (step (a / 128) ≤ 47)
coarse_bounds a h l = step_bounds (a / 128) (omega arith) (omega arith)

bin_le_63 : (a : ℕ) → bin a ≤ 63
bin_le_63 a = elim (kind a) [
  | exact h e ↦ omega arith
  | fine h l e ↦ omega (arith, fine_bounds a h l)
  | coarse h l e ↦ omega (arith, coarse_bounds a h l)
  | last h e ↦ omega arith
]

kinds_mono : (a b : ℕ) → a ≤ b → Kind a → Kind b → bin a ≤ bin b
kinds_mono a b h (exact l e) (exact m f) = omega arith
kinds_mono a b h (exact l e) (fine m n f) = omega (arith, fine_bounds b m n)
kinds_mono a b h (exact l e) (coarse m n f) = omega (arith, coarse_bounds b m n)
kinds_mono a b h (fine k l e) (exact m f) = absurd (omega arith)
kinds_mono a b h (fine k l e) (fine m n f) =
    omega (arith, step_mono (a / 8) (b / 8) (omega arith) (omega arith) (omega arith))
kinds_mono a b h (fine k l e) (coarse m n f) = omega (arith, fine_bounds a k l, coarse_bounds b m n)
kinds_mono a b h (coarse k l e) (exact m f) = absurd (omega arith)
kinds_mono a b h (coarse k l e) (fine m n f) = absurd (omega arith)
kinds_mono a b h (coarse k l e) (coarse m n f) =
    omega (arith, step_mono (a / 128) (b / 128) (omega arith) (omega arith) (omega arith))
kinds_mono a b h k (last m f) = omega (arith, bin_le_63 a)
kinds_mono a b h (last l e) (exact m f) = absurd (omega arith)
kinds_mono a b h (last l e) (fine m n f) = absurd (omega arith)
kinds_mono a b h (last l e) (coarse m n f) = absurd (omega arith)

bin_mono : (a b : ℕ) → a ≤ b → bin a ≤ bin b
bin_mono a b h = kinds_mono a b h (kind a) (kind b)

bin_up-bin : (n : ℕ) → n ≤ 0x1c00 → 32 < n → bin_up n ≡ bin (n - 1) + 1
bin_up-bin n small more = ground arith

-- A bin that is not below `bin_up n` holds no smaller size.
bin_up_le : (n x : ℕ) → n ≤ 0x1c00 → bin_up n ≤ bin x → n ≤ x
bin_up_le n x small h = elim (lt_or_ge 32 n) [
  | inl more ↦ elim (lt_or_ge x n) [
    | inl less ↦ absurd (omega (arith, bin_mono x (n - 1) (omega arith), bin_up-bin n small more))
    | inr enough ↦ enough
  ]
  | inr few ↦ elim (lt_or_ge x n) [
    | inl less ↦
        (let e : bin_up n ≡ n = ground arith in
          let f : bin x ≡ x = ground arith in absurd (omega arith))
    | inr enough ↦ enough
  ]
]

units_small : (n : ℕ) → 32 ≤ n → n < 2 ^ 64 → sub64 (n / 32) 1 ≡ n / 32 - 1
units_small n h l = omega arith

-- Every chunk size has a bin, at most 63, that does not fall with the size.
pub bin_index_total :
    (x y : ℕ)
    → 32 ≤ x
    → x ≤ y
    → y < 2 ^ 64
    → (i : ℕ) × (j : ℕ) × (bin_index x ≡ some i) × (bin_index y ≡ some j) × (i ≤ j) × (j ≤ 63)
unfolding bin_index
bin_index_total x y h l m = (
  bin (x / 32 - 1),
  bin (y / 32 - 1),
  ap bin_of (units_small x h (omega arith)) ∙ bin_of-bin (x / 32 - 1),
  ap bin_of (units_small y (omega arith) m) ∙ bin_of-bin (y / 32 - 1),
  bin_mono (x / 32 - 1) (y / 32 - 1) (omega arith),
  bin_le_63 (y / 32 - 1),
)

-- `malloc` may take any chunk from the bin of `bin_index_up` or a higher one: for a size that it
-- accepts, a multiple of 32 up to the threshold, that bin exists and is at most 63, and every
-- chunk whose own bin is not below it is large enough.
pub bin_index_up_fits :
    (n : ℕ)
    → 32 ≤ n
    → n % 32 ≡ 0
    → n ≤ mmap_threshold
    → (i : ℕ) × (bin_index_up n ≡ some i)
      × ((x j : ℕ) → 32 ≤ x → x < 2 ^ 64 → bin_index x ≡ some j → i ≤ j → n ≤ x)
unfolding bin_index bin_index_up
bin_index_up_fits n h units small = (
  bin_up (n / 32 - 1),
  ap bin_up_of (units_small n h (omega arith)) ∙ bin_up_of-bin_up (n / 32 - 1) (omega arith),
  λ x j hx lx e le.
      let f = sym (ap bin_of (units_small x hx lx) ∙ bin_of-bin (x / 32 - 1)) ∙ e in
      let same : bin (x / 32 - 1) ≡ j = cc in
      let fits = bin_up_le (n / 32 - 1) (x / 32 - 1) (omega arith) (omega arith) in omega arith,
)

past_tab : (i k : ℕ) → 60 ≤ i → from_tab i k ≡ none
unfolding from_tab
past_tab i k h = rw (get_elem?_past bin_tab i (omega arith)) refl

bin_up_of_past : (y : ℕ) → 8193 ≤ y → bin_up_of y ≡ none
unfolding bin_up_of
bin_up_of_past y h = ground (arith, past_tab ((y - 1) / 128 - 4) 17)

-- From 8194 units on, `bin_index_up` reads outside its table.
pub bin_index_up_out_of_table : (n : ℕ) → 8194 * 32 ≤ n → n < 2 ^ 64 → bin_index_up n ≡ none
unfolding bin_index_up
bin_index_up_out_of_table n h l =
    ap bin_up_of (units_small n (omega arith) l) ∙ bin_up_of_past (n / 32 - 1) (omega arith)

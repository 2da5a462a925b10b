-- ===== src/Strings/Loop.antt =====
-- The loop of the search ends: on fuel, with a turn for each byte of the haystack and one more.
use ckb_js.Prelude.{ℕ, zero, suc, ◌+◌, ◌<◌, ◌≤◌, ◌≡◌, refl, Option, none, some, length, arith}
use ckb_js.CellFs.{CString}
use ckb_js.Strings.Spans.{IsText}
use ckb_js.Strings.Needle.{Needle}
use ckb_js.Strings.Find.{Turn, ends, turn, search_turn, search_loop}
use ckb_js.Strings.Moves.{IsNeedle, Moves, search_turn-Moves}

-- A result inside the haystack.
abbrev pub Fits : (l : ℕ) → CString → Option ℕ → Type 0
Fits l hay none = Unit
Fits l hay (some i) = i + l ≤ length hay

module _ (needle : Needle) (v : IsNeedle needle) (hay : CString) (text : IsText hay) where
  -- A search that ended, with its result inside the haystack.
  abbrev pub Ended : Turn → Type 0
  Ended t = (r : Option ℕ) × (t ≡ ends r) × Fits needle.l hay r

  pub search_loop-Ended :
      (fuel h mem z : ℕ)
      → h ≤ z
      → z ≤ length hay
      → mem < needle.l
      → length hay < fuel + h
      → Ended (search_loop fuel needle hay h mem z)
  unfolding search_loop
  search_loop-Ended zero h mem z le inside small enough = absurd (omega (arith, le, inside, enough))
  search_loop-Ended (suc fuel) h mem z le inside small enough =
      by_turn (search_turn needle hay h mem z)
        (search_turn-Moves needle v hay text h mem z le inside small)
        (λ h₁ mem₁ z₁ w₁ w₂ w₃ w₄. search_loop-Ended fuel h₁ mem₁ z₁ w₁ w₂ w₃ w₄)
    where
      by_turn :
          (r : Turn)
          → Moves needle hay h r
          → ((h₁ mem₁ z₁ : ℕ)
              → h₁ ≤ z₁
              → z₁ ≤ length hay
              → mem₁ < needle.l
              → length hay < fuel + h₁
              → Ended (search_loop fuel needle hay h₁ mem₁ z₁))
          → Ended (elim r as (λ x. Turn) [
            | ends a ↦ ends a
            | turn h₁ mem₁ z₁ ↦ search_loop fuel needle hay h₁ mem₁ z₁
          ])
      by_turn (ends none) w again = (none, refl, tt)
      by_turn (ends (some i)) w again = (some i, refl, w)
      by_turn (turn h₁ mem₁ z₁) (on, le₁, inside₁, small₁) again =
          again h₁ mem₁ z₁ le₁ inside₁ small₁ (omega (arith, on, enough))

module _ (needle : Needle) (hay : CString) where
  -- More turns than that change nothing.
  pub search_loop-more :
      (fuel more h mem z : ℕ) (r : Option ℕ)
      → fuel ≤ more
      → search_loop fuel needle hay h mem z ≡ ends r
      → search_loop more needle hay h mem z ≡ ends r
  unfolding search_loop
  search_loop-more zero more h mem z r le e = absurd (cc e)
  search_loop-more (suc fuel) zero h mem z r le e = absurd (omega (arith, le))
  search_loop-more (suc fuel) (suc more) h mem z r le e =
      by_turn (search_turn needle hay h mem z)
        (λ h₁ mem₁ z₁ w. search_loop-more fuel more h₁ mem₁ z₁ r (omega (arith, le)) w) e
    where
      by_turn :
          (t : Turn)
          → ((h₁ mem₁ z₁ : ℕ)
              → search_loop fuel needle hay h₁ mem₁ z₁ ≡ ends r
              → search_loop more needle hay h₁ mem₁ z₁ ≡ ends r)
          → (elim t as (λ x. Turn) [
            | ends a ↦ ends a
            | turn h₁ mem₁ z₁ ↦ search_loop fuel needle hay h₁ mem₁ z₁
          ])
            ≡ ends r
          → (elim t as (λ x. Turn) [
            | ends a ↦ ends a
            | turn h₁ mem₁ z₁ ↦ search_loop more needle hay h₁ mem₁ z₁
          ])
            ≡ ends r
      by_turn (ends a) again w = w
      by_turn (turn h₁ mem₁ z₁) again w = again h₁ mem₁ z₁ w

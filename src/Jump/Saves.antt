-- ===== src/Jump/Saves.antt =====
-- Stores and loads of registers one behind the other.
use ckb_js.Prelude.{
  ℕ, zero, suc, ◌+◌, ◌*◌, ◌^◌, ◌≤◌, ◌<◌, ◌≡◌, ◌⊎◌, refl, ap, ◌∙◌, Bool, true, false, not, List, [],
  ◌∷◌, ◌++◌, ◌==◌, ◌&&◌, ◌||◌, length, get_or, arith, inl, u64,
}
use ckb_js.Jump.{ra, sp, a0, s_reg, Instruction, sd, ld, Cpu, execute, run}

-- The registers that a function keeps for its caller, with the place to return to.
abbrev pub saved : List ℕ
saved =
    s_reg 0
    ∷ s_reg 1
    ∷ s_reg 2
    ∷ s_reg 3
    ∷ s_reg 4
    ∷ s_reg 5
    ∷ s_reg 6
    ∷ s_reg 7
    ∷ s_reg 8
    ∷ s_reg 9
    ∷ s_reg 10
    ∷ s_reg 11
    ∷ sp
    ∷ ra
    ∷ []

-- The stores of registers one behind the other, and the loads.
abbrev pub saves : (offset : ℕ) → List ℕ → List Instruction
saves offset [] = []
saves offset (r ∷ rs) = sd r offset a0 ∷ saves (offset + 8) rs

abbrev pub loads : (offset : ℕ) → List ℕ → List Instruction
loads offset [] = []
loads offset (r ∷ rs) = ld r offset a0 ∷ loads (offset + 8) rs

abbrev pub member : ℕ → List ℕ → Bool
member r [] = false
member r (x ∷ xs) = r == x || member r xs

abbrev distinct : List ℕ → Bool
distinct [] = true
distinct (x ∷ xs) = not (member x xs) && distinct xs

pub run-append : (is js : List Instruction) (c : Cpu) → run (is ++ js) c ≡ run js (run is c)
unfolding run
run-append [] js c = refl
run-append (i ∷ is) js c = run-append is js (execute i c)

-- Stores change memory only, in the words that they fill.
pub saves-reg : (rs : List ℕ) (offset : ℕ) (c : Cpu) → (run (saves offset rs) c).reg ≡ c.reg
unfolding run execute
saves-reg [] offset c = refl
saves-reg (r ∷ rs) offset c = saves-reg rs (offset + 8) (execute (sd r offset a0) c)

pub saves-outside :
    (rs : List ℕ) (offset : ℕ) (c : Cpu) (a : ℕ)
    → c.reg a0 + offset + 8 * length rs ≤ 2 ^ 64
    → (a < c.reg a0 + offset) ⊎ (c.reg a0 + offset + 8 * length rs ≤ a)
    → (run (saves offset rs) c).mem a ≡ c.mem a
unfolding run execute
saves-outside [] offset c a fits out = refl
saves-outside (r ∷ rs) offset c a fits out =
    let other : (a == u64 (c.reg a0 + offset)) ≡ false = ground (arith, fits, out) in
    saves-outside rs (offset + 8) (execute (sd r offset a0) c) a (omega (arith, fits))
      (ground (arith, out))
    ∙ rw other refl

pub saves-lem :
    (rs : List ℕ) (offset : ℕ) (c : Cpu) (i : ℕ)
    → c.reg a0 + offset + 8 * length rs ≤ 2 ^ 64
    → i < length rs
    → (run (saves offset rs) c).mem (c.reg a0 + offset + 8 * i) ≡ c.reg (get_or rs i 0)
unfolding run execute
saves-lem [] offset c i fits l = absurd (omega (arith, l))
saves-lem (r ∷ rs) offset c zero fits l =
    let same : (c.reg a0 + offset + 8 * 0 == u64 (c.reg a0 + offset)) ≡ true =
      ground (arith, fits) in
    saves-outside rs (offset + 8) (execute (sd r offset a0) c) (c.reg a0 + offset + 8 * 0)
      (omega (arith, fits)) (inl (omega arith))
    ∙ rw same refl
saves-lem (r ∷ rs) offset c (suc i) fits l =
    ap (run (saves offset (r ∷ rs)) c).mem (omega arith)
    ∙ saves-lem rs (offset + 8) (execute (sd r offset a0) c) i (omega (arith, fits))
        (omega (arith, l))

-- Loads change the registers that they load.
pub loads-mem : (rs : List ℕ) (offset : ℕ) (c : Cpu) → (run (loads offset rs) c).mem ≡ c.mem
unfolding run execute
loads-mem [] offset c = refl
loads-mem (r ∷ rs) offset c = loads-mem rs (offset + 8) (execute (ld r offset a0) c)

pub loads-other :
    (rs : List ℕ) (offset : ℕ) (c : Cpu) (k : ℕ)
    → member k rs ≡ false
    → (run (loads offset rs) c).reg k ≡ c.reg k
unfolding run execute
loads-other [] offset c k out = refl
loads-other (r ∷ rs) offset c k out =
    let other : (k == r) ≡ false = ground (arith, out) in
    loads-other rs (offset + 8) (execute (ld r offset a0) c) k (ground (arith, out)) ∙ rw other refl

pub loads-lem :
    (rs : List ℕ) (offset : ℕ) (c : Cpu) (i : ℕ)
    → distinct rs ≡ true
    → member a0 rs ≡ false
    → c.reg a0 + offset + 8 * length rs ≤ 2 ^ 64
    → i < length rs
    → (run (loads offset rs) c).reg (get_or rs i 0) ≡ c.mem (c.reg a0 + offset + 8 * i)
unfolding run execute
loads-lem [] offset c i once out fits l = absurd (omega (arith, l))
loads-lem (r ∷ rs) offset c zero once out fits l =
    let same : (r == r) ≡ true = ground arith in
    loads-other rs (offset + 8) (execute (ld r offset a0) c) r (ground (arith, once))
    ∙ rw same (ap c.mem (omega (arith, fits)))
loads-lem (r ∷ rs) offset c (suc i) once out fits l =
    let base : (execute (ld r offset a0) c).reg a0 ≡ c.reg a0 = ground (arith, out) in
    loads-lem rs (offset + 8) (execute (ld r offset a0) c) i (ground (arith, once))
      (ground (arith, out)) (omega (arith, base, fits)) (omega (arith, l))
    ∙ ap c.mem (omega (arith, base))

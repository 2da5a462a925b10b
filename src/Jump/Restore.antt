-- ===== src/Jump/Restore.antt =====
-- What `longjmp` restores.
use ckb_js.Prelude.{
  ℕ, zero, suc, ◌+◌, ◌*◌, ◌^◌, ◌≤◌, ◌<◌, ◌≡◌, ◌≢◌, ◌⊎◌, refl, ap, ◌∙◌, false, List, [], ◌∷◌, ◌++◌,
  ◌==◌, if◌then◌else◌, length, get_or, arith,
}
use ckb_js.Jump.{ra, a0, a1, li, seqz, add, ret, Cpu, execute, run, setjmp, longjmp, _longjmp}
use ckb_js.Jump.Saves.{
  saved, saves, loads, member, run-append, saves-reg, saves-outside, saves-lem, loads-mem,
  loads-other, loads-lem,
}

setjmp-saves : setjmp ≡ saves 0 saved ++ (li a0 0 ∷ ret ∷ [])
unfolding setjmp
setjmp-saves = refl

longjmp-loads : longjmp ≡ loads 0 saved ++ (seqz a0 a1 ∷ add a0 a0 a1 ∷ ret ∷ [])
unfolding longjmp
longjmp-loads = refl

-- What the last instructions do.
abbrev returned : Cpu → Cpu
returned c = run (li a0 0 ∷ ret ∷ []) c

abbrev landed : Cpu → Cpu
landed c = run (seqz a0 a1 ∷ add a0 a0 a1 ∷ ret ∷ []) c

run-setjmp : (c : Cpu) → run setjmp c ≡ returned (run (saves 0 saved) c)
run-setjmp c = ap (λ is. run is c) setjmp-saves ∙ run-append (saves 0 saved) (li a0 0 ∷ ret ∷ []) c

run-longjmp : (c : Cpu) → run longjmp c ≡ landed (run (loads 0 saved) c)
run-longjmp c =
    ap (λ is. run is c) longjmp-loads
    ∙ run-append (loads 0 saved) (seqz a0 a1 ∷ add a0 a0 a1 ∷ ret ∷ []) c

no_member :
    (x : ℕ) (rs : List ℕ) (i : ℕ)
    → member x rs ≡ false
    → i < length rs
    → (get_or rs i 0 == x) ≡ false
no_member x [] i out l = absurd (omega (arith, l))
no_member x (r ∷ rs) zero out l = ground (arith, out)
no_member x (r ∷ rs) (suc i) out l = no_member x rs i (ground (arith, out)) (omega (arith, l))

-- `setjmp` gives 0 and returns, it changes no other register and only the buffer.
pub record Returns (c c' : Cpu) : Type 0 where
  pub zero_result : c'.reg a0 ≡ 0
  pub back : c'.pc ≡ c.reg ra
  pub others : (r : ℕ) → r ≢ a0 → c'.reg r ≡ c.reg r
  pub outside : (a : ℕ) → (a < c.reg a0) ⊎ (c.reg a0 + 112 ≤ a) → c'.mem a ≡ c.mem a

-- The saved registers, among them the stack and the place to return to, are those of `c`.
pub record Lands (c d d' : Cpu) : Type 0 where
  pub registers : (i : ℕ) → i < 14 → d'.reg (get_or saved i 0) ≡ c.reg (get_or saved i 0)
  pub again : d'.pc ≡ c.reg ra
  pub result : d'.reg a0 ≡ (if d.reg a1 == 0 then 1 else d.reg a1)
  pub memory : d'.mem ≡ d.mem

setjmp-Returns : (c : Cpu) → c.reg a0 + 112 ≤ 2 ^ 64 → Returns c (run setjmp c)
unfolding run execute
setjmp-Returns c fits =
    let e = run-setjmp c in
    let regs = saves-reg saved 0 c in
    record {
      zero_result = ap (λ x. x.reg a0) e;
      back = ap (λ x. x.pc) e ∙ ap (λ f. f ra) regs;
      others = λ r n.
          let other : (r == a0) ≡ false = ground (arith, n) in
          ap (λ x. x.reg r) e ∙ rw other (ap (λ f. f r) regs);
      outside = λ a out.
          ap (λ x. x.mem a) e
          ∙ saves-outside saved 0 c a (omega (arith, fits)) (ground (arith, out));
    }

-- After `setjmp` on a buffer of 112 bytes: `longjmp` on a buffer with the same words, from wherever
-- it is called, brings back every saved register, the stack pointer among them, and goes to where
-- `setjmp` returned, with its second argument as the result, or 1 for 0, and it changes no memory.
-- `_longjmp` does the same. `setjmp` itself returns 0, and changes nothing but its buffer.
pub longjmp-setjmp :
    (c d : Cpu)
    → c.reg a0 + 112 ≤ 2 ^ 64
    → d.reg a0 ≡ c.reg a0
    → d.reg a1 < 2 ^ 64
    → ((i : ℕ) → i < 14 → d.mem (c.reg a0 + 8 * i) ≡ (run setjmp c).mem (c.reg a0 + 8 * i))
    → Returns c (run setjmp c) × Lands c d (run longjmp d) × Lands c d (run _longjmp d)
unfolding run execute _longjmp longjmp
longjmp-setjmp c d fits buffer small kept =
    let e = run-longjmp d in
    let m = run (loads 0 saved) d in
    let stored : (i : ℕ)
        → i < 14
        → (run setjmp c).mem (c.reg a0 + 8 * i) ≡ c.reg (get_or saved i 0) =
      λ i l.
        ap (λ x. x.mem (c.reg a0 + 8 * i)) (run-setjmp c)
        ∙ ap (run (saves 0 saved) c).mem (omega arith)
        ∙ saves-lem saved 0 c i (omega (arith, fits)) l in
    let loaded : (i : ℕ) → i < 14 → m.reg (get_or saved i 0) ≡ c.reg (get_or saved i 0) = λ i l.
      loads-lem saved 0 d i refl refl (omega (arith, fits, buffer)) l
      ∙ ap d.mem (omega (arith, buffer))
      ∙ kept i l
      ∙ stored i l in
    let argument : m.reg a1 ≡ d.reg a1 = loads-other saved 0 d a1 refl in
    let lands : Lands c d (run longjmp d) = record {
      registers = λ i l.
          ap (λ x. x.reg (get_or saved i 0)) e ∙ rw (no_member a0 saved i refl l) (loaded i l);
      again = ap (λ x. x.pc) e ∙ loaded 13 (omega arith);
      result = ap (λ x. x.reg a0) e ∙ ground (arith, argument, small);
      memory = ap (λ x. x.mem) e ∙ loads-mem saved 0 d;
    } in
    (setjmp-Returns c fits, lands, lands)

-- ===== src/Jump.antt =====
-- include/c-stdlib/src/string_impl.c: `setjmp`, `longjmp` and `_longjmp`, which are RISC-V assembly.
-- Their instructions run on a machine with 64-bit registers and a memory of 64-bit words. The
-- registers have their numbers; a function's arguments are in `a0` and `a1`, and its result in `a0`.
use ckb_js.Prelude.{ℕ, ◌+◌, ◌%◌, ◌^◌, List, [], ◌∷◌, ◌==◌, if◌then◌else◌, ltb, u64}
pub mod Saves
pub mod Restore
mod Tests

abbrev pub ra : ℕ
ra = 1

abbrev pub sp : ℕ
sp = 2

abbrev pub a0 : ℕ
a0 = 10

abbrev pub a1 : ℕ
a1 = 11

-- `s0` and `s1`, and then `s2` to `s11`.
abbrev pub s_reg : ℕ → ℕ
s_reg i = if ltb i 2 then 8 + i else 16 + i

pub data Instruction : Type 0 where
  sd : (r offset base : ℕ) → Instruction
  ld : (r offset base : ℕ) → Instruction
  li : (r immediate : ℕ) → Instruction
  seqz : (r source : ℕ) → Instruction
  add : (r left right : ℕ) → Instruction
  ret : Instruction

pub record Cpu : Type 0 where
  pub reg : ℕ → ℕ
  pub mem : ℕ → ℕ
  pub pc : ℕ

abbrev pub set : (k v : ℕ) → (ℕ → ℕ) → ℕ → ℕ
set k v f i = if i == k then v else f i

unfoldable pub execute : Instruction → Cpu → Cpu
execute (sd r offset base) c = record c { mem = set (u64 (c.reg base + offset)) (c.reg r) c.mem }
execute (ld r offset base) c = record c { reg = set r (c.mem (u64 (c.reg base + offset))) c.reg }
execute (li r immediate) c = record c { reg = set r immediate c.reg }
execute (seqz r source) c = record c { reg = set r (if c.reg source == 0 then 1 else 0) c.reg }
execute (add r left right) c = record c { reg = set r (u64 (c.reg left + c.reg right)) c.reg }
execute ret c = record c { pc = c.reg ra }

unfoldable pub run : List Instruction → Cpu → Cpu
unfolding execute
run [] c = c
run (i ∷ is) c = run is (execute i c)

unfoldable pub setjmp : List Instruction
setjmp =
    sd (s_reg 0) 0 a0
    ∷ sd (s_reg 1) 8 a0
    ∷ sd (s_reg 2) 16 a0
    ∷ sd (s_reg 3) 24 a0
    ∷ sd (s_reg 4) 32 a0
    ∷ sd (s_reg 5) 40 a0
    ∷ sd (s_reg 6) 48 a0
    ∷ sd (s_reg 7) 56 a0
    ∷ sd (s_reg 8) 64 a0
    ∷ sd (s_reg 9) 72 a0
    ∷ sd (s_reg 10) 80 a0
    ∷ sd (s_reg 11) 88 a0
    ∷ sd sp 96 a0
    ∷ sd ra 104 a0
    ∷ li a0 0
    ∷ ret
    ∷ []

unfoldable pub longjmp : List Instruction
longjmp =
    ld (s_reg 0) 0 a0
    ∷ ld (s_reg 1) 8 a0
    ∷ ld (s_reg 2) 16 a0
    ∷ ld (s_reg 3) 24 a0
    ∷ ld (s_reg 4) 32 a0
    ∷ ld (s_reg 5) 40 a0
    ∷ ld (s_reg 6) 48 a0
    ∷ ld (s_reg 7) 56 a0
    ∷ ld (s_reg 8) 64 a0
    ∷ ld (s_reg 9) 72 a0
    ∷ ld (s_reg 10) 80 a0
    ∷ ld (s_reg 11) 88 a0
    ∷ ld sp 96 a0
    ∷ ld ra 104 a0
    ∷ seqz a0 a1
    ∷ add a0 a0 a1
    ∷ ret
    ∷ []

-- `_longjmp` has the same instructions.
unfoldable pub _longjmp : List Instruction
_longjmp =
    ld (s_reg 0) 0 a0
    ∷ ld (s_reg 1) 8 a0
    ∷ ld (s_reg 2) 16 a0
    ∷ ld (s_reg 3) 24 a0
    ∷ ld (s_reg 4) 32 a0
    ∷ ld (s_reg 5) 40 a0
    ∷ ld (s_reg 6) 48 a0
    ∷ ld (s_reg 7) 56 a0
    ∷ ld (s_reg 8) 64 a0
    ∷ ld (s_reg 9) 72 a0
    ∷ ld (s_reg 10) 80 a0
    ∷ ld (s_reg 11) 88 a0
    ∷ ld sp 96 a0
    ∷ ld ra 104 a0
    ∷ seqz a0 a1
    ∷ add a0 a0 a1
    ∷ ret
    ∷ []

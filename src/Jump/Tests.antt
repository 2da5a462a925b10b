-- ===== src/Jump/Tests.antt =====
-- A jump back, with the buffer at 0x1000.
use ckb_js.Prelude.{arith, refl, ◌==◌, if◌then◌else◌}
use ckb_js.Jump.{Cpu, a0, a1, execute, run, setjmp, longjmp, _longjmp}
use ckb_js.Jump.Restore.{Returns, Lands, longjmp-setjmp}

-- Every register has its number, but for the buffer.
abbrev before : Cpu
before = record { reg = λ r. if r == a0 then 0x1000 else r; mem = λ a. 0; pc = 0x200 }

-- Deeper in the stack, with the value 7.
abbrev deeper : Cpu
unfolding run execute setjmp
deeper = record {
  reg = λ r. if r == a0 then 0x1000 else (if r == a1 then 7 else 99);
  mem = (run setjmp before).mem;
  pc = 0x800;
}

longjmp-setjmp_example :
    Returns before (run setjmp before)
    × Lands before deeper (run longjmp deeper)
    × Lands before deeper (run _longjmp deeper)
unfolding deeper
longjmp-setjmp_example = longjmp-setjmp before deeper (omega arith) refl (omega arith) (λ i l. refl)

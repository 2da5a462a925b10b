-- ===== src/Stdio/Gate.antt =====
-- include/c-stdlib/src/stdio_impl.c: which functions are there at all, by the two access flags.
use ckb_js.Prelude.{ℕ, ◌≡◌, refl, Bool, true, Option, none, some}
use ckb_js.Prelude.Int.{ℤ}
use ckb_js.CellFs.{Mem, CString, CellFileSystem}
use ckb_js.Stdio.{
  Outcome, host_call, not_impl, Access, Stream, fopen, freopen, fclose, fgetc, fread, feof, ferror,
  fseek, ftell,
}

-- The functions whose body is `NOT_IMPL` alone.
pub data Stub : Type 0 where
  remove : Stub
  rename : Stub
  tmpfile : Stub
  tmpnam : Stub
  tempnam : Stub
  fflush : Stub
  setbuf : Stub
  setvbuf : Stub
  fprintf : Stub
  vfprintf : Stub
  vsprintf : Stub
  fscanf : Stub
  scanf : Stub
  sscanf : Stub
  getchar : Stub
  fputc : Stub
  putc : Stub
  putchar : Stub
  fgets : Stub
  gets : Stub
  getline : Stub
  fputs : Stub
  puts : Stub
  ungetc : Stub
  fwrite : Stub
  rewind : Stub
  clearerr : Stub
  perror : Stub
  fileno : Stub
  popen : Stub
  pclose : Stub

unfoldable pub call_stub : {A : Type 0} → Stub → Outcome A
call_stub stub = not_impl

-- Under local access every function of a stream passes to the host, by its own system call,
-- whatever the file system has.
local_access_passes :
    (a : Access) (b c : Bool) (mem : Mem) (files : CellFileSystem) (path : CString) (size n : ℕ)
    (s : Option Stream)
    → a.local ≡ true
    → (fopen a b c mem files path ≡ host_call 9003)
      × (freopen {A = ℤ} a ≡ host_call 9004)
      × (fread a mem size n s ≡ host_call 9005)
      × (feof a s ≡ host_call 9006)
      × (ferror a s ≡ host_call 9007)
      × (fgetc a mem s ≡ host_call 9008)
      × (fclose a s ≡ host_call 9009)
      × (ftell {A = ℤ} a ≡ host_call 9010)
      × (fseek {A = ℤ} a ≡ host_call 9011)
unfolding fopen freopen fread feof ferror fgetc fclose ftell fseek
local_access_passes a b c mem files path size n s h = (
  rw h refl,
  rw h refl,
  rw h refl,
  passed s,
  rw h refl,
  rw h refl,
  rw h refl,
  rw h refl,
  rw h refl,
)
  where
    passed : (s : Option Stream) → feof a s ≡ host_call 9006
    passed none = rw h refl
    passed (some s) = rw h refl

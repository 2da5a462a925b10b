-- ===== src/Stdio.antt =====
-- include/c-stdlib/src/stdio_impl.c: the streams that the interpreter's C library gives, over the
-- files of the mounted archives. A call ends in one of four ways: with a result; in a system call
-- of the debugger, when local access is enabled (its number is kept, its result is the host's);
-- in `ckb_exit`, which does not return; or in undefined behaviour (a NULL pointer, a division by
-- zero). A stream owns its `FSFile`, as `fopen` allocates one for each.
use ckb_js.Prelude.{
  ℕ, zero, suc, ◌+◌, ◌-◌, ◌*◌, ◌/◌, ◌%◌, Bool, true, false, Option, none, some, List, [], ◌∷◌, ltb,
  ◌==◌, ◌&&◌, ◌||◌, if◌then◌else◌, ◌^◌, u8, u32, sub32,
}
use ckb_js.Prelude.Int.{ℤ, pos, negsuc}
use ckb_js.CellFs.{Mem, CString, CellFileSystem, FsFile, ckb_get_file}
pub mod Read
pub mod Sequence
pub mod Open
pub mod Gate
mod Tests

pub data Outcome (A : Type 0) : Type 0 where
  done : A → Outcome A
  host_call : (number : ℕ) → Outcome A
  exited : (code : ℤ) → Outcome A
  undefined : Outcome A

-- `s_local_access_enabled` and `s_fs_access_enabled`.
pub record Access : Type 0 where
  pub local : Bool
  pub fs : Bool

-- Both are 0 at the start.
abbrev pub start_access : Access
start_access = record { local = false; fs = false }

abbrev pub enable_local_access : Bool → Access → Access
enable_local_access b a = record a { local = b }

abbrev pub enable_fs_access : Bool → Access → Access
enable_fs_access b a = record a { fs = b }

-- `FILE`.
pub record Stream : Type 0 where
  pub file : FsFile
  pub offset : ℕ

-- `NOT_IMPL` prints a message and exits.
abbrev pub not_impl : {A : Type 0} → Outcome A
not_impl = exited (negsuc 0)

-- `ckb_syscall(n, …)` under local access, `NOT_IMPL` without file system access.
abbrev pub gate : {A : Type 0} → Access → (number : ℕ) → Outcome A → Outcome A
gate a number body = if a.local then host_call number else if a.fs then body else not_impl

-- The functions that only the debugger implements.
unfoldable pub freopen : {A : Type 0} → Access → Outcome A
freopen a = if a.local then host_call 9004 else not_impl

unfoldable pub fseek : {A : Type 0} → Access → Outcome A
fseek a = if a.local then host_call 9011 else not_impl

unfoldable pub ftell : {A : Type 0} → Access → Outcome A
ftell a = if a.local then host_call 9010 else not_impl

-- `allocfile`, which writes through the pointer before anyone tests it.
unfoldable pub allocfile : (allocated : Bool) → Outcome (Unit {0})
allocfile allocated = if allocated then done tt else undefined

-- `fopen`, by the outcomes of the two allocations; `none` is NULL.
unfoldable pub fopen :
    Access
    → (allocated allocated_file : Bool) → Mem
    → CellFileSystem
    → CString
    → Outcome (Option Stream)
unfolding allocfile
fopen a allocated allocated_file mem fs path = gate a 9003 (elim (allocfile allocated) [
  | done _ ↦ elim (ckb_get_file allocated_file mem fs path) [
    | none ↦ done none
    | some f ↦ done (some (record { file = f; offset = 0 }))
  ]
  | host_call n ↦ host_call n
  | exited c ↦ exited c
  | undefined ↦ undefined
])

-- `freefile`: the file with one user less; the stream's own memory is given back.
unfoldable pub freefile : Option Stream → Outcome FsFile
freefile none = undefined
freefile (some s) = done (record f { rc = u8 (f.rc + 0xff) })
  where
    f : FsFile
    f = s.file

unfoldable pub fclose : Access → Option Stream → Outcome FsFile
unfolding freefile
fclose a stream = gate a 9009 (freefile stream)

-- `fgetc`, and `getc` with it: the result, and the stream afterwards.
fgetc_stream : Mem → Option Stream → ℤ × Option Stream
fgetc_stream mem none = (negsuc 0, none)
fgetc_stream mem (some s) =
    if s.file.rc == 0 || s.offset == s.file.size
    then (negsuc 0, some s)
    else (pos (mem (s.file.content + s.offset)), some (record s { offset = u32 (s.offset + 1) }))

unfoldable pub fgetc : Access → Mem → Option Stream → Outcome (ℤ × Option Stream)
unfolding fgetc_stream
fgetc a mem stream = gate a 9008 (done (fgetc_stream mem stream))

-- `isvalidfile`: 1 stands for a file that is not valid.
unfoldable pub isvalidfile : Option Stream → ℕ
isvalidfile none = 1
isvalidfile (some s) = if s.file.rc == 0 then 1 else 0

-- The bytes that `memcpy` copies.
abbrev pub load_bytes : Mem → ℕ → ℕ → List ℕ
load_bytes mem p zero = []
load_bytes mem p (suc n) = mem p ∷ load_bytes mem (p + 1) n

-- What `fread` returns and what it has written to its buffer, with the stream afterwards.
pub record Fread : Type 0 where
  pub items : ℕ
  pub bytes : List ℕ
  pub stream : Stream

-- `bytes_to_read`.
abbrev pub read_length : (size nitems : ℕ) → Stream → ℕ
read_length size nitems s =
    let wanted = u32 (u32 size * u32 nitems) in
    let left = sub32 s.file.size s.offset in if ltb left wanted then left else wanted

fread_stream : Mem → (size nitems : ℕ) → Option Stream → Outcome Fread
fread_stream mem size nitems none = exited (pos 1)
fread_stream mem size nitems (some s) =
    if isvalidfile (some s) == 0
    then if s.offset == s.file.size
      then done (record { items = 0; bytes = []; stream = s })
      else if u32 size == 0
      then undefined
      else done read
    else exited (pos 1)
  where
    n : ℕ
    n = read_length size nitems s

    read : Fread
    read = record {
      items = u32 (n + u32 size + (2 ^ 32 - 1)) / u32 size;
      bytes = load_bytes mem (s.file.content + s.offset) n;
      stream = record s { offset = u32 (s.offset + n) };
    }

unfoldable pub fread : Access → Mem → (size nitems : ℕ) → Option Stream → Outcome Fread
unfolding fread_stream isvalidfile
fread a mem size nitems stream = gate a 9005 (fread_stream mem size nitems stream)

unfoldable pub feof : Access → Option Stream → Outcome ℕ
feof a none = gate a 9006 undefined
feof a (some s) = gate a 9006 (done (if s.offset == s.file.size then 1 else 0))

unfoldable pub ferror : Access → Option Stream → Outcome ℕ
unfolding isvalidfile
ferror a stream = gate a 9007 (done (isvalidfile stream))

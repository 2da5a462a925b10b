-- ===== src/Vm/Run.antt =====
-- quickjs/qjs.c: evaluating a buffer, and the sources of a program.
use ckb_js.Prelude.{
  ℕ, ◌*◌, Bool, true, false, Option, none, some, List, [], ◌∷◌, ltb, ◌==◌, if◌then◌else◌, length,
  take, get_or,
}
use ckb_js.Prelude.Int.{ℤ, pos, negsuc}
use ckb_js.CellFs.{
  Mem, CString, CellFileSystem, FsFile, Allocated, ckb_load_fs, ckb_get_file, or_else,
}
use ckb_js.Stdio.{load_bytes}
use ckb_js.Engine.{Engine, bc_version}
use ckb_js.Modules.{js_module_set_import_meta}
use ckb_js.Loader.{Chain, ok, failed, load_cell_code_info, load_cell_code}

-- "main.js", "main.bc", "<run_from_file>" and "<cmdline>".
abbrev pub main_file_name : CString
main_file_name = b'm' ∷ b'a' ∷ b'i' ∷ b'n' ∷ b'.' ∷ b'j' ∷ b's' ∷ []

abbrev pub main_file_name_bc : CString
main_file_name_bc = b'm' ∷ b'a' ∷ b'i' ∷ b'n' ∷ b'.' ∷ b'b' ∷ b'c' ∷ []

abbrev pub run_from_file : CString
run_from_file =
    b'<' ∷ b'r' ∷ b'u' ∷ b'n' ∷ b'_' ∷ b'f' ∷ b'r' ∷ b'o' ∷ b'm' ∷ b'_' ∷ b'f' ∷ b'i' ∷ b'l' ∷ b'e'
    ∷ b'>' ∷ []

abbrev pub cmdline : CString
cmdline = b'<' ∷ b'c' ∷ b'm' ∷ b'd' ∷ b'l' ∷ b'i' ∷ b'n' ∷ b'e' ∷ b'>' ∷ []

-- The state of the process: the engine, the mounted file systems, whether local access is on, and
-- the chunks of bytes printed in hexadecimal.
pub record World (S : Type 0) : Type 0 where
  pub engine : S
  pub fs : CellFileSystem
  pub local_access : Bool
  pub printed : List (List ℕ)

-- What `read_local_file` returns: its count, which may be negative, and the bytes.
pub record LocalFile : Type 0 where
  pub count : ℤ
  pub bytes : List ℕ

-- What surrounds the process: the chain, the debugger's file, the outcomes of the allocations in
-- the file system (the two lookups last), and where an array with given bytes comes to lie.
pub record Host : Type 0 where
  pub chain : Chain
  pub local_file : LocalFile
  pub allocated : Allocated
  pub first : Bool
  pub second : Bool
  pub place : List ℕ → Mem × ℕ

-- `sizeof(buf)` in the functions that read a local file.
abbrev pub local_size : ℕ
local_size = 1024 * 512

module _ {S V : Type 0} (js : Engine S V) (path_max : ℕ) where
  -- The end of `eval_buf`: -1 and a message for an exception.
  abbrev pub finish : Option V × S → ℤ × S
  finish (none, s) = (negsuc 0, js.dump_error s)
  finish (some _, s) = (pos 0, s)

  -- Bytecode that has been read: a module is resolved, and told that it is the main one.
  unfoldable pub eval_bytecode : Option V × S → ℤ × S
  eval_bytecode (none, s) = (negsuc 0, js.dump_error s)
  eval_bytecode (some v, s) =
      let (resolved, s') = js.resolve_module v s in
      if js.is_module v
      then if resolved
        then finish (js.eval_function v (js_module_set_import_meta js path_max v false true s').1)
        else (negsuc 0, js.dump_error s')
      else finish (js.eval_function v s)

  -- A module that has been compiled is then run.
  abbrev pub eval_compiled : Option V × S → ℤ × S
  eval_compiled (none, s) = finish (none, s)
  eval_compiled (some v, s) = finish (js.eval_function v s)

  -- `eval_buf`. Every buffer has a NUL behind it or is not empty.
  unfoldable pub eval_buf : List ℕ → (filename : CString) → (as_module : Bool) → S → ℤ × S
  unfolding eval_bytecode
  eval_buf bytes filename as_module s =
      if get_or bytes 0 0 == bc_version
      then eval_bytecode (js.read_object bytes s)
      else if as_module
      then eval_compiled (js.eval bytes filename true true s)
      else finish (js.eval bytes filename false false s)

  abbrev pub eval_in : List ℕ → (filename : CString) → (as_module : Bool) → World S → ℤ × World S
  eval_in bytes filename as_module w =
      let (r, s) = eval_buf bytes filename as_module w.engine in (r, record w { engine = s })

  -- The lookups of "main.js" and, if that fails, "main.bc".
  abbrev pub main_file : Host → Mem → CellFileSystem → Option FsFile
  main_file h mem fs =
      or_else (ckb_get_file h.first mem fs main_file_name)
        (ckb_get_file h.second mem fs main_file_name_bc)

  -- `run_from_file_system_buf` behind the lookups.
  unfoldable pub run_main_file : Mem → Option FsFile → World S → ℤ × World S
  run_main_file mem none w = (negsuc 0, w)
  run_main_file mem (some f) w =
      if ltb 0 f.size
      then eval_in (load_bytes mem f.content f.size) main_file_name true w
      else (negsuc 0, w)

  abbrev pub mount_and_run : Host → Mem → ℤ × Option CellFileSystem → World S → ℤ × World S
  unfolding run_main_file
  mount_and_run h mem (err, none) w = (err, w)
  mount_and_run h mem (negsuc n, some fs) w = (negsuc n, w)
  mount_and_run h mem (pos n, some fs) w =
      if n == 0 then run_main_file mem (main_file h mem fs) (record w { fs = fs }) else (pos n, w)

  unfoldable pub run_from_file_system_buf : Host → Mem → (buf buf_size : ℕ) → World S → ℤ × World S
  unfolding mount_and_run
  run_from_file_system_buf h mem buf buf_size w =
      mount_and_run h mem (ckb_load_fs h.allocated mem w.fs buf buf_size) w

  -- A program's bytes, as a file system or as a script.
  abbrev pub run_bytes : Host → (enable_fs : Bool) → List ℕ → World S → ℤ × World S
  unfolding run_from_file_system_buf eval_buf
  run_bytes h enable_fs bytes w =
      let (mem, buf) = h.place bytes in
      if enable_fs
      then run_from_file_system_buf h mem buf (length bytes) w
      else eval_in bytes run_from_file false w

  abbrev pub local_access_on : World S → World S
  local_access_on w = record w { local_access = true }

  unfoldable pub run_from_local_file : Host → (enable_fs : Bool) → World S → ℤ × World S
  unfolding run_bytes
  run_from_local_file h enable_fs w = elim h.local_file.count [
    | negsuc n ↦ (negsuc 0, local_access_on w)
    | pos n ↦
        if n == local_size
        then (negsuc 0, local_access_on w)
        else run_bytes h enable_fs (take n h.local_file.bytes) (local_access_on w)
  ]

  unfoldable pub run_from_cell_data : Host → (enable_fs : Bool) → World S → ℤ × World S
  unfolding run_bytes
  run_from_cell_data h enable_fs w = elim (load_cell_code_info h.chain) [
    | failed err ↦ (err, w)
    | ok info ↦ elim (load_cell_code h.chain info) [
      | failed err ↦ (err, w)
      | ok bytes ↦ run_bytes h enable_fs bytes w
    ]
  ]

-- ===== src/Vm.antt =====
-- quickjs/qjs.c: the virtual machine's command line and the ways in which it runs a program.
use ckb_js.Prelude.{
  ℕ, zero, suc, ◌+◌, ◌-◌, ◌*◌, Bool, true, false, Option, none, some, List, [], ◌∷◌, ◌++◌, ltb, leb,
  ◌==◌, ◌&&◌, ◌||◌, if◌then◌else◌, length, take, drop, get_or,
}
use ckb_js.Prelude.Int.{ℤ, pos, negsuc}
use ckb_js.CellFs.{Mem, CString, CellFileSystem, FsFile, Allocated, ckb_load_fs, ckb_get_file}
use ckb_js.CellFs.Archive.{bytes_eq}
use ckb_js.Stdio.{load_bytes}
use ckb_js.Engine.{Engine, bc_version}
use ckb_js.Modules.{js_module_set_import_meta}
pub mod CommandLine
pub mod Run
pub mod Main
pub mod Output
pub mod Mounted
pub mod Errors
mod Tests

pub data RunJsType : Type 0 where
  run_js_error : RunJsType
  run_js_with_code : RunJsType
  run_js_with_file : RunJsType
  run_js_with_file_system : RunJsType
  run_js_with_dbg_file : RunJsType
  run_js_with_dbg_file_system : RunJsType
  compile_with_file : RunJsType

-- "-r", "-f", "-e" and "-c".
abbrev pub flag_r : CString
flag_r = b'-' ∷ b'r' ∷ []

abbrev pub flag_f : CString
flag_f = b'-' ∷ b'f' ∷ []

abbrev pub flag_e : CString
flag_e = b'-' ∷ b'e' ∷ []

abbrev pub flag_c : CString
flag_c = b'-' ∷ b'c' ∷ []

pub record Flags : Type 0 where
  pub has_r : Bool
  pub has_f : Bool
  pub has_e : Bool
  pub has_c : Bool

-- One round of the loop over `argv`.
abbrev pub scan_arg : Flags → CString → Flags
scan_arg fl arg =
    if bytes_eq arg flag_r
    then record fl { has_r = true }
    else if bytes_eq arg flag_f
    then record fl { has_f = true }
    else if bytes_eq arg flag_e
    then record fl { has_e = true }
    else if bytes_eq arg flag_c
    then record fl { has_c = true }
    else fl

unfoldable pub scan_args : Flags → List CString → Flags
scan_args fl [] = fl
scan_args fl (arg ∷ argv) = scan_args (scan_arg fl arg) argv

-- The choice behind the loop, by the flags and `argc`.
unfoldable pub choose : Flags → (argc : ℕ) → RunJsType
choose fl argc =
    if fl.has_c
    then compile_with_file
    else if fl.has_e
    then if ltb argc 2
      then run_js_error
      else if fl.has_r || fl.has_f
      then run_js_error
      else run_js_with_code
    else if fl.has_r
    then if fl.has_f then run_js_with_dbg_file_system else run_js_with_dbg_file
    else if fl.has_f
    then run_js_with_file_system
    else run_js_with_file

-- `parse_args`. An argument inside `argc` is never NULL.
unfoldable pub parse_args : List CString → RunJsType
unfolding scan_args choose
parse_args argv =
    choose (scan_args (record { has_r = false; has_f = false; has_e = false; has_c = false }) argv)
      (length argv)

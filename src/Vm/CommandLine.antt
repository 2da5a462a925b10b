-- ===== src/Vm/CommandLine.antt =====
-- `parse_args` against the set of the flags on the command line.
use ckb_js.Prelude.{
  ℕ, ◌<◌, ◌≤◌, ◌≡◌, ◌⊎◌, ◌↔◌, Bool, true, false, List, [], ◌∷◌, ◌&&◌, ◌||◌, length, arith,
}
use ckb_js.CellFs.{CString}
use ckb_js.CellFs.Archive.{bytes_eq}
use ckb_js.Vm.{
  run_js_error, run_js_with_code, run_js_with_file, run_js_with_file_system, run_js_with_dbg_file,
  run_js_with_dbg_file_system, compile_with_file, Flags, flag_r, flag_f, flag_e, flag_c, scan_arg,
  scan_args, choose, parse_args,
}

-- Whether a flag stands anywhere on the command line.
abbrev pub given : CString → List CString → Bool
given flag [] = false
given flag (arg ∷ argv) = bytes_eq arg flag || given flag argv

-- A text is at most one flag.
abbrev IsOneFlag : CString → Type 0
IsOneFlag arg =
    (bytes_eq arg flag_r && bytes_eq arg flag_f ≡ false)
    × (bytes_eq arg flag_r && bytes_eq arg flag_e ≡ false)
    × (bytes_eq arg flag_r && bytes_eq arg flag_c ≡ false)
    × (bytes_eq arg flag_f && bytes_eq arg flag_e ≡ false)
    × (bytes_eq arg flag_f && bytes_eq arg flag_c ≡ false)
    × (bytes_eq arg flag_e && bytes_eq arg flag_c ≡ false)

one_flag : (arg : CString) → IsOneFlag arg
one_flag [] = ground arith
one_flag (a ∷ []) = ground arith
one_flag (a ∷ b ∷ []) = ground arith
one_flag (a ∷ b ∷ c ∷ r) = ground arith

scan_args-given :
    (fl : Flags) (argv : List CString)
    → scan_args fl argv ≡ record {
      has_r = fl.has_r || given flag_r argv;
      has_f = fl.has_f || given flag_f argv;
      has_e = fl.has_e || given flag_e argv;
      has_c = fl.has_c || given flag_c argv;
    }
unfolding scan_args
scan_args-given fl [] = ground arith
scan_args-given fl (arg ∷ argv) =
    ground (arith, scan_args-given (scan_arg fl arg) argv, one_flag arg)

choose_by_flags :
    (r f e c : Bool) (n : ℕ)
    → let t = choose (record { has_r = r; has_f = f; has_e = e; has_c = c }) n in
      ((t ≡ compile_with_file) ↔ (c ≡ true))
      × ((t ≡ run_js_with_code) ↔ ((c ≡ false) × (e ≡ true) × (r ≡ false) × (f ≡ false) × (2 ≤ n)))
      × ((t ≡ run_js_error) ↔ ((c ≡ false) × (e ≡ true) × ((r ≡ true) ⊎ ((f ≡ true) ⊎ (n < 2)))))
      × ((t ≡ run_js_with_dbg_file_system) ↔ ((c ≡ false) × (e ≡ false) × (r ≡ true) × (f ≡ true)))
      × ((t ≡ run_js_with_dbg_file) ↔ ((c ≡ false) × (e ≡ false) × (r ≡ true) × (f ≡ false)))
      × ((t ≡ run_js_with_file_system) ↔ ((c ≡ false) × (e ≡ false) × (r ≡ false) × (f ≡ true)))
      × ((t ≡ run_js_with_file) ↔ ((c ≡ false) × (e ≡ false) × (r ≡ false) × (f ≡ false)))
unfolding choose
choose_by_flags r f e c n = ground arith

-- Which flags the command line has decides what runs, wherever they stand and however often:
-- with "-c" it compiles; without it, "-e" evaluates its code, unless there is no second argument
-- or "-r" or "-f" is there too, which is an error; without both, "-r" and "-f" choose between a
-- local file and a cell, and between a file and a file system.
pub parse_args_by_flags :
    (argv : List CString)
    → let r = given flag_r argv in
      let f = given flag_f argv in
      let e = given flag_e argv in
      let c = given flag_c argv in
      ((parse_args argv ≡ compile_with_file) ↔ (c ≡ true))
      × ((parse_args argv ≡ run_js_with_code)
          ↔ ((c ≡ false) × (e ≡ true) × (r ≡ false) × (f ≡ false) × (2 ≤ length argv)))
      × ((parse_args argv ≡ run_js_error)
          ↔ ((c ≡ false) × (e ≡ true) × ((r ≡ true) ⊎ ((f ≡ true) ⊎ (length argv < 2)))))
      × ((parse_args argv ≡ run_js_with_dbg_file_system)
          ↔ ((c ≡ false) × (e ≡ false) × (r ≡ true) × (f ≡ true)))
      × ((parse_args argv ≡ run_js_with_dbg_file)
          ↔ ((c ≡ false) × (e ≡ false) × (r ≡ true) × (f ≡ false)))
      × ((parse_args argv ≡ run_js_with_file_system)
          ↔ ((c ≡ false) × (e ≡ false) × (r ≡ false) × (f ≡ true)))
      × ((parse_args argv ≡ run_js_with_file)
          ↔ ((c ≡ false) × (e ≡ false) × (r ≡ false) × (f ≡ false)))
unfolding parse_args
parse_args_by_flags argv =
    rw
      (scan_args-given (record { has_r = false; has_f = false; has_e = false; has_c = false }) argv)
      (choose_by_flags (given flag_r argv) (given flag_f argv) (given flag_e argv)
        (given flag_c argv) (length argv))

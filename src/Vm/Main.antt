-- ===== src/Vm/Main.antt =====
-- quickjs/qjs.c: the compiler and `main`.
use ckb_js.Prelude.{
  ℕ, zero, suc, ◌+◌, ◌-◌, Bool, true, false, Option, none, some, List, [], ◌∷◌, ltb, ◌==◌,
  if◌then◌else◌, length, take, drop, get_or,
}
use ckb_js.Prelude.Int.{ℤ, pos, negsuc}
use ckb_js.CellFs.{CString}
use ckb_js.Engine.{Engine}
use ckb_js.Vm.{
  RunJsType, run_js_error, run_js_with_code, run_js_with_file, run_js_with_file_system,
  run_js_with_dbg_file, run_js_with_dbg_file_system, compile_with_file, parse_args,
}
use ckb_js.Vm.Run.{
  World, Host, local_size, cmdline, eval_in, local_access_on, run_from_local_file,
  run_from_cell_data,
}

-- The loop that prints the bytecode, from index `i` on, by 32 bytes.
unfoldable pub hex_chunks : (fuel i : ℕ) → List ℕ → List (List ℕ)
hex_chunks zero i out = []
hex_chunks (suc fuel) i out =
    let rest = hex_chunks fuel (i + 32) out in
    if ltb i (length out)
    then take (if ltb (length out) (i + 32) then length out - i else 32) (drop i out) ∷ rest
    else []

module _ {S V : Type 0} (js : Engine S V) (path_max : ℕ) where
  -- The end of `compile_from_file`, from the result of `JS_WriteObject` on.
  abbrev pub print_object : Option (List ℕ) × S → World S → ℤ × World S
  unfolding hex_chunks
  print_object (none, s) w = (negsuc 0, record w { engine = s })
  print_object (some out, s) w =
      (pos 0, record w { engine = s; printed = hex_chunks (length out + 1) 0 out })

  abbrev pub write_compiled : Option V × S → World S → ℤ × World S
  unfolding hex_chunks
  write_compiled (none, s) w = (negsuc 0, record w { engine = js.dump_error s })
  write_compiled (some v, s) w = print_object (js.write_object v s) w

  unfoldable pub compile_from_file : Host → World S → ℤ × World S
  unfolding hex_chunks
  compile_from_file h w =
      let w' = local_access_on js path_max w in
      elim h.local_file.count [
        | negsuc n ↦ (negsuc 0, w')
        | pos n ↦
            if n == local_size
            then (negsuc 0, w')
            else write_compiled (js.eval (take n h.local_file.bytes) [] true true w'.engine) w'
      ]

  -- The switch of `main`.
  unfoldable pub dispatch : RunJsType → List CString → Host → World S → ℤ × World S
  unfolding compile_from_file run_from_local_file run_from_cell_data
  dispatch run_js_with_code argv h w = eval_in js path_max (get_or argv 1 []) cmdline false w
  dispatch run_js_with_file argv h w = run_from_cell_data js path_max h false w
  dispatch run_js_with_file_system argv h w = run_from_cell_data js path_max h true w
  dispatch run_js_with_dbg_file argv h w = run_from_local_file js path_max h false w
  dispatch run_js_with_dbg_file_system argv h w = run_from_local_file js path_max h true w
  dispatch compile_with_file argv h w =
      compile_from_file h (record w { engine = js.dummy_loader w.engine })
  dispatch run_js_error argv h w = (negsuc 0, w)

  -- `main` behind the runtime.
  abbrev pub in_context : RunJsType → List CString → Host → Bool × S → World S → ℤ × World S
  unfolding dispatch
  in_context type argv h (false, s) w = (negsuc 0, record w { engine = s })
  in_context type argv h (true, s) w =
      dispatch type argv h (record w { engine = js.install (drop 1 argv) s })

  -- `main` behind the parsed command line.
  abbrev pub start : RunJsType → List CString → Host → World S → ℤ × World S
  unfolding dispatch
  start run_js_error argv h w = (negsuc 0, w)
  start type argv h w =
      let (runtime, s) = js.new_runtime w.engine in
      if runtime
      then in_context type argv h (js.new_context s) w
      else (negsuc 1, record w { engine = s })

  unfoldable pub main : List CString → Host → World S → ℤ × World S
  unfolding parse_args dispatch
  main argv h w = start (parse_args argv) argv h w

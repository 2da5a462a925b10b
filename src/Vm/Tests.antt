-- ===== src/Vm/Tests.antt =====
-- The virtual machine with an engine that logs what it evaluates.
use ckb_js.Prelude.{
  ℕ, ◌<◌, ◌≤◌, ◌≡◌, ◌↔◌, ◌⊎◌, refl, true, false, some, List, [], ◌∷◌, arith, length, take, All, ◌+◌,
  ◌-◌, ◌==◌,
}
use ckb_js.Prelude.Int.{pos}
use ckb_js.CellFs.{Mem, node_at}
use ckb_js.CellFs.Archive.{File, pack, lookup}
use ckb_js.CellFs.Mount.{IsPacked, all_allocated}
use ckb_js.Engine.{Engine}
use ckb_js.Loader.{load_cell_code_info}
use ckb_js.Fixtures.{codes, bytes_at, chain, item, served-IsPartialLoad}
use ckb_js.Vm.{
  run_js_error, run_js_with_code, run_js_with_file, run_js_with_file_system, run_js_with_dbg_file,
  run_js_with_dbg_file_system, compile_with_file, parse_args,
}
use ckb_js.CellFs.{CString}
use ckb_js.Prelude.Int.{ℤ}
use ckb_js.Vm.Errors.{
  Exceptions, Format, rendered, IsVsnprintf, dumped, js_std_dump_error, js_std_dump_error-dumped,
}
use ckb_js.Vm.CommandLine.{parse_args_by_flags}
use ckb_js.Vm.Run.{World, Host, run_from_file_system_buf, eval_buf}
use ckb_js.Vm.Main.{main, compile_from_file}
use ckb_js.Vm.Output.{concat, IsLine, compile_from_file-prints}
use ckb_js.Vm.Mounted.{run_from_file_system_buf-main, main_runs_archive}

-- A value is its source; the state is the list of what was run, the last first.

abbrev js : Engine (List (List ℕ)) (List ℕ)
js = record {
  read_object = λ bytes s. (some bytes, s);
  is_module = λ v. true;
  resolve_module = λ v s. (true, s);
  eval_function = λ v s. (some v, v ∷ s);
  eval = λ source filename as_module compile_only s. (some source, s);
  module_name = λ v s. (some [], s);
  set_meta = λ v url is_main s. (true, s);
  write_object = λ v s. (some (2 ∷ v), s);
  dump_error = λ s. s;
  throw_not_found = λ name s. s;
  new_runtime = λ s. (true, s);
  new_context = λ s. (true, s);
  install = λ script_args s. s;
  dummy_loader = λ s. s;
}

abbrev archive : List File
archive =
    record { name = codes "lib.js"; bytes = codes "2" }
    ∷ record { name = codes "main.js"; bytes = codes "1+1" }
    ∷ []

abbrev mem : Mem
mem = bytes_at 64 (pack archive)

archive-IsPacked : IsPacked mem 64 archive
archive-IsPacked = record {
  not_null = refl;
  names = ground arith;
  few = omega arith;
  small = omega arith;
  packed = omega arith;
}

abbrev host : Host
host = record {
  chain = chain (pack archive);
  local_file = record { count = pos 3; bytes = codes "1+1" };
  allocated = all_allocated;
  first = true;
  second = true;
  place = λ bytes. (bytes_at 64 bytes, 64);
}

abbrev fresh : World (List (List ℕ))
fresh = record { engine = []; fs = []; local_access = false; printed = [] }

abbrev mounted : World (List (List ℕ))
mounted = record {
  engine = codes "1+1" ∷ [];
  fs = node_at mem 64 ∷ [];
  local_access = false;
  printed = [];
}

parse_args_by_flags_example :
    let argv = codes "vm" ∷ codes "-f" ∷ [] in
    let r = false in
    let f = true in
    let e = false in
    let c = false in
    ((parse_args argv ≡ compile_with_file) ↔ (c ≡ true))
    × ((parse_args argv ≡ run_js_with_code)
        ↔ ((c ≡ false) × (e ≡ true) × (r ≡ false) × (f ≡ false) × (2 ≤ 2)))
    × ((parse_args argv ≡ run_js_error)
        ↔ ((c ≡ false) × (e ≡ true) × ((r ≡ true) ⊎ ((f ≡ true) ⊎ (2 < 2)))))
    × ((parse_args argv ≡ run_js_with_dbg_file_system)
        ↔ ((c ≡ false) × (e ≡ false) × (r ≡ true) × (f ≡ true)))
    × ((parse_args argv ≡ run_js_with_dbg_file)
        ↔ ((c ≡ false) × (e ≡ false) × (r ≡ true) × (f ≡ false)))
    × ((parse_args argv ≡ run_js_with_file_system)
        ↔ ((c ≡ false) × (e ≡ false) × (r ≡ false) × (f ≡ true)))
    × ((parse_args argv ≡ run_js_with_file)
        ↔ ((c ≡ false) × (e ≡ false) × (r ≡ false) × (f ≡ false)))
parse_args_by_flags_example = parse_args_by_flags (codes "vm" ∷ codes "-f" ∷ [])

run_from_file_system_buf-main_example :
    run_from_file_system_buf js 1000 host mem 64 (length (pack archive)) fresh ≡ (pos 0, mounted)
unfolding lookup eval_buf
run_from_file_system_buf-main_example =
    run_from_file_system_buf-main js 1000 host mem 64 (length (pack archive)) archive [] fresh
      (refl, refl, refl) archive-IsPacked tt

main_runs_archive_example :
    main js 1000 (codes "vm" ∷ codes "-f" ∷ []) host fresh ≡ (pos 0, mounted)
unfolding lookup parse_args load_cell_code_info eval_buf
main_runs_archive_example =
    main_runs_archive js 1000 host (codes "vm" ∷ codes "-f" ∷ []) fresh [] []
      {item = item (pack archive)} (record { buf_size = length (pack archive); index = 4 }) archive
      refl refl refl refl refl (served-IsPartialLoad (pack archive)) refl (refl, refl, refl)
      archive-IsPacked

compile_from_file-prints_example :
    (w' : World (List (List ℕ))) × (compile_from_file js 1000 host fresh ≡ (pos 0, w'))
    × (concat w'.printed ≡ 2 ∷ codes "1+1")
    × All IsLine w'.printed
    × (w'.local_access ≡ true)
    × (w'.engine ≡ [])
    × (w'.fs ≡ [])
compile_from_file-prints_example =
    compile_from_file-prints js 1000 host fresh 3 (codes "1+1") [] [] (2 ∷ codes "1+1") refl
      (omega arith) refl refl

-- An engine whose exception is 7 and whose stack is 9.
abbrev thrower : Exceptions ℕ ℕ
thrower = record {
  get_exception = λ s. (7, s);
  is_error = λ v s. v == 7;
  to_cstring = λ v s. (some (v ∷ []), s + 1);
  get_property_str = λ v name s. (9, s);
  is_undefined = λ v. v == 0;
}

abbrev prints : (size : ℕ) → Format → CString × ℤ
prints size f = (take (size - 1) (rendered f), pos (length (rendered f)))

prints-IsVsnprintf : IsVsnprintf prints
prints-IsVsnprintf = record { text = λ size f. refl; count = λ size f. refl }

js_std_dump_error-dumped_example :
    ((js_std_dump_error prints thrower 0).0 ≡ dumped prints prints-IsVsnprintf thrower 0)
    × All (λ m. length m ≤ 2047) (js_std_dump_error prints thrower 0).0
js_std_dump_error-dumped_example = js_std_dump_error-dumped prints prints-IsVsnprintf thrower 0

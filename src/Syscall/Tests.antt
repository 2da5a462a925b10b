-- ===== src/Syscall/Tests.antt =====
-- The bindings over a machine with one item, and an engine whose values are numbers.
use text.Mathlib.Text.{◌==◌ as str_eq}
use ckb_js.Prelude.{
  ℕ, zero, suc, ◌-◌, ◌≡◌, refl, Bool, true, Option, none, some, List, [], ◌∷◌, arith, ltb, ◌==◌,
  if◌then◌else◌, length, take, drop, inl, inr,
}
use mathlib.Core.Path.{ap}
use ckb_js.Prelude.Int.{pos, negsuc, int8, bits32}
use ckb_js.Syscall.{
  returned, exception, exited, out_of_bounds, number, buffer, no_value, LoadData, Reply, LoadFunc,
  Memory, syscall_load, check, buffer_front, load_bytes, parse_args, int64_arg, optional_arg,
}
use ckb_js.Syscall.Partial.{IsPartialLoad, promised, syscall_load-promised}
use ckb_js.Syscall.Bindings.{
  PlainLoad, IndexedLoad, FieldLoad, syscall_load_transaction, syscall_load_script,
  syscall_load_cell, syscall_load_input, syscall_load_header, syscall_load_witness,
  syscall_load_cell_data, syscall_load_cell_by_field, syscall_load_header_by_field,
  syscall_load_input_by_field,
}
use ckb_js.Syscall.Arguments.{
  request, indexed_loads_promised, field_loads_promised, short_call_out_of_bounds,
}
use ckb_js.Syscall.Process.{
  Conversions, SpawnCall, SpawnReply, syscall_exit, syscall_exec_cell, syscall_spawn_cell,
  syscall_set_content, code_hash_arg,
}
use ckb_js.Syscall.Registry.{register, functions, find_function, exec_cell}
use ckb_js.Syscall.Programs.{
  ExecArgs, SpawnArgs, exec_cell_passes, exec_cell_overflows, spawn_cell_passes,
}

abbrev bytes : List ℕ
bytes = 0 ∷ 1 ∷ 2 ∷ 3 ∷ 4 ∷ 5 ∷ 6 ∷ 7 ∷ []

-- A machine that has this item wherever it is asked, and serves it as documented.
abbrev served : Bool → ℕ → ℕ → Reply
served has_buffer len offset = record {
  err = pos 0;
  len = length bytes - offset;
  bytes = if has_buffer then take len (drop offset bytes) else [];
}

abbrev any_item : (index source field : ℕ) → Option (List ℕ)
any_item index source field = some bytes

abbrev func : LoadFunc
func r = served r.has_buffer r.len r.args.offset

some_eq : (b : List ℕ) → some bytes ≡ some b → bytes ≡ b
some_eq b e = cc

func-IsPartialLoad : IsPartialLoad func any_item
func-IsPartialLoad = record {
  absent = λ r e. cc;
  no_error = λ r b e. refl;
  size = λ r b e. ap (λ (l : List ℕ). length l - r.args.offset) (some_eq b e);
  front = λ r b e h. rw h (ap (λ (l : List ℕ). take r.len (drop r.args.offset l)) (some_eq b e));
}

abbrev m : Memory
m = record { grants = λ n. ltb n 1000; old = λ i. 0xff }

-- The engine: a value is its own number, and 0 is `undefined`.
abbrev to_int64 : ℕ → Option ℕ
to_int64 v = if v == 999 then none else some v

abbrev ckb : IndexedLoad
ckb has_buffer len offset index source = served has_buffer len offset

abbrev ckb_field : FieldLoad
ckb_field has_buffer len offset index source field = served has_buffer len offset

abbrev ckb_plain : PlainLoad
ckb_plain = served

-- The calls of tests/ckb_js_tests/test_data/syscall.js.
partial_loading :
    (syscall_load_witness 0 to_int64 m ckb (0 ∷ 2 ∷ []) ≡ returned (buffer bytes))
    × (syscall_load_witness 0 to_int64 m ckb (0 ∷ 2 ∷ 100 ∷ []) ≡ returned (buffer bytes))
    × (syscall_load_witness 0 to_int64 m ckb (0 ∷ 2 ∷ 0 ∷ []) ≡ returned (number 8))
    × (syscall_load_witness 0 to_int64 m ckb (0 ∷ 2 ∷ 0 ∷ 1 ∷ []) ≡ returned (number 7))
    × (syscall_load_witness 0 to_int64 m ckb (0 ∷ 2 ∷ 7 ∷ []) ≡ returned (buffer (take 7 bytes)))
    × (syscall_load_witness 0 to_int64 m ckb (0 ∷ 2 ∷ 7 ∷ 1 ∷ [])
        ≡ returned (buffer (drop 1 bytes)))
    × (syscall_load_witness 0 to_int64 m ckb (999 ∷ 2 ∷ []) ≡ exception)
    × (syscall_load_witness 0 to_int64 m ckb (0 ∷ 2 ∷ 5000 ∷ []) ≡ exception)
unfolding syscall_load_witness syscall_load parse_args optional_arg int64_arg load_bytes
    buffer_front
partial_loading = (refl, refl, refl, refl, refl, refl, refl, refl)

syscall_load-promised_example :
    let d : LoadData = record { length = 3; index = 0; source = 1; offset = 2; field = no_value } in
    syscall_load m func d ≡ promised (some bytes) d
syscall_load-promised_example =
    syscall_load-promised m func-IsPartialLoad
      (record { length = 3; index = 0; source = 1; offset = 2; field = no_value }) (omega arith)
      refl

indexed_loads_promised_example :
    let args : List ℕ = 0 ∷ 2 ∷ 7 ∷ 1 ∷ [] in
    let result = promised (some bytes) (request 0 to_int64 0 2 no_value (7 ∷ 1 ∷ [])) in
    (syscall_load_cell 0 to_int64 m ckb args ≡ result)
    × (syscall_load_input 0 to_int64 m ckb args ≡ result)
    × (syscall_load_header 0 to_int64 m ckb args ≡ result)
    × (syscall_load_witness 0 to_int64 m ckb args ≡ result)
    × (syscall_load_cell_data 0 to_int64 m ckb args ≡ result)
indexed_loads_promised_example =
    indexed_loads_promised 0 to_int64 m ckb 0 2 (7 ∷ 1 ∷ []) 0 2 (7 ∷ 1 ∷ []) func-IsPartialLoad
      (refl, (refl, (refl, (refl, tt)))) (omega arith) refl

field_loads_promised_example :
    let args : List ℕ = 0 ∷ 2 ∷ 1 ∷ [] in
    let result = promised (some bytes) (request 0 to_int64 0 2 1 []) in
    (syscall_load_cell_by_field 0 to_int64 m ckb_field args ≡ result)
    × (syscall_load_header_by_field 0 to_int64 m ckb_field args ≡ result)
    × (syscall_load_input_by_field 0 to_int64 m ckb_field args ≡ result)
field_loads_promised_example =
    field_loads_promised 0 to_int64 m ckb_field 0 2 1 [] 0 2 1 [] func-IsPartialLoad
      (refl, (refl, (refl, tt))) (omega arith) refl

short_call_out_of_bounds_example :
    (syscall_load_transaction 0 to_int64 m ckb_plain [] ≡ out_of_bounds)
    × (syscall_load_script 0 to_int64 m ckb_plain [] ≡ out_of_bounds)
    × (syscall_load_transaction 0 to_int64 m ckb_plain (10 ∷ []) ≡ out_of_bounds)
    × (syscall_load_script 0 to_int64 m ckb_plain (10 ∷ []) ≡ out_of_bounds)
short_call_out_of_bounds_example = short_call_out_of_bounds 0 to_int64 m ckb_plain 10 0 10 refl refl

abbrev hash : List ℕ
hash =
    1 ∷ 2 ∷ 3 ∷ 4 ∷ 5 ∷ 6 ∷ 7 ∷ 8 ∷ 1 ∷ 2 ∷ 3 ∷ 4 ∷ 5 ∷ 6 ∷ 7 ∷ 8 ∷ 1 ∷ 2 ∷ 3 ∷ 4 ∷ 5 ∷ 6 ∷ 7 ∷ 8
    ∷ 1 ∷ 2 ∷ 3 ∷ 4 ∷ 5 ∷ 6 ∷ 7 ∷ 8 ∷ []

-- 100 is the typed array with the hash, 101 one that is too short; every object has the content
-- length 1024 and nothing else.
abbrev js : Conversions ℕ
js = record {
  undefined_value = 0;
  is_undefined = λ v. v == 0;
  typed_array =
      λ v. if v == 100 then some (some hash) else if v == 101 then some (some bytes) else none;
  to_uint32 = λ v. some v;
  to_int64 = to_int64;
  to_cstring = λ v. some (v ∷ []);
  property = λ v name. if str_eq name "content_length" then some 512 else some 0;
}

hash_is_checked :
    (syscall_exec_cell js (101 ∷ 1 ∷ 0 ∷ 0 ∷ []) ≡ exception)
    × (syscall_exec_cell js (7 ∷ 1 ∷ 0 ∷ 0 ∷ []) ≡ exception)
    × (syscall_exit 0 to_int64 (255 ∷ []) ≡ exited (negsuc 0))
    × (syscall_set_content js (λ c n. pos 0) (101 ∷ []) ≡ returned tt)
unfolding syscall_exec_cell code_hash_arg syscall_exit syscall_set_content
hash_is_checked = (refl, refl, refl, refl)

exec_args : ExecArgs js 100 257 3 4 hash 257 3 4
exec_args = record {
  array = refl;
  is_hash = refl;
  type_of = refl;
  offset_of = refl;
  size_of = refl;
}

exec_cell_passes_example :
    syscall_exec_cell js (100 ∷ 257 ∷ 3 ∷ 4 ∷ 65 ∷ 66 ∷ [])
    ≡ returned (record {
      code_hash = hash;
      hash_type = 1;
      offset = 3;
      length = 4;
      argc = pos 2;
      argv = some (65 ∷ []) ∷ some (66 ∷ []) ∷ [];
    })
exec_cell_passes_example = exec_cell_passes js (65 ∷ 66 ∷ []) exec_args (omega arith)

abbrev copies : ℕ → List ℕ
copies zero = []
copies (suc n) = 65 ∷ copies n

exec_cell_overflows_example : syscall_exec_cell js (100 ∷ 257 ∷ 3 ∷ 4 ∷ copies 257) ≡ out_of_bounds
exec_cell_overflows_example = exec_cell_overflows js (copies 257) exec_args (omega arith)

spawn_args : SpawnArgs js 100 1 7 hash 1 8 0 0 512
spawn_args = record {
  array = refl;
  is_hash = refl;
  type_of = refl;
  content_length = (512, refl, inr (refl, refl));
  memory_limit = (0, refl, inl (refl, refl));
  offset_of = (0, refl, inl (refl, refl));
  size_of = (0, refl, inl (refl, refl));
}

-- A child that exits with -1 and sets two bytes of content.
abbrev spawn : SpawnCall → SpawnReply
spawn call = record { err = pos 0; exit_code = 255; content = 7 ∷ 8 ∷ []; content_length = 2 }

spawn_cell_passes_example :
    syscall_spawn_cell js m true spawn (100 ∷ 1 ∷ 7 ∷ 65 ∷ [])
    ≡ check (pos 0) (
        returned
          (record { exit_code = bits32 (int8 255); content = buffer_front m.old (7 ∷ 8 ∷ []) 2 }))
spawn_cell_passes_example = spawn_cell_passes js m spawn (65 ∷ []) spawn_args (omega arith) refl

exec_cell_registered : find_function "exec_cell" functions ≡ some (register "exec_cell" exec_cell 4)
unfolding find_function
exec_cell_registered = refl

-- ===== src/Syscall/Process.antt =====
-- The functions of `ckb` that end, replace, start and describe programs. The engine's conversions
-- are parameters; so is what the virtual machine answers to `ckb_spawn_cell` and
-- `ckb_set_content`.
use Prim.Native.String.{String}
use ckb_js.Prelude.{
  ℕ, ◌+◌, Bool, Option, none, some, List, [], ◌∷◌, ltb, ◌==◌, if◌then◌else◌, u8, sub64, length,
  get_elem?, drop,
}
use ckb_js.Prelude.Int.{ℤ, int8, int32, bits32}
use ckb_js.CellFs.{CString}
use ckb_js.Syscall.{
  Js, returned, exited, out_of_bounds, ◌>>=◌, converted, check, check2, Memory, buffer_front,
  readable,
}

abbrev pub argument : {Value : Type 0} → List Value → ℕ → Js Value
argument argv i = elim (get_elem? argv i) [ none ↦ out_of_bounds | some v ↦ returned v ]

-- `ckb_exit((int8_t)status)` does not return.
unfoldable pub syscall_exit :
    {Value : Type 0} (undefined_value : Value) (to_int32 : Value → Option ℕ)
    → List Value
    → Js (Unit {0})
syscall_exit undefined_value to_int32 args = do
  v ← argument (readable undefined_value 1 args) 0
  status ← converted (to_int32 v)
  exited (int8 status)

-- The conversions of the engine. A typed array gives the bytes of its buffer, or none if the
-- buffer is detached; a property may throw.
pub record Conversions (Value : Type 0) : Type 0 where
  pub undefined_value : Value
  pub is_undefined : Value → Bool
  pub typed_array : Value → Option (Option (List ℕ))
  pub to_uint32 : Value → Option ℕ
  pub to_int64 : Value → Option ℕ
  pub to_cstring : Value → Option CString
  pub property : Value → String → Option Value

-- What `ckb_debug` gets; `none` is NULL, where the argument does not convert.
unfoldable pub syscall_debug :
    {Value : Type 0} → Conversions Value → List Value → Js (Option CString)
syscall_debug js args = do
  v ← argument (readable js.undefined_value 1 args) 0
  returned (js.to_cstring v)

-- The arguments of `ckb_exec_cell`. A NULL in `argv` is `none`.
pub record ExecCall : Type 0 where
  pub code_hash : List ℕ
  pub hash_type : ℕ
  pub offset : ℕ
  pub length : ℕ
  pub argc : ℤ
  pub argv : List (Option CString)

-- `spawn_args_t` beside them.
pub record SpawnCall : Type 0 where
  pub exec : ExecCall
  pub memory_limit : ℕ
  pub content_length : ℕ

pub record SpawnReply : Type 0 where
  pub err : ℤ
  pub exit_code : ℕ
  pub content : List ℕ
  pub content_length : ℕ

-- The object that `spawn_cell` returns.
pub record Spawned : Type 0 where
  pub exit_code : ℕ
  pub content : List ℕ

module _ {Value : Type 0} (js : Conversions Value) where
  -- The loop that fills `passed_argv[256]`, from index `k` on.
  unfoldable pub pass_argv : ℕ → List Value → Js (List (Option CString))
  pass_argv k [] = returned []
  pass_argv k (v ∷ vs) =
      let rest = pass_argv (k + 1) vs in
      if ltb k 256 then (rest >>= λ cs. returned (js.to_cstring v ∷ cs)) else out_of_bounds

  -- The code hash: the 32 bytes of a typed array.
  unfoldable pub code_hash_arg : Value → Js (List ℕ)
  code_hash_arg v = do
    p ← converted (js.typed_array v)
    bytes ← converted p
    check2 (length bytes == 32) (returned bytes)

  -- `syscall_exec_cell`, up to its call of `ckb_exec_cell`, which replaces the program; if it
  -- returns, JavaScript sees `undefined`.
  unfoldable pub syscall_exec_cell : List Value → Js ExecCall
  syscall_exec_cell args = do
    let argv = readable js.undefined_value 4 args
    code_hash ← (argument argv 0 >>= code_hash_arg)
    hash_type ← (argument argv 1 >>= λ v. converted (js.to_uint32 v))
    offset ← (argument argv 2 >>= λ v. converted (js.to_uint32 v))
    size ← (argument argv 3 >>= λ v. converted (js.to_uint32 v))
    passed ← pass_argv 0 (drop 4 args)
    returned (record {
      code_hash = code_hash;
      hash_type = u8 hash_type;
      offset = offset;
      length = size;
      argc = int32 (sub64 (length args) 4);
      argv = passed;
    })

  -- `get_property`, with the value that `*value` has before.
  unfoldable pub get_property : Value → String → (value : ℕ) → Js ℕ
  get_property obj prop value = do
    v ← converted (js.property obj prop)
    if js.is_undefined v then returned value else converted (js.to_int64 v)

  unfoldable pub syscall_spawn_cell :
      (m : Memory) (new_object : Bool) (spawn : SpawnCall → SpawnReply) → List Value → Js Spawned
  syscall_spawn_cell m new_object spawn args = do
    let argv = readable js.undefined_value 3 args
    code_hash ← (argument argv 0 >>= code_hash_arg)
    hash_type ← (argument argv 1 >>= λ v. converted (js.to_uint32 v))
    spawn_args ← argument argv 2
    content_length ← get_property spawn_args "content_length" 0
    memory_limit ← get_property spawn_args "memory_limit" 8
    offset ← get_property spawn_args "offset" 0
    size ← get_property spawn_args "length" 0
    passed ← pass_argv 0 (drop 3 args)
    let call : SpawnCall = record {
      exec = record {
        code_hash = code_hash;
        hash_type = u8 hash_type;
        offset = offset;
        length = size;
        argc = int32 (sub64 (length args) 3);
        argv = passed;
      };
      memory_limit = memory_limit;
      content_length = content_length;
    }
    check2 (m.grants content_length) (
        check (spawn call).err (
          check2 new_object (
            returned (record {
              exit_code = bits32 (int8 (spawn call).exit_code);
              content = buffer_front m.old (spawn call).content (spawn call).content_length;
            }))))

  -- `syscall_set_content`; the length goes by reference, and what comes back is not looked at.
  unfoldable pub syscall_set_content : (set_content : List ℕ → ℕ → ℤ) → List Value → Js (Unit {0})
  syscall_set_content set_content args = do
    v ← argument (readable js.undefined_value 1 args) 0
    p ← converted (js.typed_array v)
    content ← converted p
    check (set_content content (length content)) (returned tt)

-- The functions that pass a number of the machine on.
unfoldable pub syscall_vm_version : (ckb_vm_version : ℤ) → ℤ
syscall_vm_version ckb_vm_version = int32 (bits32 ckb_vm_version)

unfoldable pub syscall_current_cycles : (ckb_current_cycles : ℕ) → ℕ
syscall_current_cycles ckb_current_cycles = ckb_current_cycles

unfoldable pub syscall_get_memory_limit : (ckb_get_memory_limit : ℤ) → ℕ
syscall_get_memory_limit ckb_get_memory_limit = bits32 ckb_get_memory_limit

unfoldable pub syscall_current_memory : (ckb_current_memory : ℤ) → ℕ
syscall_current_memory ckb_current_memory = bits32 ckb_current_memory

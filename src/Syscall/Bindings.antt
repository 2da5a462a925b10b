-- ===== src/Syscall/Bindings.antt =====
-- The loading functions of `ckb`, each over its system call, with the arity under which
-- `js_init_module_ckb` registers it.
use ckb_js.Prelude.{ℕ, Bool, true, false, Option, List}
use ckb_js.Syscall.{Js, Loaded, LoadData, Reply, LoadFunc, Memory, syscall_load, load_called}

-- The C prototypes of the system calls, from whether `addr` is a buffer and `*len` on.
abbrev pub PlainLoad : Type 0
PlainLoad = (has_buffer : Bool) → (len offset : ℕ) → Reply

abbrev pub IndexedLoad : Type 0
IndexedLoad = (has_buffer : Bool) → (len offset index source : ℕ) → Reply

abbrev pub FieldLoad : Type 0
FieldLoad = (has_buffer : Bool) → (len offset index source field : ℕ) → Reply

-- `_load_tx_hash`, `_load_transaction`, `_load_script_hash`, `_load_script`.
abbrev pub load_plain : PlainLoad → LoadFunc
load_plain ckb r = ckb r.has_buffer r.len r.args.offset

-- `_load_cell`, `_load_input`, `_load_header`, `_load_witness`, `_load_cell_data`.
abbrev pub load_indexed : IndexedLoad → LoadFunc
load_indexed ckb r = ckb r.has_buffer r.len r.args.offset r.args.index r.args.source

-- `_load_cell_by_field`, `_load_header_by_field`, `_load_input_by_field`.
abbrev pub load_by_field : FieldLoad → LoadFunc
load_by_field ckb r = ckb r.has_buffer r.len r.args.offset r.args.index r.args.source r.args.field

abbrev pub hash_data : LoadData
hash_data = record { length = 32; index = 0; source = 0; offset = 0; field = 0 }

module _ (m : Memory) where
  -- The two that load a hash read no argument.
  unfoldable pub syscall_load_tx_hash : {Value : Type 0} → PlainLoad → List Value → Js Loaded
  syscall_load_tx_hash ckb args = syscall_load m (load_plain ckb) hash_data

  unfoldable pub syscall_load_script_hash : {Value : Type 0} → PlainLoad → List Value → Js Loaded
  syscall_load_script_hash ckb args = syscall_load m (load_plain ckb) hash_data

module _ {Value : Type 0} (undefined_value : Value) (to_int64 : Value → Option ℕ) (m : Memory) where
  unfoldable pub syscall_load_transaction : PlainLoad → List Value → Js Loaded
  syscall_load_transaction ckb = load_called to_int64 undefined_value 1 false m (load_plain ckb)

  unfoldable pub syscall_load_script : PlainLoad → List Value → Js Loaded
  syscall_load_script ckb = load_called to_int64 undefined_value 1 false m (load_plain ckb)

  unfoldable pub syscall_load_cell : IndexedLoad → List Value → Js Loaded
  syscall_load_cell ckb = load_called to_int64 undefined_value 3 false m (load_indexed ckb)

  unfoldable pub syscall_load_input : IndexedLoad → List Value → Js Loaded
  syscall_load_input ckb = load_called to_int64 undefined_value 3 false m (load_indexed ckb)

  unfoldable pub syscall_load_header : IndexedLoad → List Value → Js Loaded
  syscall_load_header ckb = load_called to_int64 undefined_value 3 false m (load_indexed ckb)

  unfoldable pub syscall_load_witness : IndexedLoad → List Value → Js Loaded
  syscall_load_witness ckb = load_called to_int64 undefined_value 3 false m (load_indexed ckb)

  unfoldable pub syscall_load_cell_data : IndexedLoad → List Value → Js Loaded
  syscall_load_cell_data ckb = load_called to_int64 undefined_value 3 false m (load_indexed ckb)

  unfoldable pub syscall_load_cell_by_field : FieldLoad → List Value → Js Loaded
  syscall_load_cell_by_field ckb = load_called to_int64 undefined_value 4 true m (load_by_field ckb)

  unfoldable pub syscall_load_header_by_field : FieldLoad → List Value → Js Loaded
  syscall_load_header_by_field ckb =
      load_called to_int64 undefined_value 4 true m (load_by_field ckb)

  unfoldable pub syscall_load_input_by_field : FieldLoad → List Value → Js Loaded
  syscall_load_input_by_field ckb =
      load_called to_int64 undefined_value 4 true m (load_by_field ckb)

-- ===== src/Syscall/Constants.antt =====
-- quickjs/ckb_module.c: the constants that `js_init_module_ckb` puts into `ckb` from the system's
-- header, whose values are a parameter.
use Prim.Native.String.{String}
use ckb_js.Prelude.{ℕ, List, [], ◌∷◌}

pub data Number : Type 0 where
  int64 : ℕ → Number
  big_uint64 : ℕ → Number

pub record CkbHeader : Type 0 where
  pub ckb_source_input : ℕ
  pub ckb_source_output : ℕ
  pub ckb_source_cell_dep : ℕ
  pub ckb_source_header_dep : ℕ
  pub ckb_source_group_input : ℕ
  pub ckb_source_group_output : ℕ
  pub ckb_cell_field_capacity : ℕ
  pub ckb_cell_field_data_hash : ℕ
  pub ckb_cell_field_lock : ℕ
  pub ckb_cell_field_lock_hash : ℕ
  pub ckb_cell_field_type : ℕ
  pub ckb_cell_field_type_hash : ℕ
  pub ckb_cell_field_occupied_capacity : ℕ
  pub ckb_header_field_epoch_number : ℕ
  pub ckb_header_field_epoch_start_block_number : ℕ
  pub ckb_header_field_epoch_length : ℕ
  pub ckb_input_field_out_point : ℕ
  pub ckb_input_field_since : ℕ

-- The calls of `JS_SetPropertyStr`, in order.
abbrev pub constants : CkbHeader → List (String × Number)
constants h =
    ("SOURCE_INPUT", int64 h.ckb_source_input)
    ∷ ("SOURCE_OUTPUT", int64 h.ckb_source_output)
    ∷ ("SOURCE_CELL_DEP", int64 h.ckb_source_cell_dep)
    ∷ ("SOURCE_HEADER_DEP", int64 h.ckb_source_header_dep)
    ∷ ("SOURCE_GROUP_INPUT", big_uint64 h.ckb_source_group_input)
    ∷ ("SOURCE_GROUP_OUTPUT", big_uint64 h.ckb_source_group_output)
    ∷ ("CELL_FIELD_CAPACITY", int64 h.ckb_cell_field_capacity)
    ∷ ("CELL_FIELD_DATA_HASH", int64 h.ckb_cell_field_data_hash)
    ∷ ("CELL_FIELD_LOCK", int64 h.ckb_cell_field_lock)
    ∷ ("CELL_FIELD_LOCK_HASH", int64 h.ckb_cell_field_lock_hash)
    ∷ ("CELL_FIELD_TYPE", int64 h.ckb_cell_field_type)
    ∷ ("CELL_FIELD_TYPE_HASH", int64 h.ckb_cell_field_type_hash)
    ∷ ("CELL_FIELD_OCCUPIED_CAPACITY", int64 h.ckb_cell_field_occupied_capacity)
    ∷ ("HEADER_FIELD_EPOCH_NUMBER", int64 h.ckb_header_field_epoch_number)
    ∷ ("HEADER_FIELD_EPOCH_START_BLOCK_NUMBER", int64 h.ckb_header_field_epoch_start_block_number)
    ∷ ("HEADER_FIELD_EPOCH_LENGTH", int64 h.ckb_header_field_epoch_length)
    ∷ ("INPUT_FIELD_OUT_POINT", int64 h.ckb_input_field_out_point)
    ∷ ("INPUT_FIELD_SINCE", int64 h.ckb_input_field_since)
    ∷ []

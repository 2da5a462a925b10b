-- ===== src/Loader.antt =====
-- quickjs/ckb_module.c: finding the cell that holds the program, and loading it. The system calls
-- and the molecule reader are parameters.
use ckb_js.Prelude.{
  ℕ, zero, suc, ◌+◌, Bool, true, false, Option, none, some, List, [], ◌∷◌, ltb, leb, ◌==◌,
  if◌then◌else◌, length, take, drop, get_or,
}
use ckb_js.Prelude.Int.{ℤ, pos, negsuc}
use ckb_js.Syscall.{Reply}
use ckb_js.Syscall.Bindings.{IndexedLoad}
pub mod Layout
pub mod Locate
mod Tests

abbrev pub script_size : ℕ
script_size = 32768

abbrev pub js_loader_args_size : ℕ
js_loader_args_size = 2

abbrev pub blake2b_block_size : ℕ
blake2b_block_size = 32

-- The error of `ckb_look_for_dep_with_hash2` and the index that it finds.
pub record Dep : Type 0 where
  pub err : ℤ
  pub index : ℕ

pub record Chain : Type 0 where
  -- `ckb_load_script(addr, &len, 0)`, from `len` on
  pub load_script : ℕ → Reply
  -- `MolReader_Script_verify(…) == MOL_OK`
  pub verify : List ℕ → Bool
  -- `MolReader_Script_get_args` and `MolReader_Bytes_raw_bytes`
  pub script_args : List ℕ → List ℕ
  pub look_for_dep_with_hash2 : (code_hash : List ℕ) (hash_type : ℕ) → Dep
  pub load_cell_data : IndexedLoad
  pub source_cell_dep : ℕ

-- The result of a step: its error code, which is not 0, or a value.
pub data Result {ℓ} (A : Type ℓ) : Type ℓ where
  ok : A → Result A
  failed : ℤ → Result A

infixl 5 ◌>>=◌ ◌>>◌
abbrev pub ◌>>=◌ {ℓ κ} : {A : Type ℓ} {B : Type κ} → Result A → (A → Result B) → Result B
ok a >>= f = f a
failed e >>= f = failed e

abbrev pub ◌>>◌ {ℓ} : {B : Type ℓ} → Result (Unit {0}) → Result B → Result B
m >> k = m >>= λ _. k

-- `CHECK` and `CHECK2`.
abbrev pub check : ℤ → Result (Unit {0})
check (pos n) = if n == 0 then ok tt else failed (pos n)
check (negsuc n) = failed (negsuc n)

abbrev pub check2 : Bool → ℤ → Result (Unit {0})
check2 b code = if b then ok tt else failed code

pub record CodeInfo : Type 0 where
  pub buf_size : ℕ
  pub index : ℕ

-- What the script's arguments name: `<2 bytes> <code hash, 32 bytes> <hash type, 1 byte>`.
abbrev pub code_hash : List ℕ → List ℕ
code_hash args = take blake2b_block_size (drop js_loader_args_size args)

abbrev pub hash_type : List ℕ → ℕ
hash_type args = get_or args (js_loader_args_size + blake2b_block_size) 0

unfoldable pub load_cell_code_info : Chain → Result CodeInfo
load_cell_code_info c = do
  let loaded = c.load_script script_size
  check loaded.err
  check2 (leb loaded.len script_size) (negsuc 0)
  let script = take loaded.len loaded.bytes
  check2 (c.verify script) (negsuc 0)
  let args = c.script_args script
  check2 (leb js_loader_args_size (length args)) (negsuc 0)
  check2 (leb (js_loader_args_size + blake2b_block_size + 1) (length args)) (negsuc 0)
  let dep = c.look_for_dep_with_hash2 (code_hash args) (hash_type args)
  check dep.err
  let data_size = c.load_cell_data false 0 0 dep.index c.source_cell_dep
  check data_size.err
  check2 (ltb 0 data_size.len) (negsuc 0)
  ok (record { buf_size = data_size.len; index = dep.index })

-- `load_cell_code`: the bytes that it leaves in the buffer.
unfoldable pub load_cell_code : Chain → CodeInfo → Result (List ℕ)
load_cell_code c info =
    let loaded = c.load_cell_data true info.buf_size 0 info.index c.source_cell_dep in
    elim (check loaded.err) [ ok _ ↦ ok loaded.bytes | failed _ ↦ failed (negsuc 0) ]

-- ===== src/Engine.antt =====
-- The JavaScript engine (quickjs/quickjs.c) as the virtual machine uses it: an interface over a
-- state and a type of values that are not exceptions. The engine's own code is not modelled.
use ckb_js.Prelude.{ℕ, Bool, Option, List}
use ckb_js.CellFs.{CString}

-- Each operation takes the state and gives its result with the new state; `none` is an exception.
pub record Engine (S V : Type 0) : Type 0 where
  -- `JS_ReadObject(…, JS_READ_OBJ_BYTECODE)`
  pub read_object : List ℕ → S → Option V × S
  -- `JS_VALUE_GET_TAG(val) == JS_TAG_MODULE`
  pub is_module : V → Bool
  -- `JS_ResolveModule(ctx, val) >= 0`
  pub resolve_module : V → S → Bool × S
  -- `JS_EvalFunction`
  pub eval_function : V → S → Option V × S
  -- `JS_Eval`, with JS_EVAL_TYPE_MODULE and JS_EVAL_FLAG_COMPILE_ONLY or without
  pub eval :
      (source : List ℕ) (filename : CString) (as_module compile_only : Bool) → S → Option V × S
  -- `JS_GetModuleName` and `JS_AtomToCString`; `none` is NULL
  pub module_name : V → S → Option CString × S
  -- `JS_GetImportMeta` and the definitions of its `url` and `main`; false is an exception
  pub set_meta : V → (url : CString) (is_main : Bool) → S → Bool × S
  -- `JS_WriteObject(…, JS_WRITE_OBJ_BYTECODE)`; `none` is NULL
  pub write_object : V → S → Option (List ℕ) × S
  -- `js_std_dump_error`, and `JS_ThrowReferenceError` for a module that is not found
  pub dump_error : S → S
  pub throw_not_found : CString → S → S
  -- `JS_NewRuntime` and `JS_NewCustomContext`; false is NULL
  pub new_runtime : S → Bool × S
  pub new_context : S → Bool × S
  -- the module loader, and the global objects for the script's arguments
  pub install : (script_args : List CString) → S → S
  -- the loader without files, which the compiler has
  pub dummy_loader : S → S

-- `BC_VERSION`, the first byte of bytecode, with CONFIG_BIGNUM on a little-endian machine.
abbrev pub bc_version : ℕ
bc_version = 2

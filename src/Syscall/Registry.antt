-- ===== src/Syscall/Registry.antt =====
-- quickjs/ckb_module.c: the functions that `js_init_module_ckb` registers in `ckb`, each under a
-- name with the number of arguments to which the engine pads a call.
use Prim.Native.String.{String}
use text.Mathlib.Text.{◌==◌ as str_eq}
use ckb_js.Prelude.{
  ℕ, ◌≤◌, ◌≡◌, refl, Bool, true, false, Option, none, some, List, [], ◌∷◌, if◌then◌else◌, arith,
  All, Bool-cases, Option-cases, inl, inr, ◌∙◌, sym,
}
use mathlib.Core.Path.{subst}

pub data CkbFunction : Type 0 where
  exit : CkbFunction
  load_tx_hash : CkbFunction
  load_transaction : CkbFunction
  load_script_hash : CkbFunction
  load_script : CkbFunction
  debug : CkbFunction
  load_cell : CkbFunction
  load_input : CkbFunction
  load_header : CkbFunction
  load_witness : CkbFunction
  load_cell_data : CkbFunction
  load_cell_by_field : CkbFunction
  load_header_by_field : CkbFunction
  load_input_by_field : CkbFunction
  vm_version : CkbFunction
  current_cycles : CkbFunction
  exec_cell : CkbFunction
  spawn_cell : CkbFunction
  set_content : CkbFunction
  get_memory_limit : CkbFunction
  current_memory : CkbFunction

pub record Registered : Type 0 where
  pub name : String
  pub function : CkbFunction
  pub arity : ℕ

abbrev pub register : String → CkbFunction → ℕ → Registered
register name function arity = record { name = name; function = function; arity = arity }

-- The calls of `JS_NewCFunction`, in order.
abbrev pub functions : List Registered
functions =
    register "exit" exit 1
    ∷ register "load_tx_hash" load_tx_hash 1
    ∷ register "load_transaction" load_transaction 1
    ∷ register "load_script_hash" load_script_hash 1
    ∷ register "load_script" load_script 1
    ∷ register "debug" debug 1
    ∷ register "load_cell" load_cell 3
    ∷ register "load_input" load_input 3
    ∷ register "load_header" load_header 3
    ∷ register "load_witness" load_witness 3
    ∷ register "load_cell_data" load_cell_data 3
    ∷ register "load_cell_by_field" load_cell_by_field 4
    ∷ register "load_header_by_field" load_header_by_field 4
    ∷ register "load_input_by_field" load_input_by_field 4
    ∷ register "vm_version" vm_version 0
    ∷ register "current_cycles" current_cycles 0
    ∷ register "exec_cell" exec_cell 4
    ∷ register "spawn_cell" spawn_cell 3
    ∷ register "set_content" set_content 1
    ∷ register "get_memory_limit" get_memory_limit 0
    ∷ register "current_memory" current_memory 0
    ∷ []

-- `ckb.<name>` in a script; a later registration replaces an earlier one.
unfoldable pub find_function : String → List Registered → Option Registered
find_function name [] = none
find_function name (r ∷ rs) =
    let rest = find_function name rs in
    elim rest [ some q ↦ some q | none ↦ if str_eq name r.name then some r else none ]

-- The constants for hash types.
abbrev pub script_hash_types : List (String × ℕ)
script_hash_types =
    ("SCRIPT_HASH_TYPE_DATA", 0)
    ∷ ("SCRIPT_HASH_TYPE_TYPE", 1)
    ∷ ("SCRIPT_HASH_TYPE_DATA1", 2)
    ∷ ("SCRIPT_HASH_TYPE_DATA2", 4)
    ∷ []

-- How many arguments a function reads without a test of their number.
abbrev pub reads : CkbFunction → ℕ
reads exit = 1
reads load_tx_hash = 0
reads load_script_hash = 0
reads debug = 1
reads vm_version = 0
reads current_cycles = 0
reads exec_cell = 4
reads spawn_cell = 3
reads set_content = 1
reads get_memory_limit = 0
reads current_memory = 0
reads _ = 2

-- The two functions that read more than they are registered for.
abbrev pub is_short : CkbFunction → Bool
is_short load_transaction = true
is_short load_script = true
is_short _ = false

-- The arity covers what the function reads, but for these two.
abbrev pub Covers : Registered → Type 0
Covers r = is_short r.function ≡ false → reads r.function ≤ r.arity

find_function-All :
    (name : String) (rs : List Registered) (r : Registered)
    → All Covers rs
    → find_function name rs ≡ some r
    → Covers r
unfolding find_function
find_function-All name [] r h e = absurd cc
find_function-All name (q ∷ rs) r (c, cs) e = elim (Option-cases (find_function name rs)) [
  | inr (p, later) ↦ find_function-All name rs r cs (later ∙ sym (kept p later) ∙ e)
  | inl earlier ↦ elim (Bool-cases (str_eq name q.name)) [
    | inl same ↦ subst Covers (chosen (sym (here earlier same) ∙ e)) c
    | inr other ↦ absurd (missing (sym (gone earlier other) ∙ e))
  ]
]
  where
    kept : (p : Registered) → find_function name rs ≡ some p → find_function name (q ∷ rs) ≡ some p
    kept p h = rw h refl

    here :
        find_function name rs ≡ none
        → str_eq name q.name ≡ true
        → find_function name (q ∷ rs) ≡ some q
    here h k = rw (h, k) refl

    gone :
        find_function name rs ≡ none
        → str_eq name q.name ≡ false
        → find_function name (q ∷ rs) ≡ none
    gone h k = rw (h, k) refl

    chosen : some q ≡ some r → q ≡ r
    chosen e = cc

    missing : none ≡ some r → ⊥
    missing e = absurd cc

functions-Covers : All Covers functions
functions-Covers = ground arith

-- Whatever name a script calls, the function under that name, unless it is `load_transaction` or
-- `load_script`, is registered for at least as many arguments as it reads without a test of their
-- number.
pub registered_arity_covers :
    (name : String) (r : Registered)
    → find_function name functions ≡ some r
    → is_short r.function ≡ false
    → reads r.function ≤ r.arity
registered_arity_covers name r e long = find_function-All name functions r functions-Covers e long

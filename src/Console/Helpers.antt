-- ===== src/Console/Helpers.antt =====
-- quickjs/std_module.c: `js_std_add_helpers`, which gives a program its global objects, and the
-- loader that finds no file. The engine's objects are an interface; the count of references is not
-- modelled.
use ckb_js.Prelude.{ℕ, suc, Option, none, some, List, [], ◌∷◌}
use ckb_js.CellFs.{CString}

abbrev pub log_name : CString
log_name = b'l' ∷ b'o' ∷ b'g' ∷ []

abbrev pub assert_name : CString
assert_name = b'a' ∷ b's' ∷ b's' ∷ b'e' ∷ b'r' ∷ b't' ∷ []

abbrev pub console_name : CString
console_name = b'c' ∷ b'o' ∷ b'n' ∷ b's' ∷ b'o' ∷ b'l' ∷ b'e' ∷ []

abbrev pub script_args_name : CString
script_args_name = b's' ∷ b'c' ∷ b'r' ∷ b'i' ∷ b'p' ∷ b't' ∷ b'A' ∷ b'r' ∷ b'g' ∷ b's' ∷ []

abbrev pub print_name : CString
print_name = b'p' ∷ b'r' ∷ b'i' ∷ b'n' ∷ b't' ∷ []

-- The C functions that are registered.
pub data CFunction : Type 0 where
  print_function : CFunction
  assert_function : CFunction

pub data Key : Type 0 where
  name : CString → Key
  index : ℕ → Key

-- The engine's objects; a call that makes a value also gives the new state.
pub record Objects (S V : Type 0) : Type 0 where
  pub global_object : V
  pub new_object : S → V × S
  pub new_array : S → V × S
  pub new_c_function : CFunction → (name : CString) → (length : ℕ) → S → V × S
  pub new_string : CString → S → V × S
  pub set_property : V → Key → V → S → S

module _ {S V : Type 0} (js : Objects S V) where
  -- `JS_SetPropertyStr(ctx, object, name, JS_NewCFunction(ctx, f, name, 1))`.
  abbrev pub set_function : (object : V) → CString → CFunction → S → S
  set_function object n f s =
      let (value, s₁) = js.new_c_function f n 1 s in js.set_property object (name n) value s₁

  -- The loop over the script's arguments.
  unfoldable pub set_args : (args : V) (i : ℕ) → List CString → S → S
  set_args args i [] s = s
  set_args args i (arg ∷ argv) s =
      let (value, s₁) = js.new_string arg s in
      set_args args (suc i) argv (js.set_property args (index i) value s₁)

  -- `none` stands for an `argc` below 0.
  unfoldable pub js_std_add_helpers : Option (List CString) → S → S
  unfolding set_args
  js_std_add_helpers argv s =
      let (console, s₁) = js.new_object s in
      let s₂ = set_function console log_name print_function s₁ in
      let s₃ = set_function console assert_name assert_function s₂ in
      let s₄ = js.set_property js.global_object (name console_name) console s₃ in
      let s₅ : S = elim argv [
        | none ↦ s₄
        | some list ↦
            let (args, t) = js.new_array s₄ in
            js.set_property js.global_object (name script_args_name) args (set_args args 0 list t)
      ] in
      set_function js.global_object print_name print_function s₅

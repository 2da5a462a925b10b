-- ===== src/Console.antt =====
-- quickjs/std_module.c: `console.log` and `console.assert`.
use ckb_js.Prelude.{
  arith, ℕ, ◌≡◌, refl, Bool, true, false, Option, none, some, List, [], ◌∷◌, ◌++◌, if◌then◌else◌,
  map, All, ap,
}
use ckb_js.CellFs.{CString}
pub mod Helpers
pub mod Properties
pub mod Globals
mod Tests

-- What is printed: a float by `printf`, or a text by `ckb_debug`.
pub data Message (V : Type 0) : Type 0 where
  number : V → Message V
  text : CString → Message V

-- `JS_UNDEFINED` or `JS_EXCEPTION`.
pub data Completion : Type 0 where
  returned : Completion
  exception : Completion

pub record Values (V : Type 0) : Type 0 where
  pub is_float64 : V → Bool
  pub to_cstring : V → Option CString
  pub to_bool : V → Bool

module _ {V : Type 0} (js : Values V) where
  -- What an argument prints, if it converts.
  unfoldable pub message : V → Option (Message V)
  message v =
      if js.is_float64 v
      then some (number v)
      else elim (js.to_cstring v) [ none ↦ none | some s ↦ some (text s) ]

  -- The loop stops at the first argument that does not convert.
  unfoldable pub js_print : List V → Completion × List (Message V)
  js_print [] = (returned, [])
  js_print (v ∷ args) =
      let rest = js_print args in
      elim (message v) [ none ↦ (exception, []) | some m ↦ (rest.0, m ∷ rest.1) ]

  -- The engine pads the arguments to one.
  unfoldable pub js_assert : (condition : V) → (messages : List V) → Completion × List (Message V)
  unfolding js_print
  js_assert condition messages =
      if js.to_bool condition then (returned, []) else (exception, (js_print messages).1)

  abbrev pub Prints : V → Message V → Type 0
  Prints v m = message v ≡ some m

  -- The arguments of a list, with what each prints.
  abbrev pub AllPrint : List V → List (Message V) → Type 0
  AllPrint [] [] = Unit {0}
  AllPrint (v ∷ args) (m ∷ ms) = Prints v m × AllPrint args ms
  AllPrint _ _ = ⊥

  js_print_all :
      (args : List V) (ms : List (Message V)) → AllPrint args ms → js_print args ≡ (returned, ms)
  unfolding js_print
  js_print_all [] [] h = refl
  js_print_all [] (m ∷ ms) h = absurd h
  js_print_all (v ∷ args) [] h = absurd h
  js_print_all (v ∷ args) (m ∷ ms) (p, h) = ground (arith, p, js_print_all args ms h)

  -- If every argument behind the condition converts, a failed assertion prints what each of them
  -- stands for, in order, and throws; one that holds prints nothing.
  pub js_assert_prints :
      (condition : V) (args : List V) (ms : List (Message V))
      → AllPrint args ms
      → js_assert condition args
        ≡ (if js.to_bool condition then (returned, []) else (exception, ms))
  unfolding js_assert
  js_assert_prints condition args ms h = rw (js_print_all args ms h) refl

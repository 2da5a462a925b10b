-- ===== src/Console/Globals.antt =====
-- What the global objects of a program are.
use ckb_js.Prelude.{
  ℕ, ◌≡◌, ◌≢◌, refl, sym, ap, ◌∙◌, true, some, List, ◌==◌, if◌then◌else◌, arith, get_elem?,
}
use ckb_js.CellFs.{CString}
use ckb_js.Console.Helpers.{
  print_function, assert_function, Key, name, index, Objects, set_function, set_args,
  js_std_add_helpers, log_name, assert_name, console_name, script_args_name, print_name,
}
use ckb_js.Console.Properties.{
  key_eq, IsObjects, Calls, Reads, set_function-get, set_property-other, set_function-other,
  set_function-live, set_args-other, set_args-Reads,
}

module _ {S V : Type 0} (js : Objects S V) (is : IsObjects js) where
  -- The objects that `js_std_add_helpers` makes.
  module _ (list : List CString) (s : S) where
    abbrev console : V
    console = (js.new_object s).0

    abbrev with_log : S
    with_log = set_function js console log_name print_function (js.new_object s).1

    abbrev with_assert : S
    with_assert = set_function js console assert_name assert_function with_log

    abbrev with_console : S
    with_console = js.set_property js.global_object (name console_name) console with_assert

    abbrev args : V
    args = (js.new_array with_console).0

    abbrev with_elements : S
    with_elements = set_args js args 0 list (js.new_array with_console).1

    abbrev with_args : S
    with_args = js.set_property js.global_object (name script_args_name) args with_elements

    abbrev done : S
    done = set_function js js.global_object print_name print_function with_args

    helpers_done : js_std_add_helpers js (some list) s ≡ done
    unfolding js_std_add_helpers
    helpers_done = refl

    kept : (v : V) → is.live (js.new_object s).1 v → is.live with_console v
    kept v l = is.set_keeps js.global_object (name console_name) console with_assert v (
        set_function-live js is console assert_name assert_function with_log v
          (set_function-live js is console log_name print_function (js.new_object s).1 v l))

    console_global : is.id console ≢ is.id js.global_object
    console_global = is.object_new s js.global_object (is.global_live s)

    args_console : is.id args ≢ is.id console
    args_console = is.array_new with_console console (kept console (is.object_live s))

    args_global : is.id args ≢ is.id js.global_object
    args_global = is.array_new with_console js.global_object (is.global_live with_console)

    -- What the last steps leave of an object that is not the global one.
    rest :
        (v : V) (k : Key)
        → is.id v ≢ is.id js.global_object
        → is.get done v k ≡ is.get with_elements v k
    rest v k n =
        set_function-other js is js.global_object print_name print_function with_args v k n
        ∙ set_property-other js is js.global_object (name script_args_name) args with_elements v k n

    console_rest : (k : Key) → is.get done console k ≡ is.get with_assert console k
    console_rest k =
        rest console k console_global
        ∙ set_args-other js is args 0 list (js.new_array with_console).1 console k
            (λ e. args_console (sym e))
        ∙ is.get_array with_console console k
        ∙ set_property-other js is js.global_object (name console_name) console with_assert console
            k console_global

    global_get :
        (k : Key)
        → is.get done js.global_object k ≡ (
            if key_eq k (name print_name)
            then some (js.new_c_function print_function print_name 1 with_args).0
            else if key_eq k (name script_args_name)
            then some args
            else if key_eq k (name console_name)
            then some console
            else is.get with_assert js.global_object k)
    global_get k =
        let same : (is.id js.global_object == is.id js.global_object) ≡ true = ground arith in
        set_function-get js is js.global_object print_name print_function with_args js.global_object
          k
        ∙ rw
            (
              same,
              is.get_set js.global_object (name script_args_name) args with_elements
                  js.global_object k,
              same,
              set_args-other js is args 0 list (js.new_array with_console).1 js.global_object k
                  (λ e. args_global (sym e)),
              is.get_array with_console js.global_object k,
              is.get_set js.global_object (name console_name) console with_assert js.global_object
                  k,
              same,
            )
            refl

    console_get :
        (k : Key)
        → is.get done console k ≡ (
            if key_eq k (name assert_name)
            then some (js.new_c_function assert_function assert_name 1 with_log).0
            else if key_eq k (name log_name)
            then some (js.new_c_function print_function log_name 1 (js.new_object s).1).0
            else is.get (js.new_object s).1 console k)
    console_get k =
        let same : (is.id console == is.id console) ≡ true = ground arith in
        console_rest k
        ∙ set_function-get js is console assert_name assert_function with_log console k
        ∙ rw
            (
              same,
              set_function-get js is console log_name print_function (js.new_object s).1 console k,
              same,
            )
            refl

  -- With objects as JavaScript has them: after `js_std_add_helpers` with the script's arguments, the
  -- global object has `print`, a `console` with `log` and `assert`, and `scriptArgs`, whose elements
  -- are the arguments in order; `print` and `log` call `js_print`, and `assert` calls `js_assert`.
  pub js_std_add_helpers-Calls :
      (list : List CString) (s : S)
      → let after = js_std_add_helpers js (some list) s in
        Calls js is after js.global_object print_name print_function
        × ((c : V) × (is.get after js.global_object (name console_name) ≡ some c)
            × Calls js is after c log_name print_function
            × Calls js is after c assert_name assert_function)
        × ((a : V) × (is.get after js.global_object (name script_args_name) ≡ some a)
            × ((i : ℕ) (t : CString) → get_elem? list i ≡ some t → Reads js is after a i t))
  unfolding js_std_add_helpers
  js_std_add_helpers-Calls list s = (
    (
      (js.new_c_function print_function print_name 1 (with_args list s)).0,
      global_get list s (name print_name),
      is.calls_function print_function print_name 1 (with_args list s),
    ),
    (
      console list s,
      global_get list s (name console_name),
      (
        (js.new_c_function print_function log_name 1 (js.new_object s).1).0,
        console_get list s (name log_name),
        is.calls_function print_function log_name 1 (js.new_object s).1,
      ),
      (
        (js.new_c_function assert_function assert_name 1 (with_log list s)).0,
        console_get list s (name assert_name),
        is.calls_function assert_function assert_name 1 (with_log list s),
      ),
    ),
    (
      args list s,
      global_get list s (name script_args_name),
      λ i t e.
          let (v, at, reads) =
            set_args-Reads js is (args list s) 0 list (js.new_array (with_console list s)).1 i t
              e in
          (
            v,
            rest list s (args list s) (index i) (args_global list s)
                ∙ ap (λ k. is.get (with_elements list s) (args list s) (index k)) (omega arith)
                ∙ at,
            reads,
          ),
    ),
  )

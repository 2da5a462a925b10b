-- ===== src/Console/Tests.antt =====
-- Printing, and the global objects.
use ckb_js.Prelude.{
  ℕ, suc, ◌≤◌, ◌≡◌, refl, false, Option, none, some, List, [], ◌∷◌, ◌==◌, ◌&&◌, not, if◌then◌else◌,
  get_elem?, arith,
}
use ckb_js.CellFs.{CString}
use ckb_js.Fixtures.{codes}
use ckb_js.Console.Helpers.{
  CFunction, print_function, assert_function, Key, name, Objects, js_std_add_helpers, log_name,
  assert_name, console_name, script_args_name, print_name,
}
use ckb_js.Console.Properties.{key_eq, IsObjects, Calls, Reads}
use ckb_js.Console.Globals.{js_std_add_helpers-Calls}
use ckb_js.Console.{Values}

-- Numbers as values; 0 is false, and prints as the empty text.
abbrev js : Values ℕ
js = record {
  is_float64 = λ v. false;
  to_cstring = λ v. some (v ∷ []);
  to_bool = λ v. not (v == 0);
}

-- Objects with numbers, of which the state has the last, and properties as a function.
record Thing : Type 0 where
  number : ℕ
  function : Option CFunction
  string : Option CString

record Store : Type 0 where
  last : ℕ
  properties : ℕ → Key → Option Thing

abbrev fresh : Option CFunction → Option CString → Store → Thing × Store
fresh f t s = (
  record { number = suc s.last; function = f; string = t },
  record { last = suc s.last; properties = s.properties },
)

abbrev objects : Objects Store Thing
objects = record {
  global_object = record { number = 0; function = none; string = none };
  new_object = fresh none none;
  new_array = fresh none none;
  new_c_function = λ f n l s. fresh (some f) none s;
  new_string = λ t s. fresh none (some t) s;
  set_property = λ o k w s. record {
    last = s.last;
    properties = λ i j. if i == o.number && key_eq j k then some w else s.properties i j;
  };
}

objects-IsObjects : IsObjects objects
objects-IsObjects = record {
  id = λ v. v.number;
  live = λ s v. v.number ≤ s.last;
  get = λ s v k. s.properties v.number k;
  calls = λ v. v.function;
  text = λ v. v.string;
  global_live = λ s. omega arith;
  object_live = λ s. omega arith;
  object_new = λ s v l. omega (arith, l);
  array_new = λ s v l. omega (arith, l);
  object_keeps = λ s v l. omega (arith, l);
  function_keeps = λ f n k s v l. omega (arith, l);
  set_keeps = λ o k w s v l. l;
  get_object = λ s v k. refl;
  get_array = λ s v k. refl;
  get_function = λ f n l s v k. refl;
  get_string = λ t s v k. refl;
  get_set = λ o j w s v k. refl;
  calls_function = λ f n l s. refl;
  text_string = λ t s. refl;
}

abbrev nothing : Store
nothing = record { last = 0; properties = λ i k. none }

abbrev script : List CString
script = codes "main.js" ∷ codes "7" ∷ []

abbrev after : Store
after = js_std_add_helpers objects (some script) nothing

js_std_add_helpers-Calls_example :
    Calls objects objects-IsObjects after objects.global_object print_name print_function
    × ((c : Thing) × (IsObjects.get objects-IsObjects after objects.global_object
            (name console_name)
          ≡ some c)
        × Calls objects objects-IsObjects after c log_name print_function
        × Calls objects objects-IsObjects after c assert_name assert_function)
    × ((a : Thing) × (IsObjects.get objects-IsObjects after objects.global_object
            (name script_args_name)
          ≡ some a)
        × ((i : ℕ) (t : CString)
            → get_elem? script i ≡ some t
            → Reads objects objects-IsObjects after a i t))
js_std_add_helpers-Calls_example = js_std_add_helpers-Calls objects objects-IsObjects script nothing

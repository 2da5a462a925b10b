-- ===== src/Console/Properties.antt =====
-- The properties of objects after a function or the arguments are set.
use ckb_js.Prelude.{
  ℕ, zero, suc, ◌+◌, ◌<◌, ◌≡◌, ◌≢◌, refl, ap, ◌∙◌, Bool, true, false, Option, some, List, [], ◌∷◌,
  ◌==◌, ◌&&◌, if◌then◌else◌, arith, get_elem?,
}
use mathlib.Core.Option.{none-ne-some}
use ckb_js.CellFs.{CString}
use ckb_js.CellFs.Archive.{bytes_eq}
use ckb_js.Console.Helpers.{CFunction, Key, name, index, Objects, set_function, set_args}

abbrev pub key_eq : Key → Key → Bool
key_eq (name n) (name m) = bytes_eq n m
key_eq (index i) (index j) = i == j
key_eq (name n) (index j) = false
key_eq (index i) (name m) = false

-- The engine's objects as JavaScript has them: a property has the value that was set last, a new
-- object is none that there was, and what a function or a text is does not change.
pub record IsObjects {S V : Type 0} (js : Objects S V) : Type 1 where
  pub id : V → ℕ
  pub live : S → V → Type 0
  pub get : S → V → Key → Option V
  pub calls : V → Option CFunction
  pub text : V → Option CString
  pub global_live : (s : S) → live s js.global_object
  pub object_live : (s : S) → live (js.new_object s).1 (js.new_object s).0
  pub object_new : (s : S) (v : V) → live s v → id (js.new_object s).0 ≢ id v
  pub array_new : (s : S) (v : V) → live s v → id (js.new_array s).0 ≢ id v
  pub object_keeps : (s : S) (v : V) → live s v → live (js.new_object s).1 v
  pub function_keeps :
      (f : CFunction) (n : CString) (l : ℕ) (s : S) (v : V)
      → live s v
      → live (js.new_c_function f n l s).1 v
  pub set_keeps :
      (o : V) (k : Key) (w : V) (s : S) (v : V) → live s v → live (js.set_property o k w s) v
  pub get_object : (s : S) (v : V) (k : Key) → get (js.new_object s).1 v k ≡ get s v k
  pub get_array : (s : S) (v : V) (k : Key) → get (js.new_array s).1 v k ≡ get s v k
  pub get_function :
      (f : CFunction) (n : CString) (l : ℕ) (s : S) (v : V) (k : Key)
      → get (js.new_c_function f n l s).1 v k ≡ get s v k
  pub get_string :
      (t : CString) (s : S) (v : V) (k : Key) → get (js.new_string t s).1 v k ≡ get s v k
  pub get_set :
      (o : V) (j : Key) (w : V) (s : S) (v : V) (k : Key)
      → get (js.set_property o j w s) v k
        ≡ (if id v == id o && key_eq k j then some w else get s v k)
  pub calls_function :
      (f : CFunction) (n : CString) (l : ℕ) (s : S) → calls (js.new_c_function f n l s).0 ≡ some f
  pub text_string : (t : CString) (s : S) → text (js.new_string t s).0 ≡ some t

module _ {S V : Type 0} (js : Objects S V) (is : IsObjects js) where
  -- A property that is a function.
  abbrev pub Calls : S → V → CString → CFunction → Type 0
  Calls s o n f = (v : V) × (is.get s o (name n) ≡ some v) × (is.calls v ≡ some f)

  pub set_function-get :
      (o : V) (n : CString) (f : CFunction) (s : S) (v : V) (k : Key)
      → is.get (set_function js o n f s) v k ≡ (
          if is.id v == is.id o && key_eq k (name n)
          then some (js.new_c_function f n 1 s).0
          else is.get s v k)
  set_function-get o n f s v k =
      is.get_set o (name n) (js.new_c_function f n 1 s).0 (js.new_c_function f n 1 s).1 v k
      ∙ rw (is.get_function f n 1 s v k) refl

  pub set_property-other :
      (o : V) (j : Key) (w : V) (s : S) (v : V) (k : Key)
      → is.id v ≢ is.id o
      → is.get (js.set_property o j w s) v k ≡ is.get s v k
  set_property-other o j w s v k n =
      let other : (is.id v == is.id o) ≡ false = ground (arith, n) in
      is.get_set o j w s v k ∙ rw other refl

  pub set_function-other :
      (o : V) (n : CString) (f : CFunction) (s : S) (v : V) (k : Key)
      → is.id v ≢ is.id o
      → is.get (set_function js o n f s) v k ≡ is.get s v k
  set_function-other o n f s v k d =
      let other : (is.id v == is.id o) ≡ false = ground (arith, d) in
      set_function-get o n f s v k ∙ rw other refl

  pub set_function-live :
      (o : V) (n : CString) (f : CFunction) (s : S) (v : V)
      → is.live s v
      → is.live (set_function js o n f s) v
  set_function-live o n f s v l =
      is.set_keeps o (name n) (js.new_c_function f n 1 s).0 (js.new_c_function f n 1 s).1 v
        (is.function_keeps f n 1 s v l)

  pub set_args-other :
      (o : V) (i : ℕ) (argv : List CString) (s : S) (v : V) (k : Key)
      → is.id v ≢ is.id o
      → is.get (set_args js o i argv s) v k ≡ is.get s v k
  unfolding set_args
  set_args-other o i [] s v k n = refl
  set_args-other o i (a ∷ argv) s v k n =
      let other : (is.id v == is.id o) ≡ false = ground (arith, n) in
      set_args-other o (suc i) argv
        (js.set_property o (index i) (js.new_string a s).0 (js.new_string a s).1) v k n
      ∙ is.get_set o (index i) (js.new_string a s).0 (js.new_string a s).1 v k
      ∙ rw (other, is.get_string a s v k) refl

  set_args-before :
      (o : V) (i : ℕ) (argv : List CString) (s : S) (j : ℕ)
      → j < i
      → is.get (set_args js o i argv s) o (index j) ≡ is.get s o (index j)
  unfolding set_args
  set_args-before o i [] s j l = refl
  set_args-before o i (a ∷ argv) s j l =
      let other : (is.id o == is.id o && j == i) ≡ false = ground (arith, l) in
      set_args-before o (suc i) argv
        (js.set_property o (index i) (js.new_string a s).0 (js.new_string a s).1) j
        (omega (arith, l))
      ∙ is.get_set o (index i) (js.new_string a s).0 (js.new_string a s).1 o (index j)
      ∙ rw (other, is.get_string a s o (index j)) refl

  -- An element that is a text.
  abbrev pub Reads : S → V → ℕ → CString → Type 0
  Reads s o i t = (v : V) × (is.get s o (index i) ≡ some v) × (is.text v ≡ some t)

  pub set_args-Reads :
      (o : V) (i : ℕ) (argv : List CString) (s : S) (j : ℕ) (t : CString)
      → get_elem? argv j ≡ some t
      → Reads (set_args js o i argv s) o (i + j) t
  unfolding set_args
  set_args-Reads o i [] s j t e = absurd (none-ne-some t e)
  set_args-Reads o i (a ∷ argv) s zero t e =
      let value = (js.new_string a s).0 in
      let after = js.set_property o (index i) value (js.new_string a s).1 in
      let same : (is.id o == is.id o && i == i) ≡ true = ground arith in
      let found : is.get (set_args js o (suc i) argv after) o (index i) ≡ some value =
        set_args-before o (suc i) argv after i (omega arith)
        ∙ is.get_set o (index i) value (js.new_string a s).1 o (index i)
        ∙ rw same refl in
      (
        value,
        ap (λ k. is.get (set_args js o (suc i) argv after) o (index k)) (omega arith) ∙ found,
        is.text_string a s ∙ e,
      )
  set_args-Reads o i (a ∷ argv) s (suc j) t e =
      let after = js.set_property o (index i) (js.new_string a s).0 (js.new_string a s).1 in
      let (v, at, reads) = set_args-Reads o (suc i) argv after j t e in
      (v, ap (λ k. is.get (set_args js o (suc i) argv after) o (index k)) (omega arith) ∙ at, reads)

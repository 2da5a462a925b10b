-- ===== src/Vm/Errors.antt =====
-- quickjs/qjs.c: how an exception is printed, `js_dump_obj`, `js_std_dump_error1` and
-- `js_std_dump_error`; and `printf` at the end of include/c-stdlib/src/printf_impl.c. The library
-- behind it, `vsnprintf`, is a parameter.
use ckb_js.Prelude.{
  ℕ, ◌-◌, ◌≤◌, ◌≡◌, refl, sym, ap, Bool, not, Option, none, some, List, [], ◌∷◌, ◌++◌, ◌&&◌,
  if◌then◌else◌, arith, length, take, length-take, All, inl, inr, Bool-cases,
}
use mathlib.Core.Path.{subst}
use ckb_js.Prelude.Int.{ℤ, pos}
use ckb_js.CellFs.{CString}

-- `CKB_C_STDLIB_PRINTF_BUFFER_SIZE`.
abbrev pub printf_buffer_size : ℕ
printf_buffer_size = 2048

-- What `js_dump_obj` prints with.
pub data Format : Type 0 where
  -- "%s" and a string
  as_string : CString → Format
  -- a text without arguments
  plain : CString → Format

abbrev pub rendered : Format → CString
rendered (as_string s) = s
rendered (plain s) = s

-- "[exception]" and "stack".
abbrev pub exception_text : CString
exception_text = b'[' ∷ b'e' ∷ b'x' ∷ b'c' ∷ b'e' ∷ b'p' ∷ b't' ∷ b'i' ∷ b'o' ∷ b'n' ∷ b']' ∷ []

abbrev pub stack_name : CString
stack_name = b's' ∷ b't' ∷ b'a' ∷ b'c' ∷ b'k' ∷ []

-- The engine's functions on an exception; each may change the engine's state.
pub record Exceptions (S V : Type 0) : Type 0 where
  pub get_exception : S → V × S
  pub is_error : V → S → Bool
  -- `none` is NULL
  pub to_cstring : V → S → Option CString × S
  pub get_property_str : V → CString → S → V × S
  pub is_undefined : V → Bool

-- `vsnprintf` writes the text into the buffer, cut to leave room for the NUL, and gives its length.
pub record IsVsnprintf (vsnprintf : (size : ℕ) → Format → CString × ℤ) : Type 0 where
  pub text : (size : ℕ) (f : Format) → (vsnprintf size f).0 ≡ take (size - 1) (rendered f)
  pub count : (size : ℕ) (f : Format) → (vsnprintf size f).1 ≡ pos (length (rendered f))

module _ (vsnprintf : (size : ℕ) → Format → CString × ℤ) where
  -- The result, and the message that `ckb_debug` gets. `ckb_printf` has the same body.
  unfoldable pub printf : Format → ℤ × CString
  printf f = let (buf, ret) = vsnprintf printf_buffer_size f in (ret, buf)

  unfoldable pub ckb_printf : Format → ℤ × CString
  ckb_printf f = let (buf, ret) = vsnprintf printf_buffer_size f in (ret, buf)

  module _ {S V : Type 0} (js : Exceptions S V) where
    -- The messages, and the state.
    unfoldable pub js_dump_obj : V → S → List CString × S
    unfolding printf
    js_dump_obj val s =
        let (str, s₁) = js.to_cstring val s in
        elim str [
          | some text ↦ ((printf (as_string text)).1 ∷ [], s₁)
          | none ↦ ((printf (plain exception_text)).1 ∷ [], s₁)
        ]

    unfoldable pub js_std_dump_error1 : V → S → List CString × S
    unfolding js_dump_obj
    js_std_dump_error1 exception_val s =
        let is_error = js.is_error exception_val s in
        let (first, s₁) = js_dump_obj exception_val s in
        let (val, s₂) = js.get_property_str exception_val stack_name s₁ in
        let (second, s₃) = js_dump_obj val s₂ in
        if is_error
        then if js.is_undefined val then (first, s₂) else (first ++ second, s₃)
        else (first, s₁)

    unfoldable pub js_std_dump_error : S → List CString × S
    unfolding js_std_dump_error1
    js_std_dump_error s =
        let (exception_val, s₁) = js.get_exception s in js_std_dump_error1 exception_val s₁

-- What a value's text is, where one that does not convert is an exception.
abbrev pub shown : Option CString → CString
shown (some s) = s
shown none = exception_text

abbrev pub cut_text : CString → CString
cut_text s = take 2047 s

module _ (vsnprintf : (size : ℕ) → Format → CString × ℤ) (v : IsVsnprintf vsnprintf) {S V : Type 0}
    (js : Exceptions S V) where
  js_dump_obj_lem :
      (val : V) (s : S)
      → js_dump_obj vsnprintf js val s
        ≡ (cut_text (shown (js.to_cstring val s).0) ∷ [], (js.to_cstring val s).1)
  unfolding js_dump_obj printf
  js_dump_obj_lem val s = by_cases (js.to_cstring val s)
    where
      by_cases :
          (r : Option CString × S)
          → (elim r.0 as (λ o. List CString × S) [
            | some text ↦ ((vsnprintf 2048 (as_string text)).0 ∷ [], r.1)
            | none ↦ ((vsnprintf 2048 (plain exception_text)).0 ∷ [], r.1)
          ])
            ≡ (cut_text (shown r.0) ∷ [], r.1)
      by_cases (some text, s₁) = ap (λ m. (m ∷ [], s₁)) (v.text 2048 (as_string text))
      by_cases (none, s₁) = ap (λ m. (m ∷ [], s₁)) (v.text 2048 (plain exception_text))

  -- What was thrown, its text, and the text of its stack.
  abbrev pub thrown : S → V
  thrown s = (js.get_exception s).0

  abbrev pub own_text : S → Option CString × S
  own_text s = js.to_cstring (thrown s) (js.get_exception s).1

  abbrev pub stack : S → V × S
  stack s = js.get_property_str (thrown s) stack_name (own_text s).1

  abbrev pub stack_text : S → Option CString × S
  stack_text s = js.to_cstring (stack s).0 (stack s).1

  abbrev pub has_stack : S → Bool
  has_stack s = js.is_error (thrown s) (js.get_exception s).1 && not (js.is_undefined (stack s).0)

  abbrev pub dumped : S → List CString
  dumped s =
      if has_stack s
      then cut_text (shown (own_text s).0) ∷ cut_text (shown (stack_text s).0) ∷ []
      else cut_text (shown (own_text s).0) ∷ []

  short : (t : CString) → length (cut_text t) ≤ 2047
  short t = omega (arith, length-take 2047 t)

  dumped_short : (s : S) → All (λ m. length m ≤ 2047) (dumped s)
  dumped_short s = elim (Bool-cases (has_stack s)) [
    | inl t ↦ rw t (short (shown (own_text s).0), (short (shown (stack_text s).0), tt))
    | inr f ↦ rw f (short (shown (own_text s).0), tt)
  ]

  -- With a `vsnprintf` that cuts the text to its buffer: `js_std_dump_error` prints the text of what
  -- was thrown, and, if that is an error that has a stack, the text of the stack as a second
  -- message; a value that does not convert prints as "[exception]". Each message has at most 2047
  -- bytes, to which it is cut.
  pub js_std_dump_error-dumped :
      (s : S)
      → ((js_std_dump_error vsnprintf js s).0 ≡ dumped s)
        × All (λ m. length m ≤ 2047) (js_std_dump_error vsnprintf js s).0
  unfolding js_std_dump_error js_std_dump_error1
  js_std_dump_error-dumped s =
      let first = js_dump_obj_lem (thrown s) (js.get_exception s).1 in
      let second = js_dump_obj_lem (stack s).0 (stack s).1 in
      let same : (js_std_dump_error vsnprintf js s).0 ≡ dumped s =
        elim (Bool-cases (js.is_error (thrown s) (js.get_exception s).1)) [
          | inl t ↦ elim (Bool-cases (js.is_undefined (stack s).0)) [
            | inl u ↦ rw (first, second, t, u) refl
            | inr u ↦ rw (first, second, t, u) refl
          ]
          | inr f ↦ rw (first, f) refl
        ] in
      (same, subst (All (λ m. length m ≤ 2047)) (sym same) (dumped_short s))

-- ===== src/Syscall.antt =====
-- quickjs/ckb_module.c: the functions of the global object `ckb`. What the JavaScript engine and
-- the virtual machine do is a parameter: the conversions of a value, and the loading system calls.
-- `Syscall` has the results, the arguments and the loading functions; `Process` has those that run
-- and describe programs, `Registry` the object itself.
use ckb_js.Prelude.{
  ℕ, zero, suc, ◌+◌, ◌-◌, ◌%◌, ◌^◌, Bool, true, false, Option, none, some, List, [], ◌∷◌, ◌++◌, ltb,
  ◌==◌, if◌then◌else◌, u32, u64, length, get_elem?, take,
}
use ckb_js.Prelude.Int.{ℤ, pos, negsuc, int32}
mod Arguments
pub mod Bindings
pub mod Constants
pub mod Partial
pub mod Process
pub mod Programs
pub mod Registry
mod Tests

-- What a binding gives to JavaScript. `out_of_bounds` is a read of `argv`, or a write of a local
-- array, behind its end; `exited` does not return.
pub data Js {ℓ} (A : Type ℓ) : Type ℓ where
  returned : A → Js A
  exception : Js A
  exited : ℤ → Js A
  out_of_bounds : Js A

infixl 5 ◌>>=◌
abbrev pub ◌>>=◌ {ℓ κ} : {A : Type ℓ} {B : Type κ} → Js A → (A → Js B) → Js B
returned a >>= f = f a
exception >>= f = exception
exited c >>= f = exited c
out_of_bounds >>= f = out_of_bounds

-- The result of a conversion that may throw.
abbrev pub converted {ℓ} : {A : Type ℓ} → Option A → Js A
converted none = exception
converted (some a) = returned a

-- `NO_VALUE`, (size_t)-1.
abbrev pub no_value : ℕ
no_value = 2 ^ 64 - 1

-- `LoadData`, but for the function pointer.
pub record LoadData : Type 0 where
  pub length : ℕ
  pub index : ℕ
  pub source : ℕ
  pub offset : ℕ
  pub field : ℕ

-- A call of a loading function: whether `addr` is a buffer or NULL, and `*len` before it. Its
-- reply: the error code, `*len` afterwards, and the bytes that it wrote to `addr`.
pub record Request : Type 0 where
  pub has_buffer : Bool
  pub len : ℕ
  pub args : LoadData

pub record Reply : Type 0 where
  pub err : ℤ
  pub len : ℕ
  pub bytes : List ℕ

abbrev pub LoadFunc : Type 0
LoadFunc = Request → Reply

-- A number or an `ArrayBuffer`.
pub data Loaded : Type 0 where
  number : ℕ → Loaded
  buffer : List ℕ → Loaded

-- `CHECK`: any code but 0 ends the function, and JavaScript sees an exception.
abbrev pub check {ℓ} : {A : Type ℓ} → ℤ → Js A → Js A
check (pos n) k = if n == 0 then k else exception
check (negsuc n) k = exception

abbrev pub check2 {ℓ} : {A : Type ℓ} → Bool → Js A → Js A
check2 b k = if b then k else exception

-- The first bytes of a buffer of uninitialised memory, `old`, to whose front bytes were written.
unfoldable pub buffer_front : (old : ℕ → ℕ) → List ℕ → ℕ → List ℕ
buffer_front old bytes zero = []
buffer_front old [] (suc n) = old 0 ∷ buffer_front (λ i. old (i + 1)) [] n
buffer_front old (b ∷ bytes) (suc n) = b ∷ buffer_front (λ i. old (i + 1)) bytes n

-- What the memory of the process offers: which sizes `malloc` grants, and what it finds there.
pub record Memory : Type 0 where
  pub grants : ℕ → Bool
  pub old : ℕ → ℕ

-- A `size_t` from an `int`.
abbrev pub size_of_int : ℤ → ℕ
size_of_int (pos n) = n
size_of_int (negsuc n) = 2 ^ 64 - 1 - n

-- The part of `syscall_load` behind the size query: the call with a buffer, and the result.
unfoldable pub load_bytes : Memory → LoadFunc → LoadData → Js Loaded
load_bytes m func d = check2 (m.grants d.length) (
    check reply.err
      (returned (buffer (buffer_front m.old reply.bytes (size_of_int (int32 real_len))))))
  where
    reply : Reply
    reply = func (record { has_buffer = true; len = d.length; args = d })

    real_len : ℕ
    real_len = if ltb reply.len d.length then reply.len else d.length

-- `syscall_load`. Each query passes `data->length`, whatever it is, as `*len`.
unfoldable pub syscall_load : Memory → LoadFunc → LoadData → Js Loaded
syscall_load m func given =
    if d.length == 0
    then check queried.err (returned (number (u32 queried.len)))
    else if d.length == no_value
    then check queried.err (load_bytes m func (record d { length = queried.len }))
    else load_bytes m func d
  where
    d : LoadData
    d = record given { offset = if given.offset == no_value then 0 else given.offset }

    queried : Reply
    queried = func (record { has_buffer = false; len = d.length; args = d })

-- A call from JavaScript: the engine makes as many arguments readable as were passed, or as the
-- function declares, whichever is more, the missing ones as `undefined`.
abbrev pub readable :
    {Value : Type 0} → (undefined_value : Value) → (arity : ℕ) → List Value → List Value
readable undefined_value zero args = args
readable undefined_value (suc n) [] = undefined_value ∷ readable undefined_value n []
readable undefined_value (suc n) (a ∷ args) = a ∷ readable undefined_value n args

module _ {Value : Type 0} (to_int64 : Value → Option ℕ) where
  -- `JS_ToInt64(ctx, …, argv[i])`.
  unfoldable pub int64_arg : List Value → ℕ → Js ℕ
  int64_arg argv i = elim (get_elem? argv i) [
    | none ↦ out_of_bounds
    | some v ↦ converted (to_int64 v)
  ]

  -- An optional argument: converted if `argc` says that it is there.
  unfoldable pub optional_arg : (argc : ℕ) → List Value → ℕ → Js ℕ
  unfolding int64_arg
  optional_arg argc argv i = if ltb i argc then int64_arg argv i else returned no_value

  unfoldable pub parse_args : (has_field : Bool) → (argc : ℕ) → List Value → Js LoadData
  parse_args has_field argc argv = do
    index ← int64_arg argv 0
    source ← int64_arg argv 1
    field ← (if has_field then optional_arg argc argv 2 else returned no_value)
    let var_arg_index : ℕ = if has_field then 3 else 2
    length ← optional_arg argc argv var_arg_index
    offset ← optional_arg argc argv (var_arg_index + 1)
    returned
        (record { length = length; index = index; source = source; offset = offset; field = field })

  -- A loading function that takes arguments, called from JavaScript.
  abbrev pub load_called :
      (undefined_value : Value) (arity : ℕ) (has_field : Bool)
      → Memory
      → LoadFunc
      → List Value
      → Js Loaded
  load_called undefined_value arity has_field m func args = do
    d ← parse_args has_field (length args) (readable undefined_value arity args)
    syscall_load m func d

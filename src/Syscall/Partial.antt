-- ===== src/Syscall/Partial.antt =====
-- `syscall_load` over a system call with partial loading gives what docs/syscalls.md promises.
use native.Mathlib.Nat.{mod-eq_of_lt}
use ckb_js.Prelude.{
  Bool, ℕ, zero, suc, ◌+◌, ◌-◌, ◌^◌, ◌<◌, ◌≡◌, ◌≢◌, inl, inr, refl, sym, ap, ◌∙◌, true, false,
  Option, none, some, List, [], ◌∷◌, arith, ltb, ◌==◌, if◌then◌else◌, length, take, drop, min,
  length-take, length-drop, take_all, Bool-cases,
}
use ckb_js.Prelude.Int.{ℤ, pos, negsuc, int32}
use ckb_js.Syscall.{
  Reply, Js, returned, exception, Loaded, number, buffer, no_value, LoadData, Request, LoadFunc,
  Memory, buffer_front, size_of_int, load_bytes, syscall_load, check,
}

-- The documented behaviour of a loading system call (RFC 9 of the network), over the items that
-- it serves: an error where there is none, and otherwise the size from the offset on in `*len`,
-- with as many bytes from the offset on as `*len` asked for in the buffer.
pub record IsPartialLoad (func : LoadFunc) (item : (index source field : ℕ) → Option (List ℕ))
    : Type 0 where
  pub absent :
      (r : Request) → item r.args.index r.args.source r.args.field ≡ none → (func r).err ≢ pos 0
  pub no_error :
      (r : Request) (bytes : List ℕ)
      → item r.args.index r.args.source r.args.field ≡ some bytes
      → (func r).err ≡ pos 0
  pub size :
      (r : Request) (bytes : List ℕ)
      → item r.args.index r.args.source r.args.field ≡ some bytes
      → (func r).len ≡ length bytes - r.args.offset
  pub front :
      (r : Request) (bytes : List ℕ)
      → item r.args.index r.args.source r.args.field ≡ some bytes
      → r.has_buffer ≡ true
      → (func r).bytes ≡ take r.len (drop r.args.offset bytes)

-- A system call by its arguments: without an index, with index and source, and with a field.
abbrev pub by_offset : ((has_buffer : Bool) → (len offset : ℕ) → Reply) → LoadFunc
by_offset ckb r = ckb r.has_buffer r.len r.args.offset

abbrev pub by_index : ((has_buffer : Bool) → (len offset index source : ℕ) → Reply) → LoadFunc
by_index ckb r = ckb r.has_buffer r.len r.args.offset r.args.index r.args.source

abbrev pub by_field : ((has_buffer : Bool) → (len offset index source field : ℕ) → Reply) → LoadFunc
by_field ckb r = ckb r.has_buffer r.len r.args.offset r.args.index r.args.source r.args.field

-- The promise of docs/syscalls.md, "Partial Loading".
abbrev pub start : LoadData → ℕ
start d = if d.offset == no_value then 0 else d.offset

abbrev pub promised : Option (List ℕ) → LoadData → Js Loaded
promised none d = exception
promised (some bytes) d =
    let rest = drop (start d) bytes in
    if d.length == 0
    then returned (number (length rest))
    else if d.length == no_value
    then returned (buffer rest)
    else returned (buffer (take d.length rest))

-- The size of the buffer that a load asks `malloc` for.
abbrev pub buffer_size : List ℕ → LoadData → ℕ
buffer_size bytes d = if d.length == no_value then length (drop (start d) bytes) else d.length

buffer_front_all :
    (old : ℕ → ℕ) (bytes : List ℕ) (n : ℕ) → n ≡ length bytes → buffer_front old bytes n ≡ bytes
unfolding buffer_front
buffer_front_all old [] zero e = refl
buffer_front_all old [] (suc n) e = absurd (omega arith)
buffer_front_all old (b ∷ bytes) zero e = absurd (omega arith)
buffer_front_all old (b ∷ bytes) (suc n) e =
    ap (λ r. b ∷ r) (buffer_front_all (λ i. old (i + 1)) bytes n (omega arith))

-- The length of the result, through `int`.
real_len-min : (a n : ℕ) → a < 2 ^ 31 → size_of_int (int32 (if ltb a n then a else n)) ≡ min n a
real_len-min a n h = ground arith

length-rest : (n k : ℕ) (bytes : List ℕ) → length (take n (drop k bytes)) ≡ min n (length bytes - k)
length-rest n k bytes = omega (arith, length-take n (drop k bytes), length-drop k bytes)

check-eq_ok : (err : ℤ) (k : Js Loaded) → err ≡ pos 0 → check err k ≡ k
check-eq_ok err k e = rw e

check-eq_exception : (err : ℤ) (k : Js Loaded) → err ≢ pos 0 → check err k ≡ exception
check-eq_exception (pos n) k h = ground arith
check-eq_exception (negsuc n) k h = refl

module _ (m : Memory) {func : LoadFunc} {item : (index source field : ℕ) → Option (List ℕ)}
    (p : IsPartialLoad func item) where
  -- The call with a buffer, at an offset that is given.
  load_bytes-take :
      (d : LoadData) (bytes : List ℕ)
      → item d.index d.source d.field ≡ some bytes
      → length bytes < 2 ^ 31
      → m.grants d.length ≡ true
      → load_bytes m func d ≡ returned (buffer (take d.length (drop d.offset bytes)))
  unfolding load_bytes
  load_bytes-take d bytes e small granted =
      let r : Request = record { has_buffer = true; len = d.length; args = d } in
      rw (granted, p.no_error r bytes e, p.size r bytes e, p.front r bytes e refl)
        (ap (λ l. returned (buffer l))
          (buffer_front_all m.old (take d.length (drop d.offset bytes)) _ (
            real_len-min (length bytes - d.offset) d.length (omega arith)
            ∙ sym (length-rest d.length d.offset bytes))))

  present_lem :
      (d : LoadData) (bytes : List ℕ)
      → item d.index d.source d.field ≡ some bytes
      → length bytes < 2 ^ 31
      → m.grants (buffer_size bytes d) ≡ true
      → syscall_load m func d ≡ promised (some bytes) d
  unfolding syscall_load
  present_lem d bytes e small granted = elim (Bool-cases (d.length == 0)) [
    | inl size_only ↦
        rw (size_only, p.no_error query bytes e, p.size query bytes e)
          (ap (λ n. returned (number n))
            (mod-eq_of_lt {n = length bytes - start d} {m = 2 ^ 32} (omega arith)
              ∙ sym (length-drop (start d) bytes)))
    | inr some_bytes ↦ elim (Bool-cases (d.length == no_value)) [
      | inl all ↦
          rw (some_bytes, all, p.no_error query bytes e, p.size query bytes e)
            (load_bytes-take (record d { length = left; offset = start d }) bytes e small
                (rw (sym (length-drop (start d) bytes)) (rw all at granted))
              ∙ ap (λ l. returned (buffer l))
                  (take_all left (drop (start d) bytes)
                    (omega (arith, length-drop (start d) bytes))))
      | inr limited ↦
          rw (some_bytes, limited)
            (load_bytes-take (record d { offset = start d }) bytes e small (rw limited at granted))
    ]
  ]
    where
      left : ℕ
      left = length bytes - start d

      query : Request
      query = record { has_buffer = false; len = d.length; args = record d { offset = start d } }

  absent_lem :
      (d : LoadData) → item d.index d.source d.field ≡ none → syscall_load m func d ≡ exception
  unfolding syscall_load load_bytes
  absent_lem d e = elim (Bool-cases (d.length == 0)) [
    | inl size_only ↦ rw size_only (check-eq_exception _ _ (p.absent query e))
    | inr some_bytes ↦ elim (Bool-cases (d.length == no_value)) [
      | inl all ↦ rw (some_bytes, all) (check-eq_exception _ _ (p.absent query e))
      | inr limited ↦
          rw (some_bytes, limited)
            (elim (Bool-cases (m.grants d.length)) [
              | inl granted ↦ rw granted (check-eq_exception _ _ (p.absent with_buffer e))
              | inr refused ↦ rw refused
            ])
    ]
  ]
    where
      query : Request
      query = record { has_buffer = false; len = d.length; args = record d { offset = start d } }

      with_buffer : Request
      with_buffer = record query { has_buffer = true }

-- What `malloc` must grant for a load to succeed: the size of the buffer, where there is one.
abbrev pub Grants : Memory → Option (List ℕ) → LoadData → Type 0
Grants m none d = Unit
Grants m (some bytes) d = m.grants (buffer_size bytes d) ≡ true

abbrev pub IsSmall : Option (List ℕ) → Type 0
IsSmall none = Unit
IsSmall (some bytes) = length bytes < 2 ^ 31

-- Over a system call with the documented partial loading, `syscall_load` gives what the
-- documentation promises, for an item below 2 GB whose buffer `malloc` grants: an exception if
-- the item is absent; with the length 0 the number of bytes from the offset on; with no length
-- all of them; and with another length at most as many of them, from the offset on. A missing
-- offset counts as 0.
pub syscall_load-promised :
    (m : Memory) {func : LoadFunc} {item : (index source field : ℕ) → Option (List ℕ)}
    → IsPartialLoad func item
    → (d : LoadData) → IsSmall (item d.index d.source d.field)
    → Grants m (item d.index d.source d.field) d
    → syscall_load m func d ≡ promised (item d.index d.source d.field) d
syscall_load-promised m {func} {item} p d small granted =
    go (item d.index d.source d.field) refl small granted
  where
    go :
        (o : Option (List ℕ))
        → item d.index d.source d.field ≡ o
        → IsSmall o
        → Grants m o d
        → syscall_load m func d ≡ promised o d
    go none e s g = absent_lem m p d e
    go (some bytes) e s g = present_lem m p d bytes e s g

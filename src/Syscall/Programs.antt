-- ===== src/Syscall/Programs.antt =====
-- What `exec_cell` and `spawn_cell` pass on.
use Prim.Native.String.{String}
use ckb_js.Prelude.{
  ℕ, suc, ◌+◌, ◌<◌, ◌≤◌, ◌≡◌, ◌⊎◌, refl, true, false, some, List, [], ◌∷◌, map, arith, u8, sub64,
  length, inl, inr,
}
use ckb_js.Prelude.Int.{pos, int8, int32, bits32}
use ckb_js.Syscall.{returned, out_of_bounds, check, Memory, buffer_front}
use ckb_js.Syscall.Process.{
  Conversions, SpawnCall, SpawnReply, pass_argv, code_hash_arg, syscall_exec_cell, get_property,
  syscall_spawn_cell,
}

argc_4 : (n : ℕ) → n ≤ 256 → int32 (sub64 (suc (suc (suc (suc n)))) 4) ≡ pos n
argc_4 n h = ground arith

argc_3 : (n : ℕ) → n ≤ 256 → int32 (sub64 (suc (suc (suc n))) 3) ≡ pos n
argc_3 n h = ground arith

module _ {Value : Type 0} (js : Conversions Value) where
  pass_argv-map :
      (k : ℕ) (vs : List Value)
      → k + length vs ≤ 256
      → pass_argv js k vs ≡ returned (map js.to_cstring vs)
  unfolding pass_argv
  pass_argv-map k [] h = refl
  pass_argv-map k (v ∷ vs) h = ground (arith, pass_argv-map (k + 1) vs)

  pass_argv-out_of_bounds :
      (k : ℕ) (vs : List Value) → 256 < k + length vs → k ≤ 256 → pass_argv js k vs ≡ out_of_bounds
  unfolding pass_argv
  pass_argv-out_of_bounds k [] h i = absurd (omega arith)
  pass_argv-out_of_bounds k (v ∷ vs) h i = ground (arith, pass_argv-out_of_bounds (k + 1) vs)

  -- The four leading arguments of `exec_cell` and what they convert to.
  pub record ExecArgs (hash hash_type offset size : Value) (c : List ℕ) (t o l : ℕ) : Type 0 where
    pub array : js.typed_array hash ≡ some (some c)
    pub is_hash : length c ≡ 32
    pub type_of : js.to_uint32 hash_type ≡ some t
    pub offset_of : js.to_uint32 offset ≡ some o
    pub size_of : js.to_uint32 size ≡ some l

  -- `exec_cell` with a code hash of 32 bytes, convertible numbers and at most 256 more arguments
  -- hands over the hash, the numbers (the hash type as a byte), and exactly those arguments, in
  -- order and counted.
  pub exec_cell_passes :
      {hash hash_type offset size : Value} {c : List ℕ} {t o l : ℕ} (rest : List Value)
      → ExecArgs hash hash_type offset size c t o l
      → length rest ≤ 256
      → syscall_exec_cell js (hash ∷ hash_type ∷ offset ∷ size ∷ rest)
        ≡ returned (record {
          code_hash = c;
          hash_type = u8 t;
          offset = o;
          length = l;
          argc = pos (length rest);
          argv = map js.to_cstring rest;
        })
  unfolding syscall_exec_cell code_hash_arg
  exec_cell_passes rest a h = rw (
    a.array,
    a.is_hash,
    a.type_of,
    a.offset_of,
    a.size_of,
    pass_argv-map 0 rest (omega arith),
    argc_4 (length rest) h,
  )

  -- With more than 256 arguments behind the first four it writes behind the end of its array of
  -- 256 pointers, whatever those arguments are.
  pub exec_cell_overflows :
      {hash hash_type offset size : Value} {c : List ℕ} {t o l : ℕ} (rest : List Value)
      → ExecArgs hash hash_type offset size c t o l
      → 256 < length rest
      → syscall_exec_cell js (hash ∷ hash_type ∷ offset ∷ size ∷ rest) ≡ out_of_bounds
  unfolding syscall_exec_cell code_hash_arg
  exec_cell_overflows rest a h = rw (
    a.array,
    a.is_hash,
    a.type_of,
    a.offset_of,
    a.size_of,
    pass_argv-out_of_bounds 0 rest (omega arith) (omega arith),
  )

  -- What a property of the spawn arguments says: nothing, so that the default holds, or a number.
  abbrev pub Says : Value → String → (default n : ℕ) → Type 0
  Says obj prop default n =
      (v : Value) × (js.property obj prop ≡ some v)
      × (((js.is_undefined v ≡ true) × (n ≡ default))
          ⊎ ((js.is_undefined v ≡ false) × (js.to_int64 v ≡ some n)))

  get_property-Says :
      (obj : Value) (prop : String) (default n : ℕ)
      → Says obj prop default n
      → get_property js obj prop default ≡ returned n
  unfolding get_property
  get_property-Says obj prop default n (v, e, inl (u, d)) = rw (e, u, d)
  get_property-Says obj prop default n (v, e, inr (u, d)) = rw (e, u, d)

  -- The leading arguments of `spawn_cell` and what they say.
  pub record SpawnArgs (hash hash_type obj : Value) (c : List ℕ) (t limit o l n : ℕ) : Type 0 where
    pub array : js.typed_array hash ≡ some (some c)
    pub is_hash : length c ≡ 32
    pub type_of : js.to_uint32 hash_type ≡ some t
    pub content_length : Says obj "content_length" 0 n
    pub memory_limit : Says obj "memory_limit" 8 limit
    pub offset_of : Says obj "offset" 0 o
    pub size_of : Says obj "length" 0 l

  -- The call that `spawn_cell` makes.
  abbrev pub spawn_call : (c : List ℕ) (t limit o l n : ℕ) → List Value → SpawnCall
  spawn_call c t limit o l n rest = record {
    exec = record {
      code_hash = c;
      hash_type = u8 t;
      offset = o;
      length = l;
      argc = pos (length rest);
      argv = map js.to_cstring rest;
    };
    memory_limit = limit;
    content_length = n;
  }

  -- `spawn_cell` with a code hash of 32 bytes, a convertible hash type, spawn arguments that say
  -- numbers or nothing (then 0, or 8 for the memory limit) and at most 256 more arguments, where
  -- `malloc` grants the content buffer: it spawns with exactly these. If that succeeds, it returns
  -- the exit code, sign-extended to 32 bits, and as much of the content buffer as the child's
  -- length says; if it fails, it throws.
  pub spawn_cell_passes :
      {hash hash_type obj : Value} {c : List ℕ} {t limit o l n : ℕ} (m : Memory)
      (spawn : SpawnCall → SpawnReply) (rest : List Value)
      → SpawnArgs hash hash_type obj c t limit o l n
      → length rest ≤ 256
      → m.grants n ≡ true
      → let reply = spawn (spawn_call c t limit o l n rest) in
        syscall_spawn_cell js m true spawn (hash ∷ hash_type ∷ obj ∷ rest)
        ≡ check reply.err (
            returned (record {
              exit_code = bits32 (int8 reply.exit_code);
              content = buffer_front m.old reply.content reply.content_length;
            }))
  unfolding syscall_spawn_cell code_hash_arg
  spawn_cell_passes {obj} {limit} {o} {l} {n} m spawn rest a h granted = rw (
    a.array,
    a.is_hash,
    a.type_of,
    get_property-Says obj "content_length" 0 n a.content_length,
    get_property-Says obj "memory_limit" 8 limit a.memory_limit,
    get_property-Says obj "offset" 0 o a.offset_of,
    get_property-Says obj "length" 0 l a.size_of,
    pass_argv-map 0 rest (omega arith),
    argc_3 (length rest) h,
    granted,
  )

-- ===== src/Syscall/Arguments.antt =====
-- The loading functions as JavaScript calls them.
use ckb_js.Prelude.{
  ℕ, ◌≡◌, refl, ◌∙◌, Bool, true, false, Option, none, some, List, [], ◌∷◌, arith, length, get_or,
  take,
}
use ckb_js.Syscall.{
  Js, returned, exception, out_of_bounds, Loaded, buffer, no_value, LoadData, LoadFunc, Memory,
  readable, int64_arg, optional_arg, parse_args, syscall_load, load_called,
}
use ckb_js.Syscall.Partial.{
  by_offset, by_index, by_field, IsPartialLoad, promised, Grants, IsSmall, syscall_load-promised,
}
use ckb_js.Syscall.Bindings.{
  PlainLoad, IndexedLoad, FieldLoad, load_plain, load_indexed, load_by_field, hash_data,
  syscall_load_tx_hash, syscall_load_script_hash, syscall_load_transaction, syscall_load_script,
  syscall_load_cell, syscall_load_input, syscall_load_header, syscall_load_witness,
  syscall_load_cell_data, syscall_load_cell_by_field, syscall_load_header_by_field,
  syscall_load_input_by_field,
}

module _ {Value : Type 0} (undefined_value : Value) (to_int64 : Value → Option ℕ) where
  -- Each value converts to the number beside it.
  abbrev pub Converts : List Value → List ℕ → Type 0
  Converts [] [] = Unit
  Converts [] (_ ∷ _) = ⊥
  Converts (_ ∷ _) [] = ⊥
  Converts (v ∷ vs) (n ∷ ns) = (to_int64 v ≡ some n) × Converts vs ns

  -- What the trailing arguments `length` and `offset` say; the ones that are missing are not given.
  abbrev pub request : (index source field : ℕ) → List ℕ → LoadData
  request index source field given = record {
    length = get_or given 0 no_value;
    index = index;
    source = source;
    offset = get_or given 1 no_value;
    field = field;
  }

  parse_args-indexed :
      (index source : Value) (rest : List Value) (i s : ℕ) (given : List ℕ)
      → Converts (index ∷ source ∷ rest) (i ∷ s ∷ given)
      → parse_args to_int64 false
          (length (index ∷ source ∷ rest))
          (readable undefined_value 3 (index ∷ source ∷ rest))
        ≡ returned (request i s no_value given)
  unfolding parse_args optional_arg int64_arg
  parse_args-indexed index source [] i s [] (ei, (es, _)) = ground (arith, ei, es)
  parse_args-indexed index source [] i s (_ ∷ _) (ei, (es, h)) = absurd h
  parse_args-indexed index source (_ ∷ _) i s [] (ei, (es, h)) = absurd h
  parse_args-indexed index source (l ∷ []) i s (n ∷ []) (ei, (es, (el, _))) =
      ground (arith, ei, es, el)
  parse_args-indexed index source (l ∷ []) i s (n ∷ _ ∷ _) (ei, (es, (el, h))) = absurd h
  parse_args-indexed index source (l ∷ _ ∷ _) i s (n ∷ []) (ei, (es, (el, h))) = absurd h
  parse_args-indexed index source (l ∷ o ∷ more) i s (n ∷ k ∷ ns) (ei, (es, (el, (eo, _)))) =
      ground (arith, ei, es, el, eo)

  parse_args-field :
      (index source field : Value) (rest : List Value) (i s f : ℕ) (given : List ℕ)
      → Converts (index ∷ source ∷ field ∷ rest) (i ∷ s ∷ f ∷ given)
      → parse_args to_int64 true
          (length (index ∷ source ∷ field ∷ rest))
          (readable undefined_value 4 (index ∷ source ∷ field ∷ rest))
        ≡ returned (request i s f given)
  unfolding parse_args optional_arg int64_arg
  parse_args-field index source field [] i s f [] (ei, (es, (ef, _))) = ground (arith, ei, es, ef)
  parse_args-field index source field [] i s f (_ ∷ _) (ei, (es, (ef, h))) = absurd h
  parse_args-field index source field (_ ∷ _) i s f [] (ei, (es, (ef, h))) = absurd h
  parse_args-field index source field (l ∷ []) i s f (n ∷ []) (ei, (es, (ef, (el, _)))) =
      ground (arith, ei, es, ef, el)
  parse_args-field index source field (l ∷ []) i s f (n ∷ _ ∷ _) (ei, (es, (ef, (el, h)))) =
      absurd h
  parse_args-field index source field (l ∷ _ ∷ _) i s f (n ∷ []) (ei, (es, (ef, (el, h)))) =
      absurd h
  parse_args-field index source field (l ∷ o ∷ more) i s f (n ∷ k ∷ ns)
        (ei, (es, (ef, (el, (eo, _))))) =
      ground (arith, ei, es, ef, el, eo)

  module _ (m : Memory) where
    -- A load whose arguments convert does what `syscall_load` does with their values.
    load_called-promised :
        {func : LoadFunc} {item : (index source field : ℕ) → Option (List ℕ)} (arity : ℕ)
        (has_field : Bool) (args : List Value) (d : LoadData)
        → IsPartialLoad func item
        → parse_args to_int64 has_field (length args) (readable undefined_value arity args)
          ≡ returned d
        → IsSmall (item d.index d.source d.field)
        → Grants m (item d.index d.source d.field) d
        → load_called to_int64 undefined_value arity has_field m func args
          ≡ promised (item d.index d.source d.field) d
    load_called-promised arity has_field args d p e small granted =
        rw e (syscall_load-promised m p d small granted)

    -- The five functions that take an index and a source, called with these, and perhaps a length,
    -- an offset and more, all convertible, over a system call with documented partial loading:
    -- each gives what the documentation promises of that item, length and offset, if the item is
    -- below 2 GB and `malloc` grants its buffer.
    pub indexed_loads_promised :
        (ckb : IndexedLoad) {item : (index source field : ℕ) → Option (List ℕ)}
        (index source : Value) (rest : List Value) (i s : ℕ) (given : List ℕ)
        → IsPartialLoad (by_index ckb) item
        → Converts (index ∷ source ∷ rest) (i ∷ s ∷ given)
        → IsSmall (item i s no_value)
        → Grants m (item i s no_value) (request i s no_value given)
        → let args = index ∷ source ∷ rest in
          let result = promised (item i s no_value) (request i s no_value given) in
          (syscall_load_cell undefined_value to_int64 m ckb args ≡ result)
          × (syscall_load_input undefined_value to_int64 m ckb args ≡ result)
          × (syscall_load_header undefined_value to_int64 m ckb args ≡ result)
          × (syscall_load_witness undefined_value to_int64 m ckb args ≡ result)
          × (syscall_load_cell_data undefined_value to_int64 m ckb args ≡ result)
    unfolding syscall_load_cell syscall_load_input syscall_load_header syscall_load_witness
        syscall_load_cell_data
    indexed_loads_promised ckb {item} index source rest i s given p c small granted =
        (loaded, loaded, loaded, loaded, loaded)
      where
        loaded :
            load_called to_int64 undefined_value 3 false m
              (load_indexed ckb)
              (index ∷ source ∷ rest)
            ≡ promised (item i s no_value) (request i s no_value given)
        loaded =
            load_called-promised 3 false (index ∷ source ∷ rest) (request i s no_value given) p
              (parse_args-indexed index source rest i s given c) small granted

    -- The three functions that take a field as well, likewise.
    pub field_loads_promised :
        (ckb : FieldLoad) {item : (index source field : ℕ) → Option (List ℕ)}
        (index source field : Value) (rest : List Value) (i s f : ℕ) (given : List ℕ)
        → IsPartialLoad (by_field ckb) item
        → Converts (index ∷ source ∷ field ∷ rest) (i ∷ s ∷ f ∷ given)
        → IsSmall (item i s f)
        → Grants m (item i s f) (request i s f given)
        → let args = index ∷ source ∷ field ∷ rest in
          let result = promised (item i s f) (request i s f given) in
          (syscall_load_cell_by_field undefined_value to_int64 m ckb args ≡ result)
          × (syscall_load_header_by_field undefined_value to_int64 m ckb args ≡ result)
          × (syscall_load_input_by_field undefined_value to_int64 m ckb args ≡ result)
    unfolding syscall_load_cell_by_field syscall_load_header_by_field syscall_load_input_by_field
    field_loads_promised ckb {item} index source field rest i s f given p c small granted =
        (loaded, loaded, loaded)
      where
        loaded :
            load_called to_int64 undefined_value 4 true m
              (load_by_field ckb)
              (index ∷ source ∷ field ∷ rest)
            ≡ promised (item i s f) (request i s f given)
        loaded =
            load_called-promised 4 true (index ∷ source ∷ field ∷ rest) (request i s f given) p
              (parse_args-field index source field rest i s f given c) small granted

    -- Called as the documentation shows, with no argument, or with one that converts,
    -- `load_transaction` and `load_script` read the source from behind the end of the arguments,
    -- whatever the system call does: they are registered for one argument and read two.
    pub short_call_out_of_bounds :
        (ckb : PlainLoad) (v : Value) (n k : ℕ)
        → to_int64 undefined_value ≡ some n
        → to_int64 v ≡ some k
        → (syscall_load_transaction undefined_value to_int64 m ckb [] ≡ out_of_bounds)
          × (syscall_load_script undefined_value to_int64 m ckb [] ≡ out_of_bounds)
          × (syscall_load_transaction undefined_value to_int64 m ckb (v ∷ []) ≡ out_of_bounds)
          × (syscall_load_script undefined_value to_int64 m ckb (v ∷ []) ≡ out_of_bounds)
    unfolding syscall_load_transaction syscall_load_script parse_args int64_arg
    short_call_out_of_bounds ckb v n k eu ev = (rw eu, rw eu, rw ev, rw ev)

abbrev pub first_32 : Option (List ℕ) → Js Loaded
first_32 none = exception
first_32 (some bytes) = returned (buffer (take 32 bytes))

promised-first_32 : (o : Option (List ℕ)) → promised o hash_data ≡ first_32 o
promised-first_32 none = refl
promised-first_32 (some _) = refl

-- `load_tx_hash` and `load_script_hash` give the first 32 bytes of the item, with whatever
-- arguments they are called: the documented partial loading is not there.
pub hash_loads_ignore_arguments :
    (m : Memory) (ckb : PlainLoad) {item : (index source field : ℕ) → Option (List ℕ)}
    {Value : Type 0} (args : List Value)
    → IsPartialLoad (by_offset ckb) item
    → IsSmall (item 0 0 0)
    → (m.grants 32 ≡ true)
    → (syscall_load_tx_hash m ckb args ≡ first_32 (item 0 0 0))
      × (syscall_load_script_hash m ckb args ≡ first_32 (item 0 0 0))
unfolding syscall_load_tx_hash syscall_load_script_hash
hash_loads_ignore_arguments m ckb {item} args p small granted = (loaded, loaded)
  where
    granted_32 : (o : Option (List ℕ)) → Grants m o hash_data
    granted_32 none = tt
    granted_32 (some _) = granted

    loaded : syscall_load m (load_plain ckb) hash_data ≡ first_32 (item 0 0 0)
    loaded =
        syscall_load-promised m p hash_data small (granted_32 (item 0 0 0))
        ∙ promised-first_32 (item 0 0 0)

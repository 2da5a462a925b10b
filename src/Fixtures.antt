-- ===== src/Fixtures.antt =====
-- Data that the tests of several modules share: texts, memories, and a machine with one cell.
use Prim.Native.String.{String}
use Prim.Native.Char.{code}
use ckb_js.Prelude.{
  ℕ, zero, suc, ◌-◌, ◌≡◌, refl, true, Option, some, List, [], ◌∷◌, ◌++◌, ltb, ◌==◌, ◌&&◌,
  if◌then◌else◌, length, take, drop, get_or, ap,
}
use ckb_js.Prelude.Int.{pos}
use ckb_js.CellFs.{Mem, CString}
use ckb_js.Syscall.Bindings.{IndexedLoad}
use ckb_js.Syscall.Partial.{by_index, IsPartialLoad}
use ckb_js.Loader.{Chain}

abbrev pub codes : String → CString
codes String.[] = []
codes (String.◌∷◌ c s) = code c ∷ codes s

-- A memory that holds these bytes, and 0xff around them.
abbrev pub bytes_at : ℕ → List ℕ → Mem
bytes_at base bytes a = if ltb a base then 0xff else get_or bytes (a - base) 0xff

-- Every cell has these data.
abbrev pub served : List ℕ → IndexedLoad
served bytes has_buffer len offset index source = record {
  err = pos 0;
  len = length bytes - offset;
  bytes = if has_buffer then take len (drop offset bytes) else [];
}

abbrev pub item : List ℕ → (index source field : ℕ) → Option (List ℕ)
item bytes index source field = some bytes

pub served-IsPartialLoad : (bytes : List ℕ) → IsPartialLoad (by_index (served bytes)) (item bytes)
served-IsPartialLoad bytes = record {
  absent = λ r e. cc;
  no_error = λ r b e. refl;
  size = λ r b e. ap (λ (l : List ℕ). length l - r.args.offset) (same b e);
  front = λ r b e h. rw h (ap (λ (l : List ℕ). take r.len (drop r.args.offset l)) (same b e));
}
  where
    same : (b : List ℕ) → some bytes ≡ some b → bytes ≡ b
    same b e = cc

-- Two bytes, 32 bytes 9 and the byte 1 as the script's arguments, which name the dependency 4. A
-- hash of another kind, or with another first byte, names none.
abbrev repeat : ℕ → ℕ → List ℕ
repeat zero b = []
repeat (suc n) b = b ∷ repeat n b

abbrev pub loader_args : List ℕ
loader_args = 0 ∷ 0 ∷ (repeat 32 9 ++ (1 ∷ []))

abbrev pub chain : List ℕ → Chain
chain bytes = record {
  load_script = λ len. record { err = pos 0; len = length loader_args; bytes = loader_args };
  verify = λ script. true;
  script_args = λ script. script;
  look_for_dep_with_hash2 = λ code_hash hash_type.
      if hash_type == 1 && get_or code_hash 0 0 == 9
      then record { err = pos 0; index = 4 }
      else record { err = pos 1; index = 0 };
  load_cell_data = served bytes;
  source_cell_dep = 3;
}

-- ===== src/Modules.antt =====
-- quickjs/std_module.c: ES6 modules from the mounted file systems.
use ckb_js.Prelude.{
  ℕ, zero, suc, ◌+◌, ◌-◌, Bool, true, false, Option, none, some, List, [], ◌∷◌, ◌++◌, ltb, leb,
  ◌==◌, if◌then◌else◌, length, take, drop, get_or,
}
use ckb_js.Prelude.Int.{ℤ, pos, negsuc}
use ckb_js.CellFs.{Mem, CString, CellFileSystem, FsFile, ckb_get_file}
use ckb_js.CellFs.Archive.{bytes_eq}
use ckb_js.Stdio.{load_bytes}
use ckb_js.Engine.{Engine, bc_version}
pub mod Resolve
mod Tests

-- ".js" and ".bc".
abbrev pub js_suffix : CString
js_suffix = b'.' ∷ b'j' ∷ b's' ∷ []

abbrev pub bc_suffix : CString
bc_suffix = b'.' ∷ b'b' ∷ b'c' ∷ []

-- `js_load_file`: the bytes of the file, or NULL if there is none or it is empty.
abbrev pub file_bytes : Mem → Option FsFile → Option (List ℕ)
file_bytes mem none = none
file_bytes mem (some f) = if f.size == 0 then none else some (load_bytes mem f.content f.size)

unfoldable pub js_load_file : (allocated : Bool) → Mem → CellFileSystem → CString → Option (List ℕ)
js_load_file allocated mem fs filename = file_bytes mem (ckb_get_file allocated mem fs filename)

-- What the loader finds for a name: the bytes of a file, nothing, or a name that it copies behind
-- the end of its array of 256 characters.
pub data Found : Type 0 where
  found : List ℕ → Found
  not_found : Found
  overflow : Found

-- The name with its last three characters replaced, through `secend_name[256]`.
abbrev pub second_name : CString → CString
second_name name = take (length name - 3) name ++ bc_suffix

-- The first half of `js_module_loader`: the file of the name, or else that of the second name. The
-- Booleans are the outcomes of the two allocations.
unfoldable pub find_module : (first second : Bool) → Mem → CellFileSystem → CString → Found
find_module first second mem fs name = elim (js_load_file first mem fs name) [
  | some bytes ↦ found bytes
  | none ↦
      if leb (length name) 3
      then not_found
      else if bytes_eq (drop (length name - 3) name) js_suffix
      then if ltb (length name) 256
        then elim (js_load_file second mem fs (second_name name)) [
          | some bytes ↦ found bytes
          | none ↦ not_found
        ]
        else overflow
      else not_found
]

-- The result of loading a module; `crashed` is undefined behaviour.
pub data Loaded (V : Type 0) : Type 0 where
  loaded : V → Loaded V
  failed : Loaded V
  crashed : Loaded V

module _ {S V : Type 0} (js : Engine S V) (path_max : ℕ) where
  -- `js_module_set_import_meta`; `pstrcpy` cuts the name to the array of PATH_MAX + 16. The source
  -- makes no use of `use_realpath`.
  unfoldable pub js_module_set_import_meta : V → (use_realpath is_main : Bool) → S → ℤ × S
  js_module_set_import_meta v use_realpath is_main s =
      let (read, s') = js.module_name v s in
      if js.is_module v
      then elim read [
        | none ↦ (negsuc 0, s')
        | some name ↦
            let (defined, s'') = js.set_meta v (take (path_max + 15) name) is_main s' in
            (if defined then pos 0 else negsuc 0, s'')
      ]
      else (negsuc 0, s)

  -- The second half of `js_module_loader`: bytecode is read, source is compiled as a module.
  unfoldable pub load_module : CString → List ℕ → S → Loaded V × S
  unfolding js_module_set_import_meta
  load_module name bytes s =
      let (v, s') =
        if get_or bytes 0 0 == bc_version
        then js.read_object bytes s
        else js.eval bytes name true true s in
      elim v [
        | none ↦ (failed, s')
        | some m ↦ (loaded m, (js_module_set_import_meta m true false s').1)
      ]

  unfoldable pub js_module_loader :
      (first second : Bool) → Mem → CellFileSystem → CString → S → Loaded V × S
  unfolding find_module load_module
  js_module_loader first second mem fs name s = elim (find_module first second mem fs name) [
    | found bytes ↦ load_module name bytes s
    | not_found ↦ (failed, js.throw_not_found name s)
    | overflow ↦ (crashed, s)
  ]

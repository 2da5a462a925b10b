-- ===== src/Modules/Tests.antt =====
-- The loader over an archive with a script and a compiled module.
use ckb_js.Prelude.{ℕ, zero, suc, ◌≡◌, refl, true, List, [], ◌∷◌, arith}
use ckb_js.Fixtures.{codes, bytes_at}
use ckb_js.CellFs.{Mem, CString, node_at}
use ckb_js.CellFs.Archive.{File, pack, lookup, IsName, RepresentsAll}
use ckb_js.CellFs.Mount.{IsPacked, load_fs-RepresentsAll}
use ckb_js.Modules.{find_module, found, overflow, js_suffix}
use ckb_js.Modules.Resolve.{find_module-resolved, find_module_overflows}

abbrev archive : List File
archive =
    record { name = codes "a.js"; bytes = [] }
    ∷ record { name = codes "a.bc"; bytes = 2 ∷ 7 ∷ [] }
    ∷ []

abbrev mem : Mem
mem = bytes_at 64 (pack archive)

archive-IsPacked : IsPacked mem 64 archive
archive-IsPacked = record {
  not_null = refl;
  names = ground arith;
  few = omega arith;
  small = omega arith;
  packed = omega arith;
}

mounted-RepresentsAll : RepresentsAll mem (node_at mem 64 ∷ []) (archive ∷ [])
mounted-RepresentsAll = (load_fs-RepresentsAll mem [] 64 200 archive [] archive-IsPacked tt).1

-- The script is empty, so that its compiled form is found.
find_module-resolved_example :
    find_module true true mem (node_at mem 64 ∷ []) (codes "a.js") ≡ found (2 ∷ 7 ∷ [])
unfolding lookup
find_module-resolved_example =
    find_module-resolved mem (node_at mem 64 ∷ []) (archive ∷ []) mounted-RepresentsAll
      (codes "a.js") (ground arith) (omega arith)

-- A script name of n + 3 characters.
abbrev long_name : ℕ → CString
long_name zero = js_suffix
long_name (suc n) = 97 ∷ long_name n

long_name-IsName : (n : ℕ) → IsName (long_name n)
long_name-IsName zero = ground arith
long_name-IsName (suc n) = (refl, long_name-IsName n)

find_module_overflows_example : find_module true true mem [] (long_name 253) ≡ overflow
unfolding lookup
find_module_overflows_example =
    find_module_overflows mem [] [] tt (long_name 253) (long_name-IsName 253) (omega arith) refl
      refl

-- ===== src/CellFs/Tests.antt =====
-- The archive of docs/fs.md and one with two files of a name, in memory.
use ckb_js.Prelude.{◌+◌, ◌≡◌, refl, true, false, none, some, List, [], ◌∷◌, ◌++◌, arith}
use ckb_js.Prelude.Int.{pos}
use ckb_js.Fixtures.{codes, bytes_at}
use ckb_js.CellFs.{
  Mem, CellFileSystem, Allocated, read_u32, node_at, get_file, ckb_load_fs, ckb_get_file,
  ckb_reset_fs, find_file, find_entry, strcmp_eq, copy_entries, read_entry,
}
use ckb_js.CellFs.Archive.{File, pack, lookup, Represents, RepresentsAll, Serves}
use ckb_js.CellFs.Scan.{get_file_refines_lookup}
use ckb_js.CellFs.Mount.{IsPacked, all_allocated, get_file-load_fs}

abbrev archive : List File
archive =
    record { name = codes "main.js"; bytes = codes "1" }
    ∷ record { name = codes "a"; bytes = codes "xyz" }
    ∷ []

abbrev mem : Mem
mem = bytes_at 64 (pack archive)

-- The dump of docs/fs.md.
documented :
    pack (
      record { name = codes "main.js"; bytes = codes "console.log('hello world!')" ++ (10 ∷ []) }
      ∷ [])
    ≡ 1
        ∷ 0
        ∷ 0
        ∷ 0
        ∷ 0
        ∷ 0
        ∷ 0
        ∷ 0
        ∷ 8
        ∷ 0
        ∷ 0
        ∷ 0
        ∷ 8
        ∷ 0
        ∷ 0
        ∷ 0
        ∷ 0x1c
        ∷ 0
        ∷ 0
        ∷ 0
        ∷ 0x6d
        ∷ 0x61
        ∷ 0x69
        ∷ 0x6e
        ∷ 0x2e
        ∷ 0x6a
        ∷ 0x73
        ∷ 0
        ∷ codes "console.log('hello world!')"
      ++ (10 ∷ 0 ∷ [])
documented = refl

archive-IsPacked : IsPacked mem 64 archive
archive-IsPacked = record {
  not_null = refl;
  names = ground arith;
  few = omega arith;
  small = omega arith;
  packed = omega arith;
}

mounted_then_found :
    (ckb_get_file true mem (node_at mem 64 ∷ []) (codes "a")
      ≡ some (record { filename = codes "a"; content = 64 + 4 + 32 + 12; size = 3; rc = 1 }))
    × (ckb_get_file true mem (node_at mem 64 ∷ []) (codes "b") ≡ none)
    × (ckb_get_file true mem (ckb_reset_fs (node_at mem 64 ∷ [])) (codes "a") ≡ none)
unfolding ckb_get_file get_file find_file find_entry strcmp_eq node_at copy_entries read_entry
    read_u32 ckb_reset_fs
mounted_then_found = (refl, refl, refl)

get_file-load_fs_example :
    (mounted' : CellFileSystem) × (ckb_load_fs all_allocated mem [] 64 200 ≡ (pos 0, some mounted'))
    × RepresentsAll mem mounted' (archive ∷ [])
    × Serves mem (ckb_get_file true mem mounted' (codes "a")) (lookup (codes "a") (archive ++ []))
get_file-load_fs_example =
    get_file-load_fs mem [] 64 200 archive [] (codes "a") archive-IsPacked tt (ground arith)

mounted_node-Represents : Represents mem (node_at mem 64) archive
unfolding node_at copy_entries read_entry read_u32
mounted_node-Represents = record {
  count = refl;
  entries = (
    record {
      name_valid = ground arith;
      name_at = omega arith;
      size = refl;
      small = omega arith;
      bytes_at = omega arith;
    },
    (
      record {
        name_valid = ground arith;
        name_at = omega arith;
        size = refl;
        small = omega arith;
        bytes_at = omega arith;
      },
      tt,
    ),
  );
}

get_file_refines_lookup_example :
    Serves mem
      (get_file true mem (node_at mem 64 ∷ []) (codes "main.js"))
      (lookup (codes "main.js") (archive ++ []))
get_file_refines_lookup_example =
    get_file_refines_lookup mem (codes "main.js") (node_at mem 64 ∷ []) (archive ∷ [])
      (ground arith) (mounted_node-Represents, tt)

abbrev no_room : Allocated
no_room = record { node = true; newfs = true; files = false }

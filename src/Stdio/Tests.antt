-- ===== src/Stdio/Tests.antt =====
-- Streams over a file of seven bytes.
use ckb_js.Prelude.{
  ℕ, ◌≡◌, refl, true, false, none, Option, some, List, [], ◌∷◌, ◌++◌, arith, get_or, length,
}
use ckb_js.Prelude.Int.{pos, negsuc}
use ckb_js.CellFs.{Mem, CellFileSystemNode}
use ckb_js.CellFs.Archive.{File, lookup, Represents}
use ckb_js.Stdio.{
  Outcome, done, host_call, exited, undefined, Access, start_access, Stream, fopen, fread, feof,
  fseek,
}
use ckb_js.Stdio.Gate.{puts, call_stub}
use ckb_js.Stdio.Read.{with_fs_access, IsOpen, read_result, by_access, fread_lem}
use ckb_js.Stdio.Sequence.{read_all, read_all-unread}
use ckb_js.Stdio.Open.{Opens, fopen_refines_lookup}

-- The name "a" at 4 and the content 1, …, 7 at 8.
abbrev mem : Mem
mem p = get_or (0 ∷ 0 ∷ 0 ∷ 0 ∷ 97 ∷ 0 ∷ 0 ∷ 0 ∷ 1 ∷ 2 ∷ 3 ∷ 4 ∷ 5 ∷ 6 ∷ 7 ∷ []) p 0xff

abbrev node : CellFileSystemNode
node = record {
  count = 1;
  files =
      record {
        filename = record { offset = 1; length = 2 };
        content = record { offset = 5; length = 7 };
      }
      ∷ [];
  start = 3;
}

abbrev archive : List File
archive = record { name = 97 ∷ []; bytes = 1 ∷ 2 ∷ 3 ∷ 4 ∷ 5 ∷ 6 ∷ 7 ∷ [] } ∷ []

abbrev opened : Stream
opened = record { file = record { filename = 97 ∷ []; content = 8; size = 7; rc = 1 }; offset = 0 }

abbrev local : Access
local = record { local = true; fs = false }

modes :
    (fseek {A = ℕ} with_fs_access ≡ exited (negsuc 0))
    × (fseek {A = ℕ} local ≡ host_call 9011)
    × (feof local (some opened) ≡ host_call 9006)
    × (feof start_access (some opened) ≡ exited (negsuc 0))
    × (fread start_access mem 1 1 (some opened) ≡ exited (negsuc 0))
    × (call_stub {A = ℕ} puts ≡ exited (negsuc 0))
    × (fread with_fs_access mem 1 1 none ≡ exited (pos 1))
    × (fread with_fs_access mem 0 1 (some opened) ≡ undefined)
unfolding fseek feof fread call_stub
modes = (refl, refl, refl, refl, refl, refl, refl, refl)

opened-IsOpen : IsOpen opened
opened-IsOpen = omega arith

node-Represents : Represents mem node archive
node-Represents = record {
  count = refl;
  entries = (
    record {
      name_valid = ground arith;
      name_at = omega arith;
      size = refl;
      small = omega arith;
      bytes_at = omega arith;
    },
    tt,
  );
}

fopen_refines_lookup_example :
    (o : Outcome (Option Stream)) × (fopen with_fs_access true true mem (node ∷ []) (97 ∷ [])
      ≡ by_access false true 9003 o)
    × Opens mem o (lookup (97 ∷ []) (archive ++ []))
fopen_refines_lookup_example =
    fopen_refines_lookup with_fs_access mem (97 ∷ []) (node ∷ []) (archive ∷ []) (ground arith)
      (node-Represents, tt)

fread_lem_example :
    fread with_fs_access mem 3 2 (some opened)
    ≡ by_access false true 9005 (done (read_result mem 3 2 opened))
fread_lem_example = fread_lem with_fs_access mem 3 2 opened-IsOpen (omega arith) (omega arith)

read_all-unread_example :
    read_all 8 with_fs_access mem opened ≡ some (1 ∷ 2 ∷ 3 ∷ 4 ∷ 5 ∷ 6 ∷ 7 ∷ [])
read_all-unread_example = read_all-unread 8 mem opened-IsOpen (omega arith)

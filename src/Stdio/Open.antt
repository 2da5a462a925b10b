-- ===== src/Stdio/Open.antt =====
-- `fopen` and `fclose`, and reading a whole file through the C library.
use ckb_js.Prelude.{
  ℕ, ◌+◌, ◌≡◌, refl, ap, ◌∙◌, true, Option, none, some, List, [], ◌∷◌, arith, length,
}
use ckb_js.CellFs.{Mem, CString, CellFileSystem, FsFile, ckb_get_file}
use ckb_js.CellFs.Archive.{File, Holds, lookup, Serves, IsName, RepresentsAll, all_files}
use ckb_js.CellFs.Scan.{get_file_refines_lookup}
use ckb_js.Stdio.{Outcome, done, Access, Stream, load_bytes, fopen}
use ckb_js.Stdio.Read.{with_fs_access, by_access, gate-by_access, IsOpen}
use ckb_js.Stdio.Sequence.{read_all, read_all-unread}

pub Holds-load_bytes :
    (mem : Mem) (p : ℕ) (bytes : List ℕ)
    → Holds mem p bytes
    → load_bytes mem p (length bytes) ≡ bytes
Holds-load_bytes mem p [] h = refl
Holds-load_bytes mem p (b ∷ bytes) (h, hs) = cc (Holds-load_bytes mem (p + 1) bytes hs)

-- What opening gives for what the abstract file system holds: NULL for nothing, and for a content
-- an open stream at its start whose reading to the end gives that content.
abbrev pub Opens : Mem → Outcome (Option Stream) → Option (List ℕ) → Type 0
Opens mem o none = o ≡ done none
Opens mem o (some bytes) =
    (s : Stream) × (o ≡ done (some s))
    × IsOpen s
    × (s.offset ≡ 0)
    × (read_all (length bytes + 1) with_fs_access mem s ≡ some bytes)

opened-Opens :
    (mem : Mem) (fs : CellFileSystem) (path : CString) (o : Option FsFile) (r : Option (List ℕ))
    → ckb_get_file true mem fs path ≡ o
    → Serves mem o r
    → Opens mem (fopen with_fs_access true true mem fs path) r
unfolding fopen
opened-Opens mem fs path none none e h = rw (e, fopen)
opened-Opens mem fs path none (some _) e h = absurd h
opened-Opens mem fs path (some f) none e h = absurd h
opened-Opens mem fs path (some f) (some bytes) e (size, small, at, rc) = (
  s,
  rw (e, fopen),
  s-IsOpen,
  refl,
  read_all-unread (length bytes + 1) mem s-IsOpen (omega (arith, size))
      ∙ ap some (rw size (Holds-load_bytes mem f.content bytes at)),
)
  where
    s : Stream
    s = record { file = f; offset = 0 }

    s-IsOpen : IsOpen s
    s-IsOpen = record { used = rc; within = omega arith; small = small }

-- With memory to spare: under local access `fopen` passes to the debugger by the system call 9003;
-- without it and without file system access, which only `enable_fs_access` gives, it ends the
-- process with -1; with file system access alone it refines the lookup in the mounted archives: it
-- gives NULL if no file has the name, and otherwise a stream at the start of the first such file,
-- from which, with the same access, a loop of `fgetc` reads exactly the file's bytes and then EOF.
pub fopen_refines_lookup :
    (a : Access) (mem : Mem) (path : CString) (fs : CellFileSystem) (archives : List (List File))
    → IsName path
    → RepresentsAll mem fs archives
    → (o : Outcome (Option Stream)) × (fopen a true true mem fs path
        ≡ by_access a.local a.fs 9003 o)
      × Opens mem o (lookup path (all_files archives))
unfolding fopen
fopen_refines_lookup a mem path fs archives name h =
    let o = fopen with_fs_access true true mem fs path in
    (
      o,
      gate-by_access a 9003 o,
      opened-Opens mem fs path (ckb_get_file true mem fs path) _ refl
          (unfold ckb_get_file in get_file_refines_lookup mem path fs archives name h),
    )

-- ===== src/Vm/Mounted.antt =====
-- Which program the virtual machine runs: from a mounted archive, and from the cell that the
-- script names.
use mathlib.Core.List.{append-nil}
use ckb_js.Prelude.{
  ℕ, ◌≡◌, refl, ap, ◌∙◌, Bool, true, Option, some, none, List, [], ◌∷◌, ◌++◌, arith, length, drop,
  lt→ltb,
}
use ckb_js.Prelude.Int.{ℤ, negsuc}
use ckb_js.CellFs.{Mem, CString, FsFile, node_at, or_else, ckb_load_fs, ckb_get_file, get_file}
use ckb_js.CellFs.Archive.{File, pack, lookup, Serves, RepresentsAll, all_files}
use ckb_js.CellFs.Scan.{get_file_refines_lookup}
use ckb_js.CellFs.Mount.{IsPacked, all_allocated, load_fs-RepresentsAll}
use ckb_js.Stdio.Open.{Holds-load_bytes}
use ckb_js.Engine.{Engine}
use ckb_js.Syscall.Partial.{by_index, IsPartialLoad}
use ckb_js.Loader.{ok, CodeInfo, load_cell_code_info, load_cell_code}
use ckb_js.Loader.Locate.{load_cell_code-whole}
use ckb_js.Vm.{run_js_with_file_system, parse_args}
use ckb_js.Vm.Run.{
  World, Host, main_file_name, main_file_name_bc, run_main_file, eval_in, run_from_file_system_buf,
  run_from_cell_data, run_bytes,
}
use ckb_js.Vm.Main.{main, dispatch}

-- The main program of an archive: "main.js", or "main.bc" if there is no such file.
abbrev pub main_bytes : List File → Option (List ℕ)
main_bytes files = elim (lookup main_file_name files) [
  | some bytes ↦ some bytes
  | none ↦ lookup main_file_name_bc files
]

-- Running it: one that is empty or missing is an error, and nothing is evaluated.
module _ {S V : Type 0} (js : Engine S V) (path_max : ℕ) where
  abbrev pub run_main : Option (List ℕ) → World S → ℤ × World S
  run_main none w = (negsuc 0, w)
  run_main (some []) w = (negsuc 0, w)
  run_main (some (b ∷ bytes)) w = eval_in js path_max (b ∷ bytes) main_file_name true w

  run_main_file-Serves :
      (mem : Mem) (o : Option FsFile) (r : Option (List ℕ)) (w : World S)
      → Serves mem o r
      → run_main_file js path_max mem o w ≡ run_main r w
  unfolding run_main_file
  run_main_file-Serves mem none none w h = refl
  run_main_file-Serves mem none (some _) w h = absurd h
  run_main_file-Serves mem (some _) none w h = absurd h
  run_main_file-Serves mem (some f) (some []) w (size, small, at, rc) = rw size refl
  run_main_file-Serves mem (some f) (some (b ∷ bytes)) w (size, small, at, rc) =
      rw
        (
          size,
          lt→ltb 0 (length (b ∷ bytes)) (omega arith),
          Holds-load_bytes mem f.content (b ∷ bytes) at,
        )
        refl

Serves-or_else :
    (mem : Mem) (o o' : Option FsFile) (r r' : Option (List ℕ))
    → Serves mem o r
    → Serves mem o' r'
    → Serves mem (or_else o o') (elim r [ some bytes ↦ some bytes | none ↦ r' ])
Serves-or_else mem none o' none r' h h' = h'
Serves-or_else mem none o' (some _) r' h h' = absurd h
Serves-or_else mem (some _) o' none r' h h' = absurd h
Serves-or_else mem (some f) o' (some _) r' h h' = h

-- Nothing runs out of memory.
abbrev pub Roomy : Host → Type 0
Roomy h = (h.allocated ≡ all_allocated) × (h.first ≡ true) × (h.second ≡ true)

module _ {S V : Type 0} (js : Engine S V) (path_max : ℕ) where
  -- With memory to spare, a program that is a packed archive is mounted before the archives
  -- mounted so far, and what runs is the first "main.js" of all of them, or else the first
  -- "main.bc", its own bytes; if there is neither, or it is empty, the result is -1 and the engine
  -- is left alone.
  pub run_from_file_system_buf-main :
      (h : Host) (mem : Mem) (buf buf_size : ℕ) (files : List File) (archives : List (List File))
      (w : World S)
      → Roomy h
      → IsPacked mem buf files
      → RepresentsAll mem w.fs archives
      → run_from_file_system_buf js path_max h mem buf buf_size w
        ≡ run_main js path_max
            (main_bytes (files ++ all_files archives))
            (record w { fs = node_at mem buf ∷ w.fs })
  unfolding run_from_file_system_buf ckb_load_fs ckb_get_file
  run_from_file_system_buf-main h mem buf buf_size files archives w (allocated, first, second) k r =
      let (mounted, reps) = load_fs-RepresentsAll mem w.fs buf buf_size files archives k r in
      let nodes = node_at mem buf ∷ w.fs in
      let serves : Serves mem
          (or_else (get_file true mem nodes main_file_name)
            (get_file true mem nodes main_file_name_bc))
          (main_bytes (files ++ all_files archives)) =
        Serves-or_else mem _ _ _ _
          (get_file_refines_lookup mem main_file_name nodes (files ∷ archives) (ground arith) reps)
          (get_file_refines_lookup mem main_file_name_bc nodes (files ∷ archives) (ground arith)
            reps) in
      rw (allocated, mounted, first, second)
        (run_main_file-Serves js path_max mem _ _ (record w { fs = nodes }) serves)

  run_from_cell_data-run_bytes :
      (h : Host) (enable_fs : Bool) (w : World S) (info : CodeInfo) (bytes : List ℕ)
      → load_cell_code_info h.chain ≡ ok info
      → load_cell_code h.chain info ≡ ok bytes
      → run_from_cell_data js path_max h enable_fs w ≡ run_bytes js path_max h enable_fs bytes w
  unfolding run_from_cell_data
  run_from_cell_data-run_bytes h enable_fs w info bytes found loaded = ground (arith, found, loaded)

  -- `main` with "-f" and not with "-r", "-e" or "-c", in a machine whose cell data load as
  -- documented and with memory to spare: if the script names a cell whose data are a packed
  -- archive, what runs is that archive's "main.js", or else its "main.bc", in a fresh context with
  -- the arguments behind the first; if there is neither, or it is empty, the result is -1.
  pub main_runs_archive :
      (h : Host) (argv : List CString) (w : World S) (s s' : S)
      {item : (index source field : ℕ) → Option (List ℕ)} (info : CodeInfo) (files : List File)
      → parse_args argv ≡ run_js_with_file_system
      → js.new_runtime w.engine ≡ (true, s)
      → js.new_context s ≡ (true, s')
      → w.fs ≡ []
      → load_cell_code_info h.chain ≡ ok info
      → IsPartialLoad (by_index h.chain.load_cell_data) item
      → item info.index h.chain.source_cell_dep 0 ≡ some (pack files)
      → Roomy h
      → IsPacked (h.place (pack files)).0 (h.place (pack files)).1 files
      → main js path_max argv h w
        ≡ run_main js path_max (main_bytes files) (record w {
          engine = js.install (drop 1 argv) s';
          fs = node_at (h.place (pack files)).0 (h.place (pack files)).1 ∷ [];
        })
  unfolding main dispatch run_from_cell_data
  main_runs_archive h argv w s s' info files flags runtime context fresh found p e roomy packed =
      let mem = (h.place (pack files)).0 in
      let buf = (h.place (pack files)).1 in
      let (loaded, size) = load_cell_code-whole h.chain (pack files) p found e in
      let started : World S = record w { engine = js.install (drop 1 argv) s'; fs = [] } in
      let mounted = record started { fs = node_at mem buf ∷ [] } in
      rw (flags, runtime, context, fresh)
        (run_from_cell_data-run_bytes h true started info (pack files) found loaded
          ∙ run_from_file_system_buf-main h mem buf (length (pack files)) files [] started roomy
              packed tt
          ∙ ap (λ r. run_main js path_max (main_bytes r) mounted) (append-nil files))

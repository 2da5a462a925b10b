-- ===== src/Modules/Resolve.antt =====
-- What a module name resolves to, against the abstract file system.
use ckb_js.Prelude.{
  ℕ, zero, suc, ◌-◌, ◌<◌, ◌≤◌, ◌≡◌, refl, ap, Bool, true, Option, none, some, List, [], ◌∷◌, ◌++◌,
  leb, ◌&&◌, if◌then◌else◌, length, take, drop, suc_ne_zero, arith, not,
}
use ckb_js.CellFs.{Mem, CString, CellFileSystem, FsFile, get_file, ckb_get_file}
use ckb_js.CellFs.Archive.{File, bytes_eq, lookup, Serves, IsName, RepresentsAll, all_files}
use ckb_js.CellFs.Scan.{get_file_refines_lookup}
use ckb_js.Stdio.Open.{Holds-load_bytes}
use ckb_js.Modules.{
  js_suffix, bc_suffix, file_bytes, js_load_file, Found, found, not_found, overflow, second_name,
  find_module,
}

-- An empty file counts as none.
abbrev pub nonempty : Option (List ℕ) → Option (List ℕ)
nonempty none = none
nonempty (some []) = none
nonempty (some (b ∷ bytes)) = some (b ∷ bytes)

file_bytes-Serves :
    (mem : Mem) (o : Option FsFile) (r : Option (List ℕ))
    → Serves mem o r
    → file_bytes mem o ≡ nonempty r
file_bytes-Serves mem none none h = refl
file_bytes-Serves mem none (some _) h = absurd h
file_bytes-Serves mem (some _) none h = absurd h
file_bytes-Serves mem (some f) (some []) (size, small, at, rc) = rw size
file_bytes-Serves mem (some f) (some (b ∷ bytes)) (size, small, at, rc) =
    rw (size, suc_ne_zero (length bytes)) (ap some (Holds-load_bytes mem f.content (b ∷ bytes) at))

module _ (mem : Mem) (fs : CellFileSystem) (archives : List (List File))
    (h : RepresentsAll mem fs archives) where
  pub js_load_file_lem :
      (name : CString)
      → IsName name
      → js_load_file true mem fs name ≡ nonempty (lookup name (all_files archives))
  unfolding js_load_file ckb_get_file
  js_load_file_lem name n =
      file_bytes-Serves mem (get_file true mem fs name) (lookup name (all_files archives))
        (get_file_refines_lookup mem name fs archives n h)

IsName-append : (s t : CString) → IsName s → IsName t → IsName (s ++ t)
IsName-append [] t hs ht = ht
IsName-append (c ∷ s) t (h, hs) ht = (h, IsName-append s t hs ht)

IsName-take : (n : ℕ) (s : CString) → IsName s → IsName (take n s)
IsName-take zero s h = tt
IsName-take (suc n) [] h = tt
IsName-take (suc n) (c ∷ s) (h, hs) = (h, IsName-take n s hs)

-- A name of at least four characters that ends in ".js".
abbrev pub is_script_name : CString → Bool
is_script_name name = not (leb (length name) 3) && bytes_eq (drop (length name - 3) name) js_suffix

-- What a name stands for: the file of the name, and for a script else the file with the suffix
-- ".bc" in its place; empty files do not count.
abbrev pub resolved : CString → List File → Found
resolved name files = elim (nonempty (lookup name files)) [
  | some bytes ↦ found bytes
  | none ↦
      if is_script_name name
      then elim (nonempty (lookup (second_name name) files)) [
        | some bytes ↦ found bytes
        | none ↦ not_found
      ]
      else not_found
]

IsName-second_name : (name : CString) → IsName name → IsName (second_name name)
IsName-second_name name n =
    IsName-append (take (length name - 3) name) bc_suffix (IsName-take (length name - 3) name n)
      (ground arith)

module _ (mem : Mem) (fs : CellFileSystem) (archives : List (List File))
    (h : RepresentsAll mem fs archives) (name : CString) (n : IsName name) where
  -- With memory to spare, a module name of less than 256 characters resolves to the file of that
  -- name in the mounted archives, the newest first, or, if there is none or it is empty and the
  -- name ends in ".js" behind at least one character, to the file with the suffix ".bc" in its
  -- place; if that is missing or empty too, to nothing.
  pub find_module-resolved :
      length name < 256 → find_module true true mem fs name ≡ resolved name (all_files archives)
  unfolding find_module
  find_module-resolved short = ground (
    arith,
    js_load_file_lem mem fs archives h name n,
    js_load_file_lem mem fs archives h (second_name name) (IsName-second_name name n),
  )

  -- A script name of 256 characters or more that no file has makes the loader write behind the end
  -- of its array.
  pub find_module_overflows :
      256 ≤ length name
      → is_script_name name ≡ true
      → nonempty (lookup name (all_files archives)) ≡ none
      → find_module true true mem fs name ≡ overflow
  unfolding find_module
  find_module_overflows long script missing =
      ground (arith, js_load_file_lem mem fs archives h name n)

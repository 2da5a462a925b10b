-- ===== src/CellFs/Scan.antt =====
-- `get_file` finds what the abstract file system holds.
use ckb_js.Prelude.{
  ℕ, zero, suc, ◌+◌, ◌≡◌, refl, true, Option, none, some, List, [], ◌∷◌, ◌++◌, arith, length, inl,
  inr, Bool-cases,
}
use ckb_js.CellFs.{
  Mem, CString, FsEntry, FsFile, CellFileSystem, strcmp_eq, find_entry, find_file, get_file,
  or_else,
}
use ckb_js.CellFs.Archive.{
  File, Holds, bytes_eq, lookup, Serves, IsName, DescribesAll, RepresentsAll, all_files,
}

strcmp_eq-bytes_eq :
    (mem : Mem) (s name : CString) (p : ℕ)
    → IsName s
    → IsName name
    → Holds mem p (name ++ (0 ∷ []))
    → strcmp_eq mem s p ≡ bytes_eq s name
unfolding strcmp_eq
strcmp_eq-bytes_eq mem [] [] p hs hn h = ground arith
strcmp_eq-bytes_eq mem [] (b ∷ name) p hs hn h = ground arith
strcmp_eq-bytes_eq mem (c ∷ s) [] p hs hn h = ground arith
strcmp_eq-bytes_eq mem (c ∷ s) (b ∷ name) p hs hn h =
    ground (arith, strcmp_eq-bytes_eq mem s name (p + 1) hs.1 hn.1 h.1)

find_entry-lookup :
    (mem : Mem) (s : CString) (start n : ℕ) (es : List FsEntry) (fs : List File)
    → IsName s
    → n ≡ length fs
    → DescribesAll mem start es fs
    → Serves mem (find_entry mem s start n es) (lookup s fs)
unfolding find_entry lookup
find_entry-lookup mem s start zero es [] hs hn d = tt
find_entry-lookup mem s start (suc n) es [] hs hn d = absurd (omega arith)
find_entry-lookup mem s start zero es (f ∷ fs) hs hn d = absurd (omega arith)
find_entry-lookup mem s start (suc n) [] (f ∷ fs) hs hn d = absurd d
find_entry-lookup mem s start (suc n) (e ∷ es) (f ∷ fs) hs hn (d, ds) =
    rw (strcmp_eq-bytes_eq mem s f.name (start + e.filename.offset) hs d.name_valid d.name_at)
      (elim (Bool-cases (bytes_eq s f.name)) [
        | inl hit ↦ rw hit (d.size, omega (arith, d.size, d.small), d.bytes_at, refl)
        | inr miss ↦ rw miss (find_entry-lookup mem s start n es fs hs (omega arith) ds)
      ])

lookup-append :
    (s : CString) (fs gs : List File) → lookup s (fs ++ gs) ≡ or_else (lookup s fs) (lookup s gs)
unfolding lookup
lookup-append s [] gs = refl
lookup-append s (f ∷ fs) gs = ground (arith, lookup-append s fs gs)

Serves-or_else :
    (mem : Mem) (o o' : Option FsFile) (r r' : Option (List ℕ))
    → Serves mem o r
    → Serves mem o' r'
    → Serves mem (or_else o o') (or_else r r')
Serves-or_else mem none o' none r' h h' = h'
Serves-or_else mem none o' (some _) r' h h' = absurd h
Serves-or_else mem (some _) o' none r' h h' = absurd h
Serves-or_else mem (some _) o' (some _) r' h h' = h

find_file-lookup :
    (mem : Mem) (s : CString) (fs : CellFileSystem) (archives : List (List File))
    → IsName s
    → RepresentsAll mem fs archives
    → Serves mem (find_file mem s fs) (lookup s (all_files archives))
unfolding find_file lookup
find_file-lookup mem s [] [] hs h = tt
find_file-lookup mem s [] (a ∷ rest) hs h = absurd h
find_file-lookup mem s (n ∷ ns) [] hs h = absurd h
find_file-lookup mem s (n ∷ ns) (a ∷ rest) hs (h, hr) = rw (lookup-append s a (all_files rest)) (
    Serves-or_else mem (find_entry mem s n.start n.count n.files) (find_file mem s ns) (lookup s a)
      (lookup s (all_files rest))
      (find_entry-lookup mem s n.start n.count n.files a hs h.count h.entries)
      (find_file-lookup mem s ns rest hs hr))

-- `get_file` with memory to spare refines the lookup in the archives that the mounted nodes stand
-- for, the newest first: it fails if none has a file of the name, and otherwise opens the first
-- such file, with its size, its content in memory and a reference count of 1.
pub get_file_refines_lookup :
    (mem : Mem) (filename : CString) (fs : CellFileSystem) (archives : List (List File))
    → IsName filename
    → RepresentsAll mem fs archives
    → Serves mem (get_file true mem fs filename) (lookup filename (all_files archives))
unfolding get_file
get_file_refines_lookup mem filename fs archives hs h =
    find_file-lookup mem filename fs archives hs h

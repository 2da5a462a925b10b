-- ===== src/CellFs/Archive.antt =====
-- The on-disk format of docs/fs.md, and what it means for an archive to lie in memory.
use ckb_js.Prelude.{
  ◌<◌, ◌^◌, ℕ, ◌+◌, ◌/◌, ◌%◌, ◌≡◌, Bool, true, false, Option, none, some, List, [], ◌∷◌, ◌++◌, ◌==◌,
  ◌&&◌, if◌then◌else◌, length, All,
}
use ckb_js.CellFs.{Mem, CString, FsEntry, FsFile, CellFileSystemNode}

-- A file: its name and its content.
pub record File : Type 0 where
  pub name : CString
  pub bytes : List ℕ

abbrev pub le32 : ℕ → List ℕ
le32 n = n % 0x100 ∷ n / 0x100 % 0x100 ∷ n / 0x10000 % 0x100 ∷ n / 0x1000000 % 0x100 ∷ []

-- The metadata of the files whose blobs begin at an offset, and the blobs: names and contents,
-- each closed by a NUL.
abbrev pub metadata : ℕ → List File → List ℕ
metadata at [] = []
metadata at (f ∷ fs) =
    le32 at
    ++ (le32 (length f.name + 1)
        ++ (le32 (at + length f.name + 1)
            ++ (le32 (length f.bytes)
                ++ metadata (at + length f.name + 1 + length f.bytes + 1) fs)))

abbrev pub payload : List File → List ℕ
payload [] = []
payload (f ∷ fs) = f.name ++ (0 ∷ (f.bytes ++ (0 ∷ payload fs)))

abbrev pub pack : List File → List ℕ
pack fs = le32 (length fs) ++ (metadata 0 fs ++ payload fs)

-- The bytes from an address on.
abbrev pub Holds : Mem → ℕ → List ℕ → Type 0
Holds mem p [] = Unit
Holds mem p (b ∷ bs) = (mem p ≡ b) × Holds mem (p + 1) bs

abbrev pub bytes_eq : CString → CString → Bool
bytes_eq [] [] = true
bytes_eq [] (_ ∷ _) = false
bytes_eq (_ ∷ _) [] = false
bytes_eq (a ∷ s) (b ∷ t) = (b == a) && bytes_eq s t

-- The abstract file system: the first file of the name.
unfoldable pub lookup : CString → List File → Option (List ℕ)
lookup name [] = none
lookup name (f ∷ fs) = if bytes_eq name f.name then some f.bytes else lookup name fs

-- What a lookup by the program must return for what the abstract one returns: nothing for
-- nothing, and for a content an open file of that size at an address where that content stands.
abbrev pub Serves : Mem → Option FsFile → Option (List ℕ) → Type 0
Serves mem none none = Unit
Serves mem none (some _) = ⊥
Serves mem (some _) none = ⊥
Serves mem (some f) (some bytes) =
    (f.size ≡ length bytes) × (f.size < 2 ^ 32) × Holds mem f.content bytes × (f.rc ≡ 1)

-- A name has no NUL.
abbrev pub IsName : CString → Type 0
IsName name = All (λ c. (c == 0) ≡ false) name

-- The entry of a node describes the file.
pub record Describes (mem : Mem) (start : ℕ) (e : FsEntry) (f : File) : Type 0 where
  pub name_valid : IsName f.name
  pub name_at : Holds mem (start + e.filename.offset) (f.name ++ (0 ∷ []))
  pub size : e.content.length ≡ length f.bytes
  pub small : length f.bytes < 2 ^ 32
  pub bytes_at : Holds mem (start + e.content.offset) f.bytes

abbrev pub DescribesAll : Mem → ℕ → List FsEntry → List File → Type 0
DescribesAll mem start [] [] = Unit
DescribesAll mem start [] (_ ∷ _) = ⊥
DescribesAll mem start (_ ∷ _) [] = ⊥
DescribesAll mem start (e ∷ es) (f ∷ fs) = Describes mem start e f × DescribesAll mem start es fs

-- A node stands for the files of an archive, and a stack of nodes for a stack of archives.
pub record Represents (mem : Mem) (node : CellFileSystemNode) (fs : List File) : Type 0 where
  pub count : node.count ≡ length fs
  pub entries : DescribesAll mem node.start node.files fs

abbrev pub RepresentsAll : Mem → List CellFileSystemNode → List (List File) → Type 0
RepresentsAll mem [] [] = Unit
RepresentsAll mem [] (_ ∷ _) = ⊥
RepresentsAll mem (_ ∷ _) [] = ⊥
RepresentsAll mem (n ∷ ns) (a ∷ rest) = Represents mem n a × RepresentsAll mem ns rest

-- The archives one after the other, the newest first.
abbrev pub all_files : List (List File) → List File
all_files [] = []
all_files (a ∷ rest) = a ++ all_files rest

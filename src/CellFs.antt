-- ===== src/CellFs.antt =====
-- include/ckb_cell_fs.c: the read-only file systems mounted from cells.
-- Memory is a function from addresses to bytes. A file system is a stack of mounted nodes, the
-- newest first: the chain of `CellFileSystem` structures, NULL for the empty one. Every `malloc`
-- may fail: its outcome is an argument. No address computed here exceeds 64 bits, since a cell
-- lies below the 4 MB that the virtual machine has and an offset is below 2 ^ 32.
use ckb_js.Prelude.{
  ℕ, zero, suc, ◌+◌, ◌*◌, Bool, true, false, Option, none, some, List, [], ◌∷◌, ◌==◌, ◌&&◌, ◌||◌,
  if◌then◌else◌,
}
use ckb_js.Prelude.Int.{ℤ, pos, negsuc}
pub mod Archive
pub mod Scan
pub mod Mount
mod Tests

abbrev pub Mem : Type 0
Mem = ℕ → ℕ

-- A NUL-terminated string without its NUL.
abbrev pub CString : Type 0
CString = List ℕ

pub record FsBlob : Type 0 where
  pub offset : ℕ
  pub length : ℕ

pub record FsEntry : Type 0 where
  pub filename : FsBlob
  pub content : FsBlob

pub record CellFileSystemNode : Type 0 where
  pub count : ℕ
  pub files : List FsEntry
  pub start : ℕ

abbrev pub CellFileSystem : Type 0
CellFileSystem = List CellFileSystemNode

pub record FsFile : Type 0 where
  pub filename : CString
  pub content : ℕ
  pub size : ℕ
  pub rc : ℕ

-- `*(uint32_t *)p` on a little-endian machine.
unfoldable pub read_u32 : Mem → ℕ → ℕ
read_u32 mem p = mem p + 0x100 * mem (p + 1) + 0x10000 * mem (p + 2) + 0x1000000 * mem (p + 3)

-- `strcmp(s, p) == 0` for a string `s` and the bytes from `p` on.
unfoldable pub strcmp_eq : Mem → CString → ℕ → Bool
strcmp_eq mem [] p = mem p == 0
strcmp_eq mem (c ∷ s) p = (mem p == c) && strcmp_eq mem s (p + 1)

-- `entries[i]`, four words of 32 bits.
unfoldable pub read_entry : Mem → ℕ → FsEntry
read_entry mem p = record {
  filename = record { offset = read_u32 mem p; length = read_u32 mem (p + 4) };
  content = record { offset = read_u32 mem (p + 8); length = read_u32 mem (p + 12) };
}

-- The loop that copies `count` entries, from the address of the first.
unfoldable pub copy_entries : Mem → ℕ → ℕ → List FsEntry
copy_entries mem zero p = []
copy_entries mem (suc n) p = read_entry mem p ∷ copy_entries mem n (p + 16)

-- The loop over the entries of one node.
unfoldable pub find_entry : Mem → CString → (start count : ℕ) → List FsEntry → Option FsFile
find_entry mem filename start zero es = none
find_entry mem filename start (suc n) [] = none
find_entry mem filename start (suc n) (e ∷ es) =
    if strcmp_eq mem filename (start + e.filename.offset)
    then some file
    else find_entry mem filename start n es
  where
    file : FsFile
    file = record {
      filename = filename;
      content = start + e.content.offset;
      size = e.content.length;
      rc = 1;
    }

abbrev pub or_else {ℓ} : {A : Type ℓ} → Option A → Option A → Option A
or_else (some a) o = some a
or_else none o = o

-- The walk along `next`.
unfoldable pub find_file : Mem → CString → CellFileSystem → Option FsFile
find_file mem filename [] = none
find_file mem filename (node ∷ next) =
    or_else (find_entry mem filename node.start node.count node.files) (find_file mem filename next)

-- `get_file`, by what `malloc` returns. `none` is the result -1, which leaves `*f` alone.
unfoldable pub get_file : (allocated : Bool) → Mem → CellFileSystem → CString → Option FsFile
get_file allocated mem fs filename = if allocated then find_file mem filename fs else none

-- Whether each of the three allocations of `load_fs` succeeds.
pub record Allocated : Type 0 where
  pub node : Bool
  pub newfs : Bool
  pub files : Bool

-- The node that `load_fs` fills in from the buffer.
unfoldable pub node_at : Mem → ℕ → CellFileSystemNode
node_at mem buf =
    let count = read_u32 mem buf in
    if count == 0 then record { count = 0; files = []; start = 0 } else record {
      count = count;
      files = copy_entries mem count (buf + 4);
      start = buf + 4 + 16 * count;
    }

-- `load_fs`: the result and `*fs` afterwards. The `Option` is the pointer `fs`, which may be NULL,
-- as `buf` may be. As in the source, `buflen` plays no part.
unfoldable pub load_fs :
    Allocated → Mem → Option CellFileSystem → (buf buflen : ℕ) → ℤ × Option CellFileSystem
load_fs allocated mem none buf buflen = (negsuc 0, none)
load_fs allocated mem (some fs) buf buflen =
    if buf == 0
    then (negsuc 0, some fs)
    else if allocated.node && allocated.newfs && (read_u32 mem buf == 0 || allocated.files)
    then (pos 0, some (node_at mem buf ∷ fs))
    else (negsuc 0, some fs)

-- The three operations on the file system of the process, `CELL_FILE_SYSTEM`.
unfoldable pub ckb_get_file : (allocated : Bool) → Mem → CellFileSystem → CString → Option FsFile
ckb_get_file allocated mem cell_file_system filename =
    get_file allocated mem cell_file_system filename

unfoldable pub ckb_load_fs :
    Allocated → Mem → CellFileSystem → (buf buflen : ℕ) → ℤ × Option CellFileSystem
ckb_load_fs allocated mem cell_file_system buf buflen =
    load_fs allocated mem (some cell_file_system) buf buflen

unfoldable pub ckb_reset_fs : CellFileSystem → CellFileSystem
ckb_reset_fs cell_file_system = []

-- ===== src/CellFs/Mount.antt =====
-- `load_fs` mounts what `pack` lays out.
use ckb_js.Prelude.{
  suc_ne_zero, ℕ, suc, ◌+◌, ◌*◌, ◌%◌, ◌/◌, ◌^◌, ◌<◌, ◌≡◌, refl, sym, true, false, Option, some,
  List, [], ◌∷◌, ◌++◌, arith, ◌==◌, ◌↔◌, ◌⊎◌, length, length-append, All,
}
use mathlib.Core.Path.{subst}
use mathlib.Core.List.{append_assoc}
use ckb_js.Prelude.Int.{ℤ, pos, negsuc}
use ckb_js.CellFs.{
  Mem, CString, CellFileSystem, Allocated, read_u32, read_entry, copy_entries, node_at, load_fs,
  ckb_load_fs, ckb_get_file,
}
use ckb_js.CellFs.Scan.{get_file_refines_lookup}
use ckb_js.CellFs.Archive.{
  File, le32, metadata, payload, pack, Holds, IsName, DescribesAll, Represents, RepresentsAll,
  Serves, lookup, all_files,
}

read_u32-le32 : (mem : Mem) (p n : ℕ) → n < 2 ^ 32 → Holds mem p (le32 n) → read_u32 mem p ≡ n
unfolding read_u32
read_u32-le32 mem p n small h = let (a, b, c, d) = le32_bytes in omega arith
  where
    le32_bytes :
        (mem p ≡ n % 0x100)
        × (mem (p + 1) ≡ n / 0x100 % 0x100)
        × (mem (p + 2) ≡ n / 0x10000 % 0x100)
        × (mem (p + 3) ≡ n / 0x1000000 % 0x100)
    le32_bytes = ground (arith, h)

Holds-append :
    (mem : Mem) (p : ℕ) (xs ys : List ℕ)
    → Holds mem p (xs ++ ys)
    → Holds mem p xs × Holds mem (p + length xs) ys
Holds-append mem p [] ys h = (tt, subst (λ q. Holds mem q ys) (omega arith) h)
Holds-append mem p (x ∷ xs) ys (h, hs) =
    let (l, r) = Holds-append mem (p + 1) xs ys hs in
    ((h, l), subst (λ q. Holds mem q ys) (omega arith) r)

-- A word at the front of what memory holds, and the rest.
read_u32-front :
    (mem : Mem) (p q n : ℕ) (rest : List ℕ)
    → n < 2 ^ 32
    → q ≡ p + 4
    → Holds mem p (le32 n ++ rest)
    → (read_u32 mem p ≡ n) × Holds mem q rest
read_u32-front mem p q n rest small e h =
    let (l, r) = Holds-append mem p (le32 n) rest h in
    (read_u32-le32 mem p n small l, subst (λ q. Holds mem q rest) (sym e) r)

-- The four words of the first file's metadata, as `load_fs` reads them.
read_entry-metadata :
    (mem : Mem) (p at : ℕ) (f : File) (fs : List File)
    → at + length (payload (f ∷ fs)) < 2 ^ 32
    → Holds mem p (metadata at (f ∷ fs))
    → ((read_entry mem p).filename.offset ≡ at)
      × ((read_entry mem p).content.offset ≡ at + length f.name + 1)
      × ((read_entry mem p).content.length ≡ length f.bytes)
      × Holds mem (p + 16) (metadata (at + length f.name + 1 + length f.bytes + 1) fs)
unfolding read_entry
read_entry-metadata mem p at f fs small h =
    let k = length f.name in
    let m = length f.bytes in
    let fits : at + k + m + 2 < 2 ^ 32 = omega (
      arith,
      length-append f.name (0 ∷ (f.bytes ++ (0 ∷ payload fs))),
      length-append f.bytes (0 ∷ payload fs),
    ) in
    let rest = metadata (at + k + 1 + m + 1) fs in
    let (e₁, h₁) =
      read_u32-front mem p (p + 4) at (le32 (k + 1) ++ (le32 (at + k + 1) ++ (le32 m ++ rest)))
        (omega arith) refl h in
    let (e₂, h₂) =
      read_u32-front mem (p + 4) (p + 8) (k + 1) (le32 (at + k + 1) ++ (le32 m ++ rest))
        (omega arith) (omega arith) h₁ in
    let (e₃, h₃) =
      read_u32-front mem (p + 8) (p + 12) (at + k + 1) (le32 m ++ rest) (omega arith) (omega arith)
        h₂ in
    let (e₄, h₄) = read_u32-front mem (p + 12) (p + 16) m rest (omega arith) (omega arith) h₃ in
    (e₁, e₃, e₄, h₄)

-- The first file's blobs, and the rest.
Holds-payload :
    (mem : Mem) (p : ℕ) (f : File) (fs : List File)
    → Holds mem p (payload (f ∷ fs))
    → Holds mem p (f.name ++ (0 ∷ []))
      × Holds mem (p + (length f.name + 1)) f.bytes
      × Holds mem (p + (length f.name + 1 + length f.bytes + 1)) (payload fs)
Holds-payload mem p f fs h =
    let (name, h₁) = Holds-append mem p (f.name ++ (0 ∷ [])) (f.bytes ++ (0 ∷ payload fs)) whole in
    let (bytes, h₂) = Holds-append mem (p + (length f.name + 1)) f.bytes (0 ∷ payload fs) (
      subst (λ q. Holds mem q (f.bytes ++ (0 ∷ payload fs)))
        (omega (arith, length-append f.name (0 ∷ []))) h₁) in
    (name, bytes, subst (λ q. Holds mem q (payload fs)) (omega arith) h₂.1)
  where
    whole : Holds mem p ((f.name ++ (0 ∷ [])) ++ (f.bytes ++ (0 ∷ payload fs)))
    whole = rw (append_assoc f.name (0 ∷ []) (f.bytes ++ (0 ∷ payload fs))) h

abbrev pub AreNames : List File → Type 0
AreNames fs = All (λ f. IsName f.name) fs

copy_entries-DescribesAll :
    (mem : Mem) (p start at : ℕ) (fs : List File)
    → AreNames fs
    → at + length (payload fs) < 2 ^ 32
    → Holds mem p (metadata at fs)
    → Holds mem (start + at) (payload fs)
    → DescribesAll mem start (copy_entries mem (length fs) p) fs
unfolding copy_entries
copy_entries-DescribesAll mem p start at [] names small h hp = tt
copy_entries-DescribesAll mem p start at (f ∷ fs) (name, names) small h hp =
    let (eo, ec, el, h') = read_entry-metadata mem p at f fs small h in
    let (hn, hb, hp') = Holds-payload mem (start + at) f fs hp in
    let fits : length f.bytes < 2 ^ 32 = omega (
      arith,
      length-append f.name (0 ∷ (f.bytes ++ (0 ∷ payload fs))),
      length-append f.bytes (0 ∷ payload fs),
    ) in
    let at' = at + length f.name + 1 + length f.bytes + 1 in
    (
      record {
        name_valid = name;
        name_at = rw eo hn;
        size = el;
        small = fits;
        bytes_at = rw ec (subst (λ q. Holds mem q f.bytes) (omega arith) hb);
      },
      copy_entries-DescribesAll mem (p + 16) start at' fs names
          (omega (
            arith,
            length-append f.name (0 ∷ (f.bytes ++ (0 ∷ payload fs))),
            length-append f.bytes (0 ∷ payload fs),
          ))
          h' (subst (λ q. Holds mem q (payload fs)) (omega arith) hp'),
    )

length-metadata : (at : ℕ) (fs : List File) → length (metadata at fs) ≡ 16 * length fs
length-metadata at [] = refl
length-metadata at (f ∷ fs) =
    omega (arith, length-metadata (at + length f.name + 1 + length f.bytes + 1) fs)

node_at-Represents :
    (mem : Mem) (buf : ℕ) (fs : List File)
    → AreNames fs
    → length fs < 2 ^ 32
    → length (payload fs) < 2 ^ 32
    → Holds mem buf (pack fs)
    → Represents mem (node_at mem buf) fs
unfolding node_at
node_at-Represents mem buf [] names few small h =
    let (e, _) = read_u32-front mem buf (buf + 4) 0 [] (omega arith) refl h in
    rw e (record { count = refl; entries = tt })
node_at-Represents mem buf (f ∷ fs) names few small h =
    let (e, hm) =
      read_u32-front mem buf (buf + 4) (length (f ∷ fs)) (metadata 0 (f ∷ fs) ++ payload (f ∷ fs))
        few refl h in
    let (h₁, h₂) = Holds-append mem (buf + 4) (metadata 0 (f ∷ fs)) (payload (f ∷ fs)) hm in
    rw (e, suc_ne_zero (length fs))
      (record {
        count = refl;
        entries = copy_entries-DescribesAll mem (buf + 4) start 0 (f ∷ fs) names (omega arith) h₁ (
            subst (λ q. Holds mem q (payload (f ∷ fs))) (omega (arith, length-metadata 0 (f ∷ fs)))
              h₂);
      })
  where
    start : ℕ
    start = buf + 4 + 16 * suc (length fs)

-- An archive whose names have no NUL, and which 32-bit numbers can describe, lies packed at an
-- address that is not NULL.
pub record IsPacked (mem : Mem) (buf : ℕ) (fs : List File) : Type 0 where
  pub not_null : (buf == 0) ≡ false
  pub names : AreNames fs
  pub few : length fs < 2 ^ 32
  pub small : length (payload fs) < 2 ^ 32
  pub packed : Holds mem buf (pack fs)

abbrev pub all_allocated : Allocated
all_allocated = record { node = true; newfs = true; files = true }

pub load_fs-RepresentsAll :
    (mem : Mem) (mounted : CellFileSystem) (buf buflen : ℕ) (fs : List File)
    (archives : List (List File))
    → IsPacked mem buf fs
    → RepresentsAll mem mounted archives
    → (load_fs all_allocated mem (some mounted) buf buflen
        ≡ (pos 0, some (node_at mem buf ∷ mounted)))
      × RepresentsAll mem (node_at mem buf ∷ mounted) (fs ∷ archives)
unfolding load_fs
load_fs-RepresentsAll mem mounted buf buflen fs archives k h =
    (ground (arith, k.not_null), (node_at-Represents mem buf fs k.names k.few k.small k.packed, h))

-- Mounting a packed archive succeeds if memory suffices, and then a file lookup with memory to
-- spare refines the lookup in that archive followed by those mounted before: its files come
-- first, and each is served with its own size and bytes.
pub get_file-load_fs :
    (mem : Mem) (mounted : CellFileSystem) (buf buflen : ℕ) (fs : List File)
    (archives : List (List File)) (filename : CString)
    → IsPacked mem buf fs
    → RepresentsAll mem mounted archives
    → IsName filename
    → (mounted' : CellFileSystem) × (ckb_load_fs all_allocated mem mounted buf buflen
        ≡ (pos 0, some mounted'))
      × RepresentsAll mem mounted' (fs ∷ archives)
      × Serves mem
          (ckb_get_file true mem mounted' filename)
          (lookup filename (fs ++ all_files archives))
unfolding ckb_load_fs ckb_get_file
get_file-load_fs mem mounted buf buflen fs archives filename k h name =
    let (e, h') = load_fs-RepresentsAll mem mounted buf buflen fs archives k h in
    (
      node_at mem buf ∷ mounted,
      e,
      h',
      get_file_refines_lookup mem filename (node_at mem buf ∷ mounted) (fs ∷ archives) name h',
    )

-- What mounting does to the stack, by its result.
abbrev pub Mounts : Mem → CellFileSystem → ℕ → ℤ × Option CellFileSystem → Type 0
Mounts mem mounted buf (pos r, after) =
    (r ≡ 0) × (after ≡ some (node_at mem buf ∷ mounted)) × ((buf == 0) ≡ false)
Mounts mem mounted buf (negsuc r, after) = (r ≡ 0) × (after ≡ some mounted)

-- Mounting is all or nothing, whatever lies in the buffer and whichever allocation fails: the
-- result is 0, the buffer is not NULL and one node stands before the stack, or it is -1 and the
-- stack is as it was. It is 0 exactly when the buffer is not NULL and every allocation that is
-- made succeeds; the third is made only if the archive has a file.
pub load_fs_all_or_nothing :
    (allocated : Allocated) (mem : Mem) (mounted : CellFileSystem) (buf buflen : ℕ)
    → Mounts mem mounted buf (load_fs allocated mem (some mounted) buf buflen)
      × (((load_fs allocated mem (some mounted) buf buflen).0 ≡ pos 0) ↔ (
          ((buf == 0) ≡ false)
          × (allocated.node ≡ true)
          × (allocated.newfs ≡ true)
          × ((read_u32 mem buf ≡ 0) ⊎ (allocated.files ≡ true))))
unfolding load_fs
load_fs_all_or_nothing allocated mem mounted buf buflen = ground arith

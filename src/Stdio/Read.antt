-- ===== src/Stdio/Read.antt =====
-- What `fread`, `fgetc` and `feof` do on an open stream of the file system.
use native.Mathlib.Nat.{mod-eq_of_lt, div-eq_of_lt}
use ckb_js.Prelude.{
  ℕ, zero, suc, ◌+◌, ◌-◌, ◌*◌, ◌/◌, ◌^◌, ◌≤◌, ◌<◌, ◌≡◌, refl, sym, ap, ap₂, ◌∙◌, true, false, some,
  Bool, if◌then◌else◌, List, [], ◌∷◌, arith, ◌==◌, u32, min, length, take, drop, inl, inr,
  Bool-cases, drop-add,
}
use ckb_js.CellFs.{Mem, FsFile}
use ckb_js.Prelude.Int.{negsuc}
use ckb_js.Stdio.{
  Outcome, host_call, exited, gate, done, Access, enable_fs_access, start_access, Stream,
  load_bytes, Fread, read_length, fread,
}

-- The flags after `enable_fs_access(1)` alone. No code of the repository makes that call: in the
-- program as it is every function of a stream ends the process, or passes to the debugger.
abbrev pub with_fs_access : Access
with_fs_access = enable_fs_access true start_access

-- How a call of the given number ends, by the two flags, if with file system access it ends so.
abbrev pub by_access : {A : Type 0} → (local fs : Bool) (number : ℕ) → Outcome A → Outcome A
by_access true fs number o = host_call number
by_access false true number o = o
by_access false false number o = exited (negsuc 0)

pub gate-by_access :
    {A : Type 0} (a : Access) (number : ℕ) (o : Outcome A)
    → gate a number o ≡ by_access a.local a.fs number o
gate-by_access a number o = by_flags a.local a.fs
  where
    by_flags :
        (local fs : Bool)
        → (if local then host_call number else if fs then o else exited (negsuc 0))
          ≡ by_access local fs number o
    by_flags true fs = refl
    by_flags false true = refl
    by_flags false false = refl

-- A stream that `fopen` gave and that is not closed.
pub record IsOpen (s : Stream) : Type 0 where
  pub used : s.file.rc ≡ 1
  pub within : s.offset ≤ s.file.size
  pub small : s.file.size < 2 ^ 32

-- The content of a file in memory, and what a stream has not yet read.
abbrev pub content : Mem → FsFile → List ℕ
content mem f = load_bytes mem f.content f.size

length-load_bytes : (mem : Mem) (p n : ℕ) → length (load_bytes mem p n) ≡ n
length-load_bytes mem p zero = refl
length-load_bytes mem p (suc n) = ap suc (length-load_bytes mem (p + 1) n)

pub length-content : (mem : Mem) (f : FsFile) → length (content mem f) ≡ f.size
length-content mem f = length-load_bytes mem f.content f.size

abbrev pub unread : Mem → Stream → List ℕ
unread mem s = drop s.offset (content mem s.file)

take-load_bytes : (mem : Mem) (p n m : ℕ) → n ≤ m → take n (load_bytes mem p m) ≡ load_bytes mem p n
take-load_bytes mem p zero m h = refl
take-load_bytes mem p (suc n) zero h = absurd (omega arith)
take-load_bytes mem p (suc n) (suc m) h =
    ap (λ r. mem p ∷ r) (take-load_bytes mem (p + 1) n m (omega arith))

drop-load_bytes :
    (mem : Mem) (k p q m r : ℕ)
    → q ≡ p + k
    → m ≡ k + r
    → drop k (load_bytes mem p m) ≡ load_bytes mem q r
drop-load_bytes mem zero p q m r e h = ap₂ (load_bytes mem) (omega arith) (omega arith)
drop-load_bytes mem (suc k) p q zero r e h = absurd (omega arith)
drop-load_bytes mem (suc k) p q (suc m) r e h =
    drop-load_bytes mem k (p + 1) q m r (omega arith) (omega arith)

pub unread-load_bytes :
    (mem : Mem) {s : Stream}
    → IsOpen s
    → unread mem s ≡ load_bytes mem (s.file.content + s.offset) (s.file.size - s.offset)
unread-load_bytes mem {s} v =
    drop-load_bytes mem s.offset s.file.content (s.file.content + s.offset) s.file.size
      (s.file.size - s.offset) refl (omega arith)

-- The number of bytes that a read of so many items takes.
abbrev pub read_count : (size nitems : ℕ) → Stream → ℕ
read_count size nitems s = min (size * nitems) (s.file.size - s.offset)

le-mul : (a b : ℕ) → 0 < a → b ≤ a * b
le-mul a b h = grind arith

read_length-read_count :
    (size nitems : ℕ) {s : Stream}
    → IsOpen s
    → 0 < size
    → size * nitems + size < 2 ^ 32
    → read_length size nitems s ≡ read_count size nitems s
read_length-read_count size nitems {s} v h fits =
    rw
      (
        mod-eq_of_lt {n = size} {m = 2 ^ 32} (omega arith),
        mod-eq_of_lt {n = nitems} {m = 2 ^ 32} (omega (arith, le-mul size nitems h)),
        mod-eq_of_lt {n = size * nitems} {m = 2 ^ 32} (omega arith),
      )
      (ground arith)

-- What a read returns, writes and leaves.
abbrev pub read_result : Mem → (size nitems : ℕ) → Stream → Fread
read_result mem size nitems s =
    let n = read_count size nitems s in
    record {
      items = (n + size - 1) / size;
      bytes = take n (unread mem s);
      stream = record s { offset = s.offset + n };
    }

pub Fread_eq :
    (f : FsFile) (i i' o o' : ℕ) (b b' : List ℕ)
    → i ≡ i'
    → b ≡ b'
    → o ≡ o'
    → ◌≡◌ {A = Fread}
        (record { items = i; bytes = b; stream = record { file = f; offset = o } })
        (record { items = i'; bytes = b'; stream = record { file = f; offset = o' } })
Fread_eq f i i' o o' b b' p q r = cc

-- The two cases of a read: at the end of the file, and before it.
read_result_at_end :
    (mem : Mem) (size nitems : ℕ) {s : Stream}
    → 0 < size
    → s.offset ≡ s.file.size
    → ◌≡◌ {A = Fread} (record { items = 0; bytes = []; stream = s }) (read_result mem size nitems s)
read_result_at_end mem size nitems {s} h e =
    let none_left : read_count size nitems s ≡ 0 = omega arith in
    Fread_eq s.file _ _ _ _ _ _
      (rw none_left (sym (div-eq_of_lt {n = 0 + size - 1} {m = size} (omega arith)))) (rw none_left)
      (omega (arith, none_left))

read_result_before_end :
    (mem : Mem) (size nitems n : ℕ) {s : Stream}
    → IsOpen s
    → 0 < size
    → size * nitems + size < 2 ^ 32
    → n ≡ read_count size nitems s
    → ◌≡◌ {A = Fread}
        (record {
          items = u32 (n + u32 size + (2 ^ 32 - 1)) / u32 size;
          bytes = load_bytes mem (s.file.content + s.offset) n;
          stream = record s { offset = u32 (s.offset + n) };
        })
        (read_result mem size nitems s)
read_result_before_end mem size nitems n {s} v h fits e =
    rw (e, mod-eq_of_lt {n = size} {m = 2 ^ 32} (omega arith))
      (Fread_eq s.file _ _ _ _ _ _ (ap (λ (t : ℕ). t / size) (omega arith))
        (sym (
            take-load_bytes mem (s.file.content + s.offset) (read_count size nitems s)
              (s.file.size - s.offset) (omega arith))
          ∙ ap (take (read_count size nitems s)) (sym (unread-load_bytes mem v)))
        (omega arith))

fread_stream-done :
    (mem : Mem) (size nitems : ℕ) {s : Stream}
    → IsOpen s
    → 0 < size
    → size * nitems + size < 2 ^ 32
    → fread with_fs_access mem size nitems (some s) ≡ done (read_result mem size nitems s)
unfolding fread
fread_stream-done mem size nitems {s} v h fits = elim (Bool-cases (s.offset == s.file.size)) [
  | inl end ↦ rw (open_rc, end) (ap done (read_result_at_end mem size nitems h (ground arith)))
  | inr more ↦
      rw (open_rc, more, size_ne_zero)
        (ap done (
          read_result_before_end mem size nitems (read_length size nitems s) v h fits
            (read_length-read_count size nitems v h fits)))
]
  where
    open_rc : (s.file.rc == 0) ≡ false
    open_rc = ground (arith, v.used)

    size_ne_zero : (u32 size == 0) ≡ false
    size_ne_zero = ground arith

-- On an open stream and with a product of sizes that stays in 32 bits: under local access `fread`
-- passes to the debugger by the system call 9005; without it and without file system access, which
-- only `enable_fs_access` gives, it ends the process with -1; with file system access alone it
-- copies the next bytes of the file, as many as are asked for and left, advances by their number,
-- and returns the number of items that they begin: an item that is cut short counts, other than the
-- comment in the code says.
pub fread_lem :
    (a : Access) (mem : Mem) (size nitems : ℕ) {s : Stream}
    → IsOpen s
    → 0 < size
    → size * nitems + size < 2 ^ 32
    → fread a mem size nitems (some s)
      ≡ by_access a.local a.fs 9005 (done (read_result mem size nitems s))
unfolding fread
fread_lem a mem size nitems {s} v h fits =
    ap (gate a 9005) (fread_stream-done mem size nitems v h fits)
    ∙ gate-by_access a 9005 (done (read_result mem size nitems s))

-- Reading leaves an open stream open.
pub read_result-IsOpen :
    (mem : Mem) (size nitems : ℕ) {s : Stream}
    → IsOpen s
    → IsOpen (read_result mem size nitems s).stream
read_result-IsOpen mem size nitems v = record {
  used = v.used;
  within = omega arith;
  small = v.small;
}

pub unread-drop :
    (mem : Mem) (s : Stream) (k : ℕ)
    → unread mem (record s { offset = s.offset + k }) ≡ drop k (unread mem s)
unread-drop mem s k = drop-add s.offset k (s.offset + k) (content mem s.file) refl

-- ===== src/Stdio/Sequence.antt =====
-- Sequences of calls on a stream.
use native.Mathlib.Nat.{mod-eq_of_lt, div-eq_of_lt-le}
use ckb_js.Prelude.{
  ℕ, zero, suc, ◌+◌, ◌-◌, ◌*◌, ◌/◌, ◌^◌, ◌≤◌, ◌<◌, ◌≡◌, ◌↔◌, refl, sym, ap, ◌∙◌, true, false,
  Option, none, some, List, [], ◌∷◌, ◌++◌, arith, ◌==◌, length, take, inl, inr, Bool-cases,
  drop_all, take-add, length-take, length-drop,
}
use ckb_js.Prelude.Int.{ℤ, pos, negsuc}
use mathlib.Core.Option
use ckb_js.CellFs.{Mem}
use ckb_js.Stdio.{
  Outcome, done, host_call, exited, undefined, Access, Stream, fgetc, load_bytes, Fread, fread,
  feof,
}
use ckb_js.Stdio.Read.{
  with_fs_access, length-content, unread-drop, Fread_eq, IsOpen, content, unread, unread-load_bytes,
  read_count, read_result, fread_lem, read_result-IsOpen,
}

fgetc_at_end :
    (mem : Mem) {s : Stream}
    → IsOpen s
    → (s.offset == s.file.size) ≡ true
    → fgetc with_fs_access mem (some s) ≡ done (negsuc 0, some s)
unfolding fgetc
fgetc_at_end mem {s} v e = ground (arith, v.used)

fgetc_before_end :
    (mem : Mem) {s : Stream}
    → IsOpen s
    → (s.offset == s.file.size) ≡ false
    → fgetc with_fs_access mem (some s)
      ≡ done (pos (mem (s.file.content + s.offset)), some (record s { offset = s.offset + 1 }))
unfolding fgetc
fgetc_before_end mem {s} v e =
    rw (open_rc, e, mod-eq_of_lt {n = s.offset + 1} {m = 2 ^ 32} (ground arith))
  where
    open_rc : (s.file.rc == 0) ≡ false
    open_rc = ground (arith, v.used)

-- What a loop of `fgetc` collects, by the result of a call and the loop that goes on.
abbrev pub collect : (Stream → Option (List ℕ)) → Outcome (ℤ × Option Stream) → Option (List ℕ)
collect rest (done (pos c, some s)) = Option.map (λ cs. c ∷ cs) (rest s)
collect rest (done (pos c, none)) = none
collect rest (done (negsuc n, s)) = some []
collect rest (host_call n) = none
collect rest (exited c) = none
collect rest undefined = none

-- `while ((c = fgetc(stream)) >= 0) …`; `none` if the fuel runs out or a call does not return.
unfoldable pub read_all : ℕ → Access → Mem → Stream → Option (List ℕ)
read_all zero a mem s = none
read_all (suc fuel) a mem s = collect (λ s'. read_all fuel a mem s') (fgetc a mem (some s))

unread-cons :
    (mem : Mem) {s : Stream}
    → IsOpen s
    → (s.offset == s.file.size) ≡ false
    → unread mem s
      ≡ mem (s.file.content + s.offset) ∷ unread mem (record s { offset = s.offset + 1 })
unread-cons mem {s} v e =
    let left : s.file.size - s.offset ≡ suc (s.file.size - (s.offset + 1)) = ground arith in
    let next : IsOpen (record s { offset = s.offset + 1 }) = record {
      used = v.used;
      within = ground arith;
      small = v.small;
    } in
    rw (unread-load_bytes mem v, left, unread-load_bytes mem next)
      (ap (λ p. mem (s.file.content + s.offset) ∷ load_bytes mem p (s.file.size - (s.offset + 1)))
        (omega arith))

-- With file system access enabled by `enable_fs_access` and no local access, reading an open stream
-- byte by byte until EOF, with fuel for each byte left and one more call, gives exactly what the
-- stream had not yet read, in order.
pub read_all-unread :
    (fuel : ℕ) (mem : Mem) {s : Stream}
    → IsOpen s
    → s.file.size < s.offset + fuel
    → read_all fuel with_fs_access mem s ≡ some (unread mem s)
unfolding read_all
read_all-unread zero mem {s} v enough = absurd (omega arith)
read_all-unread (suc fuel) mem {s} v enough = elim (Bool-cases (s.offset == s.file.size)) [
  | inl end ↦ rw (fgetc_at_end mem v end) (
      ap some (
        sym (
          drop_all s.offset (content mem s.file)
            (omega (arith, length-content mem s.file, at_end end)))))
  | inr more ↦
      rw (fgetc_before_end mem v more, unread-cons mem v more)
        (ap (Option.map (λ cs. mem (s.file.content + s.offset) ∷ cs)) (
          read_all-unread fuel mem
            (record { used = v.used; within = ground arith; small = v.small }) (omega arith)))
]
  where
    at_end : (s.offset == s.file.size) ≡ true → s.offset ≡ s.file.size
    at_end e = ground arith

-- With the same access, `feof` is 1 exactly when the next `fgetc` gives EOF.
pub feof_iff_eof :
    (mem : Mem) {s : Stream}
    → IsOpen s
    → (feof with_fs_access (some s) ≡ done 1)
      ↔ (fgetc with_fs_access mem (some s) ≡ done (negsuc 0, some s))
unfolding feof fgetc
feof_iff_eof mem v = ground (arith, v.used)

read_count-add :
    (size a b : ℕ) (s : Stream)
    → read_count size (a + b) s
      ≡ read_count size a s
        + read_count size b (record s { offset = s.offset + read_count size a s })
read_count-add size a b s = grind arith

-- With the same access, two reads one after the other are one read of both numbers of items: the same bytes, and the
-- same stream afterwards.
pub fread-fread :
    (mem : Mem) (size a b : ℕ) {s : Stream}
    → IsOpen s
    → 0 < size
    → size * (a + b) + size < 2 ^ 32
    → (r₁ : Fread) × (r₂ : Fread) × (fread with_fs_access mem size a (some s) ≡ done r₁)
      × (fread with_fs_access mem size b (some r₁.stream) ≡ done r₂)
      × (fread with_fs_access mem size (a + b) (some s)
          ≡ done (record {
            items = (read_count size (a + b) s + size - 1) / size;
            bytes = r₁.bytes ++ r₂.bytes;
            stream = r₂.stream;
          }))
fread-fread mem size a b {s} v h fits =
    let r₁ = read_result mem size a s in
    let v₁ = read_result-IsOpen mem size a v in
    (
      r₁,
      read_result mem size b r₁.stream,
      fread_lem with_fs_access mem size a v h (grind arith),
      fread_lem with_fs_access mem size b v₁ h (grind arith),
      fread_lem with_fs_access mem size (a + b) v h fits
          ∙ ap done (
              Fread_eq s.file _ _ _ _ _ _ refl
                (rw (unread-drop mem s (read_count size a s))
                  (take-add (read_count size a s) _ _ (unread mem s) (read_count-add size a b s)))
                (omega (arith, read_count-add size a b s))),
    )

length-unread : (mem : Mem) (s : Stream) → length (unread mem s) ≡ s.file.size - s.offset
length-unread mem s =
    omega (arith, length-drop s.offset (content mem s.file), length-content mem s.file)

-- With the same access, if the file has all the items left, `fread` returns their number and has copied every byte.
pub fread_full :
    (mem : Mem) (size nitems : ℕ) {s : Stream}
    → IsOpen s
    → 0 < size
    → size * nitems + size < 2 ^ 32
    → size * nitems ≤ s.file.size - s.offset
    → (r : Fread) × (fread with_fs_access mem size nitems (some s) ≡ done r)
      × (r.items ≡ nitems)
      × (length r.bytes ≡ size * nitems)
      × (r.bytes ≡ take (size * nitems) (unread mem s))
fread_full mem size nitems {s} v h fits enough =
    let all : read_count size nitems s ≡ size * nitems = omega arith in
    (
      read_result mem size nitems s,
      fread_lem with_fs_access mem size nitems v h fits,
      rw all (div-eq_of_lt-le size (grind arith) (grind arith)),
      length_bytes,
      ap (λ n. take n (unread mem s)) all,
    )
  where
    length_bytes : length (take (read_count size nitems s) (unread mem s)) ≡ size * nitems
    length_bytes =
        omega (arith, length-take (read_count size nitems s) (unread mem s), length-unread mem s)

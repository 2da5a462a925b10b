-- ===== src/Malloc/Settle.antt =====
-- The end of a merge: the chunk gets its tags and goes into its bin.
use ckb_js.Prelude.{
  ℕ, ◌+◌, ◌%◌, ◌<◌, ◌≤◌, ◌≡◌, ◌≢◌, refl, true, false, none, some, ◌==◌, if◌then◌else◌, arith, inl,
  inr, Bool-cases, Option-cases,
}
use ckb_js.Malloc.{bin_index}
use ckb_js.Malloc.Bins.{bin_index_total}
use ckb_js.Malloc.Heap.{Heap, done, store, bin_to_chunk, lock_bin, bin_chunk}
use ckb_js.Malloc.Alloc.{Merge, bin_merged, free}
use ckb_js.Malloc.Links.{Nodes, IsLinked}
use ckb_js.Malloc.Layout.{nothing, chunk, put, IsTiled-mark}
use ckb_js.Malloc.Take.{lock_bin-Locks}
use ckb_js.Malloc.Merging.{Merging}
use ckb_js.Malloc.Bin.{bin_chunk-IsHeap, shelved}
use ckb_js.Malloc.Invariant.{
  View, IsHeap, IsBinned, HasTags, IsKept, IsKept-trans, IsLinked-frame, node-IsLink, top_aligned,
}

-- A chunk is not in use any more; nothing happens to the others that are.
pub record Frees (bins : ℕ) (h : Heap) (g : View) (c : ℕ) (h' : Heap) : Type 0 where
  pub view : View
  pub heap : IsHeap bins 0 h' view
  pub gone : (t : ℕ) → view.slot c ≢ chunk t true
  pub kept : IsKept (put c nothing g.slot) view.slot h.words h'.words

module _ (bins : ℕ) (h₀ : Heap) (g₀ : View) (c₀ : ℕ) (m : Merge bins) (k : Merging bins h₀ g₀ c₀ m)
    (h : Heap) (node : Nodes) (v : IsHeap bins 0 h (record k.view { node = node })) where
  abbrev settled : View
  settled = record k.view { slot = put m.self (chunk m.size false) k.slots; node = node }

  abbrev tagged : ℕ → ℕ
  tagged q = if q == m.next then m.size else if q == m.self + 8 then m.size else h.words q

  place :
      (m.self % 32 ≡ 16)
      × (m.size % 32 ≡ 0)
      × (32 ≤ m.size)
      × (k.view.first ≤ m.self)
      × (m.self + m.size ≤ k.view.top)
      × (m.next ≡ m.self + m.size)
  place =
      let (a, b, c) = k.tiled.aligned m.self m.size true k.at in
      let (d, e) = k.tiled.inside m.self m.size true k.at in (a, b, c, d, e, k.behind)

  settled_tags : HasTags tagged settled.slot k.view.first k.view.top
  settled_tags = record {
    header = λ a t u f. elim (Bool-cases (a == m.self)) [
      | inl here ↦ ground (arith, f, here, place)
      | inr other ↦
          (let f' : k.slots a ≡ chunk t u = ground (arith, f, other) in
            ground (
              arith,
              other,
              place,
              v.tags.header a t u (k.same a t u f' (ground (arith, other))),
              k.tiled.aligned a t u f',
            ))
    ];
    footer = λ a t u f. elim (Bool-cases (a == m.self)) [
      | inl here ↦ ground (arith, f, here, place)
      | inr other ↦
          (let f' : k.slots a ≡ chunk t u = ground (arith, f, other) in
            ground (
              arith,
              other,
              place,
              v.tags.footer a t u (k.same a t u f' (ground (arith, other))),
              k.tiled.aligned a t u f',
              k.tiled.apart a t m.self m.size u true f' k.at,
              k.tiled.apart m.self m.size a t true u k.at f',
            ))
    ];
    prologue = ground (arith, v.tags.prologue, place, k.tiled.first_aligned);
    sentinel =
        ground
          (arith, v.tags.sentinel, place, top_aligned bins 0 h (record k.view { node = node }) v);
  }

  settled_links : IsLinked tagged node
  settled_links =
      IsLinked-frame h.words tagged node
        (λ a j f.
          let (x, y, z) = node-IsLink bins 0 h (record k.view { node = node }) v a j f in
          (ground (arith, x, place), ground (arith, y, place)))
        v.linked

  fresh : node m.self ≡ none
  fresh = elim (Option-cases (node m.self)) [
    | inl free ↦ free
    | inr (j, f) ↦ elim (v.lists.in_bin m.self j f) [
      | inl p ↦ absurd (omega (arith, v.lists.below, p, place))
      | inr (t, p, q) ↦ absurd (ground (arith, k.free m.self t p, k.at))
    ]
  ]

  settled_lists : IsBinned bins m.self tagged settled
  settled_lists = record {
    in_bin = λ a j f. elim (v.lists.in_bin a j f) [
      | inl p ↦ inl p
      | inr (t, d, b) ↦ inr (t, ground (arith, f, fresh, k.free a t d), b)
    ];
    binned = λ a t f. elim (Bool-cases (a == m.self)) [
      | inl here ↦ inl (ground (arith, here))
      | inr other ↦
          let f' : k.slots a ≡ chunk t false = ground (arith, f, other) in
          elim (v.lists.binned a t (k.same a t false f' (ground (arith, other)))) [
            | inl zero ↦ absurd (omega (arith, zero, k.tiled.aligned a t false f'))
            | inr b ↦ inr b
          ]
    ];
    unused = λ j l f. ground (arith, v.lists.unused j l f, v.lists.below, place);
    out = inr (omega (arith, place), fresh);
    above = v.lists.above;
    below = v.lists.below;
  }

  abbrev stored : Heap
  stored = store m.next m.size (store (m.self + 8) m.size h)

  pub settled-IsHeap : IsHeap bins m.self stored settled
  settled-IsHeap = record {
    tiled = IsTiled-mark k.slots k.view.first k.view.top m.self m.size true false k.tiled k.at;
    tags = settled_tags;
    linked = settled_links;
    lists = settled_lists;
    at_end = v.at_end;
    brk = v.brk;
    break_at = v.break_at;
    small = v.small;
  }

  settled-IsKept : IsKept (put m.self nothing k.slots) settled.slot h.words tagged
  settled-IsKept = record {
    live = λ a t f. ground (arith, f);
    content = λ a t q f lo hi.
        (let f' : k.slots a ≡ chunk t true = ground (arith, f) in
          ground (
            arith,
            f,
            lo,
            hi,
            place,
            k.tiled.aligned a t true f',
            k.tiled.apart a t m.self m.size true true f' k.at,
            k.tiled.apart m.self m.size a t true true k.at f',
          ));
  }

  finished :
      (i : ℕ)
      → bin_index m.size ≡ some i
      → i < 64
      → node (bin_to_chunk bins i) ≡ some i
      → IsKept k.view.slot k.view.slot m.heap.words h.words
      → Frees bins h₀ g₀ c₀ (bin_chunk bins m.self i stored)
  finished i b l ready kept =
      let place : settled.slot m.self ≡ chunk m.size false = ground arith in
      let (done_heap, done_kept) =
        bin_chunk-IsHeap bins stored settled m.self m.size i settled-IsHeap place fresh b l ready in
      let own = put m.self nothing k.slots in
      let locked : IsKept own own m.heap.words h.words = record {
        live = λ a t f. f;
        content = λ a t q f lo hi.
            kept.content a t q (k.same a t true (ground (arith, f)) (ground (arith, f))) lo hi;
      } in
      record {
        view = shelved bins stored settled m.self m.size i settled-IsHeap place fresh b l ready;
        heap = done_heap;
        gone = λ t f. ground (arith, f, k.gone t true);
        kept =
            IsKept-trans (put c₀ nothing g₀.slot) settled.slot settled.slot h₀.words tagged
              (bin_chunk bins m.self i stored).words
              (IsKept-trans (put c₀ nothing g₀.slot) own settled.slot h₀.words h.words tagged
                (IsKept-trans (put c₀ nothing g₀.slot) own own h₀.words m.heap.words h.words k.kept
                  locked)
                settled-IsKept)
              done_kept;
      }

module _ (bins : ℕ) (h₀ : Heap) (g₀ : View) (c₀ : ℕ) (m : Merge bins)
    (k : Merging bins h₀ g₀ c₀ m) where
  -- The last step of `__bin_chunk` keeps the invariant.
  pub bin_merged-Frees : (h' : Heap) × (bin_merged bins m ≡ done h') × Frees bins h₀ g₀ c₀ h'
  unfolding bin_merged
  bin_merged-Frees =
      let (low, high) = k.tiled.inside m.self m.size true k.at in
      let (i, i', b, b', le, most) =
        bin_index_total m.size m.size (omega (arith, k.tiled.aligned m.self m.size true k.at))
          (omega arith) (omega (arith, k.heap.small, high)) in
      let l : i < 64 = omega (arith, le, most) in
      let (node', locks) = lock_bin-Locks bins 0 m.heap k.view k.heap i l in
      (
        bin_chunk bins m.self i
            (store m.next m.size (store (m.self + 8) m.size (lock_bin bins i m.heap))),
        rw b refl,
        finished bins h₀ g₀ c₀ m k (lock_bin bins i m.heap) node' locks.heap i b l locks.ready
            locks.kept,
      )

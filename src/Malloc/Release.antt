-- ===== src/Malloc/Release.antt =====
-- `free` keeps the invariant, and the chunk is in use no more.
use ckb_js.Prelude.{
  ℕ, ◌+◌, ◌-◌, ◌≡◌, refl, sym, ap, ◌∙◌, Bool, true, false, ◌==◌, if◌then◌else◌, arith, inl, inr,
  u64,
}
use ckb_js.Malloc.Heap.{Heap, done, lock_bin, unbin, used, even_part, prev_chunk}
use ckb_js.Malloc.Alloc.{Merge, merge_prev, merge_next, free_chunk, free}
use ckb_js.Malloc.Layout.{chunk, put}
use ckb_js.Malloc.Merging.{Merging, free-Pulls, merge_next-Merging, merge_prev-Merging}
use ckb_js.Malloc.Settle.{Frees, bin_merged-Frees}
use ckb_js.Malloc.Invariant.{View, IsHeap}

module _ (bins : ℕ) (h₀ : Heap) (g₀ : View) (c₀ : ℕ) (m : Merge bins)
    (k : Merging bins h₀ g₀ c₀ m) where
  fits_word : (d s : ℕ) → k.view.slot d ≡ chunk s false → u64 (m.size + s) ≡ m.size + s
  fits_word d s e =
      omega (
        arith,
        k.heap.small,
        k.tiled.inside m.self m.size true k.at,
        k.heap.tiled.inside d s false e,
      )

  merge_next_free :
      (s : ℕ)
      → k.view.slot m.next ≡ chunk s false
      → (m' : Merge bins) × (merge_next bins s m ≡ done m') × Merging bins h₀ g₀ c₀ m'
  unfolding merge_next
  merge_next_free s e =
      let (i, p) = free-Pulls bins m.heap k.view m.next s k.heap e in
      let whole = fits_word m.next s e in
      let (unit, part, low) = k.heap.tiled.aligned m.next s false e in
      let free_bit : used ((lock_bin bins i m.heap).words (m.next + 8)) ≡ false =
        ground (arith, p.locked.tags.header m.next s false e, part) in
      let positive : (s == 0) ≡ false = ground (arith, low) in
      let behind : even_part ((unbin bins m.next i (lock_bin bins i m.heap)).words (m.next + 8))
          ≡ s =
        ground (arith, p.pulled.tags.header m.next s true (ground arith), part) in
      (
        record m {
          next = m.next + s;
          size = m.size + s;
          heap = unbin bins m.next i (lock_bin bins i m.heap);
        },
        rw (positive, p.index, free_bit, whole, behind) refl,
        merge_next-Merging bins h₀ g₀ c₀ m k m.next s i e p refl,
      )

  merge_prev_free :
      (d s : ℕ)
      → k.view.slot d ≡ chunk s false
      → d + s ≡ m.self
      → (m' : Merge bins) × (merge_prev bins s m ≡ done m')
        × (k' : Merging bins h₀ g₀ c₀ m') × (m'.next ≡ m.next)
        × (k'.view.slot ≡ put d (chunk s true) k.view.slot)
  unfolding merge_prev
  merge_prev_free d s e here =
      let (i, p) = free-Pulls bins m.heap k.view d s k.heap e in
      let whole = fits_word d s e in
      let (unit, part, low) = k.heap.tiled.aligned d s false e in
      let foot : (lock_bin bins i m.heap).words m.self ≡ s =
        ap (lock_bin bins i m.heap).words (sym here) ∙ p.locked.tags.footer d s false e in
      let free_bit : used ((lock_bin bins i m.heap).words m.self) ≡ false =
        ground (arith, foot, part) in
      let positive : (s == 0) ≡ false = ground (arith, low) in
      let (k', view) = merge_prev-Merging bins h₀ g₀ c₀ m k d s i e p here in
      let before : prev_chunk (lock_bin bins i m.heap) m.self ≡ d =
        omega (arith, foot, part, here) in
      (
        record m { self = d; size = m.size + s; heap = unbin bins d i (lock_bin bins i m.heap) },
        rw (positive, p.index, free_bit, whole, before) refl,
        k',
        refl,
        view,
      )

module _ (bins : ℕ) (h : Heap) (g : View) (v : IsHeap bins 0 h g) (c s : ℕ)
    (e : g.slot c ≡ chunk s true) where
  abbrev lone : Merge bins
  lone = record { self = c; next = c + s; size = s; heap = h }

  abbrev lone_merging : Merging bins h g c lone
  lone_merging = record {
    view = g;
    heap = v;
    slots = g.slot;
    tiled = v.tiled;
    at = e;
    behind = refl;
    same = λ a t u f n. f;
    free = λ a t f. f;
    gone = λ t u f. refl;
    kept = record { live = λ a t f. f; content = λ a t q f lo hi. refl };
  }

  -- What `__bin_chunk` reads before it merges.
  abbrev psize : ℕ
  psize = if used (h.words c) then 0 else even_part (h.words c)

  abbrev nsize : ℕ
  nsize = if used (h.words (c + s + 8)) then 0 else even_part (h.words (c + s + 8))

  prev_merged :
      (m' : Merge bins) × (merge_prev bins psize lone ≡ done m')
      × (k' : Merging bins h g c m') × (m'.next ≡ c + s)
      × ((t : ℕ) (u : Bool) → g.slot (c + s) ≡ chunk t u → k'.view.slot (c + s) ≡ chunk t u)
  unfolding merge_prev
  prev_merged = elim (v.tiled.prev c s true e) [
    | inl first ↦
        let alone : psize ≡ 0 = ground (arith, first, v.tags.prologue) in
        (lone, rw alone refl, lone_merging, refl, λ t u f. f)
    | inr (d, t, true, f, here) ↦
        let alone : psize ≡ 0 =
          ground (arith, here, v.tags.footer d t true f, v.tiled.aligned d t true f) in
        (lone, rw alone refl, lone_merging, refl, λ t u f. f)
    | inr (d, t, false, f, here) ↦
        let foot : h.words c ≡ t = ap h.words (sym here) ∙ v.tags.footer d t false f in
        let free_size : psize ≡ t = ground (arith, foot, v.tiled.aligned d t false f) in
        let (m', q, k', n, same) = merge_prev_free bins h g c lone lone_merging d t f here in
        (
          m',
          ap (λ r. merge_prev bins r lone) free_size ∙ q,
          k',
          n,
          λ r u w.
              ap (λ f. f (c + s)) same
              ∙ ground (arith, w, here, v.tiled.aligned d t false f, v.tiled.aligned c s true e),
        )
  ]

  next_merged :
      (m : Merge bins)
      → (k : Merging bins h g c m) → m.next ≡ c + s
      → ((t : ℕ) (u : Bool) → g.slot (c + s) ≡ chunk t u → k.view.slot (c + s) ≡ chunk t u)
      → (m' : Merge bins) × (merge_next bins nsize m ≡ done m') × Merging bins h g c m'
  unfolding merge_next
  next_merged m k here same = elim (v.tiled.next c s true e) [
    | inl top ↦
        let alone : nsize ≡ 0 = ground (arith, top, v.tags.sentinel) in (m, rw alone refl, k)
    | inr (t, true, f) ↦
        let alone : nsize ≡ 0 =
          ground (arith, v.tags.header (c + s) t true f, v.tiled.aligned (c + s) t true f) in
        (m, rw alone refl, k)
    | inr (t, false, f) ↦
        let free_size : nsize ≡ t =
          ground (arith, v.tags.header (c + s) t false f, v.tiled.aligned (c + s) t false f) in
        let (m', q, k') = merge_next_free bins h g c m k t (ap k.view.slot here ∙ same t false f) in
        (m', ap (λ r. merge_next bins r m) free_size ∙ q, k')
  ]

  pub free_chunk-Frees : (h' : Heap) × (free_chunk bins c h ≡ done h') × Frees bins h g c h'
  unfolding free_chunk
  free_chunk-Frees =
      let (m₁, e₁, k₁, n₁, same) = prev_merged in
      let (m₂, e₂, k₂) = next_merged m₁ k₁ n₁ same in
      let (h', e₃, frees) = bin_merged-Frees bins h g c m₂ k₂ in
      let size : even_part (h.words (c + 8)) ≡ s =
        ground (arith, v.tags.header c s true e, v.tiled.aligned c s true e) in
      let footer : (h.words (c + s) == h.words (c + 8)) ≡ true =
        ground (arith, v.tags.header c s true e, v.tags.footer c s true e) in
      (h', rw (size, footer, e₁, e₂) e₃, frees)

  -- On a heap that keeps the invariant, `free` of a chunk in use ends. The heap keeps the
  -- invariant, no chunk at that address is in use any more, and every other chunk in use stays
  -- with its contents.
  pub free-Frees : (h' : Heap) × (free bins (c + 16) h ≡ done h') × Frees bins h g c h'
  unfolding free
  free-Frees =
      let (h', q, frees) = free_chunk-Frees in
      let some_place : (c + 16 == 0) ≡ false = ground arith in
      let place : c + 16 - 16 ≡ c = omega arith in (h', rw (some_place, place) q, frees)

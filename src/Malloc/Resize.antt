-- ===== src/Malloc/Resize.antt =====
-- `realloc` of a block, on every way it may take.
use ckb_js.Prelude.{
  ℕ, ◌+◌, ◌-◌, ◌*◌, ◌%◌, ◌≤◌, ◌≡◌, ◌⊎◌, refl, true, false, ◌==◌, ◌&&◌, if◌then◌else◌, arith, inl,
  inr, Bool-cases, ltb, leb,
}
use ckb_js.Malloc.{mmap_threshold}
use ckb_js.Malloc.Bins.{bin_index_total, bin_index_up_fits}
use ckb_js.Malloc.Sizes.{adjust_size_least}
use ckb_js.Malloc.Heap.{Heap, even_part, used, has_bit}
use ckb_js.Malloc.Alloc.{copy_realloc, extend, resize, realloc}
use ckb_js.Malloc.Layout.{chunk}
use ckb_js.Malloc.Trim.{Trims}
use ckb_js.Malloc.Shrink.{shrink-Trims}
use ckb_js.Malloc.Extend.{Resizes, extend-Resizes}
use ckb_js.Malloc.Move.{Moves, Reallocates, copy_realloc-Reallocates}
use ckb_js.Malloc.Invariant.{View, IsHeap}

module _ (bins : ℕ) (h : Heap) (g : View) (c s : ℕ) (v : IsHeap bins 0 h g)
    (e : g.slot c ≡ chunk s true) where
  module _ (n : ℕ) (low : 32 ≤ n) (units : n % 32 ≡ 0) where
    in_place : (h' : Heap) → Resizes bins h g c s n h' → Moves bins h g c s n c h'
    in_place h' t = record {
      view = t.view;
      size = t.size;
      heap = t.heap;
      at = t.at;
      enough = t.enough;
      new = inl refl;
      others = t.others;
      copied = λ k l m. t.own (c + 16 + 8 * k) (omega arith) (omega (arith, l)) (omega (arith, m));
    }

    cut_down : (h' : Heap) → Trims bins h g c n h' → Moves bins h g c s n c h'
    cut_down h' t = record {
      view = t.view;
      size = t.size;
      heap = t.heap;
      at = t.at;
      enough = t.enough;
      new = inl refl;
      others = t.others;
      copied = λ k l m. t.own (c + 16 + 8 * k) (omega arith) (omega (arith, m));
    }

    unchanged : n ≤ s → Moves bins h g c s n c h
    unchanged fits = record {
      view = g;
      size = s;
      heap = v;
      at = e;
      enough = fits;
      new = inl refl;
      others = record { live = λ a t f. ground (arith, f); content = λ a t q f lo hi. refl };
      copied = λ k l m. refl;
    }

  -- What `realloc` reads of the chunk behind.
  abbrev nsize : ℕ
  nsize = if used (h.words (c + s + 8)) then 0 else even_part (h.words (c + s + 8))

  behind : (nsize ≡ 0) ⊎ ((r : ℕ) × (nsize ≡ r) × (g.slot (c + s) ≡ chunk r false))
  behind = elim (v.tiled.next c s true e) [
    | inl top ↦ inl (ground (arith, top, v.tags.sentinel))
    | inr (t, true, f) ↦
        inl (ground (arith, v.tags.header (c + s) t true f, v.tiled.aligned (c + s) t true f))
    | inr (t, false, f) ↦
        inr
          (t, ground (arith, v.tags.header (c + s) t false f, v.tiled.aligned (c + s) t false f), f)
  ]

  resize-Reallocates :
      (n : ℕ)
      → 32 ≤ n
      → n % 32 ≡ 0
      → n ≤ mmap_threshold
      → Reallocates bins h g c s n (resize bins (c + 16) n h)
  unfolding resize
  resize-Reallocates n low units small =
      let place : c + 16 - 16 ≡ c = omega arith in
      let size : even_part (h.words (c + 8)) ≡ s =
        ground (arith, v.tags.header c s true e, v.tiled.aligned c s true e) in
      let footer : (h.words (c + s) == h.words (c + 8)) ≡ true =
        ground (arith, v.tags.header c s true e, v.tags.footer c s true e) in
      let copy = copy_realloc-Reallocates bins h g c s n v e low (omega (arith, small)) in
      elim (Bool-cases (leb n s && leb (s - n) 16)) [
        | inl close ↦
            rw (place, size, close)
              (c + 16, h, refl, inr (c, refl, unchanged n low units (ground (arith, close))))
        | inr far ↦ elim (Bool-cases (ltb n s)) [
          | inl smaller ↦
              let (i, b, fits) = bin_index_up_fits n low units small in
              let (j, j', b₁, b₂, le, most) =
                bin_index_total s s (omega (arith, v.tiled.aligned c s true e)) (omega arith)
                  (omega (arith, v.small, v.tiled.inside c s true e)) in
              elim (Bool-cases (ltb i j && has_bit h.binmap i)) [
                | inl t ↦
                    rw (place, size, far, footer, smaller, b, b₁, t)
                      (rw (copy_realloc, place, smaller) at copy)
                | inr f ↦
                    let high : n + 32 ≤ s =
                      ground (arith, smaller, units, v.tiled.aligned c s true e) in
                    let (h', q, t) = shrink-Trims bins h g c s n v e low units high in
                    rw (place, size, far, footer, smaller, b, b₁, f)
                      (c + 16, h', q, inr (c, refl, cut_down n low units h' t))
              ]
          | inr larger ↦ elim (Bool-cases (leb n (s + nsize))) [
            | inl room ↦ elim behind [
              | inl alone ↦ absurd (ground (arith, far, larger, room, alone))
              | inr (r, same, f) ↦
                  let fits : n ≤ s + r = ground (arith, room, same) in
                  let (h', q, t) = extend-Resizes bins h g c s r n v e f low units fits in
                  rw (place, size, far, footer, larger, room, same)
                    (
                      c + 16,
                      h',
                      rw (extend, place, larger) at q,
                      inr (c, refl, in_place n low units h' t),
                    )
            ]
            | inr full ↦
                rw (place, size, far, footer, larger, full)
                  (rw (copy_realloc, place, larger) at copy)
          ]
        ]
      ]

  -- On a heap that keeps the invariant, `realloc` of a chunk in use to `n` bytes, no more than the
  -- threshold with the header, ends, neither crashing nor reading outside the table of bins. It
  -- gives NULL, and the heap keeps the invariant and every chunk in use; or it gives a chunk in use
  -- with at least `n` bytes behind its header, at the old place or at one that was not in use,
  -- with the words of the old chunk that it has room for, the heap keeps the invariant, and every
  -- other chunk in use stays with its contents.
  pub realloc-Reallocates :
      (n : ℕ)
      → n + 16 ≤ mmap_threshold
      → (m : ℕ) × (n + 16 ≤ m) × Reallocates bins h g c s m (realloc bins (c + 16) n h)
  unfolding realloc
  realloc-Reallocates n small = elim (adjust_size_least n (omega (arith, small))) [
    | inl (large, q) ↦ absurd (omega (arith, large, small))
    | inr (m, q, units, room, close) ↦
        let some_place : (c + 16 == 0) ≡ false = ground arith in
        (
          m,
          room,
          rw (some_place, q)
              (resize-Reallocates m (omega (arith, units, room)) units
                (omega (arith, small, close, units))),
        )
  ]

-- ===== src/Malloc/Links.antt =====
-- The lists of the bins in memory: doubly linked, closed, and kept so by every operation on them.
use ckb_js.Prelude.{ℕ, ◌+◌, ◌≡◌, ◌≢◌, Option, none, some, ◌==◌, if◌then◌else◌, arith, inl, inr, ◌⊎◌}

-- Which bin the chunk at an address is in, its head counted in.
abbrev pub Nodes : Type 0
Nodes = ℕ → Option ℕ

-- Each node's neighbours are nodes of the same bin and point back, and no node's links lie in
-- another's.
pub record IsLinked (w : ℕ → ℕ) (node : Nodes) : Type 0 where
  pub next_node : (a i : ℕ) → node a ≡ some i → node (w (a + 16)) ≡ some i
  pub prev_node : (a i : ℕ) → node a ≡ some i → node (w (a + 24)) ≡ some i
  pub next_prev : (a i : ℕ) → node a ≡ some i → w (w (a + 16) + 24) ≡ a
  pub prev_next : (a i : ℕ) → node a ≡ some i → w (w (a + 24) + 16) ≡ a
  pub apart : (a b i j : ℕ) → node a ≡ some i → node b ≡ some j → a + 8 ≢ b

abbrev pub remove : ℕ → Nodes → Nodes
remove c node a = if a == c then none else node a

abbrev pub insert : ℕ → ℕ → Nodes → Nodes
insert c i node a = if a == c then some i else node a

-- The memory behind `unlink`, word by word.
abbrev pub unlinked : (ℕ → ℕ) → (c q : ℕ) → ℕ
unlinked w c q =
    if q == w (c + 16) + 24 then w (c + 24) else if q == w (c + 24) + 16 then w (c + 16) else w q

module _ (w : ℕ → ℕ) (node : Nodes) (c i : ℕ) (l : IsLinked w node) (ec : node c ≡ some i) where
  removed-node : (a j : ℕ) → remove c node a ≡ some j → (node a ≡ some j) × (a ≢ c)
  removed-node a j e = ground arith

  -- The chunk's own neighbours.
  at_last : w (w (c + 24) + 16) ≡ c
  at_last = l.prev_next c i ec

  at_next : w (w (c + 16) + 24) ≡ c
  at_next = l.next_prev c i ec

  -- What is read at the next link of a node that stays.
  read_next :
      (a j : ℕ)
      → node a ≡ some j
      → a ≢ c
      → ((a ≡ w (c + 24)) × (unlinked w c (a + 16) ≡ w (c + 16)) × (w (c + 16) ≢ c))
        ⊎ ((a ≢ w (c + 24)) × (unlinked w c (a + 16) ≡ w (a + 16)) × (w (a + 16) ≢ c))
  read_next a j e n = ground (
    arith,
    l.apart (w (c + 16)) a i j (l.next_node c i ec) e,
    l.next_prev a j e,
    at_next,
    at_last,
  )

  read_prev :
      (a j : ℕ)
      → node a ≡ some j
      → a ≢ c
      → ((a ≡ w (c + 16)) × (unlinked w c (a + 24) ≡ w (c + 24)) × (w (c + 24) ≢ c))
        ⊎ ((a ≢ w (c + 16)) × (unlinked w c (a + 24) ≡ w (a + 24)) × (w (a + 24) ≢ c))
  read_prev a j e n = ground (
    arith,
    l.apart a (w (c + 24)) j i e (l.prev_node c i ec),
    l.prev_next a j e,
    at_next,
    at_last,
  )

  -- Unlinking a node leaves the others linked.
  pub IsLinked-remove : IsLinked (unlinked w c) (remove c node)
  IsLinked-remove = record {
    next_node = λ a j e.
        let (ea, n) = removed-node a j e in
        ground
          (arith, read_next a j ea n, l.next_node a j ea, l.next_node c i ec, l.prev_node c i ec);
    prev_node = λ a j e.
        let (ea, n) = removed-node a j e in
        ground
          (arith, read_prev a j ea n, l.prev_node a j ea, l.next_node c i ec, l.prev_node c i ec);
    next_prev = λ a j e. let (ea, n) = removed-node a j e in next_prev_lem a j ea n;
    prev_next = λ a j e. let (ea, n) = removed-node a j e in prev_next_lem a j ea n;
    apart = λ a b j k e f. l.apart a b j k (removed-node a j e).0 (removed-node b k f).0;
  }
    where
      next_prev_lem :
          (a j : ℕ) → node a ≡ some j → a ≢ c → unlinked w c (unlinked w c (a + 16) + 24) ≡ a
      next_prev_lem a j e n = elim (read_next a j e n) [
        | inl (is_last, read, stays) ↦ rw read (ground (arith, is_last))
        | inr (other, read, stays) ↦ rw read (
            ground (
              arith,
              l.next_prev a j e,
              at_next,
              l.apart (w (c + 24)) (w (a + 16)) i j (l.prev_node c i ec) (l.next_node a j e),
              l.apart (w (a + 16)) (w (c + 24)) j i (l.next_node a j e) (l.prev_node c i ec),
            ))
      ]

      prev_next_lem :
          (a j : ℕ) → node a ≡ some j → a ≢ c → unlinked w c (unlinked w c (a + 24) + 16) ≡ a
      prev_next_lem a j e n = elim (read_prev a j e n) [
        | inl (is_next, read, stays) ↦ rw read (
            ground (
              arith,
              is_next,
              l.apart (w (c + 16)) (w (c + 24)) i i (l.next_node c i ec) (l.prev_node c i ec),
            ))
        | inr (other, read, stays) ↦ rw read (
            ground (
              arith,
              l.prev_next a j e,
              at_last,
              l.apart (w (c + 16)) (w (a + 24)) i j (l.next_node c i ec) (l.prev_node a j e),
              l.apart (w (a + 24)) (w (c + 16)) j i (l.prev_node a j e) (l.next_node c i ec),
            ))
      ]

-- ===== src/Malloc/Insert.antt =====
-- Putting a chunk at the end of a bin's list, and using a bin for the first time.
use ckb_js.Prelude.{ℕ, ◌+◌, ◌≡◌, ◌≢◌, sym, none, some, ◌==◌, if◌then◌else◌, arith, inl, inr, ◌⊎◌}
use ckb_js.Malloc.Links.{Nodes, IsLinked, insert}

-- The memory behind putting a chunk at the end of the list of a bin.
abbrev pub linked : (ℕ → ℕ) → (bin c q : ℕ) → ℕ
linked w bin c q =
    if q == w (bin + 24) + 16
    then c
    else if q == bin + 24
    then c
    else if q == c + 24
    then w (bin + 24)
    else if q == c + 16
    then bin
    else w q

-- An address whose links lie apart from all nodes'.
abbrev pub IsApart : Nodes → ℕ → Type 0
IsApart node c = (a j : ℕ) → node a ≡ some j → (a + 8 ≢ c) × (c + 8 ≢ a)

module _ (w : ℕ → ℕ) (node : Nodes) (bin c i : ℕ) (l : IsLinked w node) (eb : node bin ≡ some i)
    (fresh : node c ≡ none) (away : IsApart node c) where
  abbrev last : ℕ
  last = w (bin + 24)

  last_node : node last ≡ some i
  last_node = l.prev_node bin i eb

  read_chunk :
      (linked w bin c (c + 16) ≡ bin)
      × (linked w bin c (c + 24) ≡ last)
      × (linked w bin c (last + 16) ≡ c)
      × (linked w bin c (bin + 24) ≡ c)
  read_chunk = ground (
    arith,
    fresh,
    eb,
    last_node,
    away bin i eb,
    away last i last_node,
    l.apart last bin i i last_node eb,
  )

  inserted-node :
      (a j : ℕ) → insert c i node a ≡ some j → ((a ≡ c) × (j ≡ i)) ⊎ ((node a ≡ some j) × (a ≢ c))
  inserted-node a j e = ground arith

  keeps_next :
      (a j : ℕ)
      → node a ≡ some j
      → ((a ≡ last) × (linked w bin c (a + 16) ≡ c))
        ⊎ ((a ≢ last) × (linked w bin c (a + 16) ≡ w (a + 16)))
  keeps_next a j e = ground (
    arith,
    fresh,
    e,
    away a j e,
    l.apart bin a i j eb e,
    l.apart last a i j last_node e,
    l.apart a bin j i e eb,
  )

  keeps_prev :
      (a j : ℕ)
      → node a ≡ some j
      → ((a ≡ bin) × (linked w bin c (a + 24) ≡ c))
        ⊎ ((a ≢ bin) × (linked w bin c (a + 24) ≡ w (a + 24)))
  keeps_prev a j e = ground (arith, fresh, e, away a j e, l.apart a last j i e last_node)

  -- Putting a chunk at the end of a list links it in.
  pub IsLinked-insert : IsLinked (linked w bin c) (insert c i node)
  IsLinked-insert = record {
    next_node = λ a j e. elim (inserted-node a j e) [
      | inl (same, bin_of) ↦ rw same (rw (read_chunk.0, bin_of) (ground (arith, eb, fresh)))
      | inr (ea, n) ↦ ground (arith, keeps_next a j ea, l.next_node a j ea, last_node, fresh)
    ];
    prev_node = λ a j e. elim (inserted-node a j e) [
      | inl (same, bin_of) ↦ rw same (rw (read_chunk.1, bin_of) (ground (arith, last_node, fresh)))
      | inr (ea, n) ↦ ground (arith, keeps_prev a j ea, l.prev_node a j ea, eb, fresh)
    ];
    next_prev = λ a j e. elim (inserted-node a j e) [
      | inl (same, bin_of) ↦ rw same (rw read_chunk.0 read_chunk.3)
      | inr (ea, n) ↦ elim (keeps_next a j ea) [
        | inl (is_last, read) ↦ rw read (rw read_chunk.1 (sym is_last))
        | inr (other, read) ↦
            rw read
              (ground (arith, keeps_prev (w (a + 16)) j (l.next_node a j ea), l.next_prev a j ea))
      ]
    ];
    prev_next = λ a j e. elim (inserted-node a j e) [
      | inl (same, bin_of) ↦ rw same (rw read_chunk.1 read_chunk.2)
      | inr (ea, n) ↦ elim (keeps_prev a j ea) [
        | inl (is_bin, read) ↦ rw read (rw read_chunk.0 (sym is_bin))
        | inr (other, read) ↦ rw read (
            ground (
              arith,
              keeps_next (w (a + 24)) j (l.prev_node a j ea),
              l.prev_next a j ea,
              l.prev_next bin i eb,
            ))
      ]
    ];
    apart = λ a b j k e f. elim (inserted-node a j e) [
      | inl (same, bin_of) ↦ elim (inserted-node b k f) [
        | inl (same', bin_of') ↦ omega arith
        | inr (eb', n) ↦ rw same (away b k eb').1
      ]
      | inr (ea, n) ↦ elim (inserted-node b k f) [
        | inl (same', bin_of') ↦ rw same' (away a j ea).0
        | inr (eb', n') ↦ l.apart a b j k ea eb'
      ]
    ];
  }

-- The memory behind the first use of a bin.
abbrev pub emptied : (ℕ → ℕ) → (bin q : ℕ) → ℕ
emptied w bin q = if q == bin + 16 then bin else if q == bin + 24 then bin else w q

-- A bin that has not been used becomes a list of its own.
pub IsLinked-emptied :
    (w : ℕ → ℕ) (node : Nodes) (bin i : ℕ)
    → IsLinked w node
    → node bin ≡ none
    → IsApart node bin
    → IsLinked (emptied w bin) (insert bin i node)
IsLinked-emptied w node bin i l fresh away = record {
  next_node = λ a j e. elim (split a j e) [
    | inl (same, bin_of) ↦ rw same (ground (arith, bin_of))
    | inr (ea, n) ↦ ground (arith, away a j ea, l.next_node a j ea, fresh)
  ];
  prev_node = λ a j e. elim (split a j e) [
    | inl (same, bin_of) ↦ rw same (ground (arith, bin_of))
    | inr (ea, n) ↦ ground (arith, away a j ea, l.prev_node a j ea, fresh)
  ];
  next_prev = λ a j e. elim (split a j e) [
    | inl (same, bin_of) ↦ rw same (ground arith)
    | inr (ea, n) ↦ ground (
      arith,
      away a j ea,
      l.next_prev a j ea,
      l.next_node a j ea,
      fresh,
      away (w (a + 16)) j (l.next_node a j ea),
    )
  ];
  prev_next = λ a j e. elim (split a j e) [
    | inl (same, bin_of) ↦ rw same (ground arith)
    | inr (ea, n) ↦ ground (
      arith,
      away a j ea,
      l.prev_next a j ea,
      l.prev_node a j ea,
      fresh,
      away (w (a + 24)) j (l.prev_node a j ea),
    )
  ];
  apart = λ a b j k e f. elim (split a j e) [
    | inl (same, bin_of) ↦ elim (split b k f) [
      | inl (same', bin_of') ↦ omega arith
      | inr (eb, n) ↦ rw same (away b k eb).1
    ]
    | inr (ea, n) ↦ elim (split b k f) [
      | inl (same', bin_of') ↦ rw same' (away a j ea).0
      | inr (eb, n') ↦ l.apart a b j k ea eb
    ]
  ];
}
  where
    split :
        (a j : ℕ)
        → insert bin i node a ≡ some j
        → ((a ≡ bin) × (j ≡ i)) ⊎ ((node a ≡ some j) × (a ≢ bin))
    split a j e = ground arith

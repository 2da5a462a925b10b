-- ===== src/Loader/Layout.antt =====
-- The layout of the script's arguments, and what the code reads from them.
use ckb_js.Prelude.{
  ℕ, ◌≤◌, ◌≡◌, ◌∙◌, refl, sym, ap, List, ◌∷◌, ◌++◌, length, take, drop, arith, drop-add,
  length-append, append-take-drop, drop-cons, take-append, drop-append, get_or-append,
}
use ckb_js.Loader.{code_hash, hash_type}

-- Arguments of at least 35 bytes are two bytes, a code hash, its kind and others.
pub args-layout :
    (a : List ℕ) → 35 ≤ length a → a ≡ take 2 a ++ (code_hash a ++ (hash_type a ∷ drop 35 a))
args-layout a long =
    let inner : drop 2 a ≡ code_hash a ++ (hash_type a ∷ drop 35 a) =
      sym (append-take-drop 32 (drop 2 a))
      ∙ ap (λ r. code_hash a ++ r) (sym (drop-add 2 32 34 a refl) ∙ drop-cons 34 a 0 long) in
    sym (append-take-drop 2 a) ∙ ap (λ r. take 2 a ++ r) inner

-- Arguments with that layout hold what the code reads from them.
pub layout_read :
    (lead hash rest : List ℕ) (kind : ℕ)
    → length lead ≡ 2
    → length hash ≡ 32
    → (code_hash (lead ++ (hash ++ (kind ∷ rest))) ≡ hash)
      × (hash_type (lead ++ (hash ++ (kind ∷ rest))) ≡ kind)
      × (35 ≤ length (lead ++ (hash ++ (kind ∷ rest))))
layout_read lead hash rest kind two whole =
    let behind = hash ++ (kind ∷ rest) in
    let skipped : drop 2 (lead ++ behind) ≡ behind =
      ap (λ n. drop n (lead ++ behind)) (sym two) ∙ drop-append lead behind in
    (
      ap (take 32) skipped ∙ ap (λ n. take n behind) (sym whole) ∙ take-append hash (kind ∷ rest),
      get_or-append lead behind 34 32 0 (omega (arith, two))
          ∙ get_or-append hash (kind ∷ rest) 32 0 0 (omega (arith, whole)),
      omega (arith, two, whole, length-append lead behind, length-append hash (kind ∷ rest)),
    )

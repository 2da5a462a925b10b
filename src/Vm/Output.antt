-- ===== src/Vm/Output.antt =====
-- What the compiler prints.
use ckb_js.Prelude.{
  ℕ, zero, suc, ◌+◌, ◌-◌, ◌*◌, ◌<◌, ◌≤◌, ◌≡◌, refl, sym, ap, ◌∙◌, true, some, List, [], ◌∷◌, ◌++◌,
  ltb, if◌then◌else◌, arith, length, take, drop, All, take_all, drop_all, length-take, length-drop,
  drop-add, inl, inr, lt_or_ge, lt_neq, lt→ltb,
}
use mathlib.Core.Path.{subst}
use ckb_js.Prelude.Int.{pos}
use ckb_js.Engine.{Engine}
use ckb_js.Vm.Run.{World, Host, local_size}
use ckb_js.Vm.Main.{hex_chunks, compile_from_file}

abbrev pub concat : List (List ℕ) → List ℕ
concat [] = []
concat (xs ∷ xss) = xs ++ concat xss

take-drop : (n : ℕ) (xs : List ℕ) → take n xs ++ drop n xs ≡ xs
take-drop zero xs = refl
take-drop (suc n) [] = refl
take-drop (suc n) (x ∷ xs) = ap (λ r. x ∷ r) (take-drop n xs)

-- A chunk that fits into the message buffer of the compiler.
abbrev pub IsLine : List ℕ → Type 0
IsLine xs = (0 < length xs) × (length xs ≤ 32)

hex_chunks_past : (fuel i : ℕ) (out : List ℕ) → length out ≤ i → hex_chunks (suc fuel) i out ≡ []
unfolding hex_chunks
hex_chunks_past fuel i out h = ground arith

-- The last chunk is shorter, since no more is left.
take_last :
    (i : ℕ) (out : List ℕ)
    → take (if ltb (length out) (i + 32) then length out - i else 32) (drop i out)
      ≡ take 32 (drop i out)
take_last i out =
    ground
      (arith, length-drop i out, take_all (length out - i) (drop i out), take_all 32 (drop i out))

hex_chunks_next :
    (fuel i : ℕ) (out : List ℕ)
    → i < length out
    → hex_chunks (suc fuel) i out ≡ take 32 (drop i out) ∷ hex_chunks fuel (i + 32) out
unfolding hex_chunks
hex_chunks_next fuel i out h =
    rw (lt→ltb i (length out) h) (ap (λ c. c ∷ hex_chunks fuel (i + 32) out) (take_last i out))

concat-hex_chunks :
    (fuel i : ℕ) (out : List ℕ)
    → length out ≤ i + 32 * fuel
    → concat (hex_chunks fuel i out) ≡ drop i out
unfolding hex_chunks
concat-hex_chunks zero i out h = sym (drop_all i out (omega arith))
concat-hex_chunks (suc fuel) i out h = elim (lt_or_ge i (length out)) [
  | inl more ↦
      ap concat (hex_chunks_next fuel i out more)
      ∙ ap (λ r. take 32 (drop i out) ++ r)
          (concat-hex_chunks fuel (i + 32) out (omega arith) ∙ drop-add i 32 (i + 32) out refl)
      ∙ take-drop 32 (drop i out)
  | inr past ↦ ap concat (hex_chunks_past fuel i out past) ∙ sym (drop_all i out past)
]

hex_chunks-IsLine : (fuel i : ℕ) (out : List ℕ) → All IsLine (hex_chunks fuel i out)
unfolding hex_chunks
hex_chunks-IsLine zero i out = tt
hex_chunks-IsLine (suc fuel) i out = elim (lt_or_ge i (length out)) [
  | inl more ↦ subst (All IsLine) (sym (hex_chunks_next fuel i out more)) (
    (
      omega (arith, length-take 32 (drop i out), length-drop i out),
      omega (arith, length-take 32 (drop i out)),
    ),
    hex_chunks-IsLine fuel (i + 32) out,
  )
  | inr past ↦ subst (All IsLine) (sym (hex_chunks_past fuel i out past)) tt
]

module _ {S V : Type 0} (js : Engine S V) (path_max : ℕ) where
  -- The compiler, on a local file that is shorter than its buffer, compiles to a module and can be
  -- written: it returns 0 with local access on, and what it prints, by lines of 1 to 32 bytes, is
  -- the whole of the bytecode.
  pub compile_from_file-prints :
      (h : Host) (w : World S) (n : ℕ) (v : V) (s s' : S) (out : List ℕ)
      → h.local_file.count ≡ pos n
      → n < local_size
      → js.eval (take n h.local_file.bytes) [] true true w.engine ≡ (some v, s)
      → js.write_object v s ≡ (some out, s')
      → (w' : World S) × (compile_from_file js path_max h w ≡ (pos 0, w'))
        × (concat w'.printed ≡ out)
        × All IsLine w'.printed
        × (w'.local_access ≡ true)
        × (w'.engine ≡ s')
        × (w'.fs ≡ w.fs)
  unfolding compile_from_file
  compile_from_file-prints h w n v s s' out count short compiled written = (
    record {
      engine = s';
      fs = w.fs;
      local_access = true;
      printed = hex_chunks (length out + 1) 0 out;
    },
    rw (count, lt_neq n local_size short, compiled, written) refl,
    concat-hex_chunks (length out + 1) 0 out (omega arith),
    hex_chunks-IsLine (length out + 1) 0 out,
    refl,
    refl,
    refl,
  )

-- ===== src/Upload/Pieces.antt =====
-- src/audit/uploader.ts: ranges of a file.
use mathlib.Core.List.{append_assoc}
use coreax.Prelude.{
  ℕ, zero, suc, ◌≤◌, List, [], ◌∷◌, ◌++◌, length, All, ◌≡◌, refl, ap, sym, ◌∙◌, arith,
}
use coreax.Upload.{take, drop, slice}

-- Bytes of a file that start below the offset or at it.
abbrev pub IsPiece : {A : Type 0} → List A → ℕ → ℕ × List A → Type 0
IsPiece {A} file offset (start, piece) =
    (start ≤ offset) × (rest : List A) × (file ≡ take start file ++ (piece ++ rest))

module _ {A : Type 0} where
  pub take-length : (xs : List A) → take (length xs) xs ≡ xs
  take-length [] = refl
  take-length (x ∷ xs) = ap (λ ys. x ∷ ys) (take-length xs)

  pub take-drop : (n : ℕ) (xs : List A) → take n xs ++ drop n xs ≡ xs
  take-drop zero xs = refl
  take-drop (suc n) [] = refl
  take-drop (suc n) (x ∷ xs) = ap (λ ys. x ∷ ys) (take-drop n xs)

  pub take-append : (n : ℕ) (xs ys : List A) → n ≤ length xs → take n (xs ++ ys) ≡ take n xs
  take-append zero xs ys h = refl
  take-append (suc n) [] ys h = absurd (omega arith)
  take-append (suc n) (x ∷ xs) ys h = ap (λ zs. x ∷ zs) (take-append n xs ys (omega arith))

  pub slice-rest : (n : ℕ) (xs : List A) → slice n (length xs) xs ≡ drop n xs
  slice-rest n xs = ap (drop n) (take-length xs)

  -- A larger offset, and a file that has grown.
  pub pieces-later :
      (file : List A) (a b : ℕ) (ps : List (ℕ × List A))
      → a ≤ b
      → All (IsPiece file a) ps
      → All (IsPiece file b) ps
  pieces-later file a b [] h ps = tt
  pieces-later file a b (p ∷ ps) h ((low, rest, cuts), others) =
      ((omega arith, rest, cuts), pieces-later file a b ps h others)

  pub pieces-grown :
      (file more : List A) (offset : ℕ) (ps : List (ℕ × List A))
      → offset ≤ length file
      → All (IsPiece file offset) ps
      → All (IsPiece (file ++ more) offset) ps
  pieces-grown file more offset [] h ps = tt
  pieces-grown file more offset ((start, piece) ∷ ps) h ((low, rest, cuts), others) =
      let whole : file ++ more ≡ take start (file ++ more) ++ (piece ++ (rest ++ more)) =
        ap (λ l. l ++ more) cuts
        ∙ append_assoc (take start file) (piece ++ rest) more
        ∙ ap (λ l. take start file ++ l) (append_assoc piece rest more)
        ∙ ap (λ l. l ++ (piece ++ (rest ++ more)))
            (sym (take-append start file more (omega arith))) in
      ((low, rest ++ more, whole), pieces-grown file more offset ps h others)

  pub length-append : (xs ys : List A) → length xs ≤ length (xs ++ ys)
  length-append [] ys = omega arith
  length-append (x ∷ xs) ys = let h = length-append xs ys in omega arith

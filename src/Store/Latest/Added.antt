-- ===== src/Store/Latest/Added.antt =====
-- src/governance/store.ts and src/review-loop/store.ts: the latest rows when one is added.
use coreax.Prelude.{
  String, Bool, false, some, List, [], ◌∷◌, ◌++◌, ◌==◌, ◌≡◌, refl, ap, ◌∙◌, arith, eq_iff, eq_refl,
  Bool-cases, inl, inr, keep, last,
}
use coreax.Store.Latest.{latest_of}

module _ {A : Type 0} (key : A → String) where
  last-keep :
      (k : String) (a : A) (rows : List A)
      → last (keep (λ row. key row == k) rows) ≡ some a
      → key a ≡ k
  last-keep k a [] h = cc
  last-keep k a (row ∷ rows) h = elim (Bool-cases (key row == k)) [
    | inr differs ↦ last-keep k a rows (rw differs at h)
    | inl same ↦
        go (keep (λ row. key row == k) rows) (rw same at h) (last-keep k a rows)
          (ground (arith, eq_iff (key row) k))
  ]
    where
      go :
          (kept : List A)
          → last (row ∷ kept) ≡ some a
          → (last kept ≡ some a → key a ≡ k)
          → key row ≡ k
          → key a ≡ k
      go [] e later here = cc
      go (b ∷ kept) e later here = later e

  -- The latest row of a key has that key.
  pub latest_of-key :
      (k : String) (a : A) (rows : List A) → latest_of key k rows ≡ some a → key a ≡ k
  unfolding latest_of
  latest_of-key k a rows h = last-keep k a rows h

  last-snoc : (a : A) (xs : List A) → last (xs ++ (a ∷ [])) ≡ some a
  last-snoc a [] = refl
  last-snoc a (x ∷ []) = refl
  last-snoc a (x ∷ y ∷ xs) = last-snoc a (y ∷ xs)

  keep-append : (p : A → Bool) (xs ys : List A) → keep p (xs ++ ys) ≡ keep p xs ++ keep p ys
  keep-append p [] ys = refl
  keep-append p (x ∷ xs) ys = elim (Bool-cases (p x)) [
    | inl t ↦ rw t (ap (λ l. x ∷ l) (keep-append p xs ys))
    | inr f ↦ rw f (keep-append p xs ys)
  ]

  append_nil : (xs : List A) → xs ++ [] ≡ xs
  append_nil [] = refl
  append_nil (x ∷ xs) = ap (λ l. x ∷ l) (append_nil xs)

  -- A row that is added is from then on the latest of its key.
  pub latest_of-added :
      (row : A) (rows : List A) → latest_of key (key row) (rows ++ (row ∷ [])) ≡ some row
  unfolding latest_of
  latest_of-added row rows =
      ap last (keep-append (λ r. key r == key row) rows (row ∷ []))
      ∙ rw (eq_refl (key row)) (last-snoc row (keep (λ r. key r == key row) rows))

  pub latest_of-added_other :
      (k : String) (row : A) (rows : List A)
      → (key row == k) ≡ false
      → latest_of key k (rows ++ (row ∷ [])) ≡ latest_of key k rows
  unfolding latest_of
  latest_of-added_other k row rows d = ap last {y = keep (λ r. key r == k) rows} (
      keep-append (λ r. key r == k) rows (row ∷ [])
      ∙ rw d (append_nil (keep (λ r. key r == k) rows)))

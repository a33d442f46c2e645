-- ===== src/Store/Latest/Picked.antt =====
-- src/governance/store.ts and src/review-loop/store.ts: what is picked from the latest rows of all keys.
use coreax.Prelude.{
  String, Bool, false, Option, none, some, List, [], ◌∷◌, map, ◌==◌, ◌≡◌, refl, sym, ap, ◌∙◌, arith,
  eq_iff, eq_refl, ◌⊎◌, Bool-cases, Option-cases, inl, inr, keep, find, map_get, map_has, values,
}
use coreax.Store.Latest.{
  latest_by, latest_of, somes, selected, pick, then_pick, IsKeyed, set_all-IsKeyed,
  map_get-latest_by,
}

module _ {A B : Type 0} (key : A → String) (p q : A → Bool) (build : A → Option B)
    (name : B → String) (named : (a : A) (b : B) → build a ≡ some b → name b ≡ key a) where
  abbrev cons_some : Option B → List B → List B
  cons_some none bs = bs
  cons_some (some b) bs = b ∷ bs

  selected-cons :
      (a : A) (xs : List A)
      → selected p q build (a ∷ xs) ≡ cons_some (pick p q build a) (selected p q build xs)
  unfolding selected
  selected-cons a xs = elim (Bool-cases (p a)) [
    | inr no_p ↦ rw no_p refl
    | inl is_p ↦
        rw is_p
          (elim (Bool-cases (q a)) [ inr no_q ↦ rw no_q refl | inl is_q ↦ rw is_q (go (build a)) ])
  ]
    where
      go :
          (o : Option B)
          → somes (o ∷ map build (keep q (keep p xs))) ≡ cons_some o (selected p q build xs)
      go none = refl
      go (some b) = refl

  pick-named : (a : A) (b : B) → pick p q build a ≡ some b → name b ≡ key a
  pick-named a b h = elim (Bool-cases (p a)) [
    | inr no_p ↦ cc
    | inl is_p ↦ elim (Bool-cases (q a)) [
      | inr no_q ↦ cc
      | inl is_q ↦ named a b (rw is_q at (rw is_p at h))
    ]
  ]

  -- The rows that are picked for a key.
  abbrev found : String → List A → Option B
  found k xs = find (λ b. name b == k) (selected p q build xs)

  found-cons_other :
      (k : String) (a : A) (xs : List A) → (key a == k) ≡ false → found k (a ∷ xs) ≡ found k xs
  found-cons_other k a xs d =
      ap (find (λ b. name b == k)) (selected-cons a xs) ∙ (elim (Option-cases (pick p q build a)) [
        | inl nothing ↦
            ap (λ o. find (λ b. name b == k) (cons_some o (selected p q build xs))) nothing
        | inr (b, this) ↦
            ap (λ o. find (λ b. name b == k) (cons_some o (selected p q build xs))) this
            ∙ rw (ap (λ s. s == k) (pick-named a b this) ∙ d) refl
      ])

  find-selected_absent :
      (k : String) (m : List (String × A))
      → IsKeyed key m
      → map_has k m ≡ false
      → found k (values m) ≡ none
  unfolding selected
  find-selected_absent k [] i h = refl
  find-selected_absent k ((j, a) ∷ m) (e, f, i) h = elim (Bool-cases (j == k)) [
    | inl same ↦ cc
    | inr differs ↦
        found-cons_other k a (values m) (ap (λ s. s == k) e ∙ differs)
        ∙ find-selected_absent k m i (rw differs at h)
  ]

  find-selected :
      (k : String) (m : List (String × A))
      → IsKeyed key m
      → found k (values m) ≡ then_pick (pick p q build) (map_get k m)
  unfolding selected
  find-selected k [] i = refl
  find-selected k ((j, a) ∷ m) (e, f, i) = elim (Bool-cases (j == k)) [
    | inl same ↦
        let j_is : j ≡ k = ground (arith, eq_iff j k) in
        let rest : found k (values m) ≡ none = find-selected_absent k m i (rw j_is at f) in
        rw same (
          ap (find (λ b. name b == k)) (selected-cons a (values m))
          ∙ go (e ∙ j_is) rest (Option-cases (pick p q build a)))
    | inr differs ↦
        rw differs
          (found-cons_other k a (values m) (ap (λ s. s == k) e ∙ differs) ∙ find-selected k m i)
  ]
    where
      go :
          key a ≡ k
          → found k (values m) ≡ none
          → (pick p q build a ≡ none) ⊎ ((b : B) × (pick p q build a ≡ some b))
          → find (λ b. name b == k) (cons_some (pick p q build a) (selected p q build (values m)))
            ≡ pick p q build a
      go here rest (inl nothing) =
          ap (λ o. find (λ b. name b == k) (cons_some o (selected p q build (values m)))) nothing
          ∙ rest
          ∙ sym nothing
      go here rest (inr (b, this)) =
          ap (λ o. find (λ b. name b == k) (cons_some o (selected p q build (values m)))) this
          ∙ rw (ap (λ s. s == k) (pick-named a b this ∙ here) ∙ eq_refl k) (sym this)

  -- Among what is picked of the latest rows, a key finds what its own last row gives.
  pub find-selected_latest :
      (k : String) (rows : List A)
      → found k (values (latest_by key rows)) ≡ then_pick (pick p q build) (latest_of key k rows)
  unfolding latest_by
  find-selected_latest k rows =
      find-selected k (latest_by key rows) (set_all-IsKeyed key [] rows tt)
      ∙ ap (then_pick (pick p q build)) (map_get-latest_by key k rows)

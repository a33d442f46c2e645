-- ===== src/Store/Latest.antt =====
-- src/governance/store.ts and src/review-loop/store.ts: the last row of each key, and what is picked
-- from these rows.
pub mod Picked
pub mod Added
use coreax.Prelude.{
  String, Bool, false, Option, none, some, List, [], ◌∷◌, ◌++◌, map, ◌==◌, ◌≡◌, refl, sym, ap, ◌∙◌,
  arith, eq_iff, eq_refl, if◌then◌else◌, ◌⊎◌, Bool-cases, Option-cases, inl, inr, keep, find, last,
  map_get, map_set, map_has, values, map_get-map_set_same, map_get-map_set_other,
}

module _ {A : Type 0} (key : A → String) where
  abbrev pub set_all : List (String × A) → List A → List (String × A)
  set_all out [] = out
  set_all out (row ∷ rows) = set_all (map_set (key row) row out) rows

  -- `latestBySubmissionId` and its like
  unfoldable pub latest_by : List A → List (String × A)
  latest_by rows = set_all [] rows

  -- `rows.filter((row) => row.key === k).at(-1)`
  unfoldable pub latest_of : String → List A → Option A
  latest_of k rows = last (keep (λ row. key row == k) rows)

  -- `rows.find((row) => row.key === k)`
  pub first_of : String → List A → Option A
  first_of k rows = find (λ row. key row == k) rows

-- The rows that are there.
abbrev pub somes : {B : Type 0} → List (Option B) → List B
somes [] = []
somes (none ∷ bs) = somes bs
somes (some b ∷ bs) = b ∷ somes bs

-- `rows.filter(p).filter(q).map(build).filter(Boolean)`
module _ {A B : Type 0} (p q : A → Bool) (build : A → Option B) where
  unfoldable pub selected : List A → List B
  selected rows = somes (map build (keep q (keep p rows)))

  -- What becomes of one row.
  abbrev pub pick : A → Option B
  pick a = if p a then if q a then build a else none else none

abbrev pub then_pick : {A B : Type 0} → (A → Option B) → Option A → Option B
then_pick f none = none
then_pick f (some a) = f a

module _ {A : Type 0} (key : A → String) where
  -- Each entry stands under the key of its row, and no key stands twice.
  abbrev IsKeyed : List (String × A) → Type 0
  IsKeyed [] = Unit
  IsKeyed ((k, a) ∷ m) = (key a ≡ k) × (map_has k m ≡ false) × IsKeyed m

  map_has-map_set_other :
      (k l : String) (a : A) (m : List (String × A))
      → (l == k) ≡ false
      → map_has k (map_set l a m) ≡ map_has k m
  map_has-map_set_other k l a m d = ground (arith, map_get-map_set_other k l a m d)

  map_set-IsKeyed : (a : A) (m : List (String × A)) → IsKeyed m → IsKeyed (map_set (key a) a m)
  map_set-IsKeyed a [] h = (refl, refl, tt)
  map_set-IsKeyed a ((k, b) ∷ m) (e, f, h) = elim (Bool-cases (k == key a)) [
    | inl same ↦
        let e' : k ≡ key a = ground (arith, eq_iff k (key a)) in rw same (refl, rw e' at f, h)
    | inr differs ↦ rw differs (
      e,
      map_has-map_set_other k (key a) a m (ground (arith, eq_iff k (key a), eq_iff (key a) k)) ∙ f,
      map_set-IsKeyed a m h,
    )
  ]

  set_all-IsKeyed :
      (out : List (String × A)) (rows : List A) → IsKeyed out → IsKeyed (set_all key out rows)
  set_all-IsKeyed out [] h = h
  set_all-IsKeyed out (row ∷ rows) h =
      set_all-IsKeyed (map_set (key row) row out) rows (map_set-IsKeyed row out h)

  -- The last of some rows, or else what was there before.
  last_or : Option A → List A → Option A
  last_or o [] = o
  last_or o (a ∷ rows) = last_or (some a) rows

  last_or-last : (a : A) (rows : List A) → last_or (some a) rows ≡ last (a ∷ rows)
  unfolding last_or
  last_or-last a [] = refl
  last_or-last a (b ∷ rows) = last_or-last b rows

  last_or-none : (rows : List A) → last_or none rows ≡ last rows
  unfolding last_or
  last_or-none [] = refl
  last_or-none (a ∷ rows) = last_or-last a rows

  map_get-set_all :
      (k : String) (out : List (String × A)) (rows : List A)
      → map_get k (set_all key out rows) ≡ last_or (map_get k out) (keep (λ row. key row == k) rows)
  unfolding last_or
  map_get-set_all k out [] = refl
  map_get-set_all k out (row ∷ rows) = elim (Bool-cases (key row == k)) [
    | inl same ↦
        let e : key row ≡ k = ground (arith, eq_iff (key row) k) in
        rw same (
          map_get-set_all k (map_set (key row) row out) rows
          ∙ ap (λ o. last_or o (keep (λ r. key r == k) rows))
              (ap (λ l. map_get k (map_set l row out)) e ∙ map_get-map_set_same k row out))
    | inr differs ↦ rw differs (
        map_get-set_all k (map_set (key row) row out) rows
        ∙ ap (λ o. last_or o (keep (λ r. key r == k) rows))
            (map_get-map_set_other k (key row) row out differs))
  ]

  -- The map of the latest rows gives for a key the last row that has it.
  pub map_get-latest_by :
      (k : String) (rows : List A) → map_get k (latest_by key rows) ≡ latest_of key k rows
  unfolding latest_by latest_of
  map_get-latest_by k rows = map_get-set_all k [] rows ∙ last_or-none _

pub latest_here :
    {A : Type 0} (key : A → String) (j k : String) (rows : List A)
    → j ≡ k
    → map_get j (latest_by key rows) ≡ latest_of key k rows
latest_here key j k rows e = map_get-latest_by key j rows ∙ ap (λ l. latest_of key l rows) e

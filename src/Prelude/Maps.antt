-- ===== src/Prelude/Maps.antt =====
-- A `Map` with texts as keys: the list of its entries in the order of their insertion.
use Prim.Native.String.{String}
use mathlib.Core.Path.{◌≡◌, subst}
use mathlib.Core.Bool.{Bool, false}
use mathlib.Core.Option.{Option, none, some}
use mathlib.Core.List.{List, [], ◌∷◌}
use native.Mathlib.Omega.{arith}
use text.Mathlib.Text.{◌==◌}
use text.Mathlib.TextEquality.{eq_iff}
use text.Mathlib.TextPositions.{eq_refl}
use mathlib.Core.Logic.{inl, inr}
use coreax.Prelude.Tests.{if◌then◌else◌, is_some, Bool-cases}
use coreax.Prelude.Lists.{All}

module _ {ℓ} {A : Type ℓ} where
  abbrev pub map_get : String → List (String × A) → Option A
  map_get k [] = none
  map_get k ((j, a) ∷ m) = if j == k then some a else map_get k m

  -- A key that is there keeps its place.
  abbrev pub map_set : String → A → List (String × A) → List (String × A)
  map_set k a [] = (k, a) ∷ []
  map_set k a ((j, b) ∷ m) = if j == k then (k, a) ∷ m else (j, b) ∷ map_set k a m

  abbrev pub map_has : String → List (String × A) → Bool
  map_has k m = is_some (map_get k m)

  abbrev pub map_delete : String → List (String × A) → List (String × A)
  map_delete k [] = []
  map_delete k ((j, a) ∷ m) = if j == k then m else (j, a) ∷ map_delete k m

  abbrev pub values : List (String × A) → List A
  values [] = []
  values ((k, a) ∷ m) = a ∷ values m

  pub map_get-map_set_same :
      (k : String) (a : A) (m : List (String × A)) → map_get k (map_set k a m) ≡ some a
  map_get-map_set_same k a [] = ground (arith, eq_refl k)
  map_get-map_set_same k a ((j, b) ∷ m) =
      ground (arith, eq_refl k, eq_iff j k, map_get-map_set_same k a m)

  pub map_get-map_set_other :
      (k l : String) (a : A) (m : List (String × A))
      → (l == k) ≡ false
      → map_get k (map_set l a m) ≡ map_get k m
  map_get-map_set_other k l a [] h = ground arith
  map_get-map_set_other k l a ((j, b) ∷ m) h =
      ground (arith, eq_iff j l, eq_iff j k, eq_iff l k, map_get-map_set_other k l a m h)

  -- A predicate of all entries, and an entry that is set or found.
  pub map_set-All :
      (P : String × A → Type 0) (k : String) (a : A) (m : List (String × A))
      → P (k, a)
      → All P m
      → All P (map_set k a m)
  map_set-All P k a [] h hs = (h, tt)
  map_set-All P k a ((j, b) ∷ m) h (hb, hs) = elim (Bool-cases (j == k)) [
    | inl same ↦ rw same (h, hs)
    | inr differs ↦ rw differs (hb, map_set-All P k a m h hs)
  ]

  pub map_get-All :
      (P : String × A → Type 0) (k : String) (a : A) (m : List (String × A))
      → All P m
      → map_get k m ≡ some a
      → P (k, a)
  map_get-All P k a [] hs e = cc
  map_get-All P k a ((j, b) ∷ m) (hb, hs) e = elim (Bool-cases (j == k)) [
    | inl same ↦
        let found : ◌≡◌ {A = String × A} (j, b) (k, a) = ground (arith, eq_iff j k) in
        subst P found hb
    | inr differs ↦ map_get-All P k a m hs (rw differs at e)
  ]

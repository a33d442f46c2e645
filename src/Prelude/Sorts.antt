-- ===== src/Prelude/Sorts.antt =====
-- `Array.prototype.sort`: the stable sort of a list by a test that puts one element before another.
use Prim.Native.Nat.{ℕ, suc, ◌+◌, ◌≤◌}
use mathlib.Core.Path.{◌≡◌, refl}
use mathlib.Core.Logic.{inl, inr}
use mathlib.Core.Bool.{Bool}
use mathlib.Core.List.{List, [], ◌∷◌}
use native.Mathlib.Omega.{arith}
use coreax.Prelude.Tests.{if◌then◌else◌, Bool-cases, ltb}
use coreax.Prelude.Lists.{length, All, count_of}

module _ {ℓ} {A : Type ℓ} (before : A → A → Bool) where
  -- Behind every element that it does not come before, and so behind its equals.
  abbrev pub insert : A → List A → List A
  insert x [] = x ∷ []
  insert x (y ∷ ys) = if before x y then x ∷ y ∷ ys else y ∷ insert x ys

  abbrev pub sort_from : List A → List A → List A
  sort_from done [] = done
  sort_from done (x ∷ xs) = sort_from (insert x done) xs

  abbrev pub sort_by : List A → List A
  sort_by xs = sort_from [] xs

  count_of-insert :
      (p : A → Bool) (x : A) (ys : List A) → count_of p (insert x ys) ≡ count_of p (x ∷ ys)
  count_of-insert p x [] = refl
  count_of-insert p x (y ∷ ys) = ground (arith, count_of-insert p x ys)

  count_of-sort_from :
      (p : A → Bool) (placed xs : List A)
      → count_of p (sort_from placed xs) ≡ count_of p placed + count_of p xs
  count_of-sort_from p placed [] = omega arith
  count_of-sort_from p placed (x ∷ xs) =
      ground (arith, count_of-sort_from p (insert x placed) xs, count_of-insert p x placed)

  -- Sorting keeps how many elements pass a test.
  pub count_of-sort_by : (p : A → Bool) (xs : List A) → count_of p (sort_by xs) ≡ count_of p xs
  count_of-sort_by p xs = omega (arith, count_of-sort_from p [] xs)

  length-insert : (x : A) (ys : List A) → length (insert x ys) ≡ suc (length ys)
  length-insert x [] = refl
  length-insert x (y ∷ ys) = ground (arith, length-insert x ys)

  length-sort_from : (placed xs : List A) → length (sort_from placed xs) ≡ length placed + length xs
  length-sort_from placed [] = omega arith
  length-sort_from placed (x ∷ xs) =
      omega (arith, length-sort_from (insert x placed) xs, length-insert x placed)

  pub length-sort_by : (xs : List A) → length (sort_by xs) ≡ length xs
  length-sort_by xs = omega (arith, length-sort_from [] xs)

-- Numbers, the smallest in front.
abbrev pub sort_numbers : List ℕ → List ℕ
sort_numbers xs = sort_by ltb xs

-- None of the numbers is below the first.
abbrev pub AtLeast : ℕ → List ℕ → Type 0
AtLeast x ys = All (λ y. x ≤ y) ys

abbrev pub Ascending : List ℕ → Type 0
Ascending [] = Unit
Ascending (x ∷ xs) = AtLeast x xs × Ascending xs

AtLeast-mono : (x y : ℕ) (zs : List ℕ) → x ≤ y → AtLeast y zs → AtLeast x zs
AtLeast-mono x y [] l a = tt
AtLeast-mono x y (z ∷ zs) l (a, rest) = (omega arith, AtLeast-mono x y zs l rest)

AtLeast-insert : (x y : ℕ) (zs : List ℕ) → x ≤ y → AtLeast x zs → AtLeast x (insert ltb y zs)
AtLeast-insert x y [] l a = (l, tt)
AtLeast-insert x y (z ∷ zs) l (a, rest) = elim (Bool-cases (ltb y z)) [
  | inl t ↦ rw t (l, (a, rest))
  | inr f ↦ rw f (a, AtLeast-insert x y zs l rest)
]

insert-Ascending : (x : ℕ) (ys : List ℕ) → Ascending ys → Ascending (insert ltb x ys)
insert-Ascending x [] a = (tt, tt)
insert-Ascending x (y ∷ ys) (least, rest) = elim (Bool-cases (ltb x y)) [
  | inl t ↦ rw t ((ground arith, AtLeast-mono x y ys (ground arith) least), (least, rest))
  | inr f ↦ rw f (AtLeast-insert y x ys (ground arith) least, insert-Ascending x ys rest)
]

sort_from-Ascending : (placed xs : List ℕ) → Ascending placed → Ascending (sort_from ltb placed xs)
sort_from-Ascending placed [] a = a
sort_from-Ascending placed (x ∷ xs) a =
    sort_from-Ascending (insert ltb x placed) xs (insert-Ascending x placed a)

pub sort_numbers-Ascending : (xs : List ℕ) → Ascending (sort_numbers xs)
sort_numbers-Ascending xs = sort_from-Ascending [] xs tt

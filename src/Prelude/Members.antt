-- ===== src/Prelude/Members.antt =====
-- Membership by a Boolean test, and what the searches of a list find.
use mathlib.Core.Path.{◌≡◌, refl, sym}
use mathlib.Core.Bool.{Bool, true, false}
use mathlib.Core.Option.{some}
use mathlib.Core.List.{List, [], ◌∷◌}
use Prim.Native.String.{String}
use native.Mathlib.Omega.{arith}
use text.Mathlib.TextEquality.{eq_iff}
use text.Mathlib.TextPositions.{eq_refl}
use mathlib.Core.Logic.{inl, inr}
use coreax.Prelude.Tests.{Bool-cases}
use coreax.Prelude.Lists.{any, elem, find, is_empty, head}

pub elem-any :
    (p : String → Bool) (r : String) (xs : List String)
    → elem r xs ≡ true
    → p r ≡ true
    → any p xs ≡ true
elem-any p r [] h k = cc
elem-any p r (x ∷ xs) h k = ground (arith, eq_iff x r, elem-any p r xs)

pub any-elem :
    (p : String → Bool) (xs : List String)
    → any p xs ≡ true
    → (r : String) × (elem r xs ≡ true) × (p r ≡ true)
any-elem p [] h = cc
any-elem p (x ∷ xs) h = elim (Bool-cases (p x)) [
  | inl here ↦ (x, rw eq_refl refl, here)
  | inr not_here ↦
      let (r, there, holds) = any-elem p xs (rw not_here at h) in (r, ground arith, holds)
]

pub is_empty-elem : (r : String) (xs : List String) → elem r xs ≡ true → is_empty xs ≡ false
is_empty-elem r [] h = cc
is_empty-elem r (x ∷ xs) h = refl

pub head-elem :
    (xs : List String)
    → is_empty xs ≡ false
    → (r : String) × (head xs ≡ some r) × (elem r xs ≡ true)
head-elem [] h = cc
head-elem (x ∷ xs) h = (x, refl, rw eq_refl refl)

pub find-some :
    (p : String → Bool) (r : String) (xs : List String)
    → find p xs ≡ some r
    → (elem r xs ≡ true) × (p r ≡ true)
find-some p r [] h = cc
find-some p r (x ∷ xs) h = ground (arith, find-some p r xs, eq_iff x r)

pub find-any :
    (p : String → Bool) (xs : List String) → any p xs ≡ true → (r : String) × (find p xs ≡ some r)
find-any p [] h = cc
find-any p (x ∷ xs) h = elim (Bool-cases (p x)) [
  | inl here ↦ (x, rw here refl)
  | inr not_here ↦ let (r, found) = find-any p xs (rw not_here at h) in (r, rw not_here found)
]

pub any-is_empty : (p : String → Bool) (xs : List String) → is_empty xs ≡ true → any p xs ≡ false
any-is_empty p [] h = refl
any-is_empty p (x ∷ xs) h = cc

eq_of_both : (a b : Bool) → (a ≡ true → b ≡ true) → (b ≡ true → a ≡ true) → a ≡ b
eq_of_both true b f g = ground (arith, f refl)
eq_of_both false true f g = g refl
eq_of_both false false f g = refl

any_mono :
    (p q : String → Bool) (xs ys : List String)
    → ((r : String) → elem r xs ≡ elem r ys)
    → ((r : String) → p r ≡ q r)
    → any p xs ≡ true
    → any q ys ≡ true
any_mono p q xs ys same pq h =
    let (r, there, holds) = any-elem p xs h in
    elem-any q r ys (ground (arith, same r)) (ground (arith, pq r))

-- A search by membership sees a list as a set.
pub any_of_same :
    (p q : String → Bool) (xs ys : List String)
    → ((r : String) → elem r xs ≡ elem r ys)
    → ((r : String) → p r ≡ q r)
    → any p xs ≡ any q ys
any_of_same p q xs ys same pq =
    eq_of_both _ _ (any_mono p q xs ys same pq)
      (any_mono q p ys xs (λ r. sym (same r)) (λ r. sym (pq r)))

pub is_empty_of_same :
    (xs ys : List String) → ((r : String) → elem r xs ≡ elem r ys) → is_empty xs ≡ is_empty ys
is_empty_of_same [] [] same = refl
is_empty_of_same [] (y ∷ ys) same = ground (arith, same y, eq_refl y)
is_empty_of_same (x ∷ xs) [] same = ground (arith, same x, eq_refl x)
is_empty_of_same (x ∷ xs) (y ∷ ys) same = refl

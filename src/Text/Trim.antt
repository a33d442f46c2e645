-- ===== src/Text/Trim.antt =====
-- `trim` of src/: what it strips is gone, so a second call changes nothing.
use Prim.Native.Char.{Char, code}
use Prim.Native.String.{[], ◌∷◌}
use coreax.Prelude.{String, false, ◌≡◌, refl, inl, inr, Bool-cases, ◌∙◌, ap}
use coreax.Text.{is_space, trim_start, place, trim_end, trim}

-- Nothing to strip in front.
abbrev IsSolid : String → Type 0
IsSolid [] = Unit {0}
IsSolid (c ∷ s) = is_space (code c) ≡ false

trim_start-IsSolid : (s : String) → IsSolid (trim_start s)
unfolding trim_start
trim_start-IsSolid [] = tt
trim_start-IsSolid (c ∷ s) = elim (Bool-cases (is_space (code c))) [
  | inl white ↦ rw white (trim_start-IsSolid s)
  | inr solid ↦ rw solid solid
]

trim_start-eq_self : (s : String) → IsSolid s → trim_start s ≡ s
unfolding trim_start
trim_start-eq_self [] h = refl
trim_start-eq_self (c ∷ s) h = rw h

place-IsSolid : (c : Char) (s : String) → is_space (code c) ≡ false → IsSolid (place c s)
unfolding place
place-IsSolid c [] h = rw h h
place-IsSolid c (d ∷ s) h = h

trim_end-IsSolid : (s : String) → IsSolid s → IsSolid (trim_end s)
unfolding trim_end
trim_end-IsSolid [] h = tt
trim_end-IsSolid (c ∷ s) h = place-IsSolid c (trim_end s) h

trim_end-place : (c : Char) (s : String) → trim_end (place c s) ≡ place c (trim_end s)
unfolding trim_end place
trim_end-place c [] = elim (Bool-cases (is_space (code c))) [
  | inl white ↦ rw white
  | inr solid ↦ rw solid (rw solid)
]
trim_end-place c (d ∷ s) = refl

trim_end-trim_end : (s : String) → trim_end (trim_end s) ≡ trim_end s
unfolding trim_end
trim_end-trim_end [] = refl
trim_end-trim_end (c ∷ s) = trim_end-place c (trim_end s) ∙ ap (place c) (trim_end-trim_end s)

pub trim-trim : (s : String) → trim (trim s) ≡ trim s
unfolding trim
trim-trim s =
    rw (trim_start-eq_self _ (trim_end-IsSolid _ (trim_start-IsSolid s)))
      (trim_end-trim_end (trim_start s))

trims : trim " \t a b\n" ≡ "a b"
unfolding trim
trims = refl

-- ===== src/Entitlements/Glob.antt =====
-- src/gateway/entitlements/checker.ts: `wildcardMatch`, whose expression is the pattern with every
-- special character escaped and each `*` made into `.*`.
mod Tests
use mathlib.Core.Path.{subst}
use Prim.Native.Char.{Char, code}
use Prim.Native.String.{[], ◌∷◌}
use coreax.Prelude.{
  ℕ, String, Bool, true, false, not, ◌&&◌, ◌||◌, num_eq, ◌==◌, ◌≡◌, refl, arith, inl, inr,
  Bool-cases, eq_iff, if◌then◌else◌, ◌↔◌,
}

-- What `.` stands for: all but the line terminators.
abbrev pub is_dot : Char → Bool
is_dot c =
    not (num_eq (code c) 10 || num_eq (code c) 13 || num_eq (code c) 8232 || num_eq (code c) 8233)

abbrev pub is_star : Char → Bool
is_star c = num_eq (code c) 42

-- A run of characters of any length before what the rest of the pattern takes.
abbrev pub run : (String → Bool) → String → Bool
run rest [] = rest []
run rest (c ∷ s) = rest (c ∷ s) || (is_dot c && run rest s)

abbrev pub literal : Char → (String → Bool) → String → Bool
literal p rest [] = false
literal p rest (c ∷ s) = num_eq (code p) (code c) && rest s

-- The test of the expression made of a pattern.
pub test : String → String → Bool
test [] [] = true
test [] (_ ∷ _) = false
test (p ∷ ps) s = if is_star p then run (test ps) s else literal p (test ps) s

unfoldable pub wildcard_match : String → String → Bool
unfolding test
wildcard_match pattern value = pattern == value || test pattern value

-- The texts of a pattern: a star stands for any run of characters that are no line terminators, and
-- every other character for itself.
pub data Matches : String → String → Type 0 where
  done : Matches [] []
  same :
      {p c : Char} {ps s : String}
      → is_star p ≡ false
      → code p ≡ code c
      → Matches ps s
      → Matches (p ∷ ps) (c ∷ s)
  skip : {p : Char} {ps s : String} → is_star p ≡ true → Matches ps s → Matches (p ∷ ps) s
  more :
      {p c : Char} {ps s : String}
      → is_star p ≡ true
      → is_dot c ≡ true
      → Matches (p ∷ ps) s
      → Matches (p ∷ ps) (c ∷ s)

or_true : (a b c : Bool) → b ≡ true → c ≡ true → (a || (b && c)) ≡ true
or_true a b c h k = ground arith

or_split : {a b c : Bool} → a ≡ false → (a || (b && c)) ≡ true → (b ≡ true) × (c ≡ true)
or_split h k = ground arith

and_split : {a b : Bool} → (a && b) ≡ true → (a ≡ true) × (b ≡ true)
and_split h = ground arith

num_eq→eq : {a b : ℕ} → num_eq a b ≡ true → a ≡ b
num_eq→eq h = ground arith

dot_of_star : (c : Char) → is_star c ≡ true → is_dot c ≡ true
dot_of_star c h = ground arith

or_right : (a : Bool) {b : Bool} → b ≡ true → (a || b) ≡ true
or_right true h = refl
or_right false h = h

run-rest : (rest : String → Bool) (s : String) → rest s ≡ true → run rest s ≡ true
run-rest rest [] h = h
run-rest rest (c ∷ s) h = rw h refl

run-more :
    (rest : String → Bool) (c : Char) (s : String)
    → is_dot c ≡ true
    → run rest s ≡ true
    → run rest (c ∷ s) ≡ true
run-more rest c s dot h = or_true (rest (c ∷ s)) (is_dot c) (run rest s) dot h

Matches-test : {ps s : String} → Matches ps s → test ps s ≡ true
unfolding test
Matches-test done = refl
Matches-test (same plain e m) = rw (plain, e) (ground (arith, Matches-test m))
Matches-test (skip {p} {ps} {s} star m) = rw star (run-rest (test ps) s (Matches-test m))
Matches-test (more {p} {c} {ps} {s} star dot m) =
    rw star (run-more (test ps) c s dot (let h = Matches-test m in rw star at h))

run-Matches :
    (p : Char) (ps s : String)
    → is_star p ≡ true
    → ((s : String) → test ps s ≡ true → Matches ps s)
    → run (test ps) s ≡ true
    → Matches (p ∷ ps) s
run-Matches p ps [] star here h = skip star (here [] h)
run-Matches p ps (c ∷ s) star here h = elim (Bool-cases (test ps (c ∷ s))) [
  | inl now ↦ skip star (here (c ∷ s) now)
  | inr later ↦
      let (dot, rest) = or_split later h in more star dot (run-Matches p ps s star here rest)
]

false-neq_true : false ≡ true → ⊥
false-neq_true h = cc

literal-Matches :
    (p : Char) (ps s : String)
    → is_star p ≡ false
    → ((s : String) → test ps s ≡ true → Matches ps s)
    → literal p (test ps) s ≡ true
    → Matches (p ∷ ps) s
literal-Matches p ps [] plain here h = absurd (false-neq_true h)
literal-Matches p ps (c ∷ s) plain here h =
    let (e, rest) = and_split h in same plain (num_eq→eq e) (here s rest)

test-Matches : (ps s : String) → test ps s ≡ true → Matches ps s
unfolding test
test-Matches [] [] h = done
test-Matches [] (c ∷ s) h = cc
test-Matches (p ∷ ps) s h = elim (Bool-cases (is_star p)) [
  | inl star ↦ run-Matches p ps s star (test-Matches ps) (rw star at h)
  | inr plain ↦ literal-Matches p ps s plain (test-Matches ps) (rw plain at h)
]

Matches-self : (s : String) → Matches s s
Matches-self [] = done
Matches-self (c ∷ s) = elim (Bool-cases (is_star c)) [
  | inl star ↦ more star (dot_of_star c star) (skip star (Matches-self s))
  | inr plain ↦ same plain refl (Matches-self s)
]

-- The test of a pattern against a text succeeds on just the texts of the pattern: those where each
-- star stands for a run of characters without line terminators and all else for itself.
pub wildcard_match-Matches :
    (pattern value : String) → (wildcard_match pattern value ≡ true) ↔ Matches pattern value
unfolding wildcard_match
wildcard_match-Matches pattern value = (there, λ m. back m)
  where
    there : wildcard_match pattern value ≡ true → Matches pattern value
    there h = elim (Bool-cases (pattern == value)) [
      | inl equal ↦ subst (Matches pattern) ((eq_iff pattern value).0 equal) (Matches-self pattern)
      | inr differs ↦ test-Matches pattern value (rw differs at h)
    ]

    back : Matches pattern value → wildcard_match pattern value ≡ true
    back m = or_right (pattern == value) (Matches-test m)

-- ===== src/DecisionFlow/Texts.antt =====
-- src/middleware/decisionFlow.ts: texts that are joined by a character, as the keys of questions are.
use Prim.Native.Char.{Char, code}
use Prim.Native.String as Native
use Prim.Native.String.append as Append
use Prim.Native.String.{[], ◌∷◌}
use coreax.Prelude.{ℕ, String, true, false, Option, some, ◌==◌, ◌≡◌, ap, sym, ◌∙◌, arith}
use coreax.Policy.{before, behind}
use coreax.Policy.Pinned.{free, ◌++◌, before-append, behind-append}

native_append : (a b : String) → Native.◌++◌ a b ≡ a ++ b
native_append [] b = λ i. Append.nil b i
native_append (c ∷ a) b = (λ i. Append.cons c a b i) ∙ ap (λ s. c ∷ s) (native_append a b)

-- A text, a character and what follows.
abbrev pub joined_by : Char → String → String → String
joined_by c a t = a ++ (c ∷ t)

pub append-joined_by :
    (c : Char) (a t : String) → Native.◌++◌ a (Native.◌++◌ (c ∷ []) t) ≡ joined_by c a t
append-joined_by c a t = ap (Native.◌++◌ a) (native_append (c ∷ []) t) ∙ native_append a (c ∷ t)

pub free-append :
    (c : ℕ) (a b : String) → free c a ≡ true → free c b ≡ true → free c (a ++ b) ≡ true
free-append c [] b h k = k
free-append c (x ∷ a) b h k = ground (arith, free-append c a b)

-- Texts before and behind the first of a character.
pub cut :
    (c : ℕ) (x : Char) (a b t u : String)
    → code x ≡ c
    → free c a ≡ true
    → free c b ≡ true
    → joined_by x a t ≡ joined_by x b u
    → (a ≡ b) × (t ≡ u)
cut c x a b t u e h k same =
    let left : a ≡ b =
      sym (before-append c a t x e h) ∙ ap (before c) same ∙ before-append c b u x e k in
    let right : ◌≡◌ {A = Option String} (some t) (some u) =
      sym (behind-append c a t x e h) ∙ ap (behind c) same ∙ behind-append c b u x e k in
    (left, cc)

pub uncut :
    (c : ℕ) (x : Char) (a b t : String) → code x ≡ c → free c a ≡ true → a ≡ joined_by x b t → ⊥
uncut c x [] [] t e h same = cc
uncut c x [] (y ∷ b) t e h same = cc
uncut c x (z ∷ a) [] t e h same = ground arith
uncut c x (z ∷ a) (y ∷ b) t e h same = uncut c x a b t e (ground arith) (cc)

abbrev pub comma : ℕ
comma = 44

abbrev pub bar : ℕ
bar = 124

pub not_blank : (s t : String) (x : Char) → (s == "") ≡ false → "" ≡ joined_by x s t → ⊥
not_blank [] t x h same = cc
not_blank (y ∷ s) t x h same = cc

pub free-joined_by :
    (c : ℕ) (x : Char) (a t : String)
    → free c (x ∷ []) ≡ true
    → free c a ≡ true
    → free c t ≡ true
    → free c (joined_by x a t) ≡ true
free-joined_by c x a t other h k = free-append c a (x ∷ t) h (ground arith)

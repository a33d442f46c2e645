-- ===== src/DecisionFlow/Keys.antt =====
-- src/middleware/decisionFlow.ts: which questions have the same key.
use coreax.Prelude.{
  ℕ, String, Bool, true, false, List, [], ◌∷◌, ◌==◌, ◌≡◌, refl, ap, sym, ◌∙◌, All, Bool-cases, inl,
  inr, if◌then◌else◌,
}
use coreax.Text.{trim}
use coreax.Policy.Pinned.{free}
use coreax.Runtime.{Strategy, deny_on_match, deny_on_any}
use coreax.DecisionFlow.{Question, normalized_reasons, join_commas, strategy_name, cache_key}
use coreax.DecisionFlow.Texts.{
  joined_by, append-joined_by, free-joined_by, cut, uncut, not_blank, comma, bar,
}

-- A text that stays apart from others when they are joined by commas.
abbrev pub IsApart : String → Type 0
IsApart s = ((s == "") ≡ false) × (free comma s ≡ true)

join_commas-more :
    (x y : String) (xs : List String)
    → join_commas (x ∷ y ∷ xs) ≡ joined_by "," x (join_commas (y ∷ xs))
unfolding join_commas
join_commas-more x y xs = append-joined_by "," x (join_commas (y ∷ xs))

join_commas-one : (x : String) → join_commas (x ∷ []) ≡ x
unfolding join_commas
join_commas-one x = refl

join_commas-none : join_commas [] ≡ ""
unfolding join_commas
join_commas-none = refl

join_commas-free :
    (c : ℕ) (xs : List String)
    → free c "," ≡ true
    → All (λ x. free c x ≡ true) xs
    → free c (join_commas xs) ≡ true
unfolding join_commas
join_commas-free c [] other h = refl
join_commas-free c (x ∷ []) other h = h.0
join_commas-free c (x ∷ y ∷ xs) other (h, hs) =
    rw (append-joined_by "," x (join_commas (y ∷ xs)))
      (free-joined_by c "," x (join_commas (y ∷ xs)) other h (join_commas-free c (y ∷ xs) other hs))

-- Texts that stay apart are read off the joined text.
join_commas-injective :
    (xs ys : List String)
    → All IsApart xs
    → All IsApart ys
    → join_commas xs ≡ join_commas ys
    → xs ≡ ys
join_commas-injective [] [] h k e = refl
join_commas-injective [] (y ∷ []) h (k, ks) e =
    let blank : y ≡ "" = sym (join_commas-one y) ∙ sym e ∙ join_commas-none in
    let b : (y == "") ≡ true = rw blank refl in cc
join_commas-injective [] (y ∷ z ∷ ys) h (k, ks) e =
    absurd (not_blank y _ "," k.0 (sym join_commas-none ∙ e ∙ join_commas-more y z ys))
join_commas-injective (x ∷ []) [] (h, hs) k e =
    let blank : x ≡ "" = sym (join_commas-one x) ∙ e ∙ join_commas-none in
    let b : (x == "") ≡ true = rw blank refl in cc
join_commas-injective (x ∷ z ∷ xs) [] (h, hs) k e =
    absurd (not_blank x _ "," h.0 (sym join_commas-none ∙ sym e ∙ join_commas-more x z xs))
join_commas-injective (x ∷ []) (y ∷ []) h k e =
    ap (λ z. z ∷ []) (sym (join_commas-one x) ∙ e ∙ join_commas-one y)
join_commas-injective (x ∷ []) (y ∷ z ∷ ys) (h, hs) k e =
    absurd (uncut comma "," x y _ refl h.1 (sym (join_commas-one x) ∙ e ∙ join_commas-more y z ys))
join_commas-injective (x ∷ z ∷ xs) (y ∷ []) h (k, ks) e =
    absurd
      (uncut comma "," y x _ refl k.1 (sym (join_commas-one y) ∙ sym e ∙ join_commas-more x z xs))
join_commas-injective (x ∷ w ∷ xs) (y ∷ z ∷ ys) (h, hs) (k, ks) e =
    let (first, rest) =
      cut comma "," x y _ _ refl h.1 k.1
        (sym (join_commas-more x w xs) ∙ e ∙ join_commas-more y z ys) in
    let tail : w ∷ xs ≡ z ∷ ys = join_commas-injective (w ∷ xs) (z ∷ ys) hs ks rest in cc

-- A question whose texts stay apart in its key: no reason holds a comma, no entry of the deny list a
-- comma or a bar, and none of these entries is empty.
pub record IsPlain (q : Question) : Type 0 where
  pub entries_apart : All IsApart q.deny_on
  pub entries_barless : All (λ x. free bar x ≡ true) q.deny_on
  pub reasons_comma_free : All (λ x. free comma x ≡ true) (normalized_reasons q.reasons)

normalized_reasons-IsApart :
    (rs : List String)
    → All (λ x. free comma x ≡ true) (normalized_reasons rs)
    → All IsApart (normalized_reasons rs)
unfolding normalized_reasons
normalized_reasons-IsApart [] h = tt
normalized_reasons-IsApart (r ∷ rs) h = elim (Bool-cases (trim r == "")) [
  | inl blank ↦ rw blank (normalized_reasons-IsApart rs (rw blank at h))
  | inr filled ↦
      let (first, rest) = rw filled at h in
      rw filled ((filled, first), normalized_reasons-IsApart rs rest)
]

strategy_name-free : (s : Strategy) → free bar (strategy_name s) ≡ true
unfolding strategy_name
strategy_name-free deny_on_match = refl
strategy_name-free deny_on_any = refl

strategy_name-injective : (s t : Strategy) → strategy_name s ≡ strategy_name t → s ≡ t
unfolding strategy_name
strategy_name-injective deny_on_match deny_on_match e = refl
strategy_name-injective deny_on_any deny_on_any e = refl
strategy_name-injective deny_on_match deny_on_any e = cc
strategy_name-injective deny_on_any deny_on_match e = cc

abbrev flag : Bool → String
flag b = if b then "1" else "0"

flag-free : (b : Bool) → free bar (flag b) ≡ true
flag-free true = refl
flag-free false = refl

flag-injective : (b c : Bool) → flag b ≡ flag c → b ≡ c
flag-injective true true e = refl
flag-injective false false e = refl
flag-injective true false e = ap (λ s. s == "1") e
flag-injective false true e = ap (λ s. s == "1") e

cache_key-joined :
    (q : Question)
    → cache_key q
      ≡ joined_by "|" (strategy_name q.strategy) (
          joined_by "|"
            (flag q.force_deny)
            (joined_by "|" (join_commas q.deny_on) (join_commas (normalized_reasons q.reasons))))
unfolding cache_key
cache_key-joined q =
    rw
      (
        append-joined_by "|" (join_commas q.deny_on) (join_commas (normalized_reasons q.reasons)),
        append-joined_by "|" (flag q.force_deny),
        append-joined_by "|" (strategy_name q.strategy),
      )
      refl

-- What the adapter's answer depends on.
pub record SameQuestion (q p : Question) : Type 0 where
  pub same_strategy : q.strategy ≡ p.strategy
  pub same_force : q.force_deny ≡ p.force_deny
  pub same_deny_on : q.deny_on ≡ p.deny_on
  pub same_reasons : normalized_reasons q.reasons ≡ normalized_reasons p.reasons

pub cache_key-injective :
    (q p : Question) → IsPlain q → IsPlain p → cache_key q ≡ cache_key p → SameQuestion q p
cache_key-injective q p hq hp e =
    let whole = sym (cache_key-joined q) ∙ e ∙ cache_key-joined p in
    let (names, e₁) =
      cut bar "|" _ _ _ _ refl (strategy_name-free q.strategy) (strategy_name-free p.strategy)
        whole in
    let (flags, e₂) =
      cut bar "|" _ _ _ _ refl (flag-free q.force_deny) (flag-free p.force_deny) e₁ in
    let (entries, reasons) =
      cut bar "|" _ _ _ _ refl (join_commas-free bar q.deny_on refl hq.entries_barless)
        (join_commas-free bar p.deny_on refl hp.entries_barless) e₂ in
    record {
      same_strategy = strategy_name-injective q.strategy p.strategy names;
      same_force = flag-injective q.force_deny p.force_deny flags;
      same_deny_on =
          join_commas-injective q.deny_on p.deny_on hq.entries_apart hp.entries_apart entries;
      same_reasons =
          join_commas-injective (normalized_reasons q.reasons) (normalized_reasons p.reasons)
            (normalized_reasons-IsApart q.reasons hq.reasons_comma_free)
            (normalized_reasons-IsApart p.reasons hp.reasons_comma_free) reasons;
    }

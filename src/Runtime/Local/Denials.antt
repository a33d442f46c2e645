-- ===== src/Runtime/Local/Denials.antt =====
-- src/runtime-adapter/localAdapter.ts: when a request is denied, and the reason that is given.
use coreax.Prelude.{
  String, Bool, true, false, some, List, ◌≡◌, refl, inl, inr, arith, Bool-cases, Option-cases, any,
  find, head, elem, is_empty, or_else, head-elem, find-some, any-is_empty, any_of_same,
  is_empty_of_same,
}
use coreax.Runtime.{Action, Strategy, deny_on_match, deny_on_any, DecisionInput, protocol}
use coreax.Runtime.Normalize.{NormalInput, normalize}
use coreax.Runtime.Local.{pick_from, pick_deny_reason, denies, decide, evaluate}

denies-has_reasons : (n : NormalInput) → denies n ≡ true → is_empty n.reasons ≡ false
unfolding denies
denies-has_reasons n h = ground (arith, any-is_empty (λ r. elem r n.deny_on) n.reasons)

found_or_first :
    (p : String → Bool) (rs : List String)
    → is_empty rs ≡ false
    → (r : String) × (or_else (find p rs) (head rs) ≡ some r) × (elem r rs ≡ true)
found_or_first p rs h = elim (Option-cases (find p rs)) [
  | inl missed ↦ rw missed (head-elem rs h)
  | inr (r, found) ↦ (r, rw found refl, (find-some p r rs found).0)
]

pick_from-elem :
    (k : Strategy) (ds rs : List String)
    → is_empty rs ≡ false
    → (r : String) × (pick_from k ds rs ≡ some r) × (elem r rs ≡ true)
unfolding pick_from
pick_from-elem deny_on_any ds rs h = head-elem rs h
pick_from-elem deny_on_match ds rs h = elim (Bool-cases (is_empty ds)) [
  | inl e ↦ rw e (head-elem rs h)
  | inr e ↦ rw e (found_or_first (λ r. elem r ds) rs h)
]

abbrev Reported : NormalInput → Type 0
Reported n = (r : String) × (pick_deny_reason n ≡ some r) × (elem r n.reasons ≡ true)

denies-Reported : (n : NormalInput) → denies n ≡ true → Reported n
unfolding pick_deny_reason
denies-Reported n h = pick_from-elem n.strategy n.deny_on n.reasons (denies-has_reasons n h)

-- A denial of the local adapter carries a reason, and the reason is one of those that it reports.
pub evaluate-denied :
    (i : DecisionInput)
    → (evaluate i).decision ≡ Action.deny
    → (r : String) × ((evaluate i).reason ≡ some r) × (elem r (evaluate i).reasons ≡ true)
unfolding evaluate decide
evaluate-denied i h =
    let (r, picked, there) = denies-Reported (normalize protocol i) (ground arith) in
    (r, ground arith, there)

-- With a list of reasons to deny on, no reported reason on it and no forced denial, a request that
-- is matched against the list is allowed.
pub decide-unlisted :
    (n : NormalInput)
    → n.force_deny ≡ false
    → n.strategy ≡ deny_on_match
    → is_empty n.deny_on ≡ false
    → any (λ r. elem r n.deny_on) n.reasons ≡ false
    → (decide n).decision ≡ Action.allow
unfolding decide denies
decide-unlisted n unforced matching listing none_listed = ground arith

-- The decision sees the reasons and the list to deny on as sets: neither the order nor a repetition
-- counts.
pub decide-same_sets :
    (n m : NormalInput)
    → n.force_deny ≡ m.force_deny
    → n.mode ≡ m.mode
    → n.strategy ≡ m.strategy
    → ((r : String) → elem r n.reasons ≡ elem r m.reasons)
    → ((r : String) → elem r n.deny_on ≡ elem r m.deny_on)
    → (decide n).decision ≡ (decide m).decision
unfolding decide denies
decide-same_sets n m force mode strategy reasons deny_on = ground (
  arith,
  is_empty_of_same n.reasons m.reasons reasons,
  is_empty_of_same n.deny_on m.deny_on deny_on,
  any_of_same (λ r. elem r n.deny_on) (λ r. elem r m.deny_on) n.reasons m.reasons reasons deny_on,
)

-- ===== src/DecisionFlow/Kept.antt =====
-- src/middleware/decisionFlow.ts: the decisions that are kept, where the runtime is the local adapter.
use coreax.Prelude.{
  String, Bool, true, false, none, List, [], ◌∷◌, ◌≡◌, refl, ◌∙◌, ap, sym, arith, is_empty, map,
  map_get, map_set-All, map_get-All, All, Bool-cases, Option-cases, inl, inr,
}
use coreax.Governance.{Try, ok}
use coreax.Runtime.Normalize.{normalize_string_array, normalize}
use coreax.Runtime.Local.{evaluate, enforcement_of, decide, denies}
use coreax.Runtime.Mapper.{map_runtime_decision_request}
use coreax.DecisionFlow.{
  DecisionFlowContext, DecisionFlow, Question, DecisionFlowCallbacks, normalized_reasons, cache_key,
  request_of, remembered, should_runtime_deny,
}
use coreax.DecisionFlow.Keys.{IsPlain, SameQuestion, cache_key-injective}

-- What the local adapter answers to a question.
abbrev pub answer : DecisionFlowContext → Question → Bool
answer c q = (enforcement_of (evaluate (request_of c q))).should_deny

abbrev pub local_runtime : {W : Type 0} → DecisionFlowCallbacks W
local_runtime = record {
  verify = λ token w. (ok none, w);
  evaluate = λ input w. (ok (evaluate input), w);
}

-- The answers to questions that one flow asks one after the other.
abbrev pub answers :
    {W : Type 0} → DecisionFlowContext → List Question → DecisionFlow → W → List (Try Bool)
answers c [] f w = []
answers c (q ∷ qs) f w =
    let (r, f', w') = should_runtime_deny local_runtime c q f w in r ∷ answers c qs f' w'

-- The answer to a plain question with this key.
abbrev IsAnswer : DecisionFlowContext → String × Bool → Type 0
IsAnswer c (k, b) = (q : Question) × IsPlain q × (cache_key q ≡ k) × (answer c q ≡ b)

-- Whatever is kept is such an answer.
abbrev IsKept : DecisionFlowContext → DecisionFlow → Type 0
IsKept c f = All (IsAnswer c) f.runtime_decisions

answer-same :
    (c : DecisionFlowContext) (q p : Question) → SameQuestion q p → answer c q ≡ answer c p
unfolding request_of map_runtime_decision_request evaluate decide enforcement_of normalize
answer-same c q p s = simp (s.same_strategy, s.same_force, s.same_deny_on, s.same_reasons)

-- Without reasons nothing is denied.
answer-empty :
    (c : DecisionFlowContext) (q : Question)
    → normalized_reasons q.reasons ≡ []
    → answer c q ≡ false
unfolding request_of map_runtime_decision_request evaluate decide denies enforcement_of normalize
    normalize_string_array
answer-empty c q e = rw e (ground arith)

is_empty-nil : (xs : List String) → is_empty xs ≡ true → xs ≡ []
is_empty-nil [] h = refl
is_empty-nil (x ∷ xs) h = cc

-- The answer to one question, and what is kept after it.
abbrev IsAnswered :
    {W : Type 0} → DecisionFlowContext → Question → Try Bool × DecisionFlow × W → Type 0
IsAnswered c q (r, f, w) = (r ≡ ok (answer c q)) × IsKept c f

should_runtime_deny-IsAnswered :
    {W : Type 0} (c : DecisionFlowContext) (q : Question) (f : DecisionFlow) (w : W)
    → IsPlain q
    → IsKept c f
    → IsAnswered c q (should_runtime_deny local_runtime c q f w)
unfolding should_runtime_deny remembered
should_runtime_deny-IsAnswered c q f w plain kept =
    elim (Bool-cases (is_empty (normalized_reasons q.reasons))) [
      | inl empty ↦
          rw empty (
            ap ok (sym (answer-empty c q (is_empty-nil (normalized_reasons q.reasons) empty))),
            kept,
          )
      | inr some_reason ↦
          rw some_reason (elim (Option-cases (map_get (cache_key q) f.runtime_decisions)) [
            | inl unknown ↦ rw unknown (
              refl,
              map_set-All (IsAnswer c) (cache_key q) (answer c q) f.runtime_decisions
                  (q, plain, refl, refl) kept,
            )
            | inr (b, known) ↦
                let (p, p_plain, key, same_answer) =
                  map_get-All (IsAnswer c) (cache_key q) b f.runtime_decisions kept known in
                let same = cache_key-injective q p plain p_plain (sym key) in
                rw known (ap ok (sym same_answer ∙ sym (answer-same c q p same)), kept)
          ])
    ]

answers-kept :
    {W : Type 0} (c : DecisionFlowContext) (qs : List Question) (f : DecisionFlow) (w : W)
    → All IsPlain qs
    → IsKept c f
    → answers c qs f w ≡ map (λ q. ok (answer c q)) qs
answers-kept c [] f w plain kept = refl
answers-kept c (q ∷ qs) f w (plain, plains) kept =
    let (answered, kept') = should_runtime_deny-IsAnswered c q f w plain kept in
    let (r, f', w') = should_runtime_deny local_runtime c q f w in
    rw (answered, answers-kept c qs f' w' plains kept') refl

-- With the local adapter as runtime, a flow that has kept nothing yet answers each of the questions it
-- is asked, in whatever order and however often, as the adapter answers that question by itself. No
-- reason holds a comma, and the entries of the deny lists are not empty and hold neither a comma nor a
-- bar.
pub answers-eq :
    {W : Type 0} (c : DecisionFlowContext) (qs : List Question) (f : DecisionFlow) (w : W)
    → f.runtime_decisions ≡ []
    → All IsPlain qs
    → answers c qs f w ≡ map (λ q. ok (answer c q)) qs
answers-eq c qs f w fresh plain = answers-kept c qs f w plain (rw fresh tt)

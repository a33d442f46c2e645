-- ===== src/Runtime/Normalize/Idempotent.antt =====
-- src/runtime-adapter/shared.ts: a normal form handed on as an input is its own normal form.
use coreax.Prelude.{
  String, false, Option, none, some, List, [], ◌∷◌, ◌++◌, ◌==◌, ◌≡◌, ◌∙◌, refl, ap, arith, eq_iff,
  get_or, elem, All, if◌then◌else◌,
}
use mathlib.Core.List.{append-nil, append_assoc}
use coreax.Text.{trim}
use coreax.Text.Trim.{trim-trim}
use coreax.Value.{
  Value, undefined, null, str, array, Members, no_members, elements, text, trimmed, is_text,
  is_true,
}
use coreax.Runtime.{observe, enforce, deny_on_match, deny_on_any, DecisionInput, Mode, Strategy}
use coreax.Runtime.Normalize.{
  push_new, collect, normalize_string_array, string_items, normalize, as_input, default,
  plain_object, opt_str, opt_obj, mode_text, strategy_text,
}
use coreax.Runtime.Normalize.Clean.{IsEntry, IsClean, elem-concat, normalize_string_array-IsClean}

fresh-concat :
    (s : String) (out ss : List String)
    → All (λ t. elem t out ≡ false) ss
    → elem s ss ≡ false
    → All (λ t. elem t (out ++ s ∷ []) ≡ false) ss
fresh-concat s out [] h n = tt
fresh-concat s out (t ∷ ss) h n = (
  ground (arith, h.0, elem-concat t s out, eq_iff s t, eq_iff t s),
  fresh-concat s out ss h.1 (ground arith),
)

push_new-entry :
    (out : List String) (s : String)
    → IsEntry s
    → elem s out ≡ false
    → push_new out (trim s) ≡ out ++ s ∷ []
unfolding push_new
push_new-entry out s e n = rw (e.trimmed, e.full, n)

collect-clean :
    (out ss : List String)
    → IsClean ss
    → All (λ t. elem t out ≡ false) ss
    → collect out (elements (string_items ss)) ≡ out ++ ss
unfolding collect text
collect-clean out [] c f = rw append-nil
collect-clean out (s ∷ ss) c f =
    ap (λ o. collect o (elements (string_items ss))) (push_new-entry out s c.0 f.0)
    ∙ collect-clean (out ++ s ∷ []) ss c.2 (fresh-concat s out ss f.1 c.1)
    ∙ append_assoc out (s ∷ []) ss

nothing_seen : (ss : List String) → All (λ t. elem t [] ≡ false) ss
nothing_seen [] = tt
nothing_seen (s ∷ ss) = (refl, nothing_seen ss)

-- A clean list of texts is left as it is.
pub normalize_string_array-clean :
    (ss : List String) → IsClean ss → normalize_string_array (array (string_items ss)) ≡ ss
unfolding normalize_string_array
normalize_string_array-clean ss c = collect-clean [] ss c (nothing_seen ss)

trimmed-opt_str : (v : Value) → trimmed (opt_str (trimmed v)) ≡ trimmed v
unfolding trimmed
trimmed-opt_str (str s) = ground (arith, trim-trim s)
trimmed-opt_str _ = refl

trimmed-str_of :
    (v : Value) (d : String)
    → trim d ≡ d
    → (d == "") ≡ false
    → trimmed (str (get_or (trimmed v) d)) ≡ some (get_or (trimmed v) d)
unfolding trimmed
trimmed-str_of (str s) d t f = ground (arith, trim-trim s)
trimmed-str_of _ d t f = rw (t, f)

default-default : (d v : Value) → default d d ≡ d → default d (default d v) ≡ default d v
default-default d undefined h = h
default-default d null h = h
default-default d _ h = refl

mode-mode_text :
    (m : Mode) → (if is_text "enforce" (str (mode_text m)) then enforce else observe) ≡ m
unfolding is_text
mode-mode_text observe = refl
mode-mode_text enforce = refl

strategy-strategy_text :
    (k : Strategy)
    → (if is_text "deny_on_any" (str (strategy_text k)) then deny_on_any else deny_on_match) ≡ k
unfolding is_text
strategy-strategy_text deny_on_match = refl
strategy-strategy_text deny_on_any = refl

object-opt_obj : (o : Option Members) → plain_object (opt_obj o) ≡ o
object-opt_obj none = refl
object-opt_obj (some fs) = refl

array-string_items :
    (v : Value)
    → normalize_string_array (array (string_items (normalize_string_array v)))
      ≡ normalize_string_array v
array-string_items v = normalize_string_array-clean _ (normalize_string_array-IsClean v)

-- A request that went through `normalize` once is left as it is, under any fallback version, if the
-- first fallback version is trimmed and not empty.
pub normalize-as_input :
    (fallback other : String) (i : DecisionInput)
    → trim fallback ≡ fallback
    → (fallback == "") ≡ false
    → normalize other (as_input (normalize fallback i)) ≡ normalize fallback i
unfolding normalize as_input is_true text
normalize-as_input fallback other i t f = λ j. record {
  protocol_version = ap (λ o. get_or o other) (trimmed-str_of i.protocol_version fallback t f) j;
  request_id = trimmed-opt_str i.request_id j;
  context = record {
    execution_layer = default-default (str "middleware") i.context.execution_layer refl j;
    server = text (default (str "unknown") i.context.server);
    tool = text (default (str "unknown") i.context.tool);
    tenant = trimmed-opt_str i.context.tenant j;
    node_id = trimmed-opt_str i.context.node_id j;
    run_id = trimmed-opt_str i.context.run_id j;
    metadata = object-opt_obj (plain_object i.context.metadata) j;
  };
  mode = mode-mode_text (if is_text "enforce" i.enforcement.mode then enforce else observe) j;
  strategy =
      strategy-strategy_text
        (if is_text "deny_on_any" i.enforcement.strategy then deny_on_any else deny_on_match) j;
  deny_on = array-string_items i.enforcement.deny_on j;
  force_deny = is_true i.enforcement.force_deny;
  reasons = array-string_items i.input.reasons j;
  risk_tags = array-string_items i.input.risk_tags j;
  attributes = get_or (plain_object i.input.attributes) no_members;
}

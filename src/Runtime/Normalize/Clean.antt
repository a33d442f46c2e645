-- ===== src/Runtime/Normalize/Clean.antt =====
-- What `normalizeStringArray` of src/runtime-adapter/shared.ts returns.
use coreax.Prelude.{
  String, false, not, ◌&&◌, ◌||◌, List, [], ◌∷◌, ◌++◌, ◌==◌, ◌≡◌, refl, arith, eq_iff, inl, inr,
  Bool-cases, any, elem,
}
use coreax.Text.{trim}
use coreax.Text.Trim.{trim-trim}
use coreax.Value.{Value, array, Elements, elements, text}
use coreax.Runtime.Normalize.{push_new, collect, normalize_string_array}

-- Trimmed, not empty, and no text twice.
pub record IsEntry (s : String) : Type 0 where
  pub full : (s == "") ≡ false
  pub trimmed : trim s ≡ s

abbrev pub IsClean : List String → Type 0
IsClean [] = Unit {0}
IsClean (s ∷ ss) = IsEntry s × (elem s ss ≡ false) × IsClean ss

pub elem-concat :
    (s v : String) (out : List String) → elem s (out ++ v ∷ []) ≡ (elem s out || v == s)
elem-concat s v [] = ground arith
elem-concat s v (x ∷ out) = ground (arith, elem-concat s v out)

IsClean-concat :
    (out : List String) (v : String)
    → IsClean out
    → IsEntry v
    → elem v out ≡ false
    → IsClean (out ++ v ∷ [])
IsClean-concat [] v h e n = (e, refl, tt)
IsClean-concat (x ∷ out) v h e n = (
  h.0,
  rw elem-concat (ground (arith, eq_iff x v, eq_iff v x)),
  IsClean-concat out v h.2 e (ground arith),
)

push_new-IsClean :
    (out : List String) (v : String) → IsClean out → trim v ≡ v → IsClean (push_new out v)
unfolding push_new
push_new-IsClean out v h t = elim (Bool-cases (v == "" || elem v out)) [
  | inl old ↦ rw old h
  | inr new ↦
      rw new (IsClean-concat out v h (record { full = ground arith; trimmed = t }) (ground arith))
]

collect-IsClean : (out : List String) (vs : List Value) → IsClean out → IsClean (collect out vs)
unfolding collect
collect-IsClean out [] h = h
collect-IsClean out (v ∷ vs) h =
    collect-IsClean (push_new out (trim (text v))) vs
      (push_new-IsClean out (trim (text v)) h (trim-trim (text v)))

-- Whatever value is given, the entries are trimmed, not empty and without repetition.
pub normalize_string_array-IsClean : (v : Value) → IsClean (normalize_string_array v)
unfolding normalize_string_array
normalize_string_array-IsClean (array vs) = collect-IsClean [] (elements vs) tt
normalize_string_array-IsClean _ = tt

-- One entry of the result for each text that an element gives.
elem-push_new :
    (s v : String) (out : List String)
    → elem s (push_new out v) ≡ (elem s out || (not (s == "") && v == s))
unfolding push_new
elem-push_new s v out = elim (Bool-cases (v == "" || elem v out)) [
  | inl old ↦ rw old (ground (arith, eq_iff v s, eq_iff s "", eq_iff v ""))
  | inr new ↦ rw (new, elem-concat) (ground (arith, eq_iff v s, eq_iff s "", eq_iff v ""))
]

elem-collect :
    (s : String) (out : List String) (vs : List Value)
    → elem s (collect out vs) ≡ (elem s out || (not (s == "") && any (λ v. trim (text v) == s) vs))
unfolding collect
elem-collect s out [] = ground arith
elem-collect s out (v ∷ vs) =
    ground
      (arith, elem-collect s (push_new out (trim (text v))) vs, elem-push_new s (trim (text v)) out)

-- A text is an entry exactly when it is not empty and some element of the array trims to it.
pub elem-normalize_string_array :
    (s : String) (vs : Elements)
    → elem s (normalize_string_array (array vs))
      ≡ (not (s == "") && any (λ v. trim (text v) == s) (elements vs))
unfolding normalize_string_array
elem-normalize_string_array s vs = elem-collect s [] (elements vs)

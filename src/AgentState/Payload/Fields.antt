-- ===== src/AgentState/Payload/Fields.antt =====
-- src/agent-state/payload.ts: the fields of an object, those that are left out among them.
use coreax.Prelude.{String, false, Option, none, some, ◌==◌, ◌≡◌, refl, ap, ◌∙◌, eq_refl}
use coreax.Value.{Value, Members, member, lookup}
use coreax.AgentState.{Checked, valid}
use coreax.AgentState.Payload.{has_own, plain, plain_members, with_member, if_own, text_value}

pub has_own-other :
    (k j : String) (o : Option Value) (fs : Members)
    → (j == k) ≡ false
    → has_own k (with_member j o fs) ≡ has_own k fs
unfolding has_own
has_own-other k j none fs d = refl
has_own-other k j (some v) fs d = rw d refl

pub lookup-other :
    (k j : String) (o : Option Value) (fs : Members)
    → (j == k) ≡ false
    → lookup k (with_member j o fs) ≡ lookup k fs
unfolding lookup
lookup-other k j none fs d = refl
lookup-other k j (some v) fs d = rw d refl

abbrev pub or_valid :
    {A : Type 0} → (Value → Checked (Option A)) → Option Value → Checked (Option A)
or_valid f none = valid none
or_valid f (some v) = f v

-- What a field that may be missing is read as.
pub if_own-with_member :
    {A : Type 0} (k : String) (o : Option Value) (fs : Members) (f : Value → Checked (Option A))
    → has_own k fs ≡ false
    → if_own k (with_member k o fs) f ≡ or_valid f o
unfolding if_own has_own lookup
if_own-with_member k none fs f absent = rw absent refl
if_own-with_member k (some v) fs f absent = rw (eq_refl k) refl

pub if_own-other :
    {A : Type 0} (k j : String) (o : Option Value) (fs : Members) (f : Value → Checked (Option A))
    → (j == k) ≡ false
    → if_own k (with_member j o fs) f ≡ if_own k fs f
unfolding if_own
if_own-other k j o fs f d = rw (has_own-other k j o fs d) (rw (lookup-other k j o fs d) refl)

abbrev pub plained : Option Value → Option Value
plained none = none
plained (some v) = plain v

-- A field keeps its value through JSON if the value and the fields behind it do.
pub plain_field :
    (k : String) (o : Option Value) (fs gs : Members)
    → plained o ≡ o
    → plain_members fs ≡ gs
    → plain_members (with_member k o fs) ≡ with_member k o gs
unfolding plain_members
plain_field k none fs gs e f = f
plain_field k (some v) fs gs e f =
    ap (λ q. with_member k q (plain_members fs)) e ∙ ap (member k v) f

pub plain_text : (o : Option String) → plained (text_value o) ≡ text_value o
unfolding plain
plain_text none = refl
plain_text (some s) = refl

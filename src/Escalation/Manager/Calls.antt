-- ===== src/Escalation/Manager/Calls.antt =====
-- src/review-loop/config.ts and manager.ts: `sanitizeCreateInput`, `create`, `get` and `resolve`.
-- Inputs are objects; a hook's own errors are swallowed, so that a hook only moves the world on.
pub mod Laws
mod Tests
use coreax.Prelude.{
  ℕ, String, Bool, true, false, Option, none, some, ◌==◌, get_or, or_else, if◌then◌else◌,
}
use coreax.Text.{trim}
use coreax.Value.{Value, str, Members, no_members, member, lookup, text, trimmed, truthy}
use coreax.Escalation.{Got, returned, threw, Details, Config}

-- `{ ...target, [key]: value }`
pub assign : String → Value → Members → Members
assign key v no_members = member key v no_members
assign key v (member k w fs) = if k == key then member key v fs else member k w (assign key v fs)

-- `{ ...target, ...source }`
pub spread : Members → Members → Members
spread target no_members = target
spread target (member k v fs) = assign k v (spread target fs)

abbrev pub has : String → Members → Bool
has key no_members = false
has key (member k v fs) = if k == key then true else has key fs

-- `String(v || "").trim()`
pub trimmed_or_blank : Value → String
trimmed_or_blank v = if truthy v then trim (text v) else ""

with_tenant : Option String → Members → Members
with_tenant none fs = fs
with_tenant (some t) fs = assign "tenant" (str t) fs

-- `none` is the error "Escalation violation is required".
pub sanitize_create_input : Members → Members → Option String → Option Members
sanitize_create_input input defaults tenant =
    let merged = spread defaults input in
    let violation = trimmed_or_blank (lookup "violation" merged) in
    if violation == ""
    then none
    else some (
        with_tenant (or_else (trimmed (lookup "tenant" merged)) tenant) (
          assign "violation" (str violation)
            (assign "content" (str (text (lookup "content" merged))) merged)))

pub record Created : Type 0 where
  pub id : String
  pub status : String

pub data CallError : Type 0 where
  create_error get_error resolve_error : String → CallError

pub data Call {ℓ} (A : Type ℓ) : Type ℓ where
  done : A → Call A
  failed : CallError → Call A

pub data ResolveAction : Type 0 where
  approve reject : ResolveAction

-- `reporter`, `resolver` and its optional `resolve`, and the hooks
pub record Services (W : Type 0) : Type 0 where
  pub reporter : Option (Members → W → Got (Option Created) × W)
  pub resolver : Option (String → Option String → W → Got (Option Details) × W)
  pub resolve :
      Option (String → ResolveAction → Option Value → Option String → W → Got (Option Details) × W)
  pub on_created : Members → Created → W → W
  pub on_error : CallError → W → W

module _ {W : Type 0} (sv : Services W) (cfg : Config) (defaults : Members) where
  -- The error is reported to the hook and thrown.
  fail : {A : Type 0} → CallError → W → Call A × W
  fail e w = (failed e, sv.on_error e w)

  reported : Members → Got (Option Created) → W → Call Created × W
  reported payload (threw message) w =
      fail (create_error (get_or message "Escalation create failed")) w
  reported payload (returned none) w =
      fail (create_error "Escalation reporter did not return an escalation id") w
  reported payload (returned (some c)) w =
      if c.id == ""
      then fail (create_error "Escalation reporter did not return an escalation id") w
      else (done c, sv.on_created payload c w)

  create_with : (Members → W → Got (Option Created) × W) → Option Members → W → Call Created × W
  create_with report none w = (failed (create_error "Escalation violation is required"), w)
  create_with report (some payload) w = let (got, w') = report payload w in reported payload got w'

  create_by : Option (Members → W → Got (Option Created) × W) → Members → W → Call Created × W
  create_by none input w = fail (create_error "Escalation reporter is not configured") w
  create_by (some report) input w =
      create_with report (sanitize_create_input input defaults cfg.tenant) w

  pub create : Members → W → Call Created × W
  create input w = create_by sv.reporter input w

  looked_up : Got (Option Details) → W → Call (Option Details) × W
  looked_up (returned d) w = (done d, w)
  looked_up (threw message) w = fail (get_error (get_or message "Escalation get failed")) w

  pub get : String → (tenant : Value) → W → Call (Option Details) × W
  get raw tenant w =
      let id = trim raw in
      if id == "" then fail (get_error "Escalation id is required") w else elim sv.resolver [
        | none ↦ fail (get_error "Escalation resolver is not configured") w
        | some ask ↦
            (let (got, w') = ask id (or_else (trimmed tenant) cfg.tenant) w in looked_up got w')
      ]

  settled : Got (Option Details) → W → Call (Option Details) × W
  settled (returned d) w = (done d, w)
  settled (threw message) w = fail (resolve_error (get_or message "Escalation resolve failed")) w

  pub resolve :
      String → ResolveAction → Option Value → (tenant : Value) → W → Call (Option Details) × W
  resolve raw action notes tenant w =
      let id = trim raw in
      if id == "" then fail (resolve_error "Escalation id is required") w else elim sv.resolve [
        | none ↦ fail (resolve_error "Escalation resolver.resolve is not configured") w
        | some act ↦
            (let (got, w') = act id action notes (or_else (trimmed tenant) cfg.tenant) w in
              settled got w')
      ]

-- ===== src/Escalation/Manager/Calls/Laws.antt =====
-- src/review-loop/config.ts and manager.ts: what reaches the reporter, and when a creation succeeds.
use coreax.Prelude.{
  String, false, Option, none, some, ◌==◌, ◌≡◌, refl, arith, eq_iff, or_else, get_or, ap,
  if◌then◌else◌,
}
use mathlib.Core.Path.{subst}
use coreax.Value.{Value, str, Members, no_members, member, lookup, text, trimmed}
use coreax.Escalation.{Got, returned, threw, Config}
use coreax.Escalation.Manager.Calls.{
  assign, spread, has, trimmed_or_blank, with_tenant, sanitize_create_input, Created, done,
  Services, fail, reported, create_with, create_by, create,
}

pub lookup-assign :
    (key k : String) (v : Value) (fs : Members)
    → lookup k (assign key v fs) ≡ (if key == k then v else lookup k fs)
unfolding lookup assign
lookup-assign key k v no_members = refl
lookup-assign key k v (member j w fs) =
    ground (arith, lookup-assign key k v fs, eq_iff j key, eq_iff j k, eq_iff key k)

-- A spread object has the source's value where the source has the key, else the target's.
pub lookup-spread :
    (k : String) (target source : Members)
    → lookup k (spread target source) ≡ (if has k source then lookup k source else lookup k target)
unfolding lookup spread
lookup-spread k target no_members = refl
lookup-spread k target (member j v fs) =
    ground (arith, lookup-assign j k v (spread target fs), lookup-spread k target fs)

with_tenant-lookup :
    (k : String) (t : Option String) (fs : Members)
    → ("tenant" == k) ≡ false
    → lookup k (with_tenant t fs) ≡ lookup k fs
unfolding with_tenant
with_tenant-lookup k none fs h = refl
with_tenant-lookup k (some t) fs h = ground (arith, lookup-assign "tenant" k (str t) fs)

sanitized-eq :
    (input defaults payload : Members) (tenant : Option String)
    → sanitize_create_input input defaults tenant ≡ some payload
    → let merged = spread defaults input in
      ((trimmed_or_blank (lookup "violation" merged) == "") ≡ false)
      × (payload
          ≡ with_tenant (or_else (trimmed (lookup "tenant" merged)) tenant) (
              assign "violation"
                (str (trimmed_or_blank (lookup "violation" merged)))
                (assign "content" (str (text (lookup "content" merged))) merged)))
unfolding sanitize_create_input
sanitized-eq input defaults payload tenant h = ground arith

-- A sanitized payload has as its violation the trimmed text of the merged one, which is not empty,
-- as its content a text, and under any key but these and the tenant's the input's value, or the
-- default where the input has none.
pub sanitize_create_input-some :
    (input defaults payload : Members) (tenant : Option String) (k : String)
    → sanitize_create_input input defaults tenant ≡ some payload
    → ("violation" == k) ≡ false
    → ("content" == k) ≡ false
    → ("tenant" == k) ≡ false
    → ((trimmed_or_blank (lookup "violation" (spread defaults input)) == "") ≡ false)
      × (lookup "violation" payload
          ≡ str (trimmed_or_blank (lookup "violation" (spread defaults input))))
      × (lookup "content" payload ≡ str (text (lookup "content" (spread defaults input))))
      × (lookup k payload ≡ (if has k input then lookup k input else lookup k defaults))
sanitize_create_input-some input defaults payload tenant k h v c t =
    let (full, e) = sanitized-eq input defaults payload tenant h in
    (
      full,
      rw (e, with_tenant-lookup "violation" _ _ refl, lookup-assign),
      rw (e, with_tenant-lookup "content" _ _ refl, lookup-assign, lookup-assign),
      rw (e, with_tenant-lookup k _ _ t, lookup-assign, v, lookup-assign, c, lookup-spread),
    )

module _ {W : Type 0} (sv : Services W) (cfg : Config) (defaults : Members) where
  reported-done :
      (payload : Members) (got : Got (Option Created)) (w w' : W) (made : Created)
      → reported sv cfg defaults payload got w ≡ (done made, w')
      → (got ≡ returned (some made))
        × ((made.id == "") ≡ false)
        × (w' ≡ sv.on_created payload made w)
  unfolding reported fail
  reported-done payload (threw m) w w' made h = cc
  reported-done payload (returned none) w w' made h = cc
  reported-done payload (returned (some c)) w w' made h = ground arith

  -- What a successful creation has done.
  pub record IsCreated (report : Members → W → Got (Option Created) × W) (input : Members)
      (w w' : W) (made : Created) : Type 0 where
    pub payload : Members
    pub sanitized : sanitize_create_input input defaults cfg.tenant ≡ some payload
    pub answered : (report payload w).0 ≡ returned (some made)
    pub has_id : (made.id == "") ≡ false
    pub hooked : w' ≡ sv.on_created payload made (report payload w).1

  create_with-done :
      (report : Members → W → Got (Option Created) × W) (input : Members) (o : Option Members)
      (w w' : W) (made : Created)
      → sanitize_create_input input defaults cfg.tenant ≡ o
      → create_with sv cfg defaults report o w ≡ (done made, w')
      → IsCreated report input w w' made
  unfolding create_with
  create_with-done report input none w w' made e h = cc
  create_with-done report input (some payload) w w' made e h =
      let (got, full, hooked) =
        reported-done payload (report payload w).0 (report payload w).1 w' made h in
      record { payload = payload; sanitized = e; answered = got; has_id = full; hooked = hooked }

  create_by-done :
      (rp : Option (Members → W → Got (Option Created) × W))
      (report : Members → W → Got (Option Created) × W) (input : Members) (w w' : W)
      (made : Created)
      → rp ≡ some report
      → create_by sv cfg defaults rp input w ≡ (done made, w')
      → IsCreated report input w w' made
  unfolding create_by
  create_by-done none report input w w' made e h = cc
  create_by-done (some r) report input w w' made e h =
      subst (λ q. IsCreated q input w w' made) (ap (λ o. get_or o r) e)
        (create_with-done r input _ w w' made refl h)

-- A creation that succeeds was asked of the reporter with the sanitized payload, its result has an
-- id, and the hook for creations, and no other, was called with both.
pub create-done :
    {W : Type 0} (sv : Services W) (cfg : Config) (defaults input : Members)
    (report : Members → W → Got (Option Created) × W) (w w' : W) (made : Created)
    → sv.reporter ≡ some report
    → create sv cfg defaults input w ≡ (done made, w')
    → IsCreated sv cfg defaults report input w w' made
unfolding create
create-done sv cfg defaults input report w w' made r h =
    create_by-done sv cfg defaults sv.reporter report input w w' made r h

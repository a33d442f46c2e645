-- ===== src/Escalation/Manager/Calls/Tests.antt =====
-- Creations of src/review-loop/manager.ts at given inputs.
use coreax.Prelude.{ℕ, false, Option, none, some, ◌==◌, ◌≡◌, refl, if◌then◌else◌}
use coreax.Text.{trim}
use coreax.Value.{str, Members, no_members, member, lookup, text, trimmed, truthy}
use coreax.Escalation.{Got, returned, Config}
use coreax.Escalation.Manager.Calls.{
  Services, Created, done, create, create_by, create_with, reported, sanitize_create_input, spread,
  assign, has, with_tenant, trimmed_or_blank,
}
use coreax.Escalation.Manager.Calls.Laws.{sanitize_create_input-some, IsCreated, create-done}

abbrev given : Members
given = member "content" (str "text") (member "violation" (str " rule ") no_members)

abbrev defaults : Members
defaults = member "ttlSeconds" (str "60") no_members

abbrev sanitized : Members
sanitized = member "ttlSeconds" (str "60") (
    member "violation" (str "rule")
      (member "content" (str "text") (member "tenant" (str "acme") no_members)))

sanitizes : sanitize_create_input given defaults (some "acme") ≡ some sanitized
unfolding sanitize_create_input spread assign with_tenant trimmed_or_blank trim text truthy trimmed
    lookup
sanitizes = refl

sanitize_create_input-some_example :
    ((trimmed_or_blank (lookup "violation" (spread defaults given)) == "") ≡ false)
    × (lookup "violation" sanitized
        ≡ str (trimmed_or_blank (lookup "violation" (spread defaults given))))
    × (lookup "content" sanitized ≡ str (text (lookup "content" (spread defaults given))))
    × (lookup "ttlSeconds" sanitized ≡ (
        if has "ttlSeconds" given then lookup "ttlSeconds" given else lookup "ttlSeconds" defaults))
sanitize_create_input-some_example =
    sanitize_create_input-some given defaults sanitized (some "acme") "ttlSeconds" sanitizes refl
      refl refl

abbrev report : Members → ℕ → Got (Option Created) × ℕ
report payload w = (returned (some (record { id = "e1"; status = "pending" })), 1)

abbrev services : Services ℕ
services = record {
  reporter = some report;
  resolver = none;
  resolve = none;
  on_created = λ payload made w. 2;
  on_error = λ e w. 3;
}

abbrev config : Config
config = record {
  tenant = some "acme";
  timeout_ms = 5000;
  poll_interval_ms = 2000;
  max_retries = 1;
  retry_backoff_ms = 250;
}

created :
    create services config defaults given 0 ≡ (done (record { id = "e1"; status = "pending" }), 2)
unfolding create create_by create_with reported sanitize_create_input spread assign with_tenant
    trimmed_or_blank trim text truthy trimmed lookup
created = refl

create-done_example :
    IsCreated services config defaults report given 0 2 (record { id = "e1"; status = "pending" })
create-done_example =
    create-done services config defaults given report 0 2 (record { id = "e1"; status = "pending" })
      refl created

-- ===== src/Policy/Tests.antt =====
-- Allowlists of src/policy/index.ts on given tools.
use coreax.Prelude.{String, true, false, none, some, ◌≡◌, refl, elem}
use coreax.Text.{trim}
use coreax.Value.{Value, str, array, no_elements, element, text}
use coreax.Policy.{
  before, behind, version_of, strip_prefix, strip_any_version, is_text_of, blank, string_of,
  normalize_allowlist, tool_allowed, server_allowed, entry_allows, matches_allowlist,
}
use coreax.Policy.Pinned.{tool_at, pinned, matches_allowlist-pinned}

allowlists_compute : Unit {0}
unfolding matches_allowlist entry_allows server_allowed tool_allowed normalize_allowlist string_of
    blank is_text_of strip_any_version strip_prefix version_of behind before trim text
allowlists_compute = tt

abbrev listing : String → Value
listing s = array (element (str "other") (element (str s) no_elements))

allowlists :
    (matches_allowlist (listing "read@*") "read@2" none ≡ true)
    × (matches_allowlist (listing "mcp://fs/read@1") "read@2" (some "fs") ≡ false)
    × (matches_allowlist (listing "mcp://fs") "read@2" (some "fs") ≡ true)
    × (matches_allowlist (listing "mcp://fs") "read@2" (some "net") ≡ false)
    × (matches_allowlist (listing "mcp://*/read") "read@2" (some "net") ≡ true)
    × (matches_allowlist (array no_elements) "read@2" (some "net") ≡ false)
unfolding allowlists_compute
allowlists = (refl, refl, refl, refl, refl, refl)

listed : elem (pinned "fs" "read" "1") (normalize_allowlist (listing " mcp://fs/read@1")) ≡ true
unfolding allowlists_compute
listed = refl

trimmed_tool : trim (tool_at "read" "1") ≡ tool_at "read" "1"
unfolding allowlists_compute
trimmed_tool = refl

matches_allowlist-pinned_example :
    matches_allowlist (listing " mcp://fs/read@1") (tool_at "read" "1") (some "fs") ≡ true
matches_allowlist-pinned_example =
    matches_allowlist-pinned (listing " mcp://fs/read@1") "fs" "read" "1" refl refl refl refl
      trimmed_tool listed

-- ===== src/Entitlements/Glob/Tests.antt =====
-- Patterns of src/gateway/entitlements/checker.ts on given texts.
use coreax.Prelude.{true, false, ◌≡◌, refl, ◌↔◌}
use coreax.Entitlements.Glob.{wildcard_match, Matches, wildcard_match-Matches}

globs :
    (wildcard_match "fs.*@1" "fs.read@1" ≡ true)
    × (wildcard_match "fs.*@1" "fsxread@1" ≡ false)
    × (wildcard_match "*" "" ≡ true)
    × (wildcard_match "Fs" "fs" ≡ false)
    × (wildcard_match "a*b*c" "aXbYbc" ≡ true)
    × (wildcard_match "a*" "a\nb" ≡ false)
unfolding wildcard_match
globs = (refl, refl, refl, refl, refl, refl)

wildcard_match-Matches_example : (wildcard_match "fs.*" "fs.read" ≡ true) ↔ Matches "fs.*" "fs.read"
wildcard_match-Matches_example = wildcard_match-Matches "fs.*" "fs.read"

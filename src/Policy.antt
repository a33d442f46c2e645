-- ===== src/Policy.antt =====
-- src/policy/index.ts: whether the allowlist of a policy allows a tool. An entry names a tool, with or
-- without a version, or a server and, behind a slash, its tools.
pub mod Pinned
mod Tests
use Prim.Native.Char.{Char, code}
use Prim.Native.String.{[], ◌∷◌}
use coreax.Prelude.{
  ℕ, String, Bool, true, false, not, ◌&&◌, ◌||◌, Option, none, some, List, map, ◌==◌, num_eq, any,
  elem, keep, get_or, if◌then◌else◌,
}
use coreax.Text.{trim}
use coreax.Value.{Value, undefined, null, array, Elements, elements, text}

abbrev pub at_sign : ℕ
at_sign = 64

abbrev pub slash : ℕ
slash = 47

-- `s.slice(0, s.indexOf(c))`, the whole text where there is no c
unfoldable pub before : ℕ → String → String
before c [] = []
before c (d ∷ s) = if num_eq (code d) c then [] else d ∷ before c s

-- `s.slice(s.indexOf(c) + 1)`, none where there is no c
unfoldable pub behind : ℕ → String → Option String
behind c [] = none
behind c (d ∷ s) = if num_eq (code d) c then some s else behind c s

-- The second of the parts that `s.split("@", 2)` gives.
pub version_of : String → Option String
version_of s = elim (behind at_sign s) [ none ↦ none | some t ↦ some (before at_sign t) ]

unfoldable pub strip_prefix : (prefix s : String) → Option String
strip_prefix [] s = some s
strip_prefix (c ∷ p) [] = none
strip_prefix (c ∷ p) (d ∷ s) = if num_eq (code c) (code d) then strip_prefix p s else none

-- The text before "@*" at the end.
pub strip_any_version : String → Option String
strip_any_version [] = none
strip_any_version (c ∷ s) =
    let rest = strip_any_version s in
    if (c ∷ s) == "@*" then some [] else elim rest [ none ↦ none | some t ↦ some (c ∷ t) ]

pub is_text_of : Option String → String → Bool
is_text_of none s = false
is_text_of (some t) s = t == s

-- A version that is missing or empty.
blank : Option String → Bool
blank none = true
blank (some v) = v == ""

-- `String(entry)`
pub string_of : Value → String
string_of undefined = "undefined"
string_of null = "null"
string_of v = text v

pub normalize_allowlist : Value → List String
normalize_allowlist (array vs) =
    keep (λ s. not (s == "")) (map (λ v. trim (string_of v)) (elements vs))
normalize_allowlist _ = List.◌∷◌ "*" List.[]

-- The tool's version, the part of an entry behind its server, and the server of the request.
pub tool_allowed : String → Option String → String → Bool
tool_allowed tool_base tool_version part =
    part == ""
    || part == "*"
    || (before at_sign part == tool_base
        && (blank (version_of part)
            || is_text_of (version_of part) "*"
            || (not (blank tool_version) && is_text_of (version_of part) (get_or tool_version ""))))

pub server_allowed : String → Option String → Option String → String → Bool
server_allowed tool_base tool_version server_name rest = elim (behind slash rest) [
  | none ↦ rest == "*" || (not (blank server_name) && is_text_of server_name rest)
  | some part ↦
      (before slash rest == "*" || is_text_of server_name (before slash rest))
      && tool_allowed tool_base tool_version part
]

-- The body of the loop over the entries, none of which is empty.
pub entry_allows : String → Option String → String → Bool
entry_allows raw_tool server_name entry =
    entry == raw_tool
    || entry == before at_sign raw_tool
    || is_text_of (strip_any_version entry) (before at_sign raw_tool)
    || elim (strip_prefix "mcp://" entry) [
      | none ↦ false
      | some rest ↦
          not (rest == "")
          && (rest == "*"
              || server_allowed (before at_sign raw_tool) (version_of raw_tool) server_name rest)
    ]

unfoldable pub matches_allowlist : Value → String → Option String → Bool
unfolding entry_allows server_allowed tool_allowed normalize_allowlist string_of blank is_text_of
    strip_any_version strip_prefix version_of behind before
matches_allowlist allowlist tool_name server_name =
    let list = normalize_allowlist allowlist in
    let raw_tool = trim tool_name in
    elem "*" list
    || elem "mcp://*" list
    || elem "mcp://*/*@*" list
    || (not (raw_tool == "") && any (entry_allows raw_tool server_name) list)

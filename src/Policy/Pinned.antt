-- ===== src/Policy/Pinned.antt =====
-- src/policy/index.ts: entries of an allowlist that name a server, a tool and a version.
use Prim.Native.Char.{Char, code}
use Prim.Native.String.{[], ◌∷◌}
use coreax.Prelude.{
  ℕ, String, Bool, true, false, not, ◌&&◌, ◌||◌, some, ◌==◌, num_eq, elem, ◌≡◌, refl, ap, arith,
  eq_iff, eq_refl, elem-any, Bool-cases, inl, inr,
}
use coreax.Text.{trim}
use coreax.Value.{Value}
use coreax.Policy.{
  at_sign, slash, before, behind, version_of, strip_prefix, strip_any_version, is_text_of, blank,
  normalize_allowlist, tool_allowed, server_allowed, entry_allows, matches_allowlist,
}

-- A text in which a character does not occur.
abbrev pub free : ℕ → String → Bool
free c [] = true
free c (d ∷ s) = not (num_eq (code d) c) && free c s

infixr 20 ◌++◌
abbrev pub ◌++◌ : String → String → String
[] ++ b = b
(c ∷ a) ++ b = c ∷ (a ++ b)

num_eq_of : {a b : ℕ} → a ≡ b → num_eq a b ≡ true
num_eq_of h = ground arith

free-split :
    (c : ℕ) (x : Char) (s : String)
    → free c (x ∷ s) ≡ true
    → (num_eq (code x) c ≡ false) × (free c s ≡ true)
free-split c x s h = ground arith

pub before-append :
    (c : ℕ) (s t : String) (d : Char) → code d ≡ c → free c s ≡ true → before c (s ++ (d ∷ t)) ≡ s
unfolding before
before-append c [] t d e h = rw (num_eq_of e) refl
before-append c (x ∷ s) t d e h =
    let (other, rest) = free-split c x s h in rw (other, before-append c s t d e rest) refl

pub behind-append :
    (c : ℕ) (s t : String) (d : Char)
    → code d ≡ c
    → free c s ≡ true
    → behind c (s ++ (d ∷ t)) ≡ some t
unfolding behind
behind-append c [] t d e h = rw (num_eq_of e) refl
behind-append c (x ∷ s) t d e h =
    let (other, rest) = free-split c x s h in rw other (behind-append c s t d e rest)

pub before-free : (c : ℕ) (s : String) → free c s ≡ true → before c s ≡ s
unfolding before
before-free c [] h = refl
before-free c (x ∷ s) h =
    let (other, rest) = free-split c x s h in rw (other, before-free c s rest) refl

strip_prefix-append : (p s : String) → strip_prefix p (p ++ s) ≡ some s
unfolding strip_prefix
strip_prefix-append [] s = refl
strip_prefix-append (c ∷ p) s = rw (num_eq_of {a = code c} refl) (strip_prefix-append p s)

abbrev pub tool_at : (base version : String) → String
tool_at base version = base ++ ("@" ∷ version)

-- The entry that names a server, a tool and a version.
abbrev pub pinned : (server base version : String) → String
pinned server base version = "mcp://" ++ (server ++ ("/" ∷ tool_at base version))

or_right : (a : Bool) {b : Bool} → b ≡ true → (a || b) ≡ true
or_right true h = refl
or_right false h = h

and_true : {a b : Bool} → a ≡ true → b ≡ true → (a && b) ≡ true
and_true h k = rw (h, k) refl

cons-nonempty : (c : Char) (s : String) → ((c ∷ s) == "") ≡ false
cons-nonempty c s = elim (Bool-cases ((c ∷ s) == "")) [
  | inl equal ↦ let e = (eq_iff (c ∷ s) "").0 equal in cc
  | inr differs ↦ differs
]

version_of-tool_at :
    (base version : String)
    → free at_sign base ≡ true
    → free at_sign version ≡ true
    → version_of (tool_at base version) ≡ some version
unfolding version_of
version_of-tool_at base version h k =
    rw (version_of, behind-append at_sign base version "@" refl h)
      (ap some (before-free at_sign version k))

tool_allowed-tool_at :
    (base version : String)
    → free at_sign base ≡ true
    → free at_sign version ≡ true
    → (version == "") ≡ false
    → tool_allowed base (some version) (tool_at base version) ≡ true
unfolding tool_allowed blank is_text_of
tool_allowed-tool_at base version h k full =
    or_right (tool_at base version == "" || tool_at base version == "*") (
      rw
        (
          before-append at_sign base version "@" refl h,
          eq_refl base,
          version_of-tool_at base version h k,
        )
        (or_right (version == "" || version == "*") (rw (full, eq_refl version) refl)))

server_allowed-pinned :
    (server base version : String)
    → free slash server ≡ true
    → free at_sign base ≡ true
    → free at_sign version ≡ true
    → (version == "") ≡ false
    → server_allowed base (some version) (some server) (server ++ ("/" ∷ tool_at base version))
      ≡ true
unfolding server_allowed is_text_of
server_allowed-pinned server base version f h k full =
    rw
      (
        server_allowed,
        behind-append slash server (tool_at base version) "/" refl f,
        before-append slash server (tool_at base version) "/" refl f,
      )
      (and_true (or_right (server == "*") (eq_refl server))
        (tool_allowed-tool_at base version h k full))

nonempty : (s t : String) (d : Char) → ((s ++ (d ∷ t)) == "") ≡ false
nonempty [] t d = cons-nonempty d t
nonempty (c ∷ s) t d = cons-nonempty c (s ++ (d ∷ t))

entry_allows-pinned :
    (server base version : String)
    → free slash server ≡ true
    → free at_sign base ≡ true
    → free at_sign version ≡ true
    → (version == "") ≡ false
    → entry_allows (tool_at base version) (some server) (pinned server base version) ≡ true
unfolding entry_allows server_allowed
entry_allows-pinned server base version f h k full =
    or_right
      (pinned server base version == tool_at base version
        || pinned server base version == before at_sign (tool_at base version)
        || is_text_of (strip_any_version (pinned server base version))
            (before at_sign (tool_at base version)))
      (rw (strip_prefix-append "mcp://" (server ++ ("/" ∷ tool_at base version))) (
        and_true (rw (nonempty server (tool_at base version) "/") refl) (
          or_right ((server ++ ("/" ∷ tool_at base version)) == "*") (
            rw (before-append at_sign base version "@" refl h, version_of-tool_at base version h k)
              (server_allowed-pinned server base version f h k full)))))

-- Where the allowlist has, wherever it stands, the entry for a version of a tool on a server, that
-- version of the tool is allowed on that server. The server's name has no slash, the tool and the
-- version have no `@`, the version is not empty, and the tool with its version, as in `tool@version`,
-- has no white space around it.
pub matches_allowlist-pinned :
    (allowlist : Value) (server base version : String)
    → free slash server ≡ true
    → free at_sign base ≡ true
    → free at_sign version ≡ true
    → (version == "") ≡ false
    → trim (tool_at base version) ≡ tool_at base version
    → elem (pinned server base version) (normalize_allowlist allowlist) ≡ true
    → matches_allowlist allowlist (tool_at base version) (some server) ≡ true
unfolding matches_allowlist
matches_allowlist-pinned allowlist server base version f h k full trimmed_tool member =
    or_right
      (elem "*" (normalize_allowlist allowlist)
        || elem "mcp://*" (normalize_allowlist allowlist)
        || elem "mcp://*/*@*" (normalize_allowlist allowlist))
      (and_true {a = not (trim (tool_at base version) == "")}
        (rw (trimmed_tool, nonempty base version "@") refl)
        (rw trimmed_tool (
          elem-any (entry_allows (tool_at base version) (some server)) (pinned server base version)
            (normalize_allowlist allowlist) member
            (entry_allows-pinned server base version f h k full))))

-- ===== src/Registry/Tests.antt =====
-- The registry at concrete tools, and the theorems at them.
use coreax.Prelude.{
  ℕ, zero, suc, String, true, false, Option, none, some, List, [], ◌∷◌, ◌≡◌, refl, inl, map_set,
  All, ◌==◌,
}
use coreax.Registry.{
  Server, RegistryState, Tools, Tag, Event, call_tool, map_clearing, installing,
  create_registry_state, freeze, identity_hash,
}
use coreax.Registry.Frozen.{run, installed, Follows, IsFrozen, run-Follows}
use coreax.Registry.Wrapped.{Wrapping, AllApart, install_all}
use coreax.Registry.Detection.{Installable, Unchanged, install_all-Unchanged}

abbrev codes : Option ℕ → String
codes none = "undefined"
codes (some zero) = "read"
codes (some (suc n)) = "write"

abbrev same_text : String → String
same_text s = s

abbrev server : Server
server = record { register = map_set; set_tool = none }

abbrev untagged : ℕ → Tag
untagged h = record { wrapper = false; handler_hash = none }

abbrev tools : Tools
tools = ("read@1", 0) ∷ ("write@1", 1) ∷ []

abbrev wrappings : List Wrapping
wrappings =
    record { name = "read@1"; wrapped = 10; original = 0 }
    ∷ record { name = "write@1"; wrapped = 11; original = 1 }
    ∷ []

abbrev events : List (Event × ℕ)
events = (installing "read@1" 10 0, 1) ∷ (call_tool "read@1" 5, 2) ∷ (map_clearing, 3) ∷ []

frozen_tools : RegistryState
frozen_tools = freeze (create_registry_state codes same_text untagged tools)

frozen_tools-IsFrozen : IsFrozen frozen_tools
unfolding frozen_tools freeze create_registry_state
frozen_tools-IsFrozen = (refl, refl)

run-Follows_example :
    Follows
      (run codes same_text server events frozen_tools)
      (installed codes same_text server events frozen_tools.tools)
      true
run-Follows_example = run-Follows codes same_text server events frozen_tools frozen_tools-IsFrozen

never_empty : (h : ℕ) → (codes (some h) == "") ≡ false
never_empty zero = refl
never_empty (suc n) = refl

wrappings-Installable :
    All
      (Installable codes same_text server never_empty
        (inl refl)
        (create_registry_state codes same_text untagged tools))
      wrappings
unfolding create_registry_state identity_hash
wrappings-Installable = ((refl, refl, refl), ((refl, refl, refl), tt))

wrappings-AllApart : AllApart wrappings
wrappings-AllApart = (((refl, refl, refl), tt), (tt, tt))

install_all-Unchanged_example :
    All
      (Unchanged codes same_text server never_empty (inl refl) (
        install_all codes same_text server 7 wrappings
          (create_registry_state codes same_text untagged tools)))
      wrappings
install_all-Unchanged_example =
    install_all-Unchanged codes same_text server never_empty (inl refl) 7 wrappings untagged tools
      wrappings-AllApart wrappings-Installable

-- ===== src/Registry/Frozen.antt =====
-- src/middleware/registryState.ts: what a frozen registry lets through.
use coreax.Prelude.{
  ℕ, String, Bool, true, false, ◌||◌, Option, none, some, List, [], ◌∷◌, ◌≡◌, refl, arith, is_some,
  Option-cases, inl, inr, map_set,
}
use coreax.Registry.{
  Server, RegistryState, Tools, Event, call_tool, call_set_tool, map_setting, map_deletion,
  map_clearing, freezing, installing, MutationKind, guarded, step, freeze, install_wrapped_tool,
  set_wrapped, mark_wrapped_handler,
}

-- Frozen, and not in the middle of an installation.
abbrev pub IsFrozen : RegistryState → Type 0
IsFrozen s = (s.registry_frozen ≡ true) × (s.installing_wrapper ≡ false)

-- A state after an event: frozen still, with these tools and the mark of an attempt.
abbrev pub Follows : RegistryState → Tools → Bool → Type 0
Follows s tools marked = IsFrozen s × (s.tools ≡ tools) × (is_some s.mutation_attempted ≡ marked)

guarded-Follows :
    (name : Option String) (kind : MutationKind) (now : ℕ) (f : Tools → Tools) (s : RegistryState)
    → IsFrozen s
    → Follows (guarded name kind now f s).1 s.tools true
unfolding guarded
guarded-Follows name kind now f s (h, k) = rw (h, k) ((refl, refl), refl, refl)

module _ (code_hash : Option ℕ → String) (sha256_hex : String → String) (server : Server) where
  -- Events one after the other, each with its moment.
  abbrev pub run : List (Event × ℕ) → RegistryState → RegistryState
  run [] s = s
  run ((e, now) ∷ es) s = run es (step code_hash sha256_hex server e now s).1

  abbrev pub is_mutation : Event → Bool
  is_mutation (call_tool name h) = true
  is_mutation (call_set_tool name h) = is_some server.set_tool
  is_mutation (map_setting k h) = true
  is_mutation (map_deletion k) = true
  is_mutation map_clearing = true
  is_mutation freezing = false
  is_mutation (installing name wrapped original) = false

  abbrev pub any_mutation : List (Event × ℕ) → Bool
  any_mutation [] = false
  any_mutation ((e, now) ∷ es) = is_mutation e || any_mutation es

  -- The tools as the installations alone would leave them.
  abbrev pub place : String → ℕ → Tools → Tools
  place name wrapped tools = elim server.set_tool [
    | some f ↦ f name wrapped tools
    | none ↦ map_set name wrapped tools
  ]

  abbrev pub placed : Event → Tools → Tools
  placed (installing name wrapped original) tools = place name wrapped tools
  placed (call_tool name h) tools = tools
  placed (call_set_tool name h) tools = tools
  placed (map_setting k h) tools = tools
  placed (map_deletion k) tools = tools
  placed map_clearing tools = tools
  placed freezing tools = tools

  abbrev pub installed : List (Event × ℕ) → Tools → Tools
  installed [] tools = tools
  installed ((e, now) ∷ es) tools = installed es (placed e tools)

  install_wrapped_tool-Follows :
      (name : String) (wrapped original now : ℕ) (s : RegistryState)
      → IsFrozen s
      → Follows
          (install_wrapped_tool code_hash sha256_hex server name wrapped original now s)
          (place name wrapped s.tools)
          (is_some s.mutation_attempted)
  unfolding install_wrapped_tool set_wrapped mark_wrapped_handler guarded
  install_wrapped_tool-Follows name wrapped original now s (h, k) =
      elim (Option-cases server.set_tool) [
        | inl without ↦ rw (without, h) ((refl, refl), refl, refl)
        | inr (f, own) ↦ rw own ((h, refl), refl, refl)
      ]

  step-Follows :
      (e : Event) (now : ℕ) (s : RegistryState)
      → IsFrozen s
      → Follows
          (step code_hash sha256_hex server e now s).1
          (placed e s.tools)
          (is_mutation e || is_some s.mutation_attempted)
  unfolding step freeze
  step-Follows (call_tool name h) now s i = guarded-Follows _ _ _ _ s i
  step-Follows (call_set_tool name h) now s i = elim (Option-cases server.set_tool) [
    | inl without ↦ rw without (i, refl, refl)
    | inr (f, own) ↦ rw own (guarded-Follows _ _ _ _ s i)
  ]
  step-Follows (map_setting k h) now s i = guarded-Follows _ _ _ _ s i
  step-Follows (map_deletion k) now s i = guarded-Follows _ _ _ _ s i
  step-Follows map_clearing now s i = guarded-Follows _ _ _ _ s i
  step-Follows freezing now s (h, k) = ((refl, k), refl, refl)
  step-Follows (installing name wrapped original) now s i =
      install_wrapped_tool-Follows name wrapped original now s i

  -- From a frozen registry on, whatever is done to it, its tools are those that the installations
  -- of wrappers alone leave, it is frozen still, and an attempt to change it is on record if there
  -- was one, now or before.
  pub run-Follows :
      (es : List (Event × ℕ)) (s : RegistryState)
      → IsFrozen s
      → Follows (run es s) (installed es s.tools) (any_mutation es || is_some s.mutation_attempted)
  run-Follows [] s i = (i, refl, refl)
  run-Follows ((e, now) ∷ es) s i =
      let (still, tools, marked) = step-Follows e now s i in
      let (i', tools', marked') =
        run-Follows es (step code_hash sha256_hex server e now s).1 still in
      (i', rw tools at tools', ground (arith, marked, marked'))

-- ===== src/Registry.antt =====
-- src/middleware/registryState.ts: the registry of a server's tools, frozen once they are wrapped. A
-- handler is an object that is known by its number and may carry the tag of a wrapper.
pub mod Frozen
pub mod Wrapped
pub mod Detection
pub mod Stats
mod Tests
use coreax.Prelude.{
  ℕ, String, Bool, true, false, not, ◌&&◌, Option, none, some, List, [], ◌∷◌, map, ◌==◌, num_eq,
  if◌then◌else◌, map_get, map_set, map_delete, is_some, sort_by,
}
use Prim.Native.String
use Prim.Native.Nat.{Ordering}

infixr 20 ◌++◌
abbrev ◌++◌ : String → String → String
a ++ b = String.◌++◌ a b

-- `__sec0_wrapper__` and `__sec0_handler_hash`
pub record Tag : Type 0 where
  pub wrapper : Bool
  pub handler_hash : Option String

pub data MutationKind : Type 0 where
  tool set_tool map_change : MutationKind

pub record ToolRegistryMutation : Type 0 where
  pub tool : Option String
  pub when : ℕ
  pub kind : MutationKind

abbrev pub Tools : Type 0
Tools = List (String × ℕ)

-- The server's own methods, by what they do to the map of the tools.
pub record Server : Type 0 where
  pub register : String → ℕ → Tools → Tools
  pub set_tool : Option (String → ℕ → Tools → Tools)

pub record RegistryState : Type 0 where
  pub tools : Tools
  pub tags : ℕ → Tag
  pub registry_frozen : Bool
  pub installing_wrapper : Bool
  pub mutation_attempted : Option ToolRegistryMutation
  pub initial_hashes : List (String × String)
  pub initial_snapshot : String

pub record ToolRuntimeChanges : Type 0 where
  pub handler_swap_detected : Bool
  pub tool_code_changed : Bool
  pub server_code_changed : Bool
  pub registry_mutation : Bool

-- What a call returns: nothing, the error REGISTRY_FROZEN, or that the server has no such method.
pub data Answer : Type 0 where
  done frozen_error no_method : Answer

-- `s || undefined`
abbrev pub filled : Option String → Option String
filled none = none
filled (some s) = if s == "" then none else some s

pub get_wrapped_handler_hash : (ℕ → Tag) → Option ℕ → Option String
get_wrapped_handler_hash tags none = none
get_wrapped_handler_hash tags (some h) = filled (tags h).handler_hash

pub set_tag : ℕ → Tag → (ℕ → Tag) → ℕ → Tag
set_tag h t tags k = if num_eq h k then t else tags k

text_before : String → String → Bool
text_before a b = elim (String.compare a b) [ Ordering.lt ↦ true | _ ↦ false ]

join_bars : List String → String
join_bars [] = ""
join_bars (x ∷ []) = x
join_bars (x ∷ y ∷ xs) = x ++ "|" ++ join_bars (y ∷ xs)

pub changed : Option String → String → Bool
changed none current = false
changed (some initial) current =
    not (initial == "") && not (current == "") && not (current == initial)

pub is_handler : Option ℕ → ℕ → Bool
is_handler none expected = false
is_handler (some h) expected = num_eq h expected

-- What a program may do to the registry.
pub data Event : Type 0 where
  call_tool call_set_tool map_setting : String → ℕ → Event
  map_deletion : String → Event
  map_clearing freezing : Event
  installing : String → (wrapped original : ℕ) → Event

-- A change of the map by anyone, unless the registry is frozen and no wrapper is being installed.
pub guarded :
    Option String → MutationKind → ℕ → (Tools → Tools) → RegistryState → Answer × RegistryState
guarded name kind now f s =
    if s.registry_frozen && not s.installing_wrapper
    then (
      frozen_error,
      record s { mutation_attempted = some (record { tool = name; when = now; kind = kind }) },
    )
    else (done, record s { tools = f s.tools })

pub freeze : RegistryState → RegistryState
freeze s = record s { registry_frozen = true }

-- The hash of the code of a handler, or of `undefined`, and that of a text.
module _ (code_hash : Option ℕ → String) (sha256_hex : String → String) where
  -- The digest in the identity of a handler with this tag.
  pub identity_hash : Tag → ℕ → String
  identity_hash tag h = elim (filled tag.handler_hash) [
    | some hash ↦ if tag.wrapper then hash else code_hash (some h)
    | none ↦ code_hash (some h)
  ]

  pub snapshot_handler_identity : (ℕ → Tag) → String × ℕ → String
  snapshot_handler_identity tags (tool_key, h) = tool_key ++ ":" ++ identity_hash (tags h) h

  pub snapshot_parts : (ℕ → Tag) → Tools → List String
  snapshot_parts tags tools = map (snapshot_handler_identity tags) tools

  pub snapshot_registry_hash : (ℕ → Tag) → Tools → String
  snapshot_registry_hash tags tools =
      sha256_hex (join_bars (sort_by text_before (snapshot_parts tags tools)))

  initial_hash : String × ℕ → String × String
  initial_hash (tool_key, h) = (tool_key, code_hash (some h))

  pub create_registry_state : (ℕ → Tag) → Tools → RegistryState
  create_registry_state tags tools = record {
    tools = tools;
    tags = tags;
    registry_frozen = false;
    installing_wrapper = false;
    mutation_attempted = none;
    initial_hashes = map initial_hash tools;
    initial_snapshot = snapshot_registry_hash tags tools;
  }

  pub mark_wrapped_handler : (wrapped original : ℕ) → RegistryState → RegistryState
  mark_wrapped_handler wrapped original s =
      let t : Tag = record { wrapper = true; handler_hash = some (code_hash (some original)) } in
      record s { tags = set_tag wrapped t s.tags }

  set_wrapped : Server → String → ℕ → ℕ → RegistryState → RegistryState
  set_wrapped server name wrapped now s = elim server.set_tool [
    | some f ↦ record s { tools = f name wrapped s.tools }
    | none ↦ (guarded (some name) map_change now (map_set name wrapped) s).1
  ]

  -- The flag is set for the length of the call.
  pub install_wrapped_tool :
      Server → String → (wrapped original now : ℕ) → RegistryState → RegistryState
  install_wrapped_tool server name wrapped original now s =
      let s' = mark_wrapped_handler wrapped original (record s { installing_wrapper = true }) in
      record (set_wrapped server name wrapped now s') { installing_wrapper = false }

  current_hash : (ℕ → Tag) → Option ℕ → String
  current_hash tags h = elim (get_wrapped_handler_hash tags h) [
    | some hash ↦ hash
    | none ↦ code_hash h
  ]

  pub detect_tool_runtime_changes : String → ℕ → RegistryState → ToolRuntimeChanges
  detect_tool_runtime_changes name expected s =
      let current = map_get name s.tools in
      record {
        handler_swap_detected = not (is_handler current expected);
        tool_code_changed = changed (map_get name s.initial_hashes) (current_hash s.tags current);
        server_code_changed = not (snapshot_registry_hash s.tags s.tools == s.initial_snapshot);
        registry_mutation = is_some s.mutation_attempted;
      }

  pub step : Server → Event → ℕ → RegistryState → Answer × RegistryState
  step server (call_tool name h) now s = guarded (some name) tool now (server.register name h) s
  step server (call_set_tool name h) now s = elim server.set_tool [
    | some f ↦ guarded (some name) set_tool now (f name h) s
    | none ↦ (no_method, s)
  ]
  step server (map_setting k h) now s = guarded (some k) map_change now (map_set k h) s
  step server (map_deletion k) now s = guarded (some k) map_change now (map_delete k) s
  step server map_clearing now s = guarded none map_change now (λ t. []) s
  step server freezing now s = (done, freeze s)
  step server (installing name wrapped original) now s =
      (done, install_wrapped_tool server name wrapped original now s)

-- ===== src/Guard/Providers.antt =====
-- src/guard/providers.ts: where a guard takes its policy from. A policy is of any type, and so is the
-- world on which files and remote services act; the digest of a policy is an argument.
pub mod Remote
mod Tests
use coreax.Prelude.{
  ℕ, ◌-◌, String, Bool, true, false, not, ◌&&◌, ◌||◌, Option, none, some, List, [], ◌∷◌, ltb,
  num_eq, is_some, if◌then◌else◌,
}
use Prim.Native.String
use coreax.Governance.{Try, ok, raised}

infixr 20 ◌++◌
abbrev ◌++◌ : String → String → String
a ++ b = String.◌++◌ a b

pub data SnapshotSource : Type 0 where
  local remote remote_cache local_fallback : SnapshotSource

pub data GuardMode : Type 0 where
  standalone dashboard hybrid : GuardMode

pub data GuardProviderPrecedence : Type 0 where
  remote_first local_first : GuardProviderPrecedence

pub record GuardProviderSnapshot (P : Type 0) : Type 0 where
  pub policy : P
  pub hash : String
  pub source : SnapshotSource
  pub fallback_reason : Option String

pub record CachedPolicy (P : Type 0) : Type 0 where
  pub snapshot : GuardProviderSnapshot P
  pub loaded_at_ms : ℕ
  pub mtime_ms : Option ℕ

-- A file of a policy: when it was changed, and what reading it gives.
pub record PolicyFile (P : Type 0) : Type 0 where
  pub mtime_ms : ℕ
  pub parsed : Try P

-- What a caller's remote provider returns.
pub data RemoteResult (P : Type 0) : Type 0 where
  whole : GuardProviderSnapshot P → RemoteResult P
  bare : P → RemoteResult P

same_mtime : Option ℕ → ℕ → Bool
same_mtime none m = false
same_mtime (some n) m = num_eq n m

module _ {P : Type 0} (stable_hash : P → String) where
  snapshot_of : P → SnapshotSource → GuardProviderSnapshot P
  snapshot_of policy source = record {
    policy = policy;
    hash = stable_hash policy;
    source = source;
    fallback_reason = none;
  }

  -- What a policy that was read becomes, and the cache with it.
  loaded :
      Try P
      → (mtime_ms : Option ℕ) → (now : ℕ) → Option (CachedPolicy P)
      → Try (GuardProviderSnapshot P) × Option (CachedPolicy P)
  loaded (raised e) mtime_ms now cache = (raised e, cache)
  loaded (ok policy) mtime_ms now cache = (
    ok (snapshot_of policy local),
    some (record { snapshot = snapshot_of policy local; loaded_at_ms = now; mtime_ms = mtime_ms }),
  )

  -- A cached policy serves for as long as its time to live, of a file that has not changed.
  pub load_from_path :
      (cache_ttl_ms : ℕ)
      → Option (PolicyFile P)
      → (now : ℕ) → Option (CachedPolicy P)
      → Try (GuardProviderSnapshot P) × Option (CachedPolicy P)
  load_from_path cache_ttl_ms none now cache =
      (raised "Local guard policy file does not exist", cache)
  load_from_path cache_ttl_ms (some file) now none =
      loaded file.parsed (some file.mtime_ms) now none
  load_from_path cache_ttl_ms (some file) now (some c) =
      if same_mtime c.mtime_ms file.mtime_ms && ltb (now - c.loaded_at_ms) cache_ttl_ms
      then (ok c.snapshot, some c)
      else loaded file.parsed (some file.mtime_ms) now (some c)

  pub load_from_object :
      (cache_ttl_ms : ℕ)
      → Option P
      → (now : ℕ) → Option (CachedPolicy P)
      → Try (GuardProviderSnapshot P) × Option (CachedPolicy P)
  load_from_object cache_ttl_ms none now cache =
      (raised "Local guard policy object is not configured", cache)
  load_from_object cache_ttl_ms (some policy) now none = loaded (ok policy) none now none
  load_from_object cache_ttl_ms (some policy) now (some c) =
      if ltb (now - c.loaded_at_ms) cache_ttl_ms
      then (ok c.snapshot, some c)
      else loaded (ok policy) none now (some c)

  remote_source : SnapshotSource → SnapshotSource
  remote_source local = remote
  remote_source source = source

  -- `RemotePolicyProvider.getPolicy`, of what the caller's provider has returned.
  pub remote_snapshot : RemoteResult P → GuardProviderSnapshot P
  remote_snapshot (whole s) = record s { source = remote_source s.source }
  remote_snapshot (bare policy) = snapshot_of policy remote

-- A provider, of a kind that answers to an input on a world.
abbrev pub GuardPolicyProvider : (P I W : Type 0) → Type 0
GuardPolicyProvider P I W = I → W → Try (GuardProviderSnapshot P) × W

pub record CompositeConfig (P I W : Type 0) : Type 0 where
  pub precedence : GuardProviderPrecedence
  pub local_provider : Option (GuardPolicyProvider P I W)
  pub remote_provider : Option (GuardPolicyProvider P I W)

module _ {P I W : Type 0} (config : CompositeConfig P I W) where
  -- The last snapshot of the remote provider is kept.
  kept :
      Option (GuardProviderSnapshot P)
      → Try (GuardProviderSnapshot P) × W
      → Try (GuardProviderSnapshot P) × Option (GuardProviderSnapshot P) × W
  kept last (ok s, w) = (ok s, some s, w)
  kept last (raised e, w) = (raised e, last, w)

  read_remote :
      I
      → Option (GuardProviderSnapshot P)
      → W
      → Try (GuardProviderSnapshot P) × Option (GuardProviderSnapshot P) × W
  read_remote input last w = elim config.remote_provider [
    | none ↦ (raised "Remote guard provider is not configured", last, w)
    | some provider ↦ kept last (provider input w)
  ]

  read_local : I → W → Try (GuardProviderSnapshot P) × W
  read_local input w = elim config.local_provider [
    | none ↦ (raised "Local guard provider is not configured", w)
    | some provider ↦ provider input w
  ]

  marked : SnapshotSource → String → GuardProviderSnapshot P → GuardProviderSnapshot P
  marked source reason s = record s { source = source; fallback_reason = some reason }

  after_local :
      I
      → Option (GuardProviderSnapshot P)
      → Try (GuardProviderSnapshot P) × W
      → Try (GuardProviderSnapshot P) × Option (GuardProviderSnapshot P) × W
  after_local input last (ok s, w) = (ok s, last, w)
  after_local input last (raised e, w) = with_reason (read_remote input last w)
    where
      with_reason :
          Try (GuardProviderSnapshot P) × Option (GuardProviderSnapshot P) × W
          → Try (GuardProviderSnapshot P) × Option (GuardProviderSnapshot P) × W
      with_reason (ok s, last', w') = (ok (marked remote ("local_unavailable:" ++ e) s), last', w')
      with_reason (raised e', last', w') = (raised e', last', w')

  fallback : String → Try (GuardProviderSnapshot P) × W → Try (GuardProviderSnapshot P) × W
  fallback e (ok s, w) = (ok (marked local_fallback ("remote_failed_using_local:" ++ e) s), w)
  fallback e (raised e', w) =
      (raised "Unable to resolve guard policy from remote or local provider", w)

  after_remote :
      I
      → Try (GuardProviderSnapshot P) × Option (GuardProviderSnapshot P) × W
      → Try (GuardProviderSnapshot P) × Option (GuardProviderSnapshot P) × W
  after_remote input (ok s, last, w) = (ok s, last, w)
  after_remote input (raised e, some s, w) =
      (ok (marked remote_cache ("remote_failed_using_cache:" ++ e) s), some s, w)
  after_remote input (raised e, none, w) =
      let (result, w') = fallback e (read_local input w) in (result, none, w')

  -- `CompositePolicyProvider.getPolicy`
  pub get_policy :
      I
      → Option (GuardProviderSnapshot P)
      → W
      → Try (GuardProviderSnapshot P) × Option (GuardProviderSnapshot P) × W
  get_policy input last w = elim config.precedence [
    | local_first ↦ after_local input last (read_local input w)
    | remote_first ↦ after_remote input (read_remote input last w)
  ]

-- `provider.local` with a policy or a path; `provider.remote`.
pub record GuardProviderConfig : Type 0 where
  pub precedence : Option GuardProviderPrecedence
  pub has_local : Bool
  pub has_local_policy : Bool
  pub has_remote : Bool

pub resolve_guard_mode : Option GuardMode → (has_remote has_local : Bool) → GuardMode
resolve_guard_mode (some mode) has_remote has_local = mode
resolve_guard_mode none has_remote has_local =
    if has_remote then if has_local then hybrid else dashboard else standalone

pub record Validated : Type 0 where
  pub precedence : GuardProviderPrecedence
  pub uses_local : Bool
  pub uses_remote : Bool

precedence_or : Option GuardProviderPrecedence → GuardProviderPrecedence
precedence_or none = remote_first
precedence_or (some p) = p

pub validate_provider_config : GuardMode → GuardProviderConfig → Try Validated
validate_provider_config standalone c =
    if c.has_local && c.has_local_policy
    then ok
        (record { precedence = precedence_or c.precedence; uses_local = true; uses_remote = false })
    else raised "standalone mode requires provider.local.policy or provider.local.policyPath"
validate_provider_config dashboard c =
    if c.has_remote
    then ok
        (record { precedence = precedence_or c.precedence; uses_local = false; uses_remote = true })
    else raised "dashboard mode requires provider.remote"
validate_provider_config hybrid c =
    if not c.has_remote
    then raised "hybrid mode requires provider.remote"
    else if c.has_local && c.has_local_policy
    then ok
        (record { precedence = precedence_or c.precedence; uses_local = true; uses_remote = true })
    else raised
        "hybrid mode requires provider.local.policy or provider.local.policyPath for fallback"

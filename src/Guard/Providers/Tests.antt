-- ===== src/Guard/Providers/Tests.antt =====
-- A composite provider whose remote one answers once and then fails, and the theorem at it.
use coreax.Prelude.{ℕ, zero, suc, String, true, none, some, [], ◌∷◌, ◌≡◌, refl, All}
use coreax.Governance.{ok, raised}
use coreax.Guard.Providers.{
  GuardProviderSnapshot, remote, remote_cache, GuardPolicyProvider, get_policy, after_remote,
  read_remote, kept, marked, hybrid, resolve_guard_mode,
}
use coreax.Guard.Providers.Remote.{IsRemote, IsOkRemote, answers, answers-IsOkRemote}

abbrev given : GuardProviderSnapshot String
given = record { policy = "p"; hash = "h"; source = remote; fallback_reason = none }

-- The world counts the calls.
abbrev once : GuardPolicyProvider String String ℕ
once input zero = (ok given, 1)
once input (suc n) = (raised "down", suc (suc n))

given-IsRemote : IsRemote once none given
given-IsRemote = ("", 0, given, refl, refl, refl)

answers-IsOkRemote_example :
    All (IsOkRemote once none) (answers once none ("a" ∷ "b" ∷ []) (some given) 1)
answers-IsOkRemote_example = answers-IsOkRemote once none ("a" ∷ "b" ∷ []) given 1 given-IsRemote

second_from_cache :
    answers once none ("a" ∷ "b" ∷ []) none 0
    ≡ ok given
      ∷ ok (record given {
        source = remote_cache;
        fallback_reason = some "remote_failed_using_cache:down";
      })
      ∷ []
unfolding get_policy after_remote read_remote kept marked
second_from_cache = refl

modes_resolve : resolve_guard_mode none true true ≡ hybrid
unfolding resolve_guard_mode
modes_resolve = refl

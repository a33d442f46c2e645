-- ===== src/Guard/Providers/Remote.antt =====
-- src/guard/providers.ts: a composite provider that prefers its remote one, from call to call.
use coreax.Prelude.{Option, some, List, [], ◌∷◌, ◌≡◌, refl, sym, ap, subst, All}
use coreax.Governance.{Try, ok, raised}
use coreax.Guard.Providers.{
  GuardProviderSnapshot, remote_first, GuardPolicyProvider, CompositeConfig, kept, read_remote,
  marked, after_remote, get_policy,
}

module _ {P I W : Type 0} (remote_provider : GuardPolicyProvider P I W)
    (local_provider : Option (GuardPolicyProvider P I W)) where
  abbrev pub remote_preferred : CompositeConfig P I W
  remote_preferred = record {
    precedence = remote_first;
    local_provider = local_provider;
    remote_provider = some remote_provider;
  }

  -- The policy and the digest of an answer that the remote provider gives.
  abbrev pub IsRemote : GuardProviderSnapshot P → Type 0
  IsRemote s =
      (input : I) × (w : W) × (t : GuardProviderSnapshot P) × ((remote_provider input w).0 ≡ ok t)
      × (s.policy ≡ t.policy)
      × (s.hash ≡ t.hash)

  abbrev pub IsOkRemote : Try (GuardProviderSnapshot P) → Type 0
  IsOkRemote r = (s : GuardProviderSnapshot P) × (r ≡ ok s) × IsRemote s

  -- The answers to inputs one after the other.
  abbrev pub answers :
      List I → Option (GuardProviderSnapshot P) → W → List (Try (GuardProviderSnapshot P))
  answers [] last w = []
  answers (input ∷ inputs) last w =
      let (r, last', w') = get_policy remote_preferred input last w in r ∷ answers inputs last' w'

  abbrev IsOkRemoteKept :
      Try (GuardProviderSnapshot P) × Option (GuardProviderSnapshot P) × W → Type 0
  IsOkRemoteKept (r, last, w) =
      IsOkRemote r × ((t : GuardProviderSnapshot P) × (last ≡ some t) × IsRemote t)

  after_remote-remote :
      (input : I) (w : W) (s : GuardProviderSnapshot P) (q : Try (GuardProviderSnapshot P) × W)
      → (remote_provider input w) ≡ q
      → IsRemote s
      → IsOkRemoteKept (after_remote remote_preferred input (kept remote_preferred (some s) q))
  unfolding after_remote kept marked
  after_remote-remote input w s (ok t, w') e i =
      let here : IsRemote t = (input, w, t, ap (λ x. x.0) e, refl, refl) in
      ((t, refl, here), (t, refl, here))
  after_remote-remote input w s (raised m, w') e (j, v, t, answered, p, h) =
      ((_, refl, (j, v, t, answered, p, h)), (s, refl, (j, v, t, answered, p, h)))

  get_policy-remote :
      (input : I) (w : W) (s : GuardProviderSnapshot P)
      → IsRemote s
      → IsOkRemoteKept (get_policy remote_preferred input (some s) w)
  unfolding get_policy read_remote
  get_policy-remote input w s i = after_remote-remote input w s (remote_provider input w) refl i

  answers-next :
      (inputs : List I) (q : Try (GuardProviderSnapshot P) × Option (GuardProviderSnapshot P) × W)
      → IsOkRemoteKept q
      → ((t : GuardProviderSnapshot P) (w : W)
          → IsRemote t
          → All IsOkRemote (answers inputs (some t) w))
      → All IsOkRemote (q.0 ∷ answers inputs q.1 q.2)
  answers-next inputs (r, last, w) (fine, (t, known, j)) later =
      (fine, subst (λ o. All IsOkRemote (answers inputs o w)) (sym known) (later t w j))

  -- Where the precedence is remote-first and the remote provider has answered once, every later call,
  -- whatever the providers do, is answered with a policy that the remote provider has given, never
  -- with an error or a policy of the local provider.
  pub answers-IsOkRemote :
      (inputs : List I) (s : GuardProviderSnapshot P) (w : W)
      → IsRemote s
      → All IsOkRemote (answers inputs (some s) w)
  answers-IsOkRemote [] s w i = tt
  answers-IsOkRemote (input ∷ inputs) s w i =
      answers-next inputs (get_policy remote_preferred input (some s) w)
        (get_policy-remote input w s i) (λ t w' j. answers-IsOkRemote inputs t w' j)

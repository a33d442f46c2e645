-- ===== src/Escalation/Waiter/Cases.antt =====
-- src/review-loop/waiter.ts: a round of the polling loop stops or goes on.
use coreax.Prelude.{◌≡◌, refl, ◌⊎◌, inl, inr}
use coreax.Escalation.Waiter.{Progress, Waited, Step, stop, again}

pub Step-cases :
    {W : Type 0} (t : Step W)
    → ((r : Waited) × (v : W) × (t ≡ stop r v)) ⊎ ((q : Progress) × (v : W) × (t ≡ again q v))
Step-cases (stop r v) = inl (r, v, refl)
Step-cases (again q v) = inr (q, v, refl)

-- ===== src/Escalation/Manager/Tests.antt =====
-- Calls of src/review-loop/manager.ts at given inputs.
use coreax.Prelude.{List, [], ◌∷◌, ◌≡◌, refl}
use coreax.Text.{trim}
use coreax.Escalation.Manager.{
  Event, call, settled, run, react, wait_for, settle, begin, finish, idle,
}
use coreax.Escalation.Manager.Shared.{IsShared, run-IsShared}

idle-IsShared : IsShared idle
idle-IsShared = record { same = refl; distinct = tt }

abbrev calls : List Event
calls = call "a" ∷ call " a" ∷ call "b" ∷ settled 0 ∷ call "a" ∷ []

shared : (run calls idle).in_flight ≡ ("a", 2) ∷ ("b", 1) ∷ []
unfolding run react wait_for settle begin finish trim
shared = refl

run-IsShared_example : IsShared (run calls idle)
run-IsShared_example = run-IsShared calls idle idle-IsShared

-- ===== src/Escalation/Manager.antt =====
-- src/review-loop/manager.ts: the waits in flight that `waitForResolution` shares, and `create`,
-- `get` and `resolve` with their checks, hooks and errors.
pub mod Shared
pub mod Calls
mod Tests
use coreax.Prelude.{
  ℕ, suc, ◌+◌, String, Bool, true, false, Option, none, some, List, [], ◌∷◌, ◌==◌, num_eq,
  if◌then◌else◌,
}
use coreax.Text.{trim}

-- `inFlightWaits` maps an id to a promise; a promise is named by a number, and `running` lists the
-- polling loops that have not settled.
pub record Waits : Type 0 where
  pub in_flight : List (String × ℕ)
  pub running : List (String × ℕ)
  pub next : ℕ

pub data Reply : Type 0 where
  id_required : Reply
  promise : ℕ → Reply

module _ {ℓ} {A : Type ℓ} where
  abbrev pub lookup : String → List (String × A) → Option A
  lookup id [] = none
  lookup id ((k, v) ∷ m) = if k == id then some v else lookup id m

  abbrev pub delete : String → List (String × A) → List (String × A)
  delete id [] = []
  delete id ((k, v) ∷ m) = if k == id then delete id m else (k, v) ∷ delete id m

begin : String → Option ℕ → Waits → Reply × Waits
begin id (some existing) s = (promise existing, s)
begin id none s = (
  promise s.next,
  record {
    in_flight = (id, s.next) ∷ s.in_flight;
    running = (id, s.next) ∷ s.running;
    next = s.next + 1;
  },
)

-- `waitForResolution`, up to the promise that it returns
pub wait_for : String → Waits → Reply × Waits
unfolding begin
wait_for raw s =
    let id = trim raw in if id == "" then (id_required, s) else begin id (lookup id s.in_flight) s

-- The id of a running loop, and the loops without it.
abbrev pub id_of : ℕ → List (String × ℕ) → Option String
id_of h [] = none
id_of h ((k, v) ∷ m) = if num_eq v h then some k else id_of h m

abbrev pub without : ℕ → List (String × ℕ) → List (String × ℕ)
without h [] = []
without h ((k, v) ∷ m) = if num_eq v h then without h m else (k, v) ∷ without h m

-- A loop returns or throws: its `finally` deletes its id from the map.
finish : ℕ → Option String → Waits → Waits
finish h none s = s
finish h (some id) s = record s { in_flight = delete id s.in_flight; running = without h s.running }

pub settle : ℕ → Waits → Waits
unfolding finish
settle h s = finish h (id_of h s.running) s

pub data Event : Type 0 where
  call : String → Event
  settled : ℕ → Event

pub react : Event → Waits → Waits
unfolding wait_for settle
react (call id) s = (wait_for id s).1
react (settled h) s = settle h s

pub run : List Event → Waits → Waits
unfolding react
run [] s = s
run (e ∷ es) s = run es (react e s)

abbrev pub idle : Waits
idle = record { in_flight = []; running = []; next = 0 }

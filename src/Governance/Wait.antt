-- ===== src/Governance/Wait.antt =====
-- src/governance/client.ts: `waitForHumanResolution`, which polls until its deadline. A world holds
-- the clock, in milliseconds, and the server.
mod Tests
use coreax.Prelude.{
  ℕ, zero, suc, ◌+◌, ◌≤◌, ◌<◌, String, Bool, true, false, Option, none, some, leb, get_or, ◌≡◌,
  refl, arith, Bool-cases, inl, inr, leb→lt, leb→le, if◌then◌else◌, is_some,
}
use coreax.Governance.{Try, ok, raised, HumanResolution}

pub record Poll (W P : Type 0) : Type 0 where
  pub now : W → ℕ
  pub get_human_resolution : String → W → Try (Option (HumanResolution P)) × W
  pub sleep : ℕ → W → W

pub record WaitOptions : Type 0 where
  pub timeout_ms : Option ℕ
  pub poll_interval_ms : Option ℕ

abbrev pub timeout_of : WaitOptions → ℕ
timeout_of o = get_or o.timeout_ms 30000

abbrev pub interval_of : WaitOptions → ℕ
interval_of o = get_or o.poll_interval_ms 1000

module _ {W P : Type 0} (poll : Poll W P) (id : String) (interval deadline : ℕ) where
  abbrev Answer : Type 0
  Answer = Try (Option (HumanResolution P)) × W

  -- A resolution or an error ends the wait; where there is none yet, the loop sleeps and goes on.
  pub polled : (W → Option Answer) → Answer → Option Answer
  polled next (raised e, w) = some (raised e, w)
  polled next (ok (some r), w) = some (ok (some r), w)
  polled next (ok none, w) = next (poll.sleep interval w)

  -- The loop on fuel; `none` where that runs out.
  pub poll_loop : ℕ → W → Option Answer
  poll_loop zero w = none
  poll_loop (suc fuel) w =
      let next = poll_loop fuel in
      if leb (poll.now w) deadline
      then polled next (poll.get_human_resolution id w)
      else some (ok none, w)

-- Each round but the last moves the clock, so that these are enough.
pub rounds : WaitOptions → ℕ
rounds o = timeout_of o + 2

pub wait_for_human_resolution :
    {W P : Type 0} (poll : Poll W P) (id : String) (o : WaitOptions) (w : W)
    → Option (Try (Option (HumanResolution P)) × W)
wait_for_human_resolution poll id o w =
    poll_loop poll id (interval_of o) (poll.now w + timeout_of o) (rounds o) w

module _ {W P : Type 0} (poll : Poll W P) where
  -- No resolution is reported only past the deadline, and a resolution or an error only where the
  -- server gave it.
  abbrev pub Justified :
      (id : String) (deadline : ℕ) → Try (Option (HumanResolution P)) × W → Type 0
  Justified id deadline (ok none, w) = deadline < poll.now w
  Justified id deadline (ok (some r), w) =
      (asked : W) × (poll.get_human_resolution id asked ≡ (ok (some r), w))
  Justified id deadline (raised e, w) =
      (asked : W) × (poll.get_human_resolution id asked ≡ (raised e, w))

module _ {W P : Type 0} (poll : Poll W P)
    (asks : (id : String) (w : W) → poll.now w ≤ poll.now (poll.get_human_resolution id w).1)
    (sleeps : (ms : ℕ) (w : W) → poll.now w + ms ≤ poll.now (poll.sleep ms w)) where
  polled-ends :
      (id : String) (interval deadline : ℕ)
      (next : W → Option (Try (Option (HumanResolution P)) × W)) (w : W)
      → 1 ≤ interval
      → ((w' : W)
          → poll.now w + 1 ≤ poll.now w'
          → (a : Try (Option (HumanResolution P)) × W) × (next w' ≡ some a)
            × Justified poll id deadline a)
      → (a : Try (Option (HumanResolution P)) × W) × (polled poll id interval deadline next
            (poll.get_human_resolution id w)
          ≡ some a)
        × Justified poll id deadline a
  unfolding polled
  polled-ends id interval deadline next w h ih = go (poll.get_human_resolution id w) refl
    where
      go :
          (a : Try (Option (HumanResolution P)) × W)
          → poll.get_human_resolution id w ≡ a
          → (b : Try (Option (HumanResolution P)) × W) × (polled poll id interval deadline next a
              ≡ some b)
            × Justified poll id deadline b
      go (raised e, w') p = ((raised e, w'), refl, (w, p))
      go (ok (some r), w') p = ((ok (some r), w'), refl, (w, p))
      go (ok none, w') p =
          let asked = asks id w in
          let later : poll.now w ≤ poll.now w' = rw p at asked in
          let slept = sleeps interval w' in ih (poll.sleep interval w') (omega arith)

  poll_loop-ends :
      (id : String) (interval deadline fuel : ℕ) (w : W)
      → 1 ≤ interval
      → 1 ≤ fuel
      → deadline + 2 ≤ fuel + poll.now w
      → (a : Try (Option (HumanResolution P)) × W) × (poll_loop poll id interval deadline fuel w
          ≡ some a)
        × Justified poll id deadline a
  unfolding poll_loop
  poll_loop-ends id interval deadline zero w h k l = absurd (omega arith)
  poll_loop-ends id interval deadline (suc fuel) w h k l =
      elim (Bool-cases (leb (poll.now w) deadline)) [
        | inl early ↦
            let time = leb→le _ _ early in
            rw early (
              polled-ends id interval deadline (poll_loop poll id interval deadline fuel) w h
                (λ w' later.
                  poll_loop-ends id interval deadline fuel w' h (omega arith) (omega arith)))
        | inr late ↦ rw late ((ok none, w), refl, leb→lt _ _ late)
      ]

  -- Where asking does not turn the clock back, a pause moves it by its length and the poll interval is
  -- not zero, the wait ends: with no resolution only past its deadline, else with what the server
  -- answered.
  pub wait_for_human_resolution-ends :
      (id : String) (o : WaitOptions) (w : W)
      → 1 ≤ interval_of o
      → (a : Try (Option (HumanResolution P)) × W) × (wait_for_human_resolution poll id o w
          ≡ some a)
        × Justified poll id (poll.now w + timeout_of o) a
  unfolding wait_for_human_resolution rounds
  wait_for_human_resolution-ends id o w h =
      poll_loop-ends id (interval_of o) (poll.now w + timeout_of o) (timeout_of o + 2) w h
        (omega arith) (omega arith)

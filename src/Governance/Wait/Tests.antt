-- ===== src/Governance/Wait/Tests.antt =====
-- Waits of src/governance/client.ts against a server that answers at a given moment.
use coreax.Prelude.{ℕ, ◌+◌, Option, none, some, leb, ◌≡◌, refl, arith, if◌then◌else◌}
use coreax.Governance.{Try, ok, approve, HumanResolution}
use coreax.Governance.Wait.{
  Poll, WaitOptions, rounds, polled, poll_loop, wait_for_human_resolution, Justified,
  wait_for_human_resolution-ends,
}

wait_computes : Unit {0}
unfolding wait_for_human_resolution rounds poll_loop polled
wait_computes = tt

abbrev approval : HumanResolution ℕ
approval = record { action = approve; edited_payload = none }

-- The world is the clock; from `at` on there is a resolution.
abbrev answering : ℕ → Poll ℕ ℕ
answering at = record {
  now = λ t. t;
  get_human_resolution = λ id t. (ok (if leb at t then some approval else none), t);
  sleep = λ ms t. t + ms;
}

abbrev short : WaitOptions
short = record { timeout_ms = some 3; poll_interval_ms = some 2 }

waits :
    (wait_for_human_resolution (answering 2) "s" short 0 ≡ some (ok (some approval), 2))
    × (wait_for_human_resolution (answering 9) "s" short 0 ≡ some (ok none, 4))
unfolding wait_computes
waits = (refl, refl)

wait_for_human_resolution-ends_example :
    (a : Try (Option (HumanResolution ℕ)) × ℕ) × (wait_for_human_resolution
        (answering 9)
        "s"
        short
        0
      ≡ some a)
    × Justified (answering 9) "s" 3 a
wait_for_human_resolution-ends_example =
    wait_for_human_resolution-ends (answering 9) (λ id t. omega arith) (λ ms t. omega arith) "s"
      short 0 (omega arith)

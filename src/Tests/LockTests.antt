-- ===== src/Tests/LockTests.antt =====
-- A lock of a compass against its specification.
use poseidon_circe.Prelude.{ℕ, List, [], ◌∷◌, Bool, false}
use poseidon_circe.Pilot.Lock.{Call, Connection, init, run}
use poseidon_circe.Pilot.Lock.Refinement.{Action, outcome, Spec, view, living, refines}

abbrev no_one : ℕ → Bool
no_one p = false

abbrev first : Connection
first = record { uuid = 1; ptr = 10 }

abbrev second : Connection
second = record { uuid = 2; ptr = 20 }

abbrev calls : List ((ℕ → Bool) × Call)
calls = (no_one, Call.locks_shared first) ∷ []

-- The first connection has a shared lock, the second asks for the exclusive lock.
refines_example :
    Spec
      (Action.locks_exclusive second)
      (living no_one (run init calls))
      (outcome no_one (run init calls) (Action.locks_exclusive second)).1
      (view (outcome no_one (run init calls) (Action.locks_exclusive second)).0)
refines_example = refines calls no_one (Action.locks_exclusive second)

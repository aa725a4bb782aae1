-- ===== src/Tests/BoxTests.antt =====
-- The box's theorems on a few sessions.
use poseidon_circe.Prelude.{◌≡◌, ◌≢◌, refl, List, [], ◌∷◌, ◌++◌, Bool, true, false, some, ◌==◌}
use poseidon_circe.Box.Supervisor.{
  UuidPair, SessionElement, find, collect_pairs, erase_alive, pair_eq, back, ping_timer_proc,
}
use poseidon_circe.Box.Supervisor.Pings.{
  contents, dead_pairs, doomed, ping-keeps-alive, ping-forgets-dead, ping-removes-last,
}
use poseidon_circe.Box.Session.{Event, sends, starts, responds, init, run, send, step}
use poseidon_circe.Box.Session.Delivery.{
  in_flight, is_at_work, delivery_in_order, no_message_stranded,
}

-- Three sessions, behind three gates; the first gate answers.
abbrev first : SessionElement
first = record { session = 1; client_uuid = 11; foyer_gate_uuid_pair = (1, 1) }

abbrev second : SessionElement
second = record { session = 2; client_uuid = 22; foyer_gate_uuid_pair = (1, 2) }

abbrev third : SessionElement
third = record { session = 3; client_uuid = 33; foyer_gate_uuid_pair = (1, 3) }

abbrev sessions : List SessionElement
sessions = first ∷ second ∷ third ∷ []

abbrev alive : UuidPair → Bool
alive (f, g) = g == 1

first_found : find 11 sessions ≡ some first
unfolding find
first_found = refl

second_found : find 22 sessions ≡ some second
unfolding find
second_found = refl

last_dead : doomed (dead_pairs alive sessions) ≡ some (1, 3)
unfolding collect_pairs erase_alive back pair_eq
last_dead = refl

second_apart : pair_eq (1, 2) (1, 3) ≡ false
unfolding pair_eq
second_apart = refl

ping-keeps-alive_example : find 11 (contents (ping_timer_proc alive (some sessions)).1) ≡ some first
ping-keeps-alive_example = ping-keeps-alive alive 11 sessions first first_found refl

ping-forgets-dead_example :
    find 22 (contents (ping_timer_proc alive (some sessions)).1) ≡ some second
ping-forgets-dead_example =
    ping-forgets-dead alive 22 sessions second (1, 3) second_found last_dead second_apart

ping-removes-last_example : pair_eq (1, 2) (1, 3) ≡ false
ping-removes-last_example =
    ping-removes-last alive 22 sessions second (1, 3) last_dead ping-forgets-dead_example

-- Two messages are sent, one before the job's first round and one while it waits.
abbrev events : List Event
events = sends (1, 65 ∷ []) ∷ starts true ∷ sends (1, 66 ∷ []) ∷ responds true true ∷ []

delivery_in_order_example :
    (run init events).accepted
    ≡ (run init events).delivered
      ++ (in_flight (run init events).job ++ (run init events).messages_pending)
delivery_in_order_example = delivery_in_order events

abbrev one_pending : List Event
one_pending = sends (1, 65 ∷ []) ∷ []

still_open : (run init one_pending).is_shutdown ≡ false
unfolding run step send init
still_open = refl

some_pending : (run init one_pending).messages_pending ≢ []
unfolding run step send init
some_pending e = cc

no_message_stranded_example : is_at_work (run init one_pending).job ≡ true
no_message_stranded_example = no_message_stranded one_pending still_open some_pending

-- ===== src/Tests/SessionTests.antt =====
-- Sessions of a gate's clients.
use poseidon_circe.Prelude.{ℕ, ◌≡◌, refl, List, [], ◌∷◌, ◌++◌, Bool, true, false, some, arith}
use poseidon_circe.Prelude.Int.{pos}
use poseidon_circe.Protocol.Common.{WebsocketFrame}
use poseidon_circe.Gate.WebsocketSession.{
  StatusCodes, WebsocketSession, new_websocket_session, notify_foyer_about_closure, Event, receives,
  starts, responds, shuts_down, run,
}
use poseidon_circe.Gate.WebsocketSession.Ordered.{IsOrdered, run-IsOrdered}
use poseidon_circe.Gate.WebsocketSession.Closure.{left, closure_reported}

abbrev no_one : ℕ → Bool
no_one p = false

abbrev status : StatusCodes
status = record {
  normal_closure = 1000;
  going_away = 1001;
  inacceptable = 1003;
  reserved_abnormal = 1006;
  internal_error = 1011;
}

abbrev frame : WebsocketFrame
frame = record { opcode = 1; payload = 2 ∷ [] }

-- two messages, the second while the job waits for the response to the first; the box fails
abbrev events : List Event
events =
    receives 10 frame
    ∷ starts no_one true
    ∷ receives 10 frame
    ∷ responds true 3 true
    ∷ responds true 3 false
    ∷ shuts_down 1000
    ∷ []

abbrev established : WebsocketSession
established = record (new_websocket_session 100) { weak_foyer_conn = some 3; box_uuid = some 8 }

run-IsOrdered_example : IsOrdered (run status established events)
run-IsOrdered_example = run-IsOrdered status 100 (some 3) (some 8) events

closure_reported_example :
    (notify_foyer_about_closure status no_one
      (λ p. true)
      (left status 1000 (65 ∷ []) established events)).notified
    ≡ established.notified
      ++ (3, record { box_uuid = 8; client_uuid = 100; status_code = pos 1000; reason = 65 ∷ [] })
        ∷ []
closure_reported_example =
    closure_reported status 1000 (65 ∷ []) established events no_one (λ p. true) 3 8 (omega arith)
      refl refl refl (tt, (tt, (tt, (tt, (tt, (tt, tt))))))

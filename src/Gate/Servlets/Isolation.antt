-- ===== src/Gate/Servlets/Isolation.antt =====
-- circe-gate/circe-gate/src/servlets.cpp: what each client gets of a broadcast.
use poseidon_circe.Prelude.{
  ℕ, ◌≡◌, ◌∙◌, refl, ap, subst, List, [], ◌∷◌, ◌++◌, Bool, false, if◌then◌else◌, if_cases, Option,
  none, some, ◌==◌, arith,
}
use poseidon_circe.Prelude.State.{Result, ok, throw, exception, proceed}
use poseidon_circe.Protocol.Common.{error_success, WebsocketFrame}
use poseidon_circe.Protocol.Gate
use poseidon_circe.FlatMap.Weak.{find_live}
use poseidon_circe.Gate.WebsocketSession.{StatusCodes, WebsocketSession, shutdown}
use poseidon_circe.Gate.ClientAcceptor.{
  Client, ClientHttpAcceptor, shutdown_socket, find_websocket_session, get_websocket_session,
  upgraded,
}
use poseidon_circe.Gate.Servlets.{
  Sending, taken, dropped, throws, GateServer, take_frame, shutdown_session, send_frame,
  send_frames, or_shut_down, send_to, broadcast, websocket_packed_broadcast_notification,
}

-- a session, and the frames that it has taken
abbrev pub Own : Type 0
Own = WebsocketSession × List WebsocketFrame

abbrev pub own : ℕ → GateServer → Own
own w s = (s.acceptor.sockets w, s.frames w)

abbrev pub is_session : ℕ → Option ℕ → Bool
is_session w none = false
is_session w (some v) = v == w

own-take_frame :
    (v : ℕ) (m : WebsocketFrame) (s : GateServer)
    → own v (take_frame v m s) ≡ (s.acceptor.sockets v, s.frames v ++ m ∷ [])
own-take_frame v m s = ground arith

own-take_frame_other :
    (w v : ℕ) (m : WebsocketFrame) (s : GateServer)
    → (v == w) ≡ false
    → own w (take_frame v m s) ≡ own w s
own-take_frame_other w v m s n = rw n refl

own-shutdown_session :
    (v status_code : ℕ) (s : GateServer)
    → own v (shutdown_session v status_code s)
      ≡ (shutdown status_code (s.acceptor.sockets v), s.frames v)
unfolding shutdown_session shutdown_socket
own-shutdown_session v status_code s = ground arith

own-shutdown_session_other :
    (w v status_code : ℕ) (s : GateServer)
    → (v == w) ≡ false
    → own w (shutdown_session v status_code s) ≡ own w s
unfolding shutdown_session shutdown_socket
own-shutdown_session_other w v status_code s n = rw n refl

-- what neither the sending nor the shutdown of a session changes
record Keeps (a a' : ClientHttpAcceptor) : Type 0 where
  entries : a'.weak_sessions ≡ a.weak_sessions
  upgrades : a'.clients ≡ a.clients

abbrev unchanged : (a : ClientHttpAcceptor) → Keeps a a
unchanged a = record { entries = refl; upgrades = refl }

module _ (status : StatusCodes) (acceptor_alive : Bool) (expired : ℕ → Bool)
    (send : ℕ → WebsocketSession → List WebsocketFrame → WebsocketFrame → Sending) where
  -- One session alone is sent messages: up to the first that throws, when it is shut down.
  unfoldable pub write : ℕ → List WebsocketFrame → Own → Own
  write w [] o = o
  write w (m ∷ ms) (session, frames) = elim (send w session frames m) [
    | taken ↦ write w ms (session, frames ++ m ∷ [])
    | dropped ↦ write w ms (session, frames)
    | throws ↦ (shutdown status.internal_error session, frames)
  ]

  -- That, once for each of the clients that has the session.
  unfoldable pub write_each : ℕ → ClientHttpAcceptor → List WebsocketFrame → List ℕ → Own → Own
  write_each w a messages [] o = o
  write_each w a messages (client_uuid ∷ clients) o = write_each w a messages clients (
      if is_session w (find_websocket_session acceptor_alive expired client_uuid a)
      then write w messages o
      else o)

  abbrev finished : ℕ → List WebsocketFrame → GateServer → GateServer
  finished v ms s =
      or_shut_down status acceptor_alive expired send v
        (send_frames status acceptor_alive expired send v ms s)

  -- the rest of the loop, from what `send` does with a frame
  abbrev resumed : ℕ → WebsocketFrame → List WebsocketFrame → GateServer → Sending → GateServer
  resumed v m ms s x = or_shut_down status acceptor_alive expired send v (
      proceed (λ (u : Unit {0}). send_frames status acceptor_alive expired send v ms)
        (elim x as (λ y. GateServer × Result (Unit {0})) [
          | taken ↦ (take_frame v m s, ok tt)
          | dropped ↦ (s, ok tt)
          | throws ↦ (s, throw exception)
        ]))

  own-resumed :
      (v : ℕ) (m : WebsocketFrame) (ms : List WebsocketFrame) (s : GateServer) (x : Sending)
      → ((t : GateServer) → own v (finished v ms t) ≡ write v ms (own v t))
      → own v (resumed v m ms s x) ≡ (elim x as (λ y. Own) [
        | taken ↦ write v ms (s.acceptor.sockets v, s.frames v ++ m ∷ [])
        | dropped ↦ write v ms (own v s)
        | throws ↦ (shutdown status.internal_error (s.acceptor.sockets v), s.frames v)
      ])
  unfolding or_shut_down
  own-resumed v m ms s taken h = h (take_frame v m s) ∙ ap (write v ms) (own-take_frame v m s)
  own-resumed v m ms s dropped h = h s
  own-resumed v m ms s throws h = own-shutdown_session v status.internal_error s

  own-finished :
      (v : ℕ) (ms : List WebsocketFrame) (s : GateServer)
      → own v (finished v ms s) ≡ write v ms (own v s)
  unfolding send_frames send_frame or_shut_down write
  own-finished v [] s = refl
  own-finished v (m ∷ ms) s =
      own-resumed v m ms s (send v (s.acceptor.sockets v) (s.frames v) m) (own-finished v ms)

  other-resumed :
      (w v : ℕ) (m : WebsocketFrame) (ms : List WebsocketFrame) (s : GateServer) (x : Sending)
      → (v == w) ≡ false
      → ((t : GateServer) → own w (finished v ms t) ≡ own w t)
      → own w (resumed v m ms s x) ≡ own w s
  unfolding or_shut_down
  other-resumed w v m ms s taken n h = h (take_frame v m s) ∙ own-take_frame_other w v m s n
  other-resumed w v m ms s dropped n h = h s
  other-resumed w v m ms s throws n h = own-shutdown_session_other w v status.internal_error s n

  other-finished :
      (w v : ℕ) (ms : List WebsocketFrame) (s : GateServer)
      → (v == w) ≡ false
      → own w (finished v ms s) ≡ own w s
  unfolding send_frames send_frame or_shut_down
  other-finished w v [] s n = refl
  other-finished w v (m ∷ ms) s n =
      other-resumed w v m ms s (send v (s.acceptor.sockets v) (s.frames v) m) n
        (λ t. other-finished w v ms t n)

  own-send_to :
      (w : ℕ) (o : Option ℕ) (messages : List WebsocketFrame) (s : GateServer)
      → own w (send_to status acceptor_alive expired send o messages s)
        ≡ (if is_session w o then write w messages (own w s) else own w s)
  unfolding send_to
  own-send_to w none messages s = refl
  own-send_to w (some v) messages s =
      if_cases (λ (r : Own). own w (finished v messages s) ≡ r) (v == w) _ _
        (λ e.
          let same : v ≡ w = ground (arith, e) in
          subst (λ k. own k (finished v messages s) ≡ write k messages (own k s)) same
            (own-finished v messages s))
        (λ e. other-finished w v messages s e)

  Keeps-resumed :
      (v : ℕ) (m : WebsocketFrame) (ms : List WebsocketFrame) (s : GateServer) (x : Sending)
      → ((t : GateServer) → Keeps t.acceptor (finished v ms t).acceptor)
      → Keeps s.acceptor (resumed v m ms s x).acceptor
  unfolding or_shut_down shutdown_session shutdown_socket
  Keeps-resumed v m ms s taken h = h (take_frame v m s)
  Keeps-resumed v m ms s dropped h = h s
  Keeps-resumed v m ms s throws h = record { entries = refl; upgrades = refl }

  Keeps-finished :
      (v : ℕ) (ms : List WebsocketFrame) (s : GateServer)
      → Keeps s.acceptor (finished v ms s).acceptor
  unfolding send_frames send_frame or_shut_down
  Keeps-finished v [] s = unchanged s.acceptor
  Keeps-finished v (m ∷ ms) s =
      Keeps-resumed v m ms s (send v (s.acceptor.sockets v) (s.frames v) m) (Keeps-finished v ms)

  Keeps-send_to :
      (o : Option ℕ) (messages : List WebsocketFrame) (s : GateServer)
      → Keeps s.acceptor (send_to status acceptor_alive expired send o messages s).acceptor
  unfolding send_to
  Keeps-send_to none messages s = unchanged s.acceptor
  Keeps-send_to (some v) messages s = Keeps-finished v messages s

  upgraded-Keeps :
      (o : Option ℕ) (a a' : ClientHttpAcceptor) → Keeps a a' → upgraded o a' ≡ upgraded o a
  unfolding upgraded
  upgraded-Keeps none a a' k = refl
  upgraded-Keeps (some p) a a' k =
      ap (λ (clients : ℕ → Client). (clients p).upgraded_session) k.upgrades

  find_websocket_session-Keeps :
      (client_uuid : ℕ) (a a' : ClientHttpAcceptor)
      → Keeps a a'
      → find_websocket_session acceptor_alive expired client_uuid a'
        ≡ find_websocket_session acceptor_alive expired client_uuid a
  unfolding find_websocket_session get_websocket_session upgraded
  find_websocket_session-Keeps client_uuid a a' k =
      ap (λ (o : Option ℕ). if acceptor_alive then o else none)
        (ap (λ (m : List (ℕ × ℕ)). upgraded (find_live expired client_uuid m) a') k.entries
          ∙ upgraded-Keeps (find_live expired client_uuid a.weak_sessions) a a' k)

  write_each-Keeps :
      (w : ℕ) (a a' : ClientHttpAcceptor) (messages : List WebsocketFrame) (clients : List ℕ)
      (o : Own)
      → Keeps a a'
      → write_each w a' messages clients o ≡ write_each w a messages clients o
  unfolding write_each
  write_each-Keeps w a a' messages [] o k = refl
  write_each-Keeps w a a' messages (client_uuid ∷ clients) o k =
      write_each-Keeps w a a' messages clients _ k
      ∙ ap
          (λ (f : Option ℕ).
            write_each w a messages clients (if is_session w f then write w messages o else o))
          (find_websocket_session-Keeps client_uuid a a' k)

  own-broadcast :
      (w : ℕ) (clients : List ℕ) (messages : List WebsocketFrame) (s : GateServer)
      → own w (broadcast status acceptor_alive expired send clients messages s)
        ≡ write_each w s.acceptor messages clients (own w s)
  unfolding broadcast write_each
  own-broadcast w [] messages s = refl
  own-broadcast w (client_uuid ∷ clients) messages s =
      let o = find_websocket_session acceptor_alive expired client_uuid s.acceptor in
      let s' = send_to status acceptor_alive expired send o messages s in
      own-broadcast w clients messages s'
      ∙ write_each-Keeps w s.acceptor s'.acceptor messages clients (own w s')
          (Keeps-send_to o messages s)
      ∙ ap (write_each w s.acceptor messages clients) (own-send_to w o messages s)

  -- A broadcast returns, and leaves each session, and the frames that it has taken, as if it alone
  -- had been sent the messages, once for each of the clients that has this session: whatever
  -- `send` does with the frames, for the sessions of the other clients too.
  pub broadcast_isolated :
      (w : ℕ) (req : Gate.WebsocketPackedBroadcastNotification) (s : GateServer)
      → let r = websocket_packed_broadcast_notification status acceptor_alive expired send req s in
        (r.1 ≡ ok error_success)
        × (own w r.0 ≡ write_each w s.acceptor req.messages req.clients (own w s))
  unfolding websocket_packed_broadcast_notification
  broadcast_isolated w req s = (refl, own-broadcast w req.clients req.messages s)

-- ===== src/Foyer/Broadcast/Delivery.antt =====
-- circe-foyer/circe-foyer/src/servlets.cpp: the broadcast against a plain description of it.
use poseidon_circe.Prelude.{
  ℕ, ◌≤◌, ◌≡◌, ◌∙◌, refl, ap, List, [], ◌∷◌, Bool, false, if◌then◌else◌, none, some, is_empty,
  arith,
}
use poseidon_circe.Prelude.State.{ok}
use poseidon_circe.Protocol.Common.{error_success, WebsocketFrame}
use poseidon_circe.Protocol.Foyer
use poseidon_circe.FlatMap.{find, count}
use poseidon_circe.FlatMap.Weak.{find_live}
use poseidon_circe.Interserver.Acceptor.{Acceptor, get_session}
use poseidon_circe.Interserver.Acceptor.Registered.{IsRegistered}
use poseidon_circe.Interserver.Acceptor.Lookup.{get_session_lem}
use poseidon_circe.Foyer.Servlets.{FoyerServer}
use poseidon_circe.Foyer.Broadcast.Groups.{asks, member, clients_in, none-Fits, collect-Collected}
use poseidon_circe.Foyer.Broadcast.{
  Group, collect, notify_gate, send_all, websocket_packed_broadcast_notification_to_gate,
}

-- What is to be sent: to each gate that is there one notification, with its clients and all of the
-- messages.
unfoldable pub deliver :
    (ℕ → Bool) → (ℕ → Bool) → List WebsocketFrame → List (ℕ × Group) → FoyerServer → FoyerServer
deliver expired accepts messages [] s = s
deliver expired accepts messages ((g, (none, clients)) ∷ m) s = deliver expired accepts messages m s
deliver expired accepts messages ((g, (some p, clients)) ∷ m) s =
    deliver expired accepts messages m
      (notify_gate expired accepts p (record { clients = clients; messages = messages }) s)

send_all-deliver :
    (expired accepts : ℕ → Bool) (ntfy_messages gate_messages messages : List WebsocketFrame)
    (m : List (ℕ × Group)) (s : FoyerServer)
    → (if is_empty ntfy_messages then gate_messages else ntfy_messages) ≡ messages
    → send_all expired accepts ntfy_messages gate_messages m s
      ≡ deliver expired accepts messages m s
unfolding send_all deliver
send_all-deliver expired accepts ntfy_messages gate_messages messages [] s e = refl
send_all-deliver expired accepts ntfy_messages gate_messages messages ((g, (none, clients)) ∷ m) s
      e =
    send_all-deliver expired accepts ntfy_messages gate_messages messages m s e
send_all-deliver expired accepts ntfy_messages gate_messages messages ((g, (some p, clients)) ∷ m) s
      e =
    rw e (
      send_all-deliver expired accepts [] messages messages m
        (notify_gate expired accepts p (record { clients = clients; messages = messages }) s) refl)

or_messages :
    (messages : List WebsocketFrame) → (if is_empty messages then [] else messages) ≡ messages
or_messages [] = refl
or_messages (m ∷ ms) = refl

delivered :
    (expired accepts : ℕ → Bool) (ntfy : Foyer.WebsocketPackedBroadcastNotificationToGate)
    (s : FoyerServer) (groups : List (ℕ × Group))
    → collect expired accepts s.foyer_acceptor ntfy.clients [] ≡ ok groups
    → websocket_packed_broadcast_notification_to_gate expired accepts ntfy s
      ≡ (deliver expired accepts ntfy.messages groups s, ok error_success)
unfolding websocket_packed_broadcast_notification_to_gate
delivered expired accepts ntfy s groups made = ground (
  arith,
  send_all-deliver expired accepts ntfy.messages [] ntfy.messages groups s
      (or_messages ntfy.messages),
)

-- The groups that a broadcast is delivered to: no gate twice, each with the connection that
-- get_session finds, and each gate that is there with exactly the clients asked for.
pub record AreGroups (expired : ℕ → Bool) (a : Acceptor) (clients : List (ℕ × ℕ))
    (groups : List (ℕ × Group)) : Type 0 where
  pub once : (g : ℕ) → count g groups ≤ 1
  pub conn :
      (g : ℕ) (group : Group) → find g groups ≡ some group → get_session expired g a ≡ ok group.0
  pub members :
      (g p c : ℕ)
      → get_session expired g a ≡ ok (some p)
      → member c (clients_in (find g groups)) ≡ asks g c clients

-- The broadcast does not throw, and is the delivery of all the messages to such groups.
pub broadcast_lem :
    (expired accepts : ℕ → Bool) (ntfy : Foyer.WebsocketPackedBroadcastNotificationToGate)
    (s : FoyerServer)
    → IsRegistered s.foyer_acceptor
    → (groups : List (ℕ × Group)) × AreGroups expired s.foyer_acceptor ntfy.clients groups
      × (websocket_packed_broadcast_notification_to_gate expired accepts ntfy s
          ≡ (deliver expired accepts ntfy.messages groups s, ok error_success))
broadcast_lem expired accepts ntfy s v =
    let session = λ (g : ℕ). find_live expired g s.foyer_acceptor.weak_sessions in
    let found = get_session_lem expired s.foyer_acceptor v in
    let r =
      collect-Collected expired accepts s.foyer_acceptor session found (λ g c. false) ntfy.clients
        [] (none-Fits session) in
    (
      r.groups,
      record {
        once = r.fits.once;
        conn = λ g group e. found g ∙ ap ok (r.fits.conn g group e);
        members = λ g p c e. ground (arith, found g, r.fits.members g c);
      },
      delivered expired accepts ntfy s r.groups r.made,
    )

-- ===== src/Foyer/Broadcast.antt =====
-- circe-foyer/circe-foyer/src/servlets.cpp: the handler that broadcasts messages to clients of many
-- gates.
--
-- `gate_servers` is a map from the UUID of a gate to its connection, if there is one, and the set
-- of the clients.
pub mod Groups
pub mod Delivery
use poseidon_circe.Prelude.{
  ℕ, List, [], ◌∷◌, ◌++◌, Bool, true, false, if◌then◌else◌, Option, none, some, ◌==◌, ltb, is_empty,
}
use poseidon_circe.Prelude.Int.{ℤ}
use poseidon_circe.Prelude.State.{M, Result, ok, throw}
use poseidon_circe.Protocol.Common.{error_success, WebsocketFrame}
use poseidon_circe.Protocol.Foyer
use poseidon_circe.Protocol.Gate
use poseidon_circe.FlatMap.{has, emplace}
use poseidon_circe.Interserver.Sessions.{Heap, store, shut_down}
use poseidon_circe.Interserver.Acceptor.{Acceptor, get_session}
use poseidon_circe.Foyer.Servlets.{FoyerServer, packed_broadcast, GateMessage}

abbrev pub Group : Type 0
Group = Option ℕ × List ℕ

-- `flat_set::insert`
unfoldable pub insert : ℕ → List ℕ → List ℕ
insert c [] = c ∷ []
insert c (d ∷ ds) =
    let rest = insert c ds in if d == c then d ∷ ds else if ltb d c then d ∷ rest else c ∷ d ∷ ds

-- the client goes into the set of its gate, if that is there
unfoldable pub add_client : ℕ → Group → Group
unfolding insert
add_client client_uuid (none, clients) = (none, clients)
add_client client_uuid (some p, clients) = (some p, insert client_uuid clients)

unfoldable pub change_at : ℕ → (Group → Group) → List (ℕ × Group) → List (ℕ × Group)
change_at k f [] = []
change_at k f ((j, g) ∷ m) =
    let rest = change_at k f m in if j == k then (j, f g) ∷ m else (j, g) ∷ rest

module _ (expired : ℕ → Bool) (accepts : ℕ → Bool) where
  -- The gate is looked up when its element is inserted.
  unfoldable pub require_gate : ℕ → Acceptor → List (ℕ × Group) → Result (List (ℕ × Group))
  require_gate gate_uuid a m =
      if has gate_uuid m then ok m else elim (get_session expired gate_uuid a) [
        | ok gate_conn ↦ ok (emplace gate_uuid (gate_conn, []) m)
        | throw e ↦ throw e
      ]

  unfoldable pub collect : Acceptor → List (ℕ × ℕ) → List (ℕ × Group) → Result (List (ℕ × Group))
  unfolding require_gate change_at add_client
  collect a [] m = ok m
  collect a ((gate_uuid, client_uuid) ∷ clients) m = elim (require_gate gate_uuid a m) [
    | ok m' ↦ collect a clients (change_at gate_uuid (add_client client_uuid) m')
    | throw e ↦ throw e
  ]

  -- `send_notification` in its `try` block
  unfoldable pub notify_gate :
      ℕ → Gate.WebsocketPackedBroadcastNotification → FoyerServer → FoyerServer
  notify_gate p gate_ntfy s =
      if accepts p
      then record s { to_gates = s.to_gates ++ (p, packed_broadcast gate_ntfy) ∷ [] }
      else record s {
        foyer_acceptor = record (s.foyer_acceptor) {
          sessions = store p (shut_down (s.foyer_acceptor.sessions p)) s.foyer_acceptor.sessions;
        };
      }

  -- The message body is moved out of the notification that has been received, the first time.
  unfoldable pub send_all :
      List WebsocketFrame → List WebsocketFrame → List (ℕ × Group) → FoyerServer → FoyerServer
  unfolding notify_gate
  send_all ntfy_messages gate_messages [] s = s
  send_all ntfy_messages gate_messages ((gate_uuid, (none, clients)) ∷ m) s =
      send_all ntfy_messages gate_messages m s
  send_all ntfy_messages gate_messages ((gate_uuid, (some p, clients)) ∷ m) s =
      let filled = if is_empty ntfy_messages then gate_messages else ntfy_messages in
      send_all [] filled m (notify_gate p (record { clients = clients; messages = filled }) s)

  unfoldable pub websocket_packed_broadcast_notification_to_gate :
      Foyer.WebsocketPackedBroadcastNotificationToGate → M FoyerServer ℤ
  unfolding collect send_all error_success
  websocket_packed_broadcast_notification_to_gate ntfy s =
      elim (collect s.foyer_acceptor ntfy.clients []) [
        | ok m ↦ (send_all ntfy.messages [] m s, ok error_success)
        | throw e ↦ (s, throw e)
      ]

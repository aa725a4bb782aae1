-- ===== src/Interserver/Connector.antt =====
-- circe-common/circe-common/src/interserver_connector.cpp: the clients of a connector by host, and
-- the timer that connects those hosts again that are not connected.
--
-- A host name is a number, and so is a UUID, which is not nil. The look-up of a host is a job of its own, during which the mutex is not
-- held: a `Lookup` says what else happened to the connector meanwhile, and whether there was an
-- address. `expired` says which clients have been destroyed. An address is a number from 1 on; a
-- `weak_ptr` that is null is 0, of which `expired` is true.
pub mod Reconnect
pub mod Blocked
use poseidon_circe.Prelude.{
  ℕ, zero, suc, List, [], ◌∷◌, ◌++◌, Bool, true, false, not, if◌then◌else◌, Option, none, some,
  is_some, is_empty, ◌==◌, ltb,
}
use poseidon_circe.Prelude.Bytes.{Bytes}
use poseidon_circe.Prelude.State.{
  M, Error, Result, ok, throw, exception, assertion, protocol, ◌>>=◌, ◌>>◌, return, fail, require,
}
use poseidon_circe.FlatMap.{has, emplace}
use poseidon_circe.FlatMap.Weak.{find_live, collect_live}
use poseidon_circe.Interserver.Promises.{init}
use poseidon_circe.Interserver.Sessions.{
  Session, get_connection_uuid, new_session, Heap, store, notify_safely, shut_down, for_each_live,
}

-- `m_timer` is set once the connector is active. `clients` is the heap; `killed` are the clients
-- that have been shut down by force, `pinged` the clients that a ping has been sent to.
pub record Connector : Type 0 where
  pub hosts : List ℕ
  pub is_active : Bool
  pub weak_clients : List (ℕ × ℕ)
  pub clients : Heap
  pub next_client : ℕ
  pub authenticated : ℕ → Bool
  pub killed : List ℕ
  pub pinged : List ℕ

unfoldable pub create : List ℕ → ℕ → Result Connector
create hosts port =
    if is_empty hosts
    then throw exception
    else if port == 0
    then throw exception
    else ok (record {
      hosts = hosts;
      is_active = false;
      weak_clients = [];
      clients = λ p. new_session;
      next_client = 1;
      authenticated = λ p. false;
      killed = [];
      pinged = [];
    })

unfoldable pub activate : M Connector (Unit {0})
activate c = if c.is_active then (c, throw exception) else (record c { is_active = true }, ok tt)

-- `m_weak_clients[host]`, which makes an entry with a null pointer where there is none
unfoldable pub touch : ℕ → List (ℕ × ℕ) → List (ℕ × ℕ)
touch host m = if has host m then m else emplace host 0 m

-- `m_weak_clients[host] = client`
unfoldable pub assign : ℕ → ℕ → List (ℕ × ℕ) → List (ℕ × ℕ)
assign host p [] = (host, p) ∷ []
assign host p ((k, q) ∷ m) =
    let rest = assign host p m in
    if k == host then (k, p) ∷ m else if ltb k host then (k, q) ∷ rest else (host, p) ∷ (k, q) ∷ m

-- What happens around a host: which clients have been destroyed when its client is looked for, and
-- when it is looked for again; what others do to the connector during the look-up, whether there is
-- an address, whether the socket of a new client can be made, and the random UUID of its hello.
pub record Lookup : Type 0 where
  pub expired : ℕ → Bool
  pub meanwhile : Connector → Connector
  pub resolved : Bool
  pub expired_then : ℕ → Bool
  pub connected : Bool
  pub connection_uuid : ℕ

-- `force_shutdown` of the old client
unfoldable pub kill : Option ℕ → Connector → Connector
kill none c = c
kill (some p) c = record c { killed = p ∷ c.killed }

-- the new client, which says hello and becomes the client of its host
unfoldable pub make_client : ℕ → ℕ → M Connector ℕ
unfolding assign
make_client host connection_uuid c = (
  record c {
    clients =
        store c.next_client (record { connection_uuid = some connection_uuid; connection = init })
          c.clients;
    next_client = suc c.next_client;
    weak_clients = assign host c.next_client c.weak_clients;
  },
  ok c.next_client,
)

-- from the look-up on, for a host that has no client
unfoldable pub reconnect : ℕ → Lookup → M Connector ℕ
unfolding kill make_client touch find_live
reconnect host look c =
    let waited = look.meanwhile c in
    let m = touch host waited.weak_clients in
    let back = record waited { weak_clients = m } in
    let cleaned = kill (find_live look.expired_then host m) back in
    if not look.resolved
    then (waited, throw exception)
    else if look.connected
    then make_client host look.connection_uuid cleaned
    else (cleaned, throw exception)

-- the client of a host, made if there is none
unfoldable pub client_or : ℕ → Lookup → Option ℕ → M Connector ℕ
unfolding reconnect
client_or host look none c = reconnect host look c
client_or host look (some p) c = (c, ok p)

unfoldable pub client_of : ℕ → Lookup → M Connector ℕ
unfolding client_or touch find_live
client_of host look c =
    let m = touch host c.weak_clients in
    client_or host look (find_live look.expired host m) (record c { weak_clients = m })

unfoldable pub ping : ℕ → M Connector (Unit {0})
ping p c =
    if c.authenticated p then (record c { pinged = c.pinged ++ p ∷ [] }, ok tt) else (c, ok tt)

-- the loop of `timer_proc`: an exception leaves it
unfoldable pub deal_with : (ℕ → Lookup) → ℕ → List ℕ → M Connector (Unit {0})
deal_with look i [] = return tt
deal_with look i (host ∷ hosts) = do
  p ← client_of host (look i)
  ping p
  deal_with look (suc i) hosts

unfoldable pub timer_proc : Bool → (ℕ → Lookup) → M Connector (Unit {0})
unfolding deal_with client_of ping
timer_proc connector_alive look c =
    if connector_alive then deal_with look 0 c.hosts c else (c, ok tt)

-- the body of the loop of `get_client`, for a client that is there still
unfoldable pub match_uuid : ℕ → ℕ → Result ℕ → Result (Option ℕ) → Result (Option ℕ)
match_uuid connection_uuid p (throw e) rest = throw e
match_uuid connection_uuid p (ok uuid) rest = if uuid == connection_uuid then ok (some p) else rest

module _ (expired : ℕ → Bool) where
  unfoldable pub search_clients : ℕ → List (ℕ × ℕ) → Heap → Result (Option ℕ)
  unfolding match_uuid get_connection_uuid
  search_clients connection_uuid [] clients = ok none
  search_clients connection_uuid ((k, p) ∷ m) clients =
      let rest = search_clients connection_uuid m clients in
      if expired p
      then rest
      else match_uuid connection_uuid p (get_connection_uuid (clients p)) rest

  unfoldable pub get_client : ℕ → Connector → Result (Option ℕ)
  unfolding search_clients
  get_client connection_uuid c = search_clients connection_uuid c.weak_clients c.clients

  unfoldable pub get_all_clients : List ℕ → Connector → List ℕ × ℕ
  unfolding collect_live
  get_all_clients clients_ret c = collect_live expired c.weak_clients clients_ret

  unfoldable pub safe_broadcast_notification : Bool → ℕ → Bytes → Connector → Connector × ℕ
  unfolding for_each_live notify_safely
  safe_broadcast_notification launched message_id payload c =
      let (clients, count_notified) =
        for_each_live expired (notify_safely launched message_id payload) c.weak_clients
          c.clients in
      (record c { clients = clients }, count_notified)

  -- Each entry is erased after its client has been shut down.
  unfoldable pub clear : Connector → Connector × ℕ
  unfolding for_each_live shut_down
  clear c =
      let (clients, count_shutdown) = for_each_live expired shut_down c.weak_clients c.clients in
      (record c { weak_clients = []; clients = clients }, count_shutdown)

-- ===== src/Gate/ClientAcceptor.antt =====
-- circe-gate/circe-gate/src/singletons/client_http_acceptor.cpp: the sessions of the clients by UUID.
--
-- `clients` is the heap of HTTP sessions and `sockets` that of the WebSocket sessions that they have
-- been upgraded to. `expired` says which HTTP sessions have been destroyed, and `acceptor_alive`
-- whether `g_weak_acceptor` is still there. Sockets belong to the framework.
use poseidon_circe.Prelude.{
  ℕ, suc, ◌+◌, List, [], ◌∷◌, ◌++◌, Bool, true, false, if◌then◌else◌, Option, none, some, ◌==◌,
}
use poseidon_circe.Prelude.State.{M, Result, ok, throw, assertion}
use poseidon_circe.FlatMap.Weak.{find_live, insert_live, collect_live}
use poseidon_circe.Gate.WebsocketSession.{WebsocketSession, new_websocket_session, shutdown}

pub record Client : Type 0 where
  pub upgraded_session : Option ℕ
  pub is_shutdown : Bool

abbrev pub new_client : Client
new_client = record { upgraded_session = none; is_shutdown = false }

pub record ClientHttpAcceptor : Type 0 where
  pub weak_sessions : List (ℕ × ℕ)
  pub clients : ℕ → Client
  pub next_client : ℕ
  pub sockets : ℕ → WebsocketSession

abbrev pub new_client_acceptor : ClientHttpAcceptor
new_client_acceptor = record {
  weak_sessions = [];
  clients = λ p. new_client;
  next_client = 0;
  sockets = λ w. new_websocket_session 0;
}

abbrev pub set_client : ℕ → Client → ClientHttpAcceptor → ClientHttpAcceptor
set_client p client a = record a { clients = λ q. if p == q then client else a.clients q }

abbrev pub set_socket : ℕ → WebsocketSession → ClientHttpAcceptor → ClientHttpAcceptor
set_socket w socket a = record a { sockets = λ v. if w == v then socket else a.sockets v }

-- `Client_websocket_session::shutdown` of the session at an address
unfoldable pub shutdown_socket : ℕ → ℕ → ClientHttpAcceptor → ClientHttpAcceptor
unfolding shutdown
shutdown_socket w status_code a = set_socket w (shutdown status_code (a.sockets w)) a

-- `Client_http_session::shutdown`
unfoldable pub shutdown_client : ℕ → ℕ → ClientHttpAcceptor → ClientHttpAcceptor
unfolding shutdown_socket
shutdown_client p status_code a = elim (a.clients p).upgraded_session [
  | some w ↦ shutdown_socket w status_code a
  | none ↦ set_client p (record (a.clients p) { is_shutdown = true }) a
]

-- `get_upgraded_session` of an HTTP session that was found
unfoldable pub upgraded : Option ℕ → ClientHttpAcceptor → Option ℕ
upgraded none a = none
upgraded (some p) a = (a.clients p).upgraded_session

module _ (expired : ℕ → Bool) where
  -- the state that an insertion has left, and the address of the new session
  unfoldable pub inserted :
      ℕ → List (ℕ × ℕ) × Result (Unit {0}) → ClientHttpAcceptor → ClientHttpAcceptor × Result ℕ
  inserted p (m, r) a = (record a { weak_sessions = m }, elim r [ ok u ↦ ok p | throw e ↦ throw e ])

  -- `on_client_connect`, with the random UUID of the session
  unfoldable pub on_client_connect : ℕ → M ClientHttpAcceptor ℕ
  unfolding inserted insert_live
  on_client_connect client_uuid a =
      let p = a.next_client in
      let made = record (set_client p new_client a) { next_client = suc p } in
      inserted p (insert_live expired assertion client_uuid p made.weak_sessions) made

  unfoldable pub get_session : ℕ → ClientHttpAcceptor → Option ℕ
  unfolding find_live
  get_session client_uuid a = find_live expired client_uuid a.weak_sessions

  unfoldable pub get_all_sessions : List ℕ → ClientHttpAcceptor → List ℕ × ℕ
  unfolding collect_live
  get_all_sessions http_sessions_ret a = collect_live expired a.weak_sessions http_sessions_ret

  unfoldable pub get_websocket_session : ℕ → ClientHttpAcceptor → Option ℕ
  unfolding upgraded find_live
  get_websocket_session client_uuid a = upgraded (find_live expired client_uuid a.weak_sessions) a

  unfoldable pub collect_sockets : List (ℕ × ℕ) → (ℕ → Client) → List ℕ → List ℕ × ℕ
  collect_sockets [] clients ret = (ret, 0)
  collect_sockets ((k, p) ∷ m) clients ret = elim (expired p) [
    | true ↦ collect_sockets m clients ret
    | false ↦ elim (clients p).upgraded_session [
      | none ↦ collect_sockets m clients ret
      | some w ↦ let (ret', n) = collect_sockets m clients (ret ++ w ∷ []) in (ret', n + 1)
    ]
  ]

  unfoldable pub get_all_websocket_sessions : List ℕ → ClientHttpAcceptor → List ℕ × ℕ
  unfolding collect_sockets
  get_all_websocket_sessions ws_sessions_ret a =
      collect_sockets a.weak_sessions a.clients ws_sessions_ret

  unfoldable pub shutdown_each : ℕ → List (ℕ × ℕ) → ClientHttpAcceptor → ClientHttpAcceptor × ℕ
  unfolding shutdown_client
  shutdown_each status_code [] a = (a, 0)
  shutdown_each status_code ((k, p) ∷ m) a = elim (expired p) [
    | true ↦ shutdown_each status_code m a
    | false ↦
        let (a', n) = shutdown_each status_code m (shutdown_client p status_code a) in (a', n + 1)
  ]

  -- The entries stay.
  unfoldable pub clear : ℕ → ClientHttpAcceptor → ClientHttpAcceptor × ℕ
  unfolding shutdown_each
  clear status_code a = shutdown_each status_code a.weak_sessions a

-- The static functions, which do nothing where the acceptor is not there.
module _ (acceptor_alive : Bool) (expired : ℕ → Bool) where
  unfoldable pub find_session : ℕ → ClientHttpAcceptor → Option ℕ
  unfolding get_session
  find_session client_uuid a = if acceptor_alive then get_session expired client_uuid a else none

  unfoldable pub find_all_sessions : List ℕ → ClientHttpAcceptor → List ℕ × ℕ
  unfolding get_all_sessions
  find_all_sessions sessions_ret a =
      if acceptor_alive then get_all_sessions expired sessions_ret a else (sessions_ret, 0)

  unfoldable pub find_websocket_session : ℕ → ClientHttpAcceptor → Option ℕ
  unfolding get_websocket_session
  find_websocket_session client_uuid a =
      if acceptor_alive then get_websocket_session expired client_uuid a else none

  unfoldable pub find_all_websocket_sessions : List ℕ → ClientHttpAcceptor → List ℕ × ℕ
  unfolding get_all_websocket_sessions
  find_all_websocket_sessions sessions_ret a =
      if acceptor_alive
      then get_all_websocket_sessions expired sessions_ret a
      else (sessions_ret, 0)

  unfoldable pub clear_all : ℕ → ClientHttpAcceptor → ClientHttpAcceptor × ℕ
  unfolding clear
  clear_all status_code a = if acceptor_alive then clear expired status_code a else (a, 0)

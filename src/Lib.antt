-- ===== src/Lib.antt =====
-- Circe is a framework of servers: a gate takes HTTP and WebSocket clients, an auth server admits
-- them, boxes run the user's code for them, a foyer forwards between boxes and gates, and a pilot
-- keeps small values, called compasses, that other servers read, exchange and lock. All of them talk
-- over the connections of circe-common. This library models the parts that keep state.
--
-- - Pilot (circe-pilot/circe-pilot/src, protocol/messages_pilot.hpp).
--   Lock: `Compass_lock`, the shared and exclusive locks of a compass, with the lazy deletion of
--   destroyed connections. Watchers: `Compass_watcher_map`. Compass: `Compass` and its row. Messages:
--   the requests, responses and constants. Disposition: `parse_lock_disposition`,
--   `commit_lock_disposition` and `get_compass_lock_state` of servlets.cpp. Exchange: the handlers of
--   `Compare_exchange_request` and `Exchange_request`, from the opened compass on. Servlets: all four
--   handlers with the repository. Repository: `Compass_repository`, its indices and its timer. Key:
--   `Compass_key`.
-- - Gate (circe-gate/circe-gate/src). BanList: `Ip_ban_list` (singletons/ip_ban_list.cpp).
--   HttpSession: `Client_http_session`, whose requests an auth server authenticates (HttpSession), and
--   which are forwarded to a foyer (Requests) and answered (Response). WebsocketSession:
--   `Client_websocket_session`, with the job that delivers its messages, its closure, and its
--   authentication (Login). Handshake: the upgrade of the one to the other. ClientAcceptor:
--   `Client_http_acceptor` (singletons/client_http_acceptor.cpp). Servlets: the handlers of
--   servlets.cpp.
-- - Foyer (circe-foyer/circe-foyer/src/servlets.cpp). Servlets: the handlers between boxes and gates.
--   Broadcast: `Websocket_packed_broadcast_notification_to_gate`.
-- - Box (circe-box/circe-box/src). Session: `Websocket_shadow_session` with the job that delivers its
--   messages. Supervisor: `Websocket_shadow_session_supervisor` and its timer. Servlets: the handlers
--   of servlets.cpp, over functions that a user replaces.
-- - Auth (circe-auth/circe-auth/src/servlets.cpp): both handlers, over functions that a user replaces.
-- - Interserver (circe-common/circe-common/src, interserver_connection.cpp unless another file is
--   named). Cipher: `Stream_cipher`.
--   Filter: `Message_filter`. Promises: requests, notifications and responses, and the promises of
--   those who wait. Jobs: `Request_message_job`, which performs a request, and control messages.
--   Hello: the two hello messages that authenticate a connection. Sessions: what
--   interserver_acceptor.cpp and interserver_connector.cpp do with a connection. Acceptor:
--   `Interserver_acceptor`. Connector: `Interserver_connector` and its timer.
--   Servlets: `Interserver_servlet_container` (interserver_servlet_container.cpp).
-- - Protocol (protocol): the messages of boxes, foyers, gates and auth servers, and the error codes.
-- - FlatMap: the maps of Boost as lists, in Weak those of `weak_ptr`. Prelude: numbers,
--   lists, bytes, and code that changes a state and may throw (`M`): what was done before a throw stays done. Poseidon: the arithmetic that the
--   Poseidon framework, a submodule, provides.
--
-- Objects that are shared are named by addresses: a connection, a compass, a promise. A `weak_ptr` is
-- an address, and which objects have been destroyed is asked of a function that each call is given.
-- What a mutex protects is one step. Where a job waits, the others' calls come in between: the
-- delivery jobs and the promises are state machines over sequences of events. What other servers answer
-- is an argument.
--
-- Loops are structural recursion on the list that is walked, or on the number of rounds; no fuel is
-- used. Numbers are natural numbers; where the code counts in `uint64_t` the wrap-around is written
-- out (the version of a compass, the serial of a request) or is the framework's checked arithmetic
-- (the counters of the ban list).
--
-- Parameters, with what is assumed of them: the arithmetic of the framework (`Poseidon.Arith64`, as
-- documented), SHA-256 (a digest has 32 bytes), AES (a block keeps its size), the streams of zlib (what
-- is deflated and flushed is inflated again), the generated code for message headers (what is written is
-- read again), what the gate uses of HTTP and WebSocket
-- (nothing is assumed), clocks and random UUIDs (arguments).
--
-- Not modelled: MySQL, sockets, the parsing of HTTP, configuration and logging, which belong to the
-- framework; the acceptors and connectors of each process, which are instances of the common
-- ones; the deflation of requests and responses in `deflate_and_send`; the texts of most errors.
pub mod Prelude
pub mod FlatMap
pub mod Poseidon
pub mod Pilot
pub mod Gate
pub mod Box
pub mod Interserver
pub mod Protocol
pub mod Foyer
pub mod Auth
pub mod Tests

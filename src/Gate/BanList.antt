-- ===== src/Gate/BanList.antt =====
-- circe-gate/circe-gate/src/singletons/ip_ban_list.hpp and ip_ban_list.cpp: how often each address
-- has sent a request or failed to log in, and until when it is banned.
--
-- The container has a unique index by address. It is `none` until the module is initialized. An
-- argument `key` is the outcome of `Ip_port(ip, 0)`: `none` where that throws. The clock and the
-- configuration's values are arguments, and the mutex makes each function one step.
pub mod Bans
pub mod Floods
use poseidon_circe.Prelude.{
  ℕ, ◌+◌, List, [], ◌∷◌, Bool, true, false, if◌then◌else◌, Option, none, some, ◌==◌, leb,
}
use poseidon_circe.Prelude.State.{M, Result, ok, throw, exception}
use poseidon_circe.Poseidon.{Arith64}

pub data CounterIndex : Type 0 where
  counter_http_request counter_websocket_request counter_auth_failure : CounterIndex

pub record Counters : Type 0 where
  pub http_request : ℕ
  pub websocket_request : ℕ
  pub auth_failure : ℕ

abbrev pub get_counter : CounterIndex → Counters → ℕ
get_counter counter_http_request c = c.http_request
get_counter counter_websocket_request c = c.websocket_request
get_counter counter_auth_failure c = c.auth_failure

abbrev pub set_counter : CounterIndex → ℕ → Counters → Counters
set_counter counter_http_request n c = record c { http_request = n }
set_counter counter_websocket_request n c = record c { websocket_request = n }
set_counter counter_auth_failure n c = record c { auth_failure = n }

pub record IpElement : Type 0 where
  pub ip_port : ℕ
  pub expiry_time : ℕ
  pub counters : Counters
  pub ban_expiry_time : ℕ

abbrev pub IpContainer : Type 0
IpContainer = Option (List IpElement)

-- `Ip_element elem = { key, expiry_time }`: the rest is 0.
unfoldable pub new_element : ℕ → ℕ → IpElement
new_element key expiry_time = record {
  ip_port = key;
  expiry_time = expiry_time;
  counters = record { http_request = 0; websocket_request = 0; auth_failure = 0 };
  ban_expiry_time = 0;
}

unfoldable pub find : ℕ → List IpElement → Option IpElement
find key [] = none
find key (e ∷ es) = if e.ip_port == key then some e else find key es

-- a change of the element that `find` points to
unfoldable pub put : IpElement → List IpElement → List IpElement
put x [] = []
put x (e ∷ es) = if e.ip_port == x.ip_port then x ∷ es else e ∷ put x es

unfoldable pub erase : ℕ → List IpElement → List IpElement
erase key [] = []
erase key (e ∷ es) = if e.ip_port == key then es else e ∷ erase key es

-- `erase<1>(begin<1>(), upper_bound<1>(now))`
unfoldable pub erase_expired : ℕ → List IpElement → List IpElement
erase_expired now [] = []
erase_expired now (e ∷ es) =
    let rest = erase_expired now es in if leb e.expiry_time now then rest else e ∷ rest

-- The element of an address, which is created if there is none, and the list with it.
unfoldable pub require : ℕ → ℕ → List IpElement → IpElement × List IpElement
require key expiry_time es = elim (find key es) [
  | none ↦ (new_element key expiry_time, new_element key expiry_time ∷ es)
  | some e ↦ (e, es)
]

module _ (lib : Arith64) where
  -- the increment and the check of `accumulate_and_check_ban`, on an element of the list
  unfoldable pub count_request :
      CounterIndex → ℕ → ℕ → ℕ → IpElement × List IpElement → List IpElement × Result (Unit {0})
  count_request i counter_value_max now duration (e, es) =
      elim (lib.checked_add (get_counter i e.counters) 1) [
        | none ↦ (es, throw exception)
        | some n ↦
            let counted = record e { counters = set_counter i n e.counters } in
            let expiry_time = lib.saturated_add now duration in
            let banned = record counted {
              expiry_time = expiry_time;
              ban_expiry_time = expiry_time;
            } in
            if leb counter_value_max n
            then (put banned es, throw exception)
            else (put counted es, ok tt)
      ]

  -- `now` is `get_fast_mono_clock()`, `duration` is `client_generic_auto_ip_ban_expiry_duration`.
  unfoldable pub accumulate :
      CounterIndex → ℕ → ℕ → ℕ → Option ℕ → List IpElement → List IpElement × Result (Unit {0})
  accumulate i counter_value_max now duration none es = (erase_expired now es, throw exception)
  accumulate i counter_value_max now duration (some key) es =
      count_request i counter_value_max now duration
        (require key (lib.saturated_add now 60000) (erase_expired now es))

  unfoldable pub accumulate_and_check_ban :
      CounterIndex → ℕ → ℕ → ℕ → Option ℕ → M IpContainer (Unit {0})
  accumulate_and_check_ban i counter_value_max now duration key none = (none, throw exception)
  accumulate_and_check_ban i counter_value_max now duration key (some es) =
      let (es', result) = accumulate i counter_value_max now duration key es in (some es', result)

  remaining : ℕ → Option IpElement → ℕ
  remaining now none = 0
  remaining now (some e) = lib.saturated_sub e.ban_expiry_time now

  -- Where the list is not initialized no client may log in.
  unfoldable pub get_ban_time_remaining : ℕ → Option ℕ → IpContainer → Result ℕ
  unfolding remaining
  get_ban_time_remaining now key none = ok 1000
  get_ban_time_remaining now none (some es) = throw exception
  get_ban_time_remaining now (some key) (some es) = ok (remaining now (find key es))

  -- an element banned until a time
  ban : ℕ → IpElement × List IpElement → List IpElement
  ban expiry_time (e, es) =
      put (record e { expiry_time = expiry_time; ban_expiry_time = expiry_time }) es

  unfoldable pub set_ban_time_remaining : ℕ → Option ℕ → ℕ → M IpContainer (Unit {0})
  unfolding ban
  set_ban_time_remaining now key time_remaining none = (none, throw exception)
  set_ban_time_remaining now none time_remaining (some es) = (some es, throw exception)
  set_ban_time_remaining now (some key) time_remaining (some es) =
      (some (ban (lib.saturated_add now time_remaining) (require key 0 es)), ok tt)

removed : ℕ → List IpElement → List IpElement × Bool
removed key es = elim (find key es) [ none ↦ (es, false) | some e ↦ (erase key es, true) ]

unfoldable pub remove_ban : Option ℕ → IpContainer → IpContainer × Bool
unfolding removed
remove_ban key none = (none, false)
remove_ban none (some es) = (some es, false)
remove_ban (some key) (some es) = let (es', done) = removed key es in (some es', done)

-- The three that clients call, with the configuration's value for the counter.
module _ (lib : Arith64) (now duration : ℕ) where
  unfoldable pub accumulate_http_request : ℕ → Option ℕ → M IpContainer (Unit {0})
  accumulate_http_request max = accumulate_and_check_ban lib counter_http_request max now duration

  unfoldable pub accumulate_websocket_request : ℕ → Option ℕ → M IpContainer (Unit {0})
  accumulate_websocket_request max =
      accumulate_and_check_ban lib counter_websocket_request max now duration

  unfoldable pub accumulate_auth_failure : ℕ → Option ℕ → M IpContainer (Unit {0})
  accumulate_auth_failure max = accumulate_and_check_ban lib counter_auth_failure max now duration

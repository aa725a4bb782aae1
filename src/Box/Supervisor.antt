-- ===== src/Box/Supervisor.antt =====
-- circe-box/circe-box/src/singletons/websocket_shadow_session_supervisor.cpp: the shadow sessions of
-- the WebSocket clients, by client and by the pair of foyer and gate server that leads to it.
--
-- A session is named by its address. The container has a unique index by client, and is `none`
-- until the module is initialized. The user's `handle_websocket_closure` is not modelled: its
-- exceptions are caught.
pub mod Pings
use poseidon_circe.Prelude.{
  ℕ, ◌+◌, List, [], ◌∷◌, ◌++◌, Bool, true, false, ◌&&◌, if◌then◌else◌, Option, none, some, ◌==◌,
  ltb, is_some, length,
}
use poseidon_circe.Prelude.State.{M, Result, ok, throw, exception}

-- `std::pair<Uuid, Uuid>`: a foyer and a gate
abbrev pub UuidPair : Type 0
UuidPair = ℕ × ℕ

pub record SessionElement : Type 0 where
  pub session : ℕ
  pub client_uuid : ℕ
  pub foyer_gate_uuid_pair : UuidPair

abbrev pub SessionContainer : Type 0
SessionContainer = Option (List SessionElement)

unfoldable pub pair_eq : UuidPair → UuidPair → Bool
pair_eq (f, g) (f', g') = f == f' && g == g'

pair_lt : UuidPair → UuidPair → Bool
pair_lt (f, g) (f', g') = if ltb f f' then true else f == f' && ltb g g'

unfoldable pub find : ℕ → List SessionElement → Option SessionElement
find k [] = none
find k (e ∷ es) = if e.client_uuid == k then some e else find k es

unfoldable pub erase : ℕ → List SessionElement → List SessionElement
erase k [] = []
erase k (e ∷ es) = if e.client_uuid == k then es else e ∷ erase k es

session_of : Option SessionElement → Option ℕ
session_of none = none
session_of (some e) = some e.session

unfoldable pub get_session : ℕ → SessionContainer → Option ℕ
unfolding session_of
get_session k none = none
get_session k (some es) = session_of (find k es)

collect_sessions : List SessionElement → List ℕ → List ℕ × ℕ
collect_sessions [] ret = (ret, 0)
collect_sessions (e ∷ es) ret =
    let (ret', n) = collect_sessions es (ret ++ e.session ∷ []) in (ret', n + 1)

unfoldable pub get_all_sessions : SessionContainer → List ℕ → List ℕ × ℕ
unfolding collect_sessions
get_all_sessions none ret = (ret, 0)
get_all_sessions (some es) ret = collect_sessions es ret

-- The insertion fails where the client has a session.
unfoldable pub attach_session : SessionElement → M SessionContainer (Unit {0})
attach_session e none = (none, throw exception)
attach_session e (some es) =
    if is_some (find e.client_uuid es)
    then (some es, throw exception)
    else (some (es ++ e ∷ []), ok tt)

unfoldable pub detach_session : ℕ → SessionContainer → SessionContainer × Option ℕ
unfolding session_of
detach_session k none = (none, none)
detach_session k (some es) = elim (find k es) [
  | none ↦ (some es, none)
  | some e ↦ (some (erase k es), some e.session)
]

-- The sessions that are shut down, and `count_shutdown`.
unfoldable pub clear : SessionContainer → SessionContainer × (List ℕ × ℕ)
unfolding collect_sessions
clear none = (none, ([], 0))
clear (some es) = (some [], collect_sessions es [])

-- the next pair of the second index, which is in the order of the pairs
insert_pair : UuidPair → List UuidPair → List UuidPair
insert_pair p [] = p ∷ []
insert_pair p (q ∷ qs) =
    let rest = insert_pair p qs in
    if pair_eq p q then q ∷ qs else if pair_lt p q then p ∷ q ∷ qs else q ∷ rest

-- the loop that collects the pairs, each once
unfoldable pub collect_pairs : List SessionElement → List UuidPair
unfolding insert_pair pair_lt
collect_pairs [] = []
collect_pairs (e ∷ es) = insert_pair e.foyer_gate_uuid_pair (collect_pairs es)

-- The pairs of the servers that do not answer `Check_gate_request` are left.
unfoldable pub erase_alive : (UuidPair → Bool) → List UuidPair → List UuidPair
erase_alive alive [] = []
erase_alive alive (p ∷ ps) = let rest = erase_alive alive ps in if alive p then rest else p ∷ rest

-- `foyer_gate_uuids_expired.back()`
unfoldable pub back : UuidPair → List UuidPair → UuidPair
back p [] = p
back p (q ∷ qs) = back q qs

-- `equal_range<1>(p)`: the elements of the pair, and the others
unfoldable pub detach_pair : UuidPair → List SessionElement → List ℕ × List SessionElement
detach_pair p [] = ([], [])
detach_pair p (e ∷ es) =
    let (detached, rest) = detach_pair p es in
    if pair_eq e.foyer_gate_uuid_pair p then (e.session ∷ detached, rest) else (detached, e ∷ rest)

-- The last loop, one round for each pair that is left. As in the source every round takes the
-- last pair, not the one that the loop has come to.
unfoldable pub remove_rounds :
    UuidPair → List UuidPair → List SessionElement → List ℕ × List SessionElement
remove_rounds last [] es = ([], es)
remove_rounds last (p ∷ ps) es =
    let (detached, rest) = detach_pair last es in
    let (more, rest') = remove_rounds last ps rest in (detached ++ more, rest')

remove_sessions : List UuidPair → List SessionElement → List ℕ × List SessionElement
remove_sessions [] es = ([], es)
remove_sessions (p ∷ ps) es = remove_rounds (back p ps) (p ∷ ps) es

-- The sessions that `mark_shutdown` is called on, and the container afterwards. No session comes or
-- goes while the gates are asked.
unfoldable pub ping_timer_proc : (UuidPair → Bool) → SessionContainer → List ℕ × SessionContainer
unfolding remove_sessions
ping_timer_proc alive none = ([], none)
ping_timer_proc alive (some es) =
    let (detached, rest) = remove_sessions (erase_alive alive (collect_pairs es)) es in
    (detached, some rest)

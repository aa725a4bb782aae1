-- ===== src/Pilot/Compass.antt =====
-- circe-pilot/circe-pilot/src/compass.hpp and compass.cpp: a compass, which is a value with a
-- version, the locks on it and its watchers.
--
-- A method is a state change on a `Site`: the compass and what has been sent while it ran. The
-- methods that only forward to the lock or to the watcher map are the calls of those. `Env` holds
-- what the code asks of its surroundings: which connections have been destroyed, over which of them
-- `send_notification` returns without an exception, and the clock. The synchronization of the
-- stored row with MySQL is not modelled.
use poseidon_circe.Prelude.{
  ℕ, ◌+◌, ◌%◌, ◌^◌, List, [], ◌∷◌, ◌++◌, Bool, if◌then◌else◌, Option, none, some,
}
use poseidon_circe.Prelude.Bytes.{Bytes}
use poseidon_circe.Prelude.State.{M, exception, ok, ◌>>=◌, ◌>>◌, require, return}
use poseidon_circe.Pilot.Messages.{ValueChangeNotification}
use poseidon_circe.Pilot.Lock.{CompassLock, is_locked_exclusive}
use poseidon_circe.Pilot.Lock
use poseidon_circe.Pilot.Watchers.{WatcherMap, get_watchers}

pub record Env : Type 0 where
  pub expired : ℕ → Bool
  pub accepts : ℕ → Bool
  pub utc_now : ℕ

-- `ORM_Compass`
pub record Dao : Type 0 where
  pub compass_key : Bytes
  pub last_access_time : ℕ
  pub value : Bytes
  pub version : ℕ

pub record Compass : Type 0 where
  pub compass_key : Bytes
  pub dao : Option Dao
  pub lock : CompassLock
  pub watcher_map : WatcherMap

-- A notification over the connection at an address, or its shutdown where that throws.
pub data Event : Type 0 where
  sends : ℕ → ValueChangeNotification → Event
  shuts_down : ℕ → Event

pub record Site : Type 0 where
  pub compass : Compass
  pub sent : List Event

-- `Compass::Compass(const Compass_key &)`
unfoldable pub create : Bytes → Compass
create key = record { compass_key = key; dao = none; lock = Lock.init; watcher_map = [] }

-- `Compass::Compass(const boost::shared_ptr<ORM_Compass> &)`, where the key of the row is valid
unfoldable pub open_row : Dao → Compass
open_row dao = record {
  compass_key = dao.compass_key;
  dao = some dao;
  lock = Lock.init;
  watcher_map = [];
}

access_time : Option Dao → ℕ
access_time none = 0
access_time (some d) = d.last_access_time

unfoldable pub get_last_access_time : Compass → ℕ
unfolding access_time
get_last_access_time c = access_time c.dao

touch : ℕ → Option Dao → Option Dao
touch utc_now none = none
touch utc_now (some d) = some (record d { last_access_time = utc_now })

-- The update of the repository's indices, which follows it, is in `Pilot.Repository`.
unfoldable pub update_last_access_time : Env → Compass → Compass
unfolding touch
update_last_access_time env c = record c { dao = touch env.utc_now c.dao }

dao_value : Option Dao → Bytes
dao_value none = []
dao_value (some d) = d.value

unfoldable pub get_value : Compass → Bytes
unfolding dao_value
get_value c = dao_value c.dao

dao_version : Option Dao → ℕ
dao_version none = 0
dao_version (some d) = d.version

unfoldable pub get_version : Compass → ℕ
unfolding dao_version
get_version c = dao_version c.dao

-- a call of one of the lock's methods
abbrev pub with_lock : {A : Type 0} → (CompassLock → CompassLock × A) → M Site A
with_lock f s =
    let (l, a) = f s.compass.lock in (record s { compass = record s.compass { lock = l } }, ok a)

-- the row that `set_value` writes to: a new one, `ORM_Compass(key, 0, std::string(), 0)`, if none
require_dao : Bytes → Option Dao → Dao
require_dao key none = record { compass_key = key; last_access_time = 0; value = []; version = 0 }
require_dao key (some d) = d

-- `m_dao->value = value_new; m_dao->version = m_dao->version + 1;`
unfoldable pub write : Bytes → Compass → Compass
unfolding require_dao
write value_new c =
    let d = require_dao c.compass_key c.dao in
    record c { dao = some (record d { value = value_new; version = (d.version + 1) % 2 ^ 64 }) }

-- the loop over the watchers
unfoldable pub notify : Env → Bytes → List (ℕ × ℕ) → List Event
notify env value_new [] = []
notify env value_new ((uuid, ptr) ∷ watchers) =
    (if env.accepts ptr
      then sends ptr (record { watcher_uuid = uuid; value_new = value_new })
      else shuts_down ptr)
    ∷ notify env value_new watchers

unfoldable pub set_value : Env → Bytes → M Site (Unit {0})
unfolding write
set_value env value_new = do
  locked ← with_lock (is_locked_exclusive env.expired)
  require locked exception
  λ s.
      let (watchers, _) = get_watchers env.expired s.compass.watcher_map [] in
      return tt (record {
        compass = write value_new s.compass;
        sent = s.sent ++ notify env value_new watchers;
      })

-- ===== src/Pilot/Lock.antt =====
-- circe-pilot/circe-pilot/src/compass_lock.hpp and compass_lock.cpp: the shared and exclusive
-- locks that connections hold on a compass.
--
-- A `weak_ptr` is the address of its connection; whether that connection has been destroyed is
-- asked of the environment, `expired`, at each call. A method returns the lock after the call
-- beside its result: the observers change it too, by lazy deletion.
pub mod Laws
pub mod Refinement
use poseidon_circe.Prelude.{
  ℕ, ◌≡◌, List, [], ◌∷◌, Bool, true, false, not, ◌&&◌, if◌then◌else◌, is_empty,
}
use poseidon_circe.FlatMap.{has, covers, emplace, erase, erase_if}

-- A `shared_ptr<Interserver_connection>` whose connection UUID has been set.
pub record Connection : Type 0 where
  pub ptr : ℕ
  pub uuid : ℕ

pub record CompassLock : Type 0 where
  pub readers : List (ℕ × ℕ)
  pub writers : List (ℕ × ℕ)

abbrev pub init : CompassLock
init = record { readers = []; writers = [] }

-- the guards of `try_lock_shared`, after the collection
unfoldable pub may_lock_shared : CompassLock → ℕ → Bool
may_lock_shared l uuid = if has uuid l.readers then true else covers uuid l.writers

-- the guards of `try_lock_exclusive`, after the collection
unfoldable pub may_lock_exclusive : CompassLock → ℕ → Bool
may_lock_exclusive l uuid =
    if has uuid l.writers
    then true
    else if not (covers uuid l.readers)
    then false
    else is_empty l.writers

-- The methods, as calls to one lock.
pub data Call : Type 0 where
  collects observes_shared observes_exclusive : Call
  observes_shared_by observes_exclusive_by : ℕ → Call
  locks_shared releases_shared locks_exclusive releases_exclusive : Connection → Call

module _ (expired : ℕ → Bool) where
  unfoldable pub collect_expired_connections : CompassLock → CompassLock
  collect_expired_connections l = record {
    readers = erase_if expired l.readers;
    writers = erase_if expired l.writers;
  }

  unfoldable pub is_locked_shared : CompassLock → CompassLock × Bool
  is_locked_shared l =
      let l' = collect_expired_connections l in
      (l', not (is_empty l'.readers) && is_empty l'.writers)

  unfoldable pub is_locked_shared_by : CompassLock → ℕ → CompassLock × Bool
  is_locked_shared_by l uuid = let l' = collect_expired_connections l in (l', has uuid l'.readers)

  unfoldable pub try_lock_shared : CompassLock → Connection → CompassLock × Bool
  try_lock_shared l c =
      let l' = collect_expired_connections l in
      if may_lock_shared l' c.uuid
      then (record l' { readers = emplace c.uuid c.ptr l'.readers }, true)
      else (l', false)

  unfoldable pub release_lock_shared : CompassLock → Connection → CompassLock × Bool
  release_lock_shared l c =
      let l' = collect_expired_connections l in
      if has c.uuid l'.readers
      then (record l' { readers = erase c.uuid l'.readers }, true)
      else (l', false)

  unfoldable pub is_locked_exclusive : CompassLock → CompassLock × Bool
  is_locked_exclusive l = let l' = collect_expired_connections l in (l', not (is_empty l'.writers))

  unfoldable pub is_locked_exclusive_by : CompassLock → ℕ → CompassLock × Bool
  is_locked_exclusive_by l uuid =
      let l' = collect_expired_connections l in (l', has uuid l'.writers)

  unfoldable pub try_lock_exclusive : CompassLock → Connection → CompassLock × Bool
  try_lock_exclusive l c =
      let l' = collect_expired_connections l in
      if may_lock_exclusive l' c.uuid
      then (record l' { writers = emplace c.uuid c.ptr l'.writers }, true)
      else (l', false)

  unfoldable pub release_lock_exclusive : CompassLock → Connection → CompassLock × Bool
  release_lock_exclusive l c =
      let l' = collect_expired_connections l in
      if has c.uuid l'.writers
      then (record l' { writers = erase c.uuid l'.writers }, true)
      else (l', false)

  unfoldable pub step : CompassLock → Call → CompassLock
  step l collects = collect_expired_connections l
  step l observes_shared = (is_locked_shared l).0
  step l observes_exclusive = (is_locked_exclusive l).0
  step l (observes_shared_by uuid) = (is_locked_shared_by l uuid).0
  step l (observes_exclusive_by uuid) = (is_locked_exclusive_by l uuid).0
  step l (locks_shared c) = (try_lock_shared l c).0
  step l (releases_shared c) = (release_lock_shared l c).0
  step l (locks_exclusive c) = (try_lock_exclusive l c).0
  step l (releases_exclusive c) = (release_lock_exclusive l c).0

-- Calls from all connections, each with the connections that have been destroyed by then.
unfoldable pub run : CompassLock → List ((ℕ → Bool) × Call) → CompassLock
unfolding step
run l [] = l
run l ((expired, call) ∷ calls) = run (step expired l call) calls

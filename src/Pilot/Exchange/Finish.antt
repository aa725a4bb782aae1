-- ===== src/Pilot/Exchange/Finish.antt =====
-- servlets.cpp and compass.cpp: the end of both handlers, from the lock that has been obtained.
use poseidon_circe.Prelude.{
  ℕ, suc, ◌+◌, ◌<◌, ◌≡◌, refl, Bool, true, false, [], ◌++◌, is_empty, arith, if◌then◌else◌,
}
use poseidon_circe.Prelude.Int.{ℤ, pos_part, neg_part}
use poseidon_circe.Prelude.Bytes.{Bytes}
use poseidon_circe.Prelude.State.{M, ok}
use poseidon_circe.FlatMap.{has, erase_if, has-count, has-is_empty}
use poseidon_circe.Pilot.Messages.{
  lock_free_for_acquisition, lock_shared_by_me, lock_shared_by_others, lock_exclusive_by_me,
  lock_exclusive_by_others,
}
use poseidon_circe.Pilot.Lock.{
  CompassLock, Connection, collect_expired_connections, is_locked_shared, is_locked_shared_by,
  is_locked_exclusive, is_locked_exclusive_by,
}
use poseidon_circe.Pilot.Watchers.{get_watchers_lem}
use poseidon_circe.Pilot.Compass.{Env, Site, write, notify, set_value, update_last_access_time}
use poseidon_circe.Pilot.Disposition.{get_compass_lock_state}
use poseidon_circe.Pilot.Disposition.Rules.{Holding, collect_idle, collect_collect}
use poseidon_circe.Pilot.Disposition.Commit.{commit-Ends}
use poseidon_circe.Pilot.Exchange.{update_if, conclude, finish}

-- The state of a lock for a connection, by the numbers of its locks.
abbrev pub state_of : ℕ → CompassLock → ℕ
state_of k l =
    if has k l.writers
    then lock_exclusive_by_me
    else if is_empty l.writers
    then (if has k l.readers
        then lock_shared_by_me
        else if is_empty l.readers
        then lock_free_for_acquisition
        else lock_shared_by_others)
    else lock_exclusive_by_others

get_compass_lock_state_lem :
    (expired : ℕ → Bool) (c : Connection) (l : CompassLock)
    → let l' = collect_expired_connections expired l in
      get_compass_lock_state expired c l ≡ (l', state_of c.uuid l')
unfolding get_compass_lock_state is_locked_shared is_locked_shared_by is_locked_exclusive
    is_locked_exclusive_by
get_compass_lock_state_lem expired c l =
    let l' = collect_expired_connections expired l in
    rw (collect_collect expired l, collect_collect expired l, collect_collect expired l)
      (ground arith)

module _ (env : Env) where
  -- The compass with the new value, and the live watchers told of it.
  abbrev pub written : Bytes → Site → Site
  written value_new s = record {
    compass = write value_new s.compass;
    sent = s.sent ++ notify env value_new (erase_if env.expired s.compass.watcher_map);
  }

  abbrev pub concluded : CompassLock → Site → Site
  concluded l s = record s { compass = update_last_access_time env (record s.compass { lock = l }) }

  pub set_value_lem :
      (c : Connection) (base : CompassLock) {r w : ℕ} (value_new : Bytes) (s : Site)
      → Holding env.expired c base r (suc w) s.compass.lock
      → set_value env value_new s ≡ (written value_new s, ok tt)
  unfolding set_value is_locked_exclusive
  set_value_lem c base value_new s h =
      let l = s.compass.lock in
      let taken : is_empty l.writers ≡ false =
        ground (arith, h.writes, has-count c.uuid l.writers, has-is_empty c.uuid l.writers) in
      rw (collect_idle env.expired c base l h, taken)
        (rw (get_watchers_lem env.expired s.compass.watcher_map []) refl)

  pub finish_refused :
      (c : Connection) (set : M Site (Unit {0})) (p : ℤ × ℤ) (s : Site)
      → let l = collect_expired_connections env.expired s.compass.lock in
        finish env c set (false, p) s ≡ (concluded l s, ok (false, state_of c.uuid l))
  unfolding finish update_if conclude
  finish_refused c set p s = rw (get_compass_lock_state_lem env.expired c s.compass.lock)

  -- The value is set and the locks are committed without an exception.
  pub finish_locked :
      (c : Connection) (base : CompassLock) (set : M Site (Unit {0})) (shared exclusive : ℤ)
      (r w : ℕ) (s s' : Site)
      → set s ≡ (s', ok tt)
      → env.expired c.ptr ≡ false
      → (0 < pos_part exclusive → 0 < w)
      → (0 < pos_part shared → 0 < r + w + neg_part exclusive)
      → Holding env.expired c base (r + neg_part shared) (w + neg_part exclusive) s'.compass.lock
      → (l : CompassLock) × (finish env c set (true, (shared, exclusive)) s
          ≡ (concluded l s', ok (true, state_of c.uuid l)))
        × Holding env.expired c base (r + pos_part shared) (w + pos_part exclusive) l
  unfolding finish update_if conclude
  finish_locked c base set shared exclusive r w s s' e live p q h =
      let (l, e', h') =
        commit-Ends env.expired c base shared exclusive r w s'.compass.lock live p q h in
      (
        l,
        rw (
          e,
          e',
          get_compass_lock_state_lem env.expired c l,
          collect_idle env.expired c base l h',
        ),
        h',
      )

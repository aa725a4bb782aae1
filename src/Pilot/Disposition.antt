-- ===== src/Pilot/Disposition.antt =====
-- circe-pilot/circe-pilot/src/servlets.cpp: what a request says about the locks that its connection
-- is to hold afterwards, `parse_lock_disposition`, and the loops that bring that about,
-- `commit_lock_disposition`. `expired` says which connections have been destroyed.
pub mod Rules
pub mod Commit
use poseidon_circe.Prelude.{
  ℕ, zero, suc, Bool, true, false, if◌then◌else◌, ◌==◌, Option, none, some,
}
use poseidon_circe.Prelude.Int.{ℤ, pos, negsuc, pos_part, neg_part, is_negative}
use poseidon_circe.Prelude.State.{M, assertion, exception, ◌>>=◌, ◌>>◌, call, require, return, fail}
use poseidon_circe.Pilot.Messages.{
  lock_leave_alone, lock_try_acquire_shared, lock_try_acquire_exclusive, lock_release_shared,
  lock_release_exclusive, lock_free_for_acquisition, lock_shared_by_me, lock_shared_by_others,
  lock_exclusive_by_me, lock_exclusive_by_others,
}
use poseidon_circe.Pilot.Lock.{
  CompassLock, Connection, is_locked_shared, is_locked_shared_by, try_lock_shared,
  release_lock_shared, is_locked_exclusive, is_locked_exclusive_by, try_lock_exclusive,
  release_lock_exclusive,
}

-- the `switch`: how many times to lock (or, below 0, to release) in the end, shared and exclusive
unfoldable pub dispositions : ℕ → Option (ℤ × ℤ)
dispositions d =
    if d == lock_leave_alone
    then some (pos 0, pos 0)
    else if d == lock_try_acquire_shared
    then some (pos 1, pos 0)
    else if d == lock_try_acquire_exclusive
    then some (pos 0, pos 1)
    else if d == lock_release_shared
    then some (negsuc 0, pos 0)
    else if d == lock_release_exclusive
    then some (pos 0, negsuc 0)
    else none

module _ (expired : ℕ → Bool) (connection : Connection) where
  -- the two checks that what is to be released is held
  unfoldable pub check_releases : ℤ × ℤ → M CompassLock (ℤ × ℤ)
  check_releases (shared, exclusive) = do
    if is_negative shared
        then (do
          held ← call (λ l. is_locked_shared_by expired l connection.uuid)
          require held assertion)
        else return tt
    if is_negative exclusive
        then (do
          held ← call (λ l. is_locked_exclusive_by expired l connection.uuid)
          require held assertion)
        else return tt
    return (shared, exclusive)

  unfoldable pub parse_lock_disposition : ℕ → M CompassLock (ℤ × ℤ)
  unfolding dispositions check_releases
  parse_lock_disposition d = elim (dispositions d) [
    | none ↦ fail exception
    | some p ↦ check_releases p
  ]

  -- the four loops of `commit_lock_disposition`, by the rounds left
  unfoldable pub lock_exclusive_times : ℕ → M CompassLock (Unit {0})
  lock_exclusive_times zero = return tt
  lock_exclusive_times (suc n) = do
    done ← call (λ l. try_lock_exclusive expired l connection)
    require done assertion
    lock_exclusive_times n

  unfoldable pub lock_shared_times : ℕ → M CompassLock (Unit {0})
  lock_shared_times zero = return tt
  lock_shared_times (suc n) = do
    done ← call (λ l. try_lock_shared expired l connection)
    require done assertion
    lock_shared_times n

  unfoldable pub release_exclusive_times : ℕ → M CompassLock (Unit {0})
  release_exclusive_times zero = return tt
  release_exclusive_times (suc n) = do
    done ← call (λ l. release_lock_exclusive expired l connection)
    require done assertion
    release_exclusive_times n

  unfoldable pub release_shared_times : ℕ → M CompassLock (Unit {0})
  release_shared_times zero = return tt
  release_shared_times (suc n) = do
    done ← call (λ l. release_lock_shared expired l connection)
    require done assertion
    release_shared_times n

  unfoldable pub commit_lock_disposition : ℤ → ℤ → M CompassLock (Unit {0})
  commit_lock_disposition shared exclusive = do
    lock_exclusive_times (pos_part exclusive)
    lock_shared_times (pos_part shared)
    release_exclusive_times (neg_part exclusive)
    release_shared_times (neg_part shared)

  unfoldable pub get_compass_lock_state : CompassLock → CompassLock × ℕ
  get_compass_lock_state l =
      let (l₁, exclusive_by_me) = is_locked_exclusive_by expired l connection.uuid in
      let (l₂, exclusive) = is_locked_exclusive expired l₁ in
      let (l₃, shared_by_me) = is_locked_shared_by expired l₂ connection.uuid in
      let (l₄, shared) = is_locked_shared expired l₃ in
      if exclusive_by_me
      then (l₁, lock_exclusive_by_me)
      else if exclusive
      then (l₂, lock_exclusive_by_others)
      else if shared_by_me
      then (l₃, lock_shared_by_me)
      else if shared
      then (l₄, lock_shared_by_others)
      else (l₄, lock_free_for_acquisition)

-- ===== src/Pilot/Messages.antt =====
-- protocol/messages_pilot.hpp: the constants of the locks, and the messages between a client of the
-- pilot server and the server, as records. A `FIELD_STRING` is its bytes, a UUID a number.
use poseidon_circe.Prelude.{ℕ, List, Bool}
use poseidon_circe.Prelude.Bytes.{Bytes}

-- the constants for `lock_disposition`
abbrev pub lock_leave_alone : ℕ
lock_leave_alone = 0

abbrev pub lock_try_acquire_shared : ℕ
lock_try_acquire_shared = 11

abbrev pub lock_try_acquire_exclusive : ℕ
lock_try_acquire_exclusive = 12

abbrev pub lock_release_shared : ℕ
lock_release_shared = 21

abbrev pub lock_release_exclusive : ℕ
lock_release_exclusive = 22

-- the constants for `lock_state`
abbrev pub lock_free_for_acquisition : ℕ
lock_free_for_acquisition = 0

abbrev pub lock_shared_by_me : ℕ
lock_shared_by_me = 30

abbrev pub lock_shared_by_others : ℕ
lock_shared_by_others = 31

abbrev pub lock_exclusive_by_me : ℕ
lock_exclusive_by_me = 40

abbrev pub lock_exclusive_by_others : ℕ
lock_exclusive_by_others = 41

pub record Criterion : Type 0 where
  pub value_cmp : Bytes
  pub value_new : Bytes

pub record CompareExchangeRequest : Type 0 where
  pub key : Bytes
  pub criteria : List Criterion
  pub lock_disposition : ℕ

pub record CompareExchangeResponse : Type 0 where
  pub value_old : Bytes
  pub version_old : ℕ
  pub succeeded : Bool
  pub criterion_index : ℕ
  pub lock_state : ℕ

pub record ExchangeRequest : Type 0 where
  pub key : Bytes
  pub value_new : Bytes
  pub lock_disposition : ℕ

pub record ExchangeResponse : Type 0 where
  pub value_old : Bytes
  pub version_old : ℕ
  pub succeeded : Bool
  pub lock_state : ℕ

pub record AddWatchRequest : Type 0 where
  pub key : Bytes

pub record AddWatchResponse : Type 0 where
  pub watcher_uuid : ℕ

pub record RemoveWatchNotification : Type 0 where
  pub key : Bytes
  pub watcher_uuid : ℕ

pub record ValueChangeNotification : Type 0 where
  pub watcher_uuid : ℕ
  pub value_new : Bytes

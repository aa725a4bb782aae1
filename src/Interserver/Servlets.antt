-- ===== src/Interserver/Servlets.antt =====
-- circe-common/circe-common/src/interserver_servlet_container.cpp: the servlets by message ID.
--
-- A servlet is named by its address, which is `none` for a null pointer; `expired` says which
-- servlets have been destroyed.
pub mod Registry
use poseidon_circe.Prelude.{ℕ, List, Bool, true, false, not, if◌then◌else◌, Option, none, some}
use poseidon_circe.Prelude.State.{M, ok, throw, exception}
use poseidon_circe.FlatMap.{has, emplace, erase, erase_if}
use poseidon_circe.FlatMap.Weak.{find_live}
use poseidon_circe.Interserver.Promises.{is_message_id_valid}

abbrev pub ServletContainer : Type 0
ServletContainer = List (ℕ × ℕ)

module _ (expired : ℕ → Bool) where
  unfoldable pub get_servlet : ℕ → ServletContainer → Option ℕ
  unfolding find_live
  get_servlet message_id m = find_live expired message_id m

  -- Expired servlets are erased first, also where the ID turns out to be taken.
  unfoldable pub insert_servlet : ℕ → Option ℕ → M ServletContainer (Unit {0})
  insert_servlet message_id none m = (m, throw exception)
  insert_servlet message_id (some servlet) m =
      let m' = erase_if expired m in
      if not (is_message_id_valid message_id)
      then (m, throw exception)
      else if has message_id m'
      then (m', throw exception)
      else (emplace message_id servlet m', ok tt)

unfoldable pub remove_servlet : ℕ → ServletContainer → ServletContainer × Bool
remove_servlet message_id m = (erase message_id m, has message_id m)

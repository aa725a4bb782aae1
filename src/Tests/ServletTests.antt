-- ===== src/Tests/ServletTests.antt =====
-- The theorem on the servlet container, with one servlet registered.
use poseidon_circe.Prelude.{
  ℕ, ◌≡◌, ◌≤◌, refl, [], ◌∷◌, Bool, false, some, if◌then◌else◌, ◌==◌, arith,
}
use poseidon_circe.Prelude.State.{ok}
use poseidon_circe.FlatMap.{has, count, emplace, erase_if}
use poseidon_circe.Interserver.Promises.{is_message_id_valid}
use poseidon_circe.Interserver.Servlets.{ServletContainer, get_servlet, insert_servlet}
use poseidon_circe.Interserver.Servlets.Registry.{get_servlet-insert_servlet}

abbrev none_expired : ℕ → Bool
none_expired servlet = false

abbrev registered : ServletContainer
registered = (5, 1) ∷ []

abbrev both : ServletContainer
both = (5, 1) ∷ (9, 2) ∷ []

one_each : (j : ℕ) → count j registered ≤ 1
unfolding count
one_each j = ground arith

inserted : insert_servlet none_expired 9 (some 2) registered ≡ (both, ok tt)
unfolding insert_servlet is_message_id_valid has emplace erase_if
inserted = refl

get_servlet-insert_servlet_example :
    get_servlet none_expired 5 both
    ≡ (if 9 == 5 then some 2 else get_servlet none_expired 5 registered)
get_servlet-insert_servlet_example =
    get_servlet-insert_servlet none_expired 9 2 5 registered both one_each refl inserted

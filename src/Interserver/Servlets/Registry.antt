-- ===== src/Interserver/Servlets/Registry.antt =====
-- interserver_servlet_container.cpp: what `get_servlet` finds after an insertion.
use poseidon_circe.Prelude.{
  ℕ, ◌≤◌, ◌≡◌, Bool, false, if◌then◌else◌, some, ◌==◌, arith, Bool-cases, inl, inr,
}
use poseidon_circe.Prelude.State.{ok}
use poseidon_circe.FlatMap.{has, count, emplace, erase_if}
use poseidon_circe.FlatMap.Weak.{find_live-emplace}
use poseidon_circe.Interserver.Promises.{is_message_id_valid}
use poseidon_circe.Interserver.Servlets.{ServletContainer, get_servlet, insert_servlet}

-- An insertion that succeeds, of a servlet that is there still: it is what is found under its ID
-- afterwards, and under every other ID is found what was found before.
pub get_servlet-insert_servlet :
    (expired : ℕ → Bool) (message_id servlet k : ℕ) (m m' : ServletContainer)
    → ((j : ℕ) → count j m ≤ 1)
    → expired servlet ≡ false
    → insert_servlet expired message_id (some servlet) m ≡ (m', ok tt)
    → get_servlet expired k m' ≡ (if message_id == k then some servlet else get_servlet expired k m)
unfolding insert_servlet get_servlet
get_servlet-insert_servlet expired message_id servlet k m m' u x e =
    elim (Bool-cases (is_message_id_valid message_id)) [
      | inl v ↦ elim (Bool-cases (has message_id (erase_if expired m))) [
        | inl h ↦ ground arith
        | inr h ↦
            let same : emplace message_id servlet (erase_if expired m) ≡ m' = ground arith in
            rw (← same) (find_live-emplace expired message_id k servlet m (u k) x h)
      ]
      | inr v ↦ ground arith
    ]

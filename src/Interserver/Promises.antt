-- ===== src/Interserver/Promises.antt =====
-- circe-common/circe-common/src/interserver_connection.hpp, interserver_connection.cpp and
-- interserver_response.hpp: requests, notifications and responses over a connection, and the
-- promises of those who wait for a response.
--
-- A promise is an object that the caller of `send_request` holds; the connection has a `weak_ptr`
-- to it, its address, and `alive` says which are held still. Payloads are modelled from
-- `deflate_and_send` and to `inflate_and_dispatch`: `Interserver.Filter` is what happens to them in
-- between. How the message generator of the Poseidon framework writes and reads headers is a
-- parameter. The texts of errors are left out.
pub mod Tracks
pub mod Settled
use poseidon_circe.Prelude.{
  ℕ, zero, suc, ◌+◌, ◌-◌, ◌*◌, ◌/◌, ◌%◌, ◌^◌, List, [], ◌∷◌, ◌++◌, Bool, true, false, not, ◌&&◌,
  if◌then◌else◌, Option, none, some, ◌==◌, leb,
}
use poseidon_circe.Prelude.Int.{ℤ, pos, negsuc, is_negative}
use poseidon_circe.Prelude.Bytes.{Bytes}
use poseidon_circe.Prelude.State.{M, Error, Result, ok, throw, exception, assertion, protocol}
use poseidon_circe.FlatMap.{find, emplace, erase}

-- `Interserver_response`
pub record Response : Type 0 where
  pub err_code : ℤ
  pub message_id : ℕ
  pub payload : Bytes

pub data Promised : Type 0 where
  pending lost : Promised
  satisfied : Response → Promised

-- `Request_message_job`
pub record Job : Type 0 where
  pub message_id : ℕ
  pub send_response : Bool
  pub serial : ℕ
  pub payload : Bytes

-- `promises` is the heap of the promises. `sent` is what has been given to `deflate_and_send`: a
-- magic number and a payload. `jobs` are the requests received.
pub record InterserverConnection : Type 0 where
  pub is_shutdown : Bool
  pub next_serial : ℕ
  pub weak_promises : List (ℕ × ℕ)
  pub promises : ℕ → Promised
  pub next_promise : ℕ
  pub sent : List (ℕ × Bytes)
  pub jobs : List Job

abbrev pub init : InterserverConnection
init = record {
  is_shutdown = false;
  next_serial = 0;
  weak_promises = [];
  promises = λ p. pending;
  next_promise = 0;
  sent = [];
  jobs = [];
}

unfoldable pub is_message_id_valid : ℕ → Bool
is_message_id_valid message_id = leb 1 message_id && leb message_id 4095

-- The flags are the bits from 0x1000 on: to add one to an ID, which is below, is to add its value.
unfoldable pub magic_flag_is_response : ℕ
magic_flag_is_response = 32768

unfoldable pub magic_flag_wants_response : ℕ
magic_flag_wants_response = 16384

-- `has_any_flags_of`, for one flag
unfoldable pub has_flag : ℕ → ℕ → Bool
has_flag flag magic_number = (magic_number / flag) % 2 == 1

abbrev pub update : (ℕ → Promised) → ℕ → Promised → ℕ → Promised
update promises p x q = if p == q then x else promises q

-- `it->second.lock()`, and what is done with the promise if it is still there
unfoldable pub settle : (ℕ → Bool) → Promised → ℕ → (ℕ → Promised) → ℕ → Promised
settle alive x p promises = if alive p then update promises p x else promises

-- the loop of `layer4_on_close`
unfoldable pub settle_all : (ℕ → Bool) → List (ℕ × ℕ) → (ℕ → Promised) → ℕ → Promised
settle_all alive [] promises = promises
settle_all alive ((serial, p) ∷ more) promises =
    settle_all alive more (settle alive lost p promises)

-- It asserts that the connection has been shut down.
unfoldable pub on_close : (ℕ → Bool) → M InterserverConnection (Unit {0})
on_close alive c = if not c.is_shutdown then (c, throw assertion) else (
  record c { weak_promises = []; promises = settle_all alive c.weak_promises c.promises },
  ok tt,
)

unfoldable pub shutdown : InterserverConnection → InterserverConnection
shutdown c = record c { is_shutdown = true }

-- the registration of a promise, with the serial of the request
unfoldable pub register : ℕ → InterserverConnection → InterserverConnection
register serial c = record c {
  weak_promises = emplace serial c.next_promise c.weak_promises;
  promises = update c.promises c.next_promise pending;
  next_promise = suc c.next_promise;
}

-- a response for the entry with its serial, if there is one
unfoldable pub satisfy :
    (ℕ → Bool) → ℕ → Response → Option ℕ → InterserverConnection → InterserverConnection
satisfy alive serial resp none c = c
satisfy alive serial resp (some p) c = record c {
  weak_promises = erase serial c.weak_promises;
  promises = settle alive (satisfied resp) p c.promises;
}

unfoldable pub push : ℕ × Bytes → InterserverConnection → InterserverConnection
push packet c = record c { sent = c.sent ++ packet ∷ [] }

unfoldable pub enqueue_job : Job → InterserverConnection → InterserverConnection
enqueue_job job c = record c { jobs = c.jobs ++ job ∷ [] }

-- `launched` says whether `launch_deflate_and_send` does not throw.
unfoldable pub send_notification : Bool → ℕ → Bytes → M InterserverConnection (Unit {0})
unfolding push
send_notification launched message_id payload c =
    if not (is_message_id_valid message_id)
    then (c, throw exception)
    else if c.is_shutdown
    then (c, throw exception)
    else if launched
    then (push (message_id, payload) c, ok tt)
    else (c, throw exception)

-- `write_request` and `write_response` stand for `serialize` of the two headers.
module _ (write_request : ℕ → Bytes) (write_response : ℕ → ℤ → Bytes) where
  -- Where `launch_deflate_and_send` throws, the promise is erased again, and destroyed with the
  -- exception.
  unfoldable pub send_request : Bool → ℕ → Bytes → M InterserverConnection ℕ
  unfolding register push magic_flag_wants_response
  send_request launched message_id payload c =
      if not (is_message_id_valid message_id)
      then (c, throw exception)
      else if c.is_shutdown
      then (c, throw exception)
      else (let serial = (c.next_serial + 1) % 2 ^ 64 in
          let counted = record c { next_serial = serial } in
          if launched
          then (
            push (message_id + magic_flag_wants_response, write_request serial ++ payload)
                (register serial counted),
            ok c.next_promise,
          )
          else (counted, throw exception))

  unfoldable pub send_response : Bool → ℕ → Response → M InterserverConnection (Unit {0})
  unfolding push magic_flag_is_response
  send_response launched serial resp c =
      let header = write_response serial resp.err_code in
      let payload = if resp.message_id == 0 then header else header ++ resp.payload in
      if not (resp.message_id == 0) && not (is_message_id_valid resp.message_id)
      then (c, throw exception)
      else if launched
      then (push (resp.message_id + magic_flag_is_response, payload) c, ok tt)
      else (c, throw exception)

-- `read_request` and `read_response` stand for their `deserialize`, which may throw.
module _ (read_request : Bytes → Option (ℕ × Bytes))
    (read_response : Bytes → Option (ℕ × ℤ × Bytes)) where
  unfoldable pub receive_response :
      (ℕ → Bool) → ℕ → Option (ℕ × ℤ × Bytes) → InterserverConnection → InterserverConnection
  receive_response alive message_id none c = shutdown c
  receive_response alive message_id (some (serial, err_code, payload)) c =
      satisfy alive serial
        (record { err_code = err_code; message_id = message_id; payload = payload })
        (find serial c.weak_promises) c

  unfoldable pub receive_request :
      ℕ → Option (ℕ × Bytes) → InterserverConnection → InterserverConnection
  unfolding enqueue_job
  receive_request message_id none c = shutdown c
  receive_request message_id (some (serial, payload)) c =
      enqueue_job
        (record {
          message_id = message_id;
          send_response = true;
          serial = serial;
          payload = payload;
        })
        c

  -- `inflate_and_dispatch` on what `Message_filter::decode` returns, for a magic number that is
  -- none of the two hello messages. An exception shuts the connection down.
  unfoldable pub dispatch : (ℕ → Bool) → ℕ → Bytes → InterserverConnection → InterserverConnection
  unfolding shutdown satisfy receive_response receive_request enqueue_job has_flag
      magic_flag_is_response magic_flag_wants_response
  dispatch alive magic_number magic_payload c =
      let message_id = magic_number % 4096 in
      if c.is_shutdown
      then c
      else if not ((magic_number / 4096) % 4 == 0)
      then shutdown c
      else if has_flag magic_flag_is_response magic_number
      then receive_response alive message_id (read_response magic_payload) c
      else if has_flag magic_flag_wants_response magic_number
      then receive_request message_id (read_request magic_payload) c
      else enqueue_job
          (record {
            message_id = message_id;
            send_response = false;
            serial = 3735928559;
            payload = magic_payload;
          })
          c

-- `wait_for_response`, once the promise is settled: `none` is a promise whose connection was lost.
-- The payload is what the message is deserialized from.
unfoldable pub check_response : ℕ → Option Response → Result Bytes
check_response message_id none = throw exception
check_response message_id (some resp) = elim resp.err_code [
  | pos zero ↦
      if resp.message_id == 0
      then throw exception
      else if not (resp.message_id == message_id)
      then throw exception
      else ok resp.payload
  | pos (suc n) ↦ throw (protocol (pos (suc n)))
  | negsuc n ↦ throw (protocol (negsuc n))
]

-- ===== src/Interserver/Jobs/Reply.antt =====
-- interserver_connection.cpp: a request from one end, its performance at the other, and the promise.
use poseidon_circe.Prelude.{ℕ, ◌≡◌, ◌≢◌, ◌⊎◌, [], ◌∷◌, ◌++◌, Bool, true, Option, some}
use poseidon_circe.Prelude.Int.{ℤ}
use poseidon_circe.Prelude.Bytes.{Bytes}
use poseidon_circe.Prelude.State.{Result, ok}
use poseidon_circe.Interserver.Promises.{
  Response, satisfied, InterserverConnection, is_message_id_valid, enqueue_job, send_request,
  send_response, dispatch,
}
use poseidon_circe.Interserver.Jobs.{reply_of, perform}

-- A response that survives its transport: without a message, or with one whose ID is valid.
abbrev pub IsCarried : Response → Type 0
IsCarried resp =
    ((resp.message_id ≡ 0) × (resp.payload ≡ []))
    ⊎ ((resp.message_id ≢ 0) × (is_message_id_valid resp.message_id ≡ true))

module _ (write_request : ℕ → Bytes) (write_response : ℕ → ℤ → Bytes)
    (read_request : Bytes → Option (ℕ × Bytes)) (read_response : Bytes → Option (ℕ × ℤ × Bytes))
    (request_lem : (serial : ℕ) (payload : Bytes)
      → read_request (write_request serial ++ payload) ≡ some (serial, payload))
    (response_lem : (serial : ℕ) (err_code : ℤ) (payload : Bytes)
      → read_response (write_response serial err_code ++ payload)
        ≡ some (serial, err_code, payload)) where
  -- A request and its way there and back: the packet that is sent, the job that it becomes at the
  -- other end, the packet that comes back, and the promise.
  pub record IsAnswered (alive : ℕ → Bool) (message_id : ℕ) (payload : Bytes)
      (answer : Result Response) (here there : InterserverConnection) : Type 0 where
    pub packet : ℕ × Bytes
    pub serial : ℕ
    pub back : ℕ × Bytes
    pub promised :
        (send_request write_request write_response true message_id payload here).1
        ≡ ok here.next_promise
    pub sent :
        (send_request write_request write_response true message_id payload here).0.sent
        ≡ here.sent ++ packet ∷ []
    pub received :
        dispatch read_request read_response alive packet.0 packet.1 there
        ≡ enqueue_job
            (record {
              message_id = message_id;
              send_response = true;
              serial = serial;
              payload = payload;
            })
            there
    pub performed :
        (perform write_request write_response true
          (record {
            message_id = message_id;
            send_response = true;
            serial = serial;
            payload = payload;
          })
          answer
          there).sent
        ≡ there.sent ++ back ∷ []
    pub settled :
        (dispatch read_request read_response alive back.0 back.1
            (send_request write_request write_response true message_id payload here).0).promises
          here.next_promise
        ≡ satisfied (reply_of answer)

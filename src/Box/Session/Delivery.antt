-- ===== src/Box/Session/Delivery.antt =====
-- websocket_shadow_session.cpp: the order of the messages and the work of the delivery job.
use poseidon_circe.Prelude.{
  ℕ, ◌≡◌, ◌≢◌, ◌∙◌, refl, sym, inl, inr, List, [], ◌∷◌, ◌++◌, Bool, true, false, is_empty, arith,
  Bool-cases,
}
use mathlib.Core.List.{append-nil, append_assoc}
use poseidon_circe.Box.Session.{
  Message, JobState, idle, queued, waiting, failed, ShadowSession, init, shutdown, mark_shutdown,
  send, next_round, fail_job, Event, sends, shuts_down, marks_shutdown, starts, responds, step, run,
  start, respond,
}

-- The messages of the request that the job has sent, answered or not.
abbrev pub in_flight : JobState → List Message
in_flight idle = []
in_flight queued = []
in_flight (waiting batch) = batch
in_flight (failed lost) = lost

abbrev pub is_at_work : JobState → Bool
is_at_work idle = false
is_at_work queued = true
is_at_work (waiting batch) = true
is_at_work (failed lost) = false

abbrev pub has_failed : JobState → Bool
has_failed idle = false
has_failed queued = false
has_failed (waiting batch) = false
has_failed (failed lost) = true

pub record IsConsistent (s : ShadowSession) : Type 0 where
  -- Each message is delivered, in flight or pending, in the order of the calls of `send`.
  pub in_order : s.accepted ≡ s.delivered ++ (in_flight s.job ++ s.messages_pending)
  -- `m_delivery_job_active` says whether the job is at work, unless that has failed.
  pub activity : has_failed s.job ≡ false → s.delivery_job_active ≡ is_at_work s.job
  pub wakeful : has_failed s.job ≡ false → is_at_work s.job ≡ false → s.messages_pending ≡ []
  pub spare : s.delivery_job_spare ≡ false → s.job ≡ idle
  pub closed : has_failed s.job ≡ true → s.is_shutdown ≡ true

shutdown-IsConsistent :
    (status_code : ℕ) (foyer : Bool) (s : ShadowSession)
    → IsConsistent s
    → IsConsistent (shutdown status_code foyer s).0
unfolding shutdown
shutdown-IsConsistent status_code foyer s v = elim (Bool-cases s.is_shutdown) [
  | inl e ↦ simp e v
  | inr e ↦ simp e (record {
    in_order = v.in_order;
    activity = v.activity;
    wakeful = v.wakeful;
    spare = v.spare;
    closed = λ _. refl;
  })
]

send-IsConsistent : (m : Message) (s : ShadowSession) → IsConsistent s → IsConsistent (send m s).0
unfolding send
send-IsConsistent m s v = elim (Bool-cases s.is_shutdown) [
  | inl e ↦ simp e v
  | inr e ↦
      let working : has_failed s.job ≡ false = ground (arith, v.closed) in
      let append = append_assoc s.delivered (in_flight s.job ++ s.messages_pending) (m ∷ []) in
      let append' = append_assoc (in_flight s.job) s.messages_pending (m ∷ []) in
      simp e (record {
        in_order =
            ground
              (arith, v.in_order, v.activity working, v.wakeful working, v.spare, append, append');
        activity = ground (arith, v.activity working, v.spare);
        wakeful = ground (arith, v.activity working, v.wakeful working, v.spare);
        spare = ground (arith, v.activity working, v.spare);
        closed = ground (arith, v.activity working, v.spare);
      })
]

empty_lem : (xs : List Message) → is_empty xs ≡ true → xs ≡ []
empty_lem [] e = refl
empty_lem (x ∷ xs) e = cc

next_round-IsConsistent :
    (s : ShadowSession)
    → s.accepted ≡ s.delivered ++ s.messages_pending
    → s.delivery_job_active ≡ true
    → s.delivery_job_spare ≡ true
    → IsConsistent (next_round s)
unfolding next_round
next_round-IsConsistent s o a p = elim (Bool-cases (is_empty s.messages_pending)) [
  | inl e ↦ simp e (record {
    in_order = o;
    activity = λ _. refl;
    wakeful = λ _ _. empty_lem s.messages_pending e;
    spare = λ h. refl;
    closed = λ h. cc;
  })
  | inr e ↦ simp e (record {
    in_order = ground (arith, append-nil s.messages_pending);
    activity = λ _. a;
    wakeful = λ _ h. refl;
    spare = λ h. cc;
    closed = λ h. cc;
  })
]

fail_job-IsConsistent :
    (status_code : ℕ) (foyer : Bool) (lost : List Message) (s : ShadowSession)
    → s.accepted ≡ s.delivered ++ (lost ++ s.messages_pending)
    → s.delivery_job_spare ≡ true
    → IsConsistent (fail_job status_code foyer lost s)
unfolding fail_job shutdown
fail_job-IsConsistent status_code foyer lost s o p = record {
  in_order = ground arith;
  activity = ground arith;
  wakeful = ground arith;
  spare = ground arith;
  closed = ground arith;
}

start-IsConsistent :
    (foyer : Bool) (j : JobState) (s : ShadowSession)
    → s.job ≡ j
    → IsConsistent s
    → IsConsistent (start foyer j s)
unfolding start
start-IsConsistent foyer idle s e v = v
start-IsConsistent foyer queued s e v =
    let order : s.accepted ≡ s.delivered ++ s.messages_pending = ground (arith, v.in_order) in
    let spare : s.delivery_job_spare ≡ true = ground (arith, v.spare) in
    let active : s.delivery_job_active ≡ true = ground (arith, v.activity (ground arith)) in
    elim (Bool-cases foyer) [
      | inl f ↦ simp (f, active) (next_round-IsConsistent s order active spare)
      | inr f ↦ rw f (fail_job-IsConsistent _ false [] s order spare)
    ]
start-IsConsistent foyer (waiting b) s e v = v
start-IsConsistent foyer (failed b) s e v = v

respond-IsConsistent :
    (answered foyer : Bool) (j : JobState) (s : ShadowSession)
    → s.job ≡ j
    → IsConsistent s
    → IsConsistent (respond answered foyer j s)
unfolding respond
respond-IsConsistent answered foyer idle s e v = v
respond-IsConsistent answered foyer queued s e v = v
respond-IsConsistent answered foyer (waiting b) s e v =
    let order : s.accepted ≡ s.delivered ++ (b ++ s.messages_pending) =
      ground (arith, v.in_order) in
    let spare : s.delivery_job_spare ≡ true = ground (arith, v.spare) in
    let active : s.delivery_job_active ≡ true = ground (arith, v.activity (ground arith)) in
    elim (Bool-cases answered) [
      | inl f ↦ rw f (
          next_round-IsConsistent (record s { delivered = s.delivered ++ b })
            (order ∙ sym (append_assoc s.delivered b s.messages_pending)) active spare)
      | inr f ↦ rw f (fail_job-IsConsistent _ foyer b s order spare)
    ]
respond-IsConsistent answered foyer (failed b) s e v = v

step-IsConsistent : (s : ShadowSession) (e : Event) → IsConsistent s → IsConsistent (step s e)
unfolding step mark_shutdown
step-IsConsistent s (sends m) v = send-IsConsistent m s v
step-IsConsistent s (shuts_down status_code foyer) v = shutdown-IsConsistent status_code foyer s v
step-IsConsistent s marks_shutdown v = record {
  in_order = v.in_order;
  activity = v.activity;
  wakeful = v.wakeful;
  spare = v.spare;
  closed = λ _. refl;
}
step-IsConsistent s (starts foyer) v = start-IsConsistent foyer s.job s refl v
step-IsConsistent s (responds answered foyer) v = respond-IsConsistent answered foyer s.job s refl v

init-IsConsistent : IsConsistent init
unfolding init
init-IsConsistent = record {
  in_order = refl;
  activity = λ _. refl;
  wakeful = λ _ _. refl;
  spare = λ _. refl;
  closed = λ h. cc;
}

pub run-IsConsistent :
    (s : ShadowSession) (es : List Event) → IsConsistent s → IsConsistent (run s es)
unfolding run
run-IsConsistent s [] v = v
run-IsConsistent s (e ∷ es) v = run-IsConsistent (step s e) es (step-IsConsistent s e v)

-- Whatever calls, responses and failures a new session meets: the messages that `send` accepted are
-- those delivered, then those of the request under way (or lost with it), then those pending, in the
-- order of the calls.
pub delivery_in_order :
    (es : List Event)
    → (run init es).accepted
      ≡ (run init es).delivered ++ (in_flight (run init es).job ++ (run init es).messages_pending)
delivery_in_order es = (run-IsConsistent init es init-IsConsistent).in_order

-- While the session is open no message is left behind: if one is pending, the job is queued or
-- waits for a response.
pub no_message_stranded :
    (es : List Event)
    → (run init es).is_shutdown ≡ false
    → (run init es).messages_pending ≢ []
    → is_at_work (run init es).job ≡ true
no_message_stranded es o p =
    let v = run-IsConsistent init es init-IsConsistent in ground (arith, v.closed, v.wakeful)

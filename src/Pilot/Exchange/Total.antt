-- ===== src/Pilot/Exchange/Total.antt =====
-- servlets.cpp: what both handlers answer.
use poseidon_circe.Prelude.{
  ℕ, ◌^◌, ◌≤◌, ◌<◌, ◌≡◌, ◌∙◌, refl, Bool, true, List, [], ◌∷◌, Option, none, some, arith, lt→ltb,
  get_elem?, ltb,
}
use poseidon_circe.Prelude.Int.{ℤ, pos_part}
use poseidon_circe.Prelude.Bytes.{Bytes}
use poseidon_circe.Prelude.State.{M, Result, ok, throw, proceed, return}
use poseidon_circe.Pilot.Messages.{
  Criterion, CompareExchangeRequest, CompareExchangeResponse, ExchangeRequest, ExchangeResponse,
}
use poseidon_circe.Pilot.Lock.{CompassLock, Connection}
use poseidon_circe.Pilot.Compass.{Env, Site, get_value, get_version, set_value}
use poseidon_circe.Pilot.Disposition.{dispositions, parse_lock_disposition}
use poseidon_circe.Pilot.Disposition.Rules.{collect_collect, Holding-collect}
use poseidon_circe.Pilot.Exchange.{
  numeric_cast_unsigned, search_criteria, set_matched, finish, compare_exchange, exchange,
  choose_lock, lock_for_writing,
}
use poseidon_circe.Pilot.Exchange.Stages.{
  Uncollected, check_releases_lem, choose_lock-Chosen, lock_for_writing-Chosen,
}
use poseidon_circe.Pilot.Exchange.Finish.{set_value_lem}
use poseidon_circe.Pilot.Exchange.Ending.{
  live_lock, IsAnswerable, new_value, Finished, left_alone, updated, Sets, put_lock,
  finish-Finished,
}

dispositions_bounds :
    (d : ℕ) (shared exclusive : ℤ)
    → dispositions d ≡ some (shared, exclusive)
    → (d < 2 ^ 32) × (pos_part shared ≤ 1) × (pos_part exclusive ≤ 1)
unfolding dispositions
dispositions_bounds d shared exclusive e = ground arith

module _ (env : Env) (c : Connection) where
  -- A response made from what the rest of the handler returns.
  answer :
      {A : Type 0} {v : Option Bytes} {shared exclusive : ℤ} {s : Site}
      {out : Site × Result (Bool × ℕ)} (make : Bool × ℕ → A)
      → Finished env c v shared exclusive s out
      → (s' : Site) × (r : Bool × ℕ) × (proceed (λ r'. return (make r')) out ≡ (s', ok (make r)))
        × Finished env c v shared exclusive s (s', ok r)
  answer {s} make left_alone = (_, _, refl, left_alone)
  answer {v} {s} make (updated l h) = (_, _, refl, updated l h)

  proceed_assoc :
      {S A B C : Type 0} (f : A → M S B) (k : B → M S C) (out : S × Result A)
      → proceed (λ a s. proceed k (f a s)) out ≡ proceed k (proceed f out)
  proceed_assoc f k (s, ok a) = refl
  proceed_assoc f k (s, throw x) = refl

  set_matched-Sets :
      (base : CompassLock) (x : Option Criterion)
      → Sets env c (new_value env c x) (set_matched env c x) base
  unfolding set_matched
  set_matched-Sets base none s r w h = refl
  set_matched-Sets base (some x) s r w h = set_value_lem env c base x.value_new s h

  get_elem?-empty : (l : List Criterion) (i : ℕ) → l ≡ [] → get_elem? l i ≡ none
  get_elem?-empty [] i e = refl
  get_elem?-empty (x ∷ xs) i e = cc

  parse_lem :
      (s : Site) (d : ℕ) (shared exclusive : ℤ)
      → IsAnswerable env c s d shared exclusive
      → (l : CompassLock) × (parse_lock_disposition env.expired c d s.compass.lock
          ≡ (l, ok (shared, exclusive)))
        × Uncollected env c (live_lock env c s) l
  unfolding parse_lock_disposition
  parse_lem s d shared exclusive a =
      rw (a.known, parse_lock_disposition)
        (check_releases_lem env c (live_lock env c s) shared exclusive s.compass.lock refl
          (collect_collect env.expired s.compass.lock) a.holds_shared a.holds_exclusive)

  -- The criterion that a request's values are matched against, if any.
  abbrev pub matched : CompareExchangeRequest → Site → Option Criterion
  matched req s = get_elem? req.criteria (search_criteria (get_value s.compass) req.criteria)

  unset_matched :
      (req : CompareExchangeRequest) (s : Site)
      → req.criteria ≡ []
      → (new_value env c (matched req s) ≡ none)
        × ((s' : Site) → set_matched env c (matched req s) s' ≡ (s', ok tt))
  unfolding set_matched
  unset_matched req s e =
      let e' : matched req s ≡ none = get_elem?-empty req.criteria _ e in rw e' (refl, λ s'. refl)

  -- Where the locks held do not exclude each other, the connection is there, the disposition is
  -- known and what it releases is held: no assertion fails and nothing is thrown, and the request is
  -- answered with the old value and version and the index of the first match. Either the compass is
  -- left alone but for the access time and the locks of destroyed connections, or the value of that
  -- match, if there is one, has been set and the connection holds as many locks more or fewer as the
  -- disposition asks for, the others as many as before.
  pub compare_exchange_total :
      (req : CompareExchangeRequest) (s : Site) (shared exclusive : ℤ)
      → IsAnswerable env c s req.lock_disposition shared exclusive
      → (s' : Site) × (resp : CompareExchangeResponse) × (compare_exchange env c req s
          ≡ (s', ok resp))
        × Finished env c
            (new_value env c (matched req s))
            shared
            exclusive
            s
            (s', ok (resp.succeeded, resp.lock_state))
        × (resp.value_old ≡ get_value s.compass)
        × (resp.version_old ≡ get_version s.compass)
        × (resp.criterion_index ≡ search_criteria (get_value s.compass) req.criteria)
  unfolding compare_exchange numeric_cast_unsigned get_value get_version
  compare_exchange_total req s shared exclusive a =
      let index = search_criteria (get_value s.compass) req.criteria in
      let (l, e, u) = parse_lem s req.lock_disposition shared exclusive a in
      let small : ltb req.lock_disposition (2 ^ 32) ≡ true =
        lt→ltb _ _ (dispositions_bounds req.lock_disposition shared exclusive a.known).0 in
      let out = choose_lock env c req.criteria index (shared, exclusive) l in
      let chosen =
        choose_lock-Chosen env c (live_lock env c s) req.criteria index shared exclusive l a.live u
          (Holding-collect env.expired c s.compass.lock a.exclusion) in
      let finished =
        finish-Finished env c (req.criteria ≡ []) (new_value env c (matched req s))
          (set_matched env c (matched req s)) shared exclusive s req.lock_disposition out a
          (set_matched-Sets (live_lock env c s) (matched req s)) (unset_matched req s) chosen in
      let make : Bool × ℕ → CompareExchangeResponse = λ r. record {
        value_old = get_value s.compass;
        version_old = get_version s.compass;
        succeeded = r.0;
        criterion_index = index;
        lock_state = r.1;
      } in
      let (s', r, e', f) = answer make finished in
      (
        s',
        make r,
        rw (small, e)
            (proceed_assoc (finish env c (set_matched env c (matched req s)))
                (λ r'. return (make r')) (put_lock env c out.0 s, out.1)
              ∙ e'),
        f,
        refl,
        refl,
        refl,
      )

  -- The same for an exchange request, which has no criteria: it is answered with the old value and
  -- version, and where the compass is not left alone its value has been set.
  pub exchange_total :
      (req : ExchangeRequest) (s : Site) (shared exclusive : ℤ)
      → IsAnswerable env c s req.lock_disposition shared exclusive
      → (s' : Site) × (resp : ExchangeResponse) × (exchange env c req s ≡ (s', ok resp))
        × Finished env c
            (some req.value_new)
            shared
            exclusive
            s
            (s', ok (resp.succeeded, resp.lock_state))
        × (resp.value_old ≡ get_value s.compass)
        × (resp.version_old ≡ get_version s.compass)
  unfolding exchange numeric_cast_unsigned get_value get_version lock_for_writing
  exchange_total req s shared exclusive a =
      let (l, e, u) = parse_lem s req.lock_disposition shared exclusive a in
      let small : ltb req.lock_disposition (2 ^ 32) ≡ true =
        lt→ltb _ _ (dispositions_bounds req.lock_disposition shared exclusive a.known).0 in
      let chosen =
        lock_for_writing-Chosen env c (live_lock env c s) ⊥ shared exclusive l a.live u
          (Holding-collect env.expired c s.compass.lock a.exclusion) in
      let finished =
        finish-Finished env c ⊥ (some req.value_new) (set_value env req.value_new) shared exclusive
          s req.lock_disposition (lock_for_writing env c (shared, exclusive) l) a
          (λ s' r w h. set_value_lem env c (live_lock env c s) req.value_new s' h) (λ n. absurd n)
          chosen in
      let make : Bool × ℕ → ExchangeResponse = λ r. record {
        value_old = get_value s.compass;
        version_old = get_version s.compass;
        succeeded = r.0;
        lock_state = r.1;
      } in
      let (s', r, e', f) = answer make finished in (s', make r, rw (small, e) e', f, refl, refl)

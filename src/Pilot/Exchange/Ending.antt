-- ===== src/Pilot/Exchange/Ending.antt =====
-- servlets.cpp: how both handlers end, once they have tried to lock the compass.
use poseidon_circe.Prelude.{
  ℕ, zero, suc, ◌+◌, ◌-◌, ◌≤◌, ◌≡◌, refl, sym, subst, Bool, true, false, Option, none, some, arith,
  ◌⊎◌, inl, inr,
}
use poseidon_circe.Prelude.Int.{ℤ, pos, negsuc, pos_part, neg_part, pred_ℤ, is_positive}
use poseidon_circe.Prelude.Bytes.{Bytes}
use poseidon_circe.Prelude.State.{M, Result, ok, proceed}
use poseidon_circe.FlatMap.{count}
use poseidon_circe.Pilot.Messages.{Criterion}
use poseidon_circe.Pilot.Lock.{CompassLock, Connection, collect_expired_connections}
use poseidon_circe.Pilot.Lock.Laws.{IsExclusive}
use poseidon_circe.Pilot.Compass.{Env, Site, write}
use poseidon_circe.Pilot.Disposition.{dispositions}
use poseidon_circe.Pilot.Disposition.Rules.{Holding, Holding-cast}
use poseidon_circe.Pilot.Exchange.{finish}
use poseidon_circe.Pilot.Exchange.Stages.{
  Chosen, refused, shared_for_reading, exclusive_for_writing,
}
use poseidon_circe.Pilot.Exchange.Finish.{
  state_of, written, concluded, finish_refused, finish_locked,
}

module _ (env : Env) (c : Connection) where
  -- The lock with its expired connections collected.
  abbrev pub live_lock : Site → CompassLock
  live_lock s = collect_expired_connections env.expired s.compass.lock

  -- What a request needs: a known disposition, and what it releases is held.
  pub record IsAnswerable (s : Site) (disposition : ℕ) (shared exclusive : ℤ) : Type 0 where
    pub exclusion : IsExclusive s.compass.lock
    pub live : env.expired c.ptr ≡ false
    pub known : dispositions disposition ≡ some (shared, exclusive)
    pub holds_shared : neg_part shared ≤ count c.uuid (live_lock s).readers
    pub holds_exclusive : neg_part exclusive ≤ count c.uuid (live_lock s).writers

  -- The compass after a handler: the new value if there is one, and the locks.
  abbrev pub valued : Option Bytes → Site → Site
  valued none s = s
  valued (some v) s = written env v s

  abbrev pub new_value : Option Criterion → Option Bytes
  new_value none = none
  new_value (some x) = some x.value_new

  -- How the rest of a handler ends.
  pub data Finished (v : Option Bytes) (shared exclusive : ℤ) (s : Site)
      : Site × Result (Bool × ℕ) → Type 0 where
    left_alone :
        Finished v shared exclusive s
          (concluded env (live_lock s) s, ok (false, state_of c.uuid (live_lock s)))
    updated :
        (l : CompassLock)
        → Holding env.expired c
            (live_lock s)
            (count c.uuid (live_lock s).readers + pos_part shared - neg_part shared)
            (count c.uuid (live_lock s).writers + pos_part exclusive - neg_part exclusive)
            l
        → Finished v shared exclusive s (concluded env l (valued v s), ok (true, state_of c.uuid l))

  abbrev pub put_lock : CompassLock → Site → Site
  put_lock l s = record s { compass = record s.compass { lock = l } }

  pred_parts : (d : ℤ) → pos_part (pred_ℤ d) + neg_part d + 1 ≡ pos_part d + neg_part (pred_ℤ d)
  pred_parts (pos zero) = refl
  pred_parts (pos (suc n)) = omega arith
  pred_parts (negsuc n) = omega arith

  one_sign : (d : ℤ) → (pos_part d ≡ 0) ⊎ (neg_part d ≡ 0)
  one_sign (pos n) = inr refl
  one_sign (negsuc n) = inl refl

  not_positive : (d : ℤ) → is_positive d ≡ false → pos_part d ≡ 0
  not_positive (pos zero) e = refl
  not_positive (pos (suc n)) e = cc
  not_positive (negsuc n) e = refl

  valued-lock : (v : Option Bytes) (s : Site) → (valued v s).compass.lock ≡ s.compass.lock
  unfolding write
  valued-lock none s = refl
  valued-lock (some v) s = refl

  concluded-valued :
      (v : Option Bytes) (l l' : CompassLock) (s : Site)
      → concluded env l' (valued v (put_lock l s)) ≡ concluded env l' (valued v s)
  unfolding write
  concluded-valued none l l' s = refl
  concluded-valued (some v) l l' s = refl

  -- What the value is set by: where the compass is locked for writing it throws nothing.
  abbrev pub Sets : Option Bytes → M Site (Unit {0}) → CompassLock → Type 0
  Sets v set base =
      (s : Site) (r w : ℕ)
      → Holding env.expired c base r (suc w) s.compass.lock
      → set s ≡ (valued v s, ok tt)

  -- From the attempt to lock on, a handler throws nothing.
  pub finish-Finished :
      (reading : Type 0) (v : Option Bytes) (set : M Site (Unit {0})) (shared exclusive : ℤ)
      (s : Site) (disposition : ℕ) (out : CompassLock × Result (Bool × (ℤ × ℤ)))
      → IsAnswerable s disposition shared exclusive
      → Sets v set (live_lock s)
      → (reading → (v ≡ none) × ((s' : Site) → set s' ≡ (s', ok tt)))
      → Chosen env c
          (live_lock s)
          reading
          (count c.uuid (live_lock s).readers)
          (count c.uuid (live_lock s).writers)
          shared
          exclusive
          out
      → Finished v shared exclusive s (proceed (finish env c set) (put_lock out.0 s, out.1))
  finish-Finished reading v set shared exclusive s disposition out a sets unset (refused l e) =
      rw (finish_refused env c set (shared, exclusive) (put_lock l s)) (
        subst
          (λ b. Finished v shared exclusive s (concluded env b s, ok (false, state_of c.uuid b)))
          (sym e) left_alone)
  finish-Finished reading v set shared exclusive s disposition out a sets unset
        (shared_for_reading l h asks ne) =
      let r = count c.uuid (live_lock s).readers in
      let w = count c.uuid (live_lock s).writers in
      let (unchanged, nothing) = unset asks in
      let (l', e, h') =
        finish_locked env c (live_lock s) set (pred_ℤ shared) exclusive
          (suc r - neg_part (pred_ℤ shared)) (w - neg_part exclusive) (put_lock l s) (put_lock l s)
          (nothing (put_lock l s)) a.live (λ g. absurd (omega (arith, not_positive exclusive ne)))
          (λ g. omega (arith, one_sign (pred_ℤ shared)))
          (Holding-cast env.expired c (live_lock s)
            (omega
              (arith, pred_parts shared, one_sign shared, one_sign (pred_ℤ shared), a.holds_shared))
            (omega (arith, a.holds_exclusive)) h) in
      rw (e, unchanged)
        (updated l' (
          Holding-cast env.expired c (live_lock s)
            (omega
              (arith, pred_parts shared, one_sign shared, one_sign (pred_ℤ shared), a.holds_shared))
            (omega (arith, a.holds_exclusive)) h'))
  finish-Finished reading v set shared exclusive s disposition out a sets unset
        (exclusive_for_writing l h) =
      let r = count c.uuid (live_lock s).readers in
      let w = count c.uuid (live_lock s).writers in
      let (l', e, h') =
        finish_locked env c (live_lock s) set shared (pred_ℤ exclusive) (r - neg_part shared)
          (suc w - neg_part (pred_ℤ exclusive)) (put_lock l s) (valued v (put_lock l s))
          (sets (put_lock l s) r w h) a.live (λ g. omega (arith, one_sign (pred_ℤ exclusive)))
          (λ g. omega (
            arith,
            one_sign shared,
            pred_parts exclusive,
            one_sign exclusive,
            one_sign (pred_ℤ exclusive),
            a.holds_exclusive,
          ))
          (rw (valued-lock v (put_lock l s)) (
            Holding-cast env.expired c (live_lock s) (omega (arith, a.holds_shared))
              (omega (
                arith,
                pred_parts exclusive,
                one_sign exclusive,
                one_sign (pred_ℤ exclusive),
                a.holds_exclusive,
              ))
              h)) in
      rw (e, concluded-valued v l l' s)
        (updated l' (
          Holding-cast env.expired c (live_lock s) (omega (arith, a.holds_shared))
            (omega (
              arith,
              pred_parts exclusive,
              one_sign exclusive,
              one_sign (pred_ℤ exclusive),
              a.holds_exclusive,
            ))
            h'))

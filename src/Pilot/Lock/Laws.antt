-- ===== src/Pilot/Lock/Laws.antt =====
-- compass_lock.cpp: who may hold the two kinds of lock beside each other.
use poseidon_circe.Prelude.{
  ℕ, ◌≡◌, ◌⊎◌, inl, inr, Bool, true, arith, List, [], ◌∷◌, Bool-cases, sym,
}
use poseidon_circe.FlatMap.{
  has, Sorted, emplace, erase, emplace-Sorted, erase-Sorted, erase_if-Sorted, has-emplace,
  has-erase, has-erase_if, has-covers, has-is_empty,
}
use poseidon_circe.Pilot.Lock.{
  CompassLock, Connection, Call, collects, observes_shared, observes_exclusive, observes_shared_by,
  observes_exclusive_by, locks_shared, releases_shared, locks_exclusive, releases_exclusive, init,
  step, run, collect_expired_connections, is_locked_shared, is_locked_shared_by, try_lock_shared,
  release_lock_shared, is_locked_exclusive, is_locked_exclusive_by, try_lock_exclusive,
  release_lock_exclusive, may_lock_shared, may_lock_exclusive,
}

-- A connection that holds the exclusive lock is the only one that holds any lock.
pub record IsExclusive (l : CompassLock) : Type 0 where
  pub readers_sorted : Sorted l.readers
  pub writers_sorted : Sorted l.writers
  pub shut_out : (w r : ℕ) → has w l.writers ≡ true → has r l.readers ≡ true → r ≡ w
  pub sole : (w v : ℕ) → has w l.writers ≡ true → has v l.writers ≡ true → v ≡ w

-- The guard of `try_lock_shared` keeps every other writer out, also where the connection is let in
-- because it is a reader already.
pub may_lock_shared-sole :
    (l : CompassLock) (k w : ℕ)
    → IsExclusive l
    → may_lock_shared l k ≡ true
    → has w l.writers ≡ true
    → w ≡ k
unfolding may_lock_shared
may_lock_shared-sole l k w i h p = elim (Bool-cases (has k l.readers)) [
  | inl r ↦ sym (i.shut_out w k p r)
  | inr r ↦ has-covers k w l.writers i.writers_sorted (ground arith) p
]

pub may_lock_exclusive-sole :
    (l : CompassLock) (k : ℕ)
    → IsExclusive l
    → may_lock_exclusive l k ≡ true
    → ((w : ℕ) → has w l.writers ≡ true → w ≡ k) × ((r : ℕ) → has r l.readers ≡ true → r ≡ k)
unfolding may_lock_exclusive
may_lock_exclusive-sole l k i h = elim (Bool-cases (has k l.writers)) [
  | inl w ↦ (λ v p. i.sole k v w p, λ r p. i.shut_out k r w p)
  | inr w ↦ (
    λ v p. absurd (ground (arith, has-is_empty v l.writers)),
    λ r p. has-covers k r l.readers i.readers_sorted (ground arith) p,
  )
]

pub lock_shared-IsExclusive :
    (l : CompassLock) (c : Connection)
    → may_lock_shared l c.uuid ≡ true
    → IsExclusive l
    → IsExclusive (record l { readers = emplace c.uuid c.ptr l.readers })
lock_shared-IsExclusive l c h i = record {
  readers_sorted = emplace-Sorted c.uuid c.ptr l.readers i.readers_sorted;
  writers_sorted = i.writers_sorted;
  shut_out = λ w r p q. ground (
    arith,
    may_lock_shared-sole l c.uuid w i h p,
    has-emplace c.uuid c.ptr l.readers r,
    i.shut_out w r p,
  );
  sole = i.sole;
}

pub lock_sole-IsExclusive :
    (l : CompassLock) (c : Connection)
    → may_lock_exclusive l c.uuid ≡ true
    → IsExclusive l
    → IsExclusive (record l { writers = emplace c.uuid c.ptr l.writers })
lock_sole-IsExclusive l c h i =
    let (only_writer, only_reader) = may_lock_exclusive-sole l c.uuid i h in
    record {
      readers_sorted = i.readers_sorted;
      writers_sorted = emplace-Sorted c.uuid c.ptr l.writers i.writers_sorted;
      shut_out = λ w r p q.
          ground (arith, only_reader r q, only_writer w, has-emplace c.uuid c.ptr l.writers w);
      sole = λ w v p q. ground (
        arith,
        only_writer w,
        only_writer v,
        has-emplace c.uuid c.ptr l.writers w,
        has-emplace c.uuid c.ptr l.writers v,
      );
    }

pub release_shared-IsExclusive :
    (l : CompassLock) (k : ℕ)
    → IsExclusive l
    → IsExclusive (record l { readers = erase k l.readers })
release_shared-IsExclusive l k i = record {
  readers_sorted = erase-Sorted k l.readers i.readers_sorted;
  writers_sorted = i.writers_sorted;
  shut_out = λ w r p q. i.shut_out w r p (has-erase k l.readers r q);
  sole = i.sole;
}

pub release_sole-IsExclusive :
    (l : CompassLock) (k : ℕ)
    → IsExclusive l
    → IsExclusive (record l { writers = erase k l.writers })
release_sole-IsExclusive l k i = record {
  readers_sorted = i.readers_sorted;
  writers_sorted = erase-Sorted k l.writers i.writers_sorted;
  shut_out = λ w r p q. i.shut_out w r (has-erase k l.writers w p) q;
  sole = λ w v p q. i.sole w v (has-erase k l.writers w p) (has-erase k l.writers v q);
}

module _ (expired : ℕ → Bool) where
  pub collect-IsExclusive :
      (l : CompassLock) → IsExclusive l → IsExclusive (collect_expired_connections expired l)
  unfolding collect_expired_connections
  collect-IsExclusive l i = record {
    readers_sorted = erase_if-Sorted expired l.readers i.readers_sorted;
    writers_sorted = erase_if-Sorted expired l.writers i.writers_sorted;
    shut_out = λ w r p q.
        i.shut_out w r (has-erase_if expired l.writers w p) (has-erase_if expired l.readers r q);
    sole = λ w v p q.
        i.sole w v (has-erase_if expired l.writers w p) (has-erase_if expired l.writers v q);
  }

  try_lock_shared-IsExclusive :
      (l : CompassLock) (c : Connection)
      → IsExclusive l
      → IsExclusive (try_lock_shared expired l c).0
  unfolding try_lock_shared
  try_lock_shared-IsExclusive l c i =
      elim (Bool-cases (may_lock_shared (collect_expired_connections expired l) c.uuid)) [
        | inl e ↦ rw e (
            lock_shared-IsExclusive (collect_expired_connections expired l) c e
              (collect-IsExclusive l i))
        | inr e ↦ rw e (collect-IsExclusive l i)
      ]

  release_lock_shared-IsExclusive :
      (l : CompassLock) (c : Connection)
      → IsExclusive l
      → IsExclusive (release_lock_shared expired l c).0
  unfolding release_lock_shared
  release_lock_shared-IsExclusive l c i =
      elim (Bool-cases (has c.uuid (collect_expired_connections expired l).readers)) [
        | inl e ↦ rw e (
            release_shared-IsExclusive (collect_expired_connections expired l) c.uuid
              (collect-IsExclusive l i))
        | inr e ↦ rw e (collect-IsExclusive l i)
      ]

  try_lock_exclusive-IsExclusive :
      (l : CompassLock) (c : Connection)
      → IsExclusive l
      → IsExclusive (try_lock_exclusive expired l c).0
  unfolding try_lock_exclusive
  try_lock_exclusive-IsExclusive l c i =
      elim (Bool-cases (may_lock_exclusive (collect_expired_connections expired l) c.uuid)) [
        | inl e ↦ rw e (
            lock_sole-IsExclusive (collect_expired_connections expired l) c e
              (collect-IsExclusive l i))
        | inr e ↦ rw e (collect-IsExclusive l i)
      ]

  release_lock_exclusive-IsExclusive :
      (l : CompassLock) (c : Connection)
      → IsExclusive l
      → IsExclusive (release_lock_exclusive expired l c).0
  unfolding release_lock_exclusive
  release_lock_exclusive-IsExclusive l c i =
      elim (Bool-cases (has c.uuid (collect_expired_connections expired l).writers)) [
        | inl e ↦ rw e (
            release_sole-IsExclusive (collect_expired_connections expired l) c.uuid
              (collect-IsExclusive l i))
        | inr e ↦ rw e (collect-IsExclusive l i)
      ]

  -- Each method keeps the exclusion.
  pub step-IsExclusive :
      (l : CompassLock) (call : Call) → IsExclusive l → IsExclusive (step expired l call)
  unfolding step is_locked_shared is_locked_shared_by is_locked_exclusive is_locked_exclusive_by
  step-IsExclusive l collects i = collect-IsExclusive l i
  step-IsExclusive l observes_shared i = collect-IsExclusive l i
  step-IsExclusive l observes_exclusive i = collect-IsExclusive l i
  step-IsExclusive l (observes_shared_by uuid) i = collect-IsExclusive l i
  step-IsExclusive l (observes_exclusive_by uuid) i = collect-IsExclusive l i
  step-IsExclusive l (locks_shared c) i = try_lock_shared-IsExclusive l c i
  step-IsExclusive l (releases_shared c) i = release_lock_shared-IsExclusive l c i
  step-IsExclusive l (locks_exclusive c) i = try_lock_exclusive-IsExclusive l c i
  step-IsExclusive l (releases_exclusive c) i = release_lock_exclusive-IsExclusive l c i

pub init-IsExclusive : IsExclusive init
init-IsExclusive = record {
  readers_sorted = tt;
  writers_sorted = tt;
  shut_out = λ w r p q. unfold has in cc;
  sole = λ w v p q. unfold has in cc;
}

pub run-IsExclusive :
    (l : CompassLock) (calls : List ((ℕ → Bool) × Call)) → IsExclusive l → IsExclusive (run l calls)
unfolding run
run-IsExclusive l [] i = i
run-IsExclusive l ((expired, call) ∷ calls) i =
    run-IsExclusive (step expired l call) calls (step-IsExclusive expired l call i)

-- Whatever calls the connections make on a new lock, and whenever connections are destroyed: while
-- a connection holds the exclusive lock, no other connection holds it, nor a shared one.
pub mutual_exclusion :
    (calls : List ((ℕ → Bool) × Call)) (w k : ℕ)
    → has w (run init calls).writers ≡ true
    → (has k (run init calls).writers ≡ true) ⊎ (has k (run init calls).readers ≡ true)
    → k ≡ w
mutual_exclusion calls w k p q =
    let i = run-IsExclusive init calls init-IsExclusive in
    elim q [ inl r ↦ i.sole w k p r | inr r ↦ i.shut_out w k p r ]

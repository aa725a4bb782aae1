-- ===== src/Pilot/Disposition/Rules.antt =====
-- servlets.cpp and compass_lock.cpp: what each call does to the locks of one connection, where no
-- other connection of the lock is expired.
use poseidon_circe.Prelude.{
  ℕ, suc, ◌+◌, ◌<◌, ◌≡◌, ◌≢◌, refl, subst₂, Bool, true, false, Bool-cases, inl, inr, arith,
}
use poseidon_circe.FlatMap.{
  has, count, emplace, erase, erase_if, NoneOf, erase_if-NoneOf, erase_if_of_NoneOf, emplace-NoneOf,
  erase-NoneOf, has-count, count-emplace, count-erase, covers_of_has,
}
use poseidon_circe.Pilot.Lock.{
  CompassLock, Connection, collect_expired_connections, try_lock_shared, release_lock_shared,
  try_lock_exclusive, release_lock_exclusive, may_lock_shared, may_lock_exclusive,
}
use poseidon_circe.Pilot.Lock.Laws.{
  IsExclusive, collect-IsExclusive, lock_shared-IsExclusive, lock_sole-IsExclusive,
  release_shared-IsExclusive, release_sole-IsExclusive,
}

module _ (expired : ℕ → Bool) (c : Connection) (base : CompassLock) where
  -- The connection holds `r` shared and `w` exclusive locks, and the others what they hold in
  -- `base`; nothing is expired.
  pub record Holding (r w : ℕ) (l : CompassLock) : Type 0 where
    pub exclusive : IsExclusive l
    pub live_readers : NoneOf expired l.readers
    pub live_writers : NoneOf expired l.writers
    pub reads : count c.uuid l.readers ≡ r
    pub writes : count c.uuid l.writers ≡ w
    pub other_readers : (k : ℕ) → k ≢ c.uuid → count k l.readers ≡ count k base.readers
    pub other_writers : (k : ℕ) → k ≢ c.uuid → count k l.writers ≡ count k base.writers

  pub Holding-cast :
      {r w r' w' : ℕ} {l : CompassLock} → r ≡ r' → w ≡ w' → Holding r w l → Holding r' w' l
  Holding-cast {l} p q h = subst₂ (λ m n. Holding m n l) p q h

  pub collect_idle :
      {r w : ℕ} (l : CompassLock) → Holding r w l → collect_expired_connections expired l ≡ l
  unfolding collect_expired_connections
  collect_idle l h = λ i. record {
    readers = erase_if_of_NoneOf expired l.readers h.live_readers i;
    writers = erase_if_of_NoneOf expired l.writers h.live_writers i;
  }

  sole_writer :
      {r w : ℕ} (l : CompassLock)
      → Holding r w l
      → 0 < w
      → (j : ℕ) → has j l.writers ≡ true
      → j ≡ c.uuid
  sole_writer l h p j q =
      h.exclusive.sole c.uuid j (ground (arith, h.writes, has-count c.uuid l.writers)) q

  pub may_lock_shared_of_Holding :
      {r w : ℕ} (l : CompassLock) → Holding r w l → 0 < r + w → may_lock_shared l c.uuid ≡ true
  unfolding may_lock_shared
  may_lock_shared_of_Holding l h p = elim (Bool-cases (has c.uuid l.readers)) [
    | inl e ↦ rw e
    | inr e ↦ rw e (
        covers_of_has c.uuid l.writers
          λ j q. sole_writer l h (ground (arith, h.reads, has-count c.uuid l.readers)) j q)
  ]

  pub shared_rule :
      {r w : ℕ} (l : CompassLock)
      → expired c.ptr ≡ false
      → Holding r w l
      → may_lock_shared l c.uuid ≡ true
      → (l' : CompassLock) × (try_lock_shared expired l c ≡ (l', true)) × Holding (suc r) w l'
  unfolding try_lock_shared
  shared_rule l live h m = (
    record l { readers = emplace c.uuid c.ptr l.readers },
    rw (collect_idle l h, m),
    record {
      exclusive = lock_shared-IsExclusive l c m h.exclusive;
      live_readers = emplace-NoneOf expired c.uuid c.ptr l.readers live h.live_readers;
      live_writers = h.live_writers;
      reads = ground (arith, h.reads, count-emplace c.uuid c.ptr l.readers c.uuid);
      writes = h.writes;
      other_readers =
          λ k ne. ground (arith, h.other_readers k ne, count-emplace c.uuid c.ptr l.readers k);
      other_writers = h.other_writers;
    },
  )

  pub may_lock_exclusive_of_Holding :
      {r w : ℕ} (l : CompassLock) → Holding r w l → 0 < w → may_lock_exclusive l c.uuid ≡ true
  unfolding may_lock_exclusive
  may_lock_exclusive_of_Holding l h p = ground (arith, h.writes, has-count c.uuid l.writers)

  pub exclusive_rule :
      {r w : ℕ} (l : CompassLock)
      → expired c.ptr ≡ false
      → Holding r w l
      → may_lock_exclusive l c.uuid ≡ true
      → (l' : CompassLock) × (try_lock_exclusive expired l c ≡ (l', true)) × Holding r (suc w) l'
  unfolding try_lock_exclusive
  exclusive_rule l live h m = (
    record l { writers = emplace c.uuid c.ptr l.writers },
    rw (collect_idle l h, m),
    record {
      exclusive = lock_sole-IsExclusive l c m h.exclusive;
      live_readers = h.live_readers;
      live_writers = emplace-NoneOf expired c.uuid c.ptr l.writers live h.live_writers;
      reads = h.reads;
      writes = ground (arith, h.writes, count-emplace c.uuid c.ptr l.writers c.uuid);
      other_readers = h.other_readers;
      other_writers =
          λ k ne. ground (arith, h.other_writers k ne, count-emplace c.uuid c.ptr l.writers k);
    },
  )

  pub release_shared_rule :
      {r w : ℕ} (l : CompassLock)
      → Holding (suc r) w l
      → (l' : CompassLock) × (release_lock_shared expired l c ≡ (l', true)) × Holding r w l'
  unfolding release_lock_shared
  release_shared_rule l h =
      let held : has c.uuid l.readers ≡ true =
        ground (arith, h.reads, has-count c.uuid l.readers) in
      (
        record l { readers = erase c.uuid l.readers },
        rw (collect_idle l h, held),
        record {
          exclusive = release_shared-IsExclusive l c.uuid h.exclusive;
          live_readers = erase-NoneOf expired c.uuid l.readers h.live_readers;
          live_writers = h.live_writers;
          reads = ground (arith, h.reads, count-erase c.uuid l.readers c.uuid);
          writes = h.writes;
          other_readers =
              λ k ne. ground (arith, h.other_readers k ne, count-erase c.uuid l.readers k);
          other_writers = h.other_writers;
        },
      )

  pub release_exclusive_rule :
      {r w : ℕ} (l : CompassLock)
      → Holding r (suc w) l
      → (l' : CompassLock) × (release_lock_exclusive expired l c ≡ (l', true)) × Holding r w l'
  unfolding release_lock_exclusive
  release_exclusive_rule l h =
      let held : has c.uuid l.writers ≡ true =
        ground (arith, h.writes, has-count c.uuid l.writers) in
      (
        record l { writers = erase c.uuid l.writers },
        rw (collect_idle l h, held),
        record {
          exclusive = release_sole-IsExclusive l c.uuid h.exclusive;
          live_readers = h.live_readers;
          live_writers = erase-NoneOf expired c.uuid l.writers h.live_writers;
          reads = h.reads;
          writes = ground (arith, h.writes, count-erase c.uuid l.writers c.uuid);
          other_readers = h.other_readers;
          other_writers =
              λ k ne. ground (arith, h.other_writers k ne, count-erase c.uuid l.writers k);
        },
      )

module _ (expired : ℕ → Bool) where
  pub collect_collect :
      (l : CompassLock)
      → collect_expired_connections expired (collect_expired_connections expired l)
        ≡ collect_expired_connections expired l
  unfolding collect_expired_connections
  collect_collect l = λ i. record {
    readers =
        erase_if_of_NoneOf expired (erase_if expired l.readers) (erase_if-NoneOf expired l.readers)
          i;
    writers =
        erase_if_of_NoneOf expired (erase_if expired l.writers) (erase_if-NoneOf expired l.writers)
          i;
  }

  -- Where the lock is well formed, the collection leaves what is held.
  pub Holding-collect :
      (c : Connection) (l : CompassLock)
      → IsExclusive l
      → let l' = collect_expired_connections expired l in
        Holding expired c l' (count c.uuid l'.readers) (count c.uuid l'.writers) l'
  unfolding collect_expired_connections
  Holding-collect c l i = record {
    exclusive = collect-IsExclusive expired l i;
    live_readers = erase_if-NoneOf expired l.readers;
    live_writers = erase_if-NoneOf expired l.writers;
    reads = refl;
    writes = refl;
    other_readers = λ k ne. refl;
    other_writers = λ k ne. refl;
  }

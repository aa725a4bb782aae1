-- ===== src/Tests/PilotTests.antt =====
-- The pilot's theorems on a few connections and compasses.
use poseidon_circe.Prelude.{
  ◌≤◌, ◌<◌, ◌⊎◌, ℕ, zero, suc, ◌-◌, ◌≡◌, ◌≢◌, refl, List, [], ◌∷◌, ◌++◌, Bool, true, false, none,
  some, inr, arith, length, take, All,
}
use poseidon_circe.Prelude.Int.{pos}
use poseidon_circe.Prelude.Bytes.{Bytes, str_eq}
use poseidon_circe.Prelude.State.{ok, throw, exception}
use poseidon_circe.FlatMap.{has, erase_if, emplace, erase, covers, lower_bound, upper_bound}
use poseidon_circe.Poseidon.{documented}
use poseidon_circe.Pilot.Lock.{
  Connection, CompassLock, locks_exclusive, locks_shared, releases_shared, Call,
  collect_expired_connections,
}
use poseidon_circe.Pilot.Lock
use poseidon_circe.Pilot.Lock.Laws.{init-IsExclusive, mutual_exclusion}
use poseidon_circe.Pilot.Messages.{
  Criterion, CompareExchangeRequest, CompareExchangeResponse, ExchangeRequest, ExchangeResponse,
}
use poseidon_circe.Pilot.Compass.{
  Env, Site, Compass, create, get_value, get_version, get_last_access_time,
}
use poseidon_circe.Pilot.Disposition.{dispositions}
use poseidon_circe.Pilot.Exchange.{compare_exchange, exchange, search_criteria}
use poseidon_circe.Pilot.Exchange.Ending.{IsAnswerable, Finished, new_value}
use poseidon_circe.Pilot.Exchange.Total.{matched, compare_exchange_total, exchange_total}
use poseidon_circe.Pilot.Repository.{
  CompassElement, Repository, find_key, get_compass, open_compass, gc_timer_proc,
}
use poseidon_circe.Pilot.Repository.Indices.{IsIndexed, step, step-IsIndexed, opens}
use poseidon_circe.Pilot.Repository.Collection.{
  get_compass-open_compass, survivor, element_of, element_of-gc_timer_proc, gc_loses_locks,
}
use poseidon_circe.Pilot.Key.{from_string, from_hash_of}
use poseidon_circe.Pilot.Key.Strings.{Accepted, from_string_lem}
use poseidon_circe.Pilot.Key.Digits.{IsDigest, encode-injective, from_string-from_hash_of}

abbrev alice : Connection
alice = record { ptr = 1; uuid = 10 }

abbrev bob : Connection
bob = record { ptr = 2; uuid = 20 }

abbrev none_expired : ℕ → Bool
none_expired p = false

-- Bob locks for reading, tries to lock for writing and releases; then Alice locks for writing, and
-- for reading too.
abbrev calls : List ((ℕ → Bool) × Call)
calls =
    (none_expired, locks_shared bob)
    ∷ (none_expired, locks_exclusive alice)
    ∷ (none_expired, releases_shared bob)
    ∷ (none_expired, locks_exclusive alice)
    ∷ (none_expired, locks_shared alice)
    ∷ []

alice_writes : has 10 (Lock.run Lock.init calls).writers ≡ true
unfolding has Lock.run Lock.step Lock.try_lock_shared Lock.may_lock_shared
    collect_expired_connections erase_if Lock.try_lock_exclusive Lock.may_lock_exclusive
    Lock.release_lock_shared covers lower_bound upper_bound emplace erase
alice_writes = refl

alice_reads : has 10 (Lock.run Lock.init calls).readers ≡ true
unfolding has Lock.run Lock.step Lock.try_lock_shared Lock.may_lock_shared
    collect_expired_connections erase_if Lock.try_lock_exclusive Lock.may_lock_exclusive
    Lock.release_lock_shared covers lower_bound upper_bound emplace erase
alice_reads = refl

mutual_exclusion_example : alice.uuid ≡ 10
mutual_exclusion_example = mutual_exclusion calls 10 10 alice_writes (inr alice_reads)

abbrev env : Env
env = record { expired = none_expired; accepts = λ p. true; utc_now = 1000 }

abbrev key : Bytes
key = 65 ∷ []

abbrev site : Site
site = record { compass = create key; sent = [] }

abbrev criteria : List Criterion
criteria =
    record { value_cmp = 1 ∷ []; value_new = 9 ∷ [] }
    ∷ record { value_cmp = []; value_new = 2 ∷ [] }
    ∷ []

abbrev compare_request : CompareExchangeRequest
compare_request = record { key = key; criteria = criteria; lock_disposition = 12 }

abbrev exchange_request : ExchangeRequest
exchange_request = record { key = key; value_new = 5 ∷ []; lock_disposition = 11 }

compare_request-IsAnswerable : IsAnswerable env alice site 12 (pos 0) (pos 1)
unfolding dispositions create
compare_request-IsAnswerable = record {
  exclusion = init-IsExclusive;
  live = refl;
  known = refl;
  holds_shared = omega arith;
  holds_exclusive = omega arith;
}

compare_exchange_total_example :
    (s' : Site) × (resp : CompareExchangeResponse) × (compare_exchange env alice compare_request
        site
      ≡ (s', ok resp))
    × Finished env alice
        (new_value env alice (matched env alice compare_request site))
        (pos 0)
        (pos 1)
        site
        (s', ok (resp.succeeded, resp.lock_state))
    × (resp.value_old ≡ get_value site.compass)
    × (resp.version_old ≡ get_version site.compass)
    × (resp.criterion_index ≡ search_criteria (get_value site.compass) criteria)
compare_exchange_total_example =
    compare_exchange_total env alice compare_request site (pos 0) (pos 1)
      compare_request-IsAnswerable

exchange_request-IsAnswerable : IsAnswerable env alice site 11 (pos 1) (pos 0)
unfolding dispositions create
exchange_request-IsAnswerable = record {
  exclusion = init-IsExclusive;
  live = refl;
  known = refl;
  holds_shared = omega arith;
  holds_exclusive = omega arith;
}

exchange_total_example :
    (s' : Site) × (resp : ExchangeResponse) × (exchange env alice exchange_request site
      ≡ (s', ok resp))
    × Finished env alice
        (some (5 ∷ []))
        (pos 1)
        (pos 0)
        site
        (s', ok (resp.succeeded, resp.lock_state))
    × (resp.value_old ≡ get_value site.compass)
    × (resp.version_old ≡ get_version site.compass)
exchange_total_example =
    exchange_total env alice exchange_request site (pos 1) (pos 0) exchange_request-IsAnswerable

abbrev element : CompassElement
element = record { ptr = 0; compass_key = key; last_access_time = 0 }

-- A compass without a value that Alice has locked.
abbrev locked_compass : Compass
locked_compass = record (create key) { lock = record { readers = []; writers = (10, 1) ∷ [] } }

abbrev repository : Repository
repository = record { heap = λ p. locked_compass; next = 1; container = some (element ∷ []) }

repository-IsIndexed : IsIndexed repository
unfolding create
repository-IsIndexed = (omega arith, refl, tt, tt)

step-IsIndexed_example : IsIndexed (step documented repository (opens (66 ∷ [])))
step-IsIndexed_example = step-IsIndexed documented repository (opens (66 ∷ [])) repository-IsIndexed

open_repository : open_compass key repository ≡ (repository, ok 0)
unfolding open_compass find_key str_eq
open_repository = refl

get_compass-open_compass_example : get_compass key repository ≡ some 0
get_compass-open_compass_example =
    get_compass-open_compass key repository repository 0 open_repository

element_of-gc_timer_proc_example :
    element_of key (gc_timer_proc documented 1000 10 repository)
    ≡ survivor (1000 - 10) (element_of key repository)
element_of-gc_timer_proc_example =
    element_of-gc_timer_proc documented key 1000 10 repository repository-IsIndexed (omega arith)
      (omega arith)

element_found : element_of key repository ≡ some element
unfolding find_key str_eq
element_found = refl

never_accessed : element.last_access_time ≡ get_last_access_time (repository.heap element.ptr)
unfolding get_last_access_time create
never_accessed = refl

never_written : (repository.heap element.ptr).dao ≡ none
unfolding create
never_written = refl

gc_loses_locks_example :
    (r' : Repository) × (ptr : ℕ) × (open_compass key (gc_timer_proc documented 1000 10 repository)
      ≡ (r', ok ptr))
    × (ptr ≢ 0)
    × ((r'.heap ptr).lock ≡ Lock.init)
    × (r'.heap 0 ≡ repository.heap 0)
gc_loses_locks_example =
    gc_loses_locks documented key 1000 10 repository element repository-IsIndexed element_found
      never_accessed never_written

-- a digest with a byte in each group of four
abbrev digest : ℕ → List ℕ
digest zero = []
digest (suc n) = 0 ∷ 0 ∷ 1 ∷ 200 ∷ digest n

digest-IsDigest : (n : ℕ) → IsDigest n (digest n)
digest-IsDigest zero = tt
digest-IsDigest (suc n) = (omega arith, omega arith, omega arith, omega arith, digest-IsDigest n)

encode-injective_example : digest 8 ≡ digest 8
encode-injective_example =
    encode-injective 8 (digest 8) (digest 8) (digest-IsDigest 8) (digest-IsDigest 8) refl

abbrev sha256 : Bytes → List ℕ
sha256 str = digest 8

from_string-from_hash_of_example :
    from_string (from_hash_of sha256 key) ≡ ok (from_hash_of sha256 key)
from_string-from_hash_of_example = from_string-from_hash_of sha256 key (digest-IsDigest 8)

abbrev letters : ℕ → Bytes
letters zero = []
letters (suc n) = 65 ∷ letters n

abbrev too_long : Bytes
too_long = letters 40 ++ letters 3

from_string_lem_example :
    ((40 ≤ length too_long)
      × All Accepted (take 40 too_long)
      × (from_string too_long ≡ ok (take 40 too_long)))
    ⊎ (((length too_long < 40) ⊎ ¬ All Accepted (take 40 too_long))
        × (from_string too_long ≡ throw exception))
from_string_lem_example = from_string_lem too_long

-- ===== src/Pilot/Repository.antt =====
-- circe-pilot/circe-pilot/src/singletons/compass_repository.cpp: the compasses in memory, with an
-- index by address, one by key and one by the time of the last access.
--
-- Compasses are objects on a heap: an element of the container holds the address, and a compass
-- that the container has dropped lives on while others hold it. `container` is `none` until the
-- module is initialized. The mutex makes each function one step. The rows in MySQL are not
-- modelled.
pub mod Indices
pub mod Collection
use poseidon_circe.Prelude.{
  ℕ, suc, ◌+◌, List, [], ◌∷◌, ◌++◌, Bool, true, false, if◌then◌else◌, Option, none, some, ◌==◌, leb,
}
use poseidon_circe.Prelude.Bytes.{Bytes, str_eq}
use poseidon_circe.Prelude.State.{M, exception, ok, throw}
use poseidon_circe.Poseidon.{Arith64}
use poseidon_circe.Pilot.Compass.{Compass, create, get_last_access_time}

pub record CompassElement : Type 0 where
  pub ptr : ℕ
  pub compass_key : Bytes
  pub last_access_time : ℕ

pub record Repository : Type 0 where
  pub heap : ℕ → Compass
  pub next : ℕ
  pub container : Option (List CompassElement)

unfoldable pub create_compass_element : (ℕ → Compass) → ℕ → CompassElement
create_compass_element heap ptr = record {
  ptr = ptr;
  compass_key = (heap ptr).compass_key;
  last_access_time = get_last_access_time (heap ptr);
}

-- `find<0>` and `find<1>`
unfoldable pub find_ptr : ℕ → List CompassElement → Option CompassElement
find_ptr p [] = none
find_ptr p (e ∷ es) = if e.ptr == p then some e else find_ptr p es

unfoldable pub find_key : Bytes → List CompassElement → Option CompassElement
find_key k [] = none
find_key k (e ∷ es) = if str_eq e.compass_key k then some e else find_key k es

-- `replace<0>(it, elem)`
unfoldable pub replace : CompassElement → List CompassElement → List CompassElement
replace x [] = []
replace x (e ∷ es) = if e.ptr == x.ptr then x ∷ es else e ∷ replace x es

-- `erase<0>(it)`
unfoldable pub erase_ptr : ℕ → List CompassElement → List CompassElement
erase_ptr p [] = []
erase_ptr p (e ∷ es) = if e.ptr == p then es else e ∷ erase_ptr p es

-- `erase<2>(begin<2>(), upper_bound<2>(expiry_time))`
unfoldable pub erase_expired : ℕ → List CompassElement → List CompassElement
erase_expired t [] = []
erase_expired t (e ∷ es) =
    let rest = erase_expired t es in if leb e.last_access_time t then rest else e ∷ rest

abbrev pub update_heap : (ℕ → Compass) → ℕ → Compass → ℕ → Compass
update_heap heap p c q = if p == q then c else heap q

unfoldable pub update_container :
    Option (List CompassElement) → (ℕ → Compass) → ℕ → Option (List CompassElement) × Bool
update_container none heap ptr = (none, false)
update_container (some es) heap ptr = elim (find_ptr ptr es) [
  | none ↦ (some es, false)
  | some e ↦ (some (replace (create_compass_element heap e.ptr) es), true)
]

unfoldable pub update_compass_indices : ℕ → Repository → Repository × Bool
unfolding update_container replace
update_compass_indices ptr r =
    let (container, done) = update_container r.container r.heap ptr in
    (record r { container = container }, done)

unfoldable pub find_in : Bytes → Option (List CompassElement) → Option ℕ
find_in key none = none
find_in key (some es) = elim (find_key key es) [ none ↦ none | some e ↦ some e.ptr ]

unfoldable pub get_compass : Bytes → Repository → Option ℕ
unfolding find_in
get_compass key r = find_in key r.container

-- the creation of a compass: at a new address, with an element for it
unfoldable pub create_compass : Bytes → List CompassElement → Repository → Repository
create_compass key es r =
    let heap = update_heap r.heap r.next (create key) in
    record {
      heap = heap;
      next = suc r.next;
      container = some (es ++ create_compass_element heap r.next ∷ []);
    }

unfoldable pub open_in : Bytes → Option (List CompassElement) → M Repository ℕ
open_in key none r = (r, throw exception)
open_in key (some es) r = elim (find_key key es) [
  | none ↦ (create_compass key es r, ok r.next)
  | some e ↦ (r, ok e.ptr)
]

unfoldable pub open_compass : Bytes → M Repository ℕ
unfolding open_in
open_compass key r = open_in key r.container r

unfoldable pub remove_in : ℕ → Option (List CompassElement) → Option (List CompassElement) × Bool
remove_in ptr none = (none, false)
remove_in ptr (some es) = elim (find_ptr ptr es) [
  | none ↦ (some es, false)
  | some e ↦ (some (erase_ptr ptr es), true)
]

unfoldable pub remove_compass : ℕ → Repository → Repository × Bool
unfolding remove_in erase_ptr
remove_compass ptr r =
    let (container, done) = remove_in ptr r.container in (record r { container = container }, done)

unfoldable pub collect_in : ℕ → Option (List CompassElement) → Option (List CompassElement)
collect_in expiry_time none = none
collect_in expiry_time (some es) = some (erase_expired expiry_time es)

-- what the timer does to the compasses in memory
unfoldable pub gc_timer_proc : Arith64 → ℕ → ℕ → Repository → Repository
unfolding collect_in erase_expired
gc_timer_proc lib utc_now expiry_duration r = record r {
  container = collect_in (lib.saturated_sub utc_now expiry_duration) r.container;
}

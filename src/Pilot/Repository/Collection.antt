-- ===== src/Pilot/Repository/Collection.antt =====
-- compass_repository.cpp: what `open_compass` finds again, and what the timer forgets.
use poseidon_circe.Prelude.{
  ℕ, ◌-◌, ◌<◌, ◌^◌, ◌≡◌, ◌≢◌, refl, subst, List, [], ◌∷◌, ◌++◌, Option, none, some, All, arith, leb,
  Bool-cases, Option-cases, inl, inr, if◌then◌else◌,
}
use poseidon_circe.Prelude.Bytes.{Bytes, str_eq, str_eq→eq, str_eq_refl}
use poseidon_circe.Prelude.State.{ok}
use poseidon_circe.Poseidon.{Arith64}
use poseidon_circe.Pilot.Lock
use poseidon_circe.Pilot.Compass.{Compass, create, get_last_access_time}
use poseidon_circe.Pilot.Repository.{
  CompassElement, Repository, create_compass_element, find_key, erase_expired, update_heap,
  collect_in, find_in, open_in, get_compass, create_compass, open_compass, gc_timer_proc,
}
use poseidon_circe.Pilot.Repository.Indices.{Apart, Indexed, IndexedIn, IsIndexed}

find_key-snoc :
    (key : Bytes) (es : List CompassElement) (x : CompassElement)
    → find_key key es ≡ none
    → find_key key (es ++ x ∷ []) ≡ (if str_eq x.compass_key key then some x else none)
unfolding find_key
find_key-snoc key [] x f = refl
find_key-snoc key (e ∷ es) x f = ground (arith, find_key-snoc key es x)

-- What `open_compass` returns is in the repository afterwards.
pub get_compass-open_compass :
    (key : Bytes) (r r' : Repository) (ptr : ℕ)
    → open_compass key r ≡ (r', ok ptr)
    → get_compass key r' ≡ some ptr
unfolding open_compass get_compass create_compass create_compass_element create
get_compass-open_compass key r r' ptr e = go r.container refl e
  where
    go :
        (c : Option (List CompassElement))
        → r.container ≡ c
        → open_in key c r ≡ (r', ok ptr)
        → find_in key r'.container ≡ some ptr
    go none q e = cc
    go (some es) q e = elim (Option-cases (find_key key es)) [
      | inl f ↦ ground (
        arith,
        find_key-snoc key es
            (create_compass_element (update_heap r.heap r.next (create key)) r.next) f,
        str_eq_refl key,
      )
      | inr (x, f) ↦ ground arith
    ]

abbrev pub survivor : ℕ → Option CompassElement → Option CompassElement
survivor t none = none
survivor t (some e) = if leb e.last_access_time t then none else some e

find_key-absent :
    (x : CompassElement) (t : ℕ) (es : List CompassElement)
    → All (Apart x) es
    → find_key x.compass_key (erase_expired t es) ≡ none
unfolding find_key erase_expired
find_key-absent x t [] a = refl
find_key-absent x t (e ∷ es) a = ground (arith, find_key-absent x t es)

-- The timer keeps an element exactly if its last access is later than the time of expiry.
find_key-erase_expired :
    (heap : ℕ → Compass) (next : ℕ) (key : Bytes) (t : ℕ) (es : List CompassElement)
    → Indexed heap next es
    → find_key key (erase_expired t es) ≡ survivor t (find_key key es)
unfolding find_key erase_expired
find_key-erase_expired heap next key t [] i = refl
find_key-erase_expired heap next key t (e ∷ es) i = elim (Bool-cases (str_eq e.compass_key key)) [
  | inl h ↦ ground (
    arith,
    subst (λ k. find_key k (erase_expired t es) ≡ none) (str_eq→eq e.compass_key key h)
        (find_key-absent e t es i.2),
  )
  | inr h ↦ ground (arith, find_key-erase_expired heap next key t es i.3)
]

-- The compass that `get_compass` finds and the time in its element.
abbrev element_in : Bytes → Option (List CompassElement) → Option CompassElement
element_in key none = none
element_in key (some es) = find_key key es

abbrev pub element_of : Bytes → Repository → Option CompassElement
element_of key r = element_in key r.container

-- Where the indices are true and the times fit in 64 bits, the timer forgets a compass exactly if
-- its element has a last access that is not later than the time of expiry.
pub element_of-gc_timer_proc :
    (lib : Arith64) (key : Bytes) (now duration : ℕ) (r : Repository)
    → IsIndexed r
    → now < 2 ^ 64
    → duration < 2 ^ 64
    → element_of key (gc_timer_proc lib now duration r)
      ≡ survivor (now - duration) (element_of key r)
unfolding gc_timer_proc
element_of-gc_timer_proc lib key now duration r i p q =
    rw (lib.saturated_sub_lem now duration p q) (go r.container i)
  where
    go :
        (c : Option (List CompassElement))
        → IndexedIn r.heap r.next c
        → element_in key (collect_in (now - duration) c)
          ≡ survivor (now - duration) (element_in key c)
    go none i = refl
    go (some es) i = find_key-erase_expired r.heap r.next key (now - duration) es i

find_key-Indexed :
    (heap : ℕ → Compass) (next : ℕ) (key : Bytes) (es : List CompassElement) (e : CompassElement)
    → Indexed heap next es
    → find_key key es ≡ some e
    → e.ptr < next
unfolding find_key
find_key-Indexed heap next key [] e i f = cc
find_key-Indexed heap next key (x ∷ es) e i f =
    ground (arith, find_key-Indexed heap next key es e i.3)

-- A compass whose value has never been set counts as never accessed. At any time the timer forgets
-- it, though connections may hold locks on it: the next request for its key gets another compass,
-- which nobody has locked, while the locks of the first stay on an object that is found no more.
pub gc_loses_locks :
    (lib : Arith64) (key : Bytes) (now duration : ℕ) (r : Repository) (e : CompassElement)
    → IsIndexed r
    → element_of key r ≡ some e
    → e.last_access_time ≡ get_last_access_time (r.heap e.ptr)
    → (r.heap e.ptr).dao ≡ none
    → (r' : Repository) × (ptr : ℕ) × (open_compass key (gc_timer_proc lib now duration r)
        ≡ (r', ok ptr))
      × (ptr ≢ e.ptr)
      × ((r'.heap ptr).lock ≡ Lock.init)
      × (r'.heap e.ptr ≡ r.heap e.ptr)
unfolding open_compass gc_timer_proc get_last_access_time create_compass create
gc_loses_locks lib key now duration r e i f s d = go r.container i f
  where
    go :
        (c : Option (List CompassElement))
        → IndexedIn r.heap r.next c
        → element_in key c ≡ some e
        → (r' : Repository) × (ptr : ℕ) × (open_in key
              (collect_in (lib.saturated_sub now duration) c)
              (record r { container = collect_in (lib.saturated_sub now duration) c })
            ≡ (r', ok ptr))
          × (ptr ≢ e.ptr)
          × ((r'.heap ptr).lock ≡ Lock.init)
          × (r'.heap e.ptr ≡ r.heap e.ptr)
    go none i f = cc
    go (some es) i f =
        let t = lib.saturated_sub now duration in
        let zero : e.last_access_time ≡ 0 = ground arith in
        let gone : find_key key (erase_expired t es) ≡ none =
          ground (arith, find_key-erase_expired r.heap r.next key t es i) in
        let below : e.ptr < r.next = find_key-Indexed r.heap r.next key es e i f in
        (
          create_compass key (erase_expired t es)
              (record r { container = some (erase_expired t es) }),
          r.next,
          rw (gone, open_in),
          (λ same. absurd (omega arith)),
          ground arith,
          ground arith,
        )

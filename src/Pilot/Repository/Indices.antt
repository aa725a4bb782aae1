-- ===== src/Pilot/Repository/Indices.antt =====
-- compass_repository.cpp: the indices by address and by key.
use poseidon_circe.Prelude.{
  ℕ, suc, ◌<◌, ◌≡◌, refl, ap, List, [], ◌∷◌, ◌++◌, false, Option, none, some, All, All-snoc, arith,
  ◌==◌, Option-cases, inl, inr,
}
use poseidon_circe.Prelude.Bytes.{Bytes, str_eq, str_eq_sym}
use poseidon_circe.Poseidon.{Arith64}
use poseidon_circe.Pilot.Compass.{Compass, create}
use poseidon_circe.Pilot.Repository.{
  CompassElement, Repository, create_compass_element, find_ptr, find_key, replace, erase_ptr,
  erase_expired, update_heap, update_container, remove_in, collect_in, open_in,
  update_compass_indices, create_compass, open_compass, remove_compass, gc_timer_proc,
}

-- No other element has the address or the key of this one.
abbrev pub Apart : CompassElement → CompassElement → Type 0
Apart e e' = (str_eq e'.compass_key e.compass_key ≡ false) × ((e'.ptr == e.ptr) ≡ false)

abbrev pub Indexed : (ℕ → Compass) → ℕ → List CompassElement → Type 0
Indexed heap next [] = Unit {0}
Indexed heap next (e ∷ es) =
    (e.ptr < next)
    × (e.compass_key ≡ (heap e.ptr).compass_key)
    × All (Apart e) es
    × Indexed heap next es

abbrev pub IndexedIn : (ℕ → Compass) → ℕ → Option (List CompassElement) → Type 0
IndexedIn heap next none = Unit {0}
IndexedIn heap next (some es) = Indexed heap next es

abbrev pub IsIndexed : Repository → Type 0
IsIndexed r = IndexedIn r.heap r.next r.container

erase_expired-Apart :
    (x : CompassElement) (t : ℕ) (es : List CompassElement)
    → All (Apart x) es
    → All (Apart x) (erase_expired t es)
unfolding erase_expired
erase_expired-Apart x t [] a = tt
erase_expired-Apart x t (e ∷ es) a = ground (arith, erase_expired-Apart x t es)

erase_expired-Indexed :
    (heap : ℕ → Compass) (next t : ℕ) (es : List CompassElement)
    → Indexed heap next es
    → Indexed heap next (erase_expired t es)
unfolding erase_expired
erase_expired-Indexed heap next t [] i = tt
erase_expired-Indexed heap next t (e ∷ es) i =
    ground (arith, erase_expired-Indexed heap next t es, erase_expired-Apart e t es)

erase_ptr-Apart :
    (x : CompassElement) (p : ℕ) (es : List CompassElement)
    → All (Apart x) es
    → All (Apart x) (erase_ptr p es)
unfolding erase_ptr
erase_ptr-Apart x p [] a = tt
erase_ptr-Apart x p (e ∷ es) a = ground (arith, erase_ptr-Apart x p es)

erase_ptr-Indexed :
    (heap : ℕ → Compass) (next p : ℕ) (es : List CompassElement)
    → Indexed heap next es
    → Indexed heap next (erase_ptr p es)
unfolding erase_ptr
erase_ptr-Indexed heap next p [] i = tt
erase_ptr-Indexed heap next p (e ∷ es) i =
    ground (arith, erase_ptr-Indexed heap next p es, erase_ptr-Apart e p es)

-- An element that is put in the place of one of its address, with its key, stands apart from the
-- same elements.
replace-Apart :
    (heap : ℕ → Compass) (next : ℕ) (x y : CompassElement) (es : List CompassElement)
    → y.compass_key ≡ (heap y.ptr).compass_key
    → Indexed heap next es
    → All (Apart x) es
    → All (Apart x) (replace y es)
unfolding replace
replace-Apart heap next x y [] k i a = tt
replace-Apart heap next x y (e ∷ es) k i a = ground (arith, replace-Apart heap next x y es k i.3)

-- Elements of the same key and address stand apart from the same elements.
Apart-same :
    (x y : CompassElement) (es : List CompassElement)
    → x.compass_key ≡ y.compass_key
    → x.ptr ≡ y.ptr
    → All (Apart x) es
    → All (Apart y) es
Apart-same x y [] p q a = tt
Apart-same x y (e ∷ es) p q a = ground (arith, Apart-same x y es p q)

replace-Indexed :
    (heap : ℕ → Compass) (next : ℕ) (y : CompassElement) (es : List CompassElement)
    → y.compass_key ≡ (heap y.ptr).compass_key
    → Indexed heap next es
    → Indexed heap next (replace y es)
unfolding replace
replace-Indexed heap next y [] k i = tt
replace-Indexed heap next y (e ∷ es) k i = ground (
  arith,
  replace-Indexed heap next y es k,
  replace-Apart heap next e y es k i.3,
  Apart-same e y es,
  ap (λ q. (heap q).compass_key) {x = e.ptr} {y = y.ptr},
)

update_compass_indices-IsIndexed :
    (ptr : ℕ) (r : Repository) → IsIndexed r → IsIndexed (update_compass_indices ptr r).0
unfolding update_compass_indices create_compass_element
update_compass_indices-IsIndexed ptr r i = go r.container i
  where
    go :
        (c : Option (List CompassElement))
        → IndexedIn r.heap r.next c
        → IndexedIn r.heap r.next (update_container c r.heap ptr).0
    go none i = tt
    go (some es) i = elim (Option-cases (find_ptr ptr es)) [
      | inl e ↦ rw (e, update_container) i
      | inr (x, e) ↦
          rw (e, update_container)
            (replace-Indexed r.heap r.next (create_compass_element r.heap x.ptr) es refl i)
    ]

remove_compass-IsIndexed :
    (ptr : ℕ) (r : Repository) → IsIndexed r → IsIndexed (remove_compass ptr r).0
unfolding remove_compass
remove_compass-IsIndexed ptr r i = go r.container i
  where
    go :
        (c : Option (List CompassElement))
        → IndexedIn r.heap r.next c
        → IndexedIn r.heap r.next (remove_in ptr c).0
    go none i = tt
    go (some es) i = elim (Option-cases (find_ptr ptr es)) [
      | inl e ↦ rw (e, remove_in) i
      | inr (x, e) ↦ rw (e, remove_in) (erase_ptr-Indexed r.heap r.next ptr es i)
    ]

gc_timer_proc-IsIndexed :
    (lib : Arith64) (now duration : ℕ) (r : Repository)
    → IsIndexed r
    → IsIndexed (gc_timer_proc lib now duration r)
unfolding gc_timer_proc
gc_timer_proc-IsIndexed lib now duration r i = go r.container i
  where
    go :
        (c : Option (List CompassElement))
        → IndexedIn r.heap r.next c
        → IndexedIn r.heap r.next (collect_in (lib.saturated_sub now duration) c)
    go none i = tt
    go (some es) i = erase_expired-Indexed r.heap r.next (lib.saturated_sub now duration) es i

-- The addresses in use stay in use, and their compasses stay what they are, where a new one is put
-- at the next address.
append-Indexed :
    (heap : ℕ → Compass) (next : ℕ) (key : Bytes) (es : List CompassElement)
    → find_key key es ≡ none
    → Indexed heap next es
    → let heap' = update_heap heap next (create key) in
      Indexed heap' (suc next) (es ++ create_compass_element heap' next ∷ [])
unfolding find_key create_compass_element create
append-Indexed heap next key [] f i = (omega arith, refl, tt, tt)
append-Indexed heap next key (e ∷ es) f i =
    let heap' = update_heap heap next (create key) in
    let x = create_compass_element heap' next in
    let apart : Apart e x = (ground (arith, str_eq_sym key e.compass_key), ground arith) in
    (
      omega (arith, i.0),
      ground (arith, i.0, i.1),
      All-snoc (Apart e) es x i.2 apart,
      append-Indexed heap next key es (ground arith) i.3,
    )

pub open_compass-IsIndexed :
    (key : Bytes) (r : Repository) → IsIndexed r → IsIndexed (open_compass key r).0
unfolding open_compass create_compass
open_compass-IsIndexed key r i = go r.container i refl
  where
    go :
        (c : Option (List CompassElement))
        → IndexedIn r.heap r.next c
        → r.container ≡ c
        → IsIndexed (open_in key c r).0
    go none i e = rw e tt
    go (some es) i e = elim (Option-cases (find_key key es)) [
      | inl f ↦ rw (f, open_in) (append-Indexed r.heap r.next key es f i)
      | inr (x, f) ↦ rw (f, open_in) (rw e i)
    ]

-- The functions of the repository, as calls.
pub data Call : Type 0 where
  updates removes : ℕ → Call
  opens : Bytes → Call
  collects : ℕ → ℕ → Call

pub step : Arith64 → Repository → Call → Repository
step lib r (updates ptr) = (update_compass_indices ptr r).0
step lib r (removes ptr) = (remove_compass ptr r).0
step lib r (opens key) = (open_compass key r).0
step lib r (collects now duration) = gc_timer_proc lib now duration r

-- Each function of the repository keeps the indices by address and by key unique and true to the
-- compasses.
pub step-IsIndexed :
    (lib : Arith64) (r : Repository) (call : Call) → IsIndexed r → IsIndexed (step lib r call)
unfolding step
step-IsIndexed lib r (updates ptr) i = update_compass_indices-IsIndexed ptr r i
step-IsIndexed lib r (removes ptr) i = remove_compass-IsIndexed ptr r i
step-IsIndexed lib r (opens key) i = open_compass-IsIndexed key r i
step-IsIndexed lib r (collects now duration) i = gc_timer_proc-IsIndexed lib now duration r i

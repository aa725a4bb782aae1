-- ===== src/Box/Supervisor/Pings.antt =====
-- websocket_shadow_session_supervisor.cpp: which sessions the timer removes.
use poseidon_circe.Prelude.{
  ℕ, ◌≡◌, refl, ap, inl, inr, List, [], ◌∷◌, Bool, true, false, Option, none, some, arith,
  Bool-cases,
}
use poseidon_circe.Box.Supervisor.{
  UuidPair, SessionElement, pair_eq, find, collect_pairs, erase_alive, back, detach_pair,
  remove_rounds, remove_sessions, ping_timer_proc,
}

find-detach_pair :
    (p : UuidPair) (k : ℕ) (es : List SessionElement) (e : SessionElement)
    → find k es ≡ some e
    → pair_eq e.foyer_gate_uuid_pair p ≡ false
    → find k (detach_pair p es).1 ≡ some e
unfolding find detach_pair
find-detach_pair p k [] e f ne = cc
find-detach_pair p k (x ∷ es) e f ne = ground (arith, find-detach_pair p k es e)

find-remove_rounds :
    (p : UuidPair) (ps : List UuidPair) (k : ℕ) (es : List SessionElement) (e : SessionElement)
    → find k es ≡ some e
    → pair_eq e.foyer_gate_uuid_pair p ≡ false
    → find k (remove_rounds p ps es).1 ≡ some e
unfolding remove_rounds
find-remove_rounds p [] k es e f ne = f
find-remove_rounds p (q ∷ ps) k es e f ne =
    find-remove_rounds p ps k (detach_pair p es).1 e (find-detach_pair p k es e f ne) ne

back-dead :
    (alive : UuidPair → Bool) (p : UuidPair) (ps : List UuidPair)
    → alive p ≡ false
    → alive (back p (erase_alive alive ps)) ≡ false
unfolding erase_alive back
back-dead alive p [] d = d
back-dead alive p (q ∷ ps) d = elim (Bool-cases (alive q)) [
  | inl h ↦ rw h (back-dead alive p ps d)
  | inr h ↦ rw h (back-dead alive q ps h)
]

-- The pair whose sessions are removed, if any pair is dead.
abbrev pub doomed : List UuidPair → Option UuidPair
doomed [] = none
doomed (p ∷ ps) = some (back p ps)

doomed-dead :
    (alive : UuidPair → Bool) (ps : List UuidPair) (p : UuidPair)
    → doomed (erase_alive alive ps) ≡ some p
    → alive p ≡ false
unfolding erase_alive
doomed-dead alive [] p e = cc
doomed-dead alive (q ∷ ps) p e = elim (Bool-cases (alive q)) [
  | inl h ↦ doomed-dead alive ps p (ground arith)
  | inr h ↦ ground (arith, back-dead alive q ps h)
]

pair_eq→eq : (p q : UuidPair) → pair_eq p q ≡ true → p ≡ q
unfolding pair_eq
pair_eq→eq p q h = ground arith

-- The sessions in a container.
abbrev pub contents : Option (List SessionElement) → List SessionElement
contents none = []
contents (some es) = es

abbrev pub dead_pairs : (UuidPair → Bool) → List SessionElement → List UuidPair
dead_pairs alive es = erase_alive alive (collect_pairs es)

-- A session whose gate answers is never removed.
pub ping-keeps-alive :
    (alive : UuidPair → Bool) (k : ℕ) (es : List SessionElement) (e : SessionElement)
    → find k es ≡ some e
    → alive e.foyer_gate_uuid_pair ≡ true
    → find k (contents (ping_timer_proc alive (some es)).1) ≡ some e
unfolding ping_timer_proc
ping-keeps-alive alive k es e f a = go (dead_pairs alive es) refl
  where
    go : (ps : List UuidPair) → dead_pairs alive es ≡ ps → find k (remove_sessions ps es).1 ≡ some e
    go [] q = f
    go (p ∷ ps) q =
        let dead = doomed-dead alive (collect_pairs es) (back p ps) (ap doomed q) in
        find-remove_rounds (back p ps) (p ∷ ps) k es e f
          (ground (arith, pair_eq→eq e.foyer_gate_uuid_pair (back p ps)))

-- Of the pairs that do not answer the timer removes the sessions of the last one only: a session of
-- another dead gate stays attached.
pub ping-forgets-dead :
    (alive : UuidPair → Bool) (k : ℕ) (es : List SessionElement) (e : SessionElement) (p : UuidPair)
    → find k es ≡ some e
    → doomed (dead_pairs alive es) ≡ some p
    → pair_eq e.foyer_gate_uuid_pair p ≡ false
    → find k (contents (ping_timer_proc alive (some es)).1) ≡ some e
unfolding ping_timer_proc
ping-forgets-dead alive k es e p f d ne = go (dead_pairs alive es) d
  where
    go : (ps : List UuidPair) → doomed ps ≡ some p → find k (remove_sessions ps es).1 ≡ some e
    go [] q = f
    go (x ∷ ps) q = find-remove_rounds (back x ps) (x ∷ ps) k es e f (ground arith)

find-detach_pair_self :
    (p : UuidPair) (k : ℕ) (es : List SessionElement) (e : SessionElement)
    → find k (detach_pair p es).1 ≡ some e
    → pair_eq e.foyer_gate_uuid_pair p ≡ false
unfolding find detach_pair
find-detach_pair_self p k [] e f = cc
find-detach_pair_self p k (x ∷ es) e f = ground (arith, find-detach_pair_self p k es e)

find-remove_rounds_self :
    (p : UuidPair) (ps : List UuidPair) (k : ℕ) (es : List SessionElement) (e : SessionElement)
    → ((x : SessionElement) → find k es ≡ some x → pair_eq x.foyer_gate_uuid_pair p ≡ false)
    → find k (remove_rounds p ps es).1 ≡ some e
    → pair_eq e.foyer_gate_uuid_pair p ≡ false
unfolding remove_rounds
find-remove_rounds_self p [] k es e h f = h e f
find-remove_rounds_self p (q ∷ ps) k es e h f =
    find-remove_rounds_self p ps k (detach_pair p es).1 e (find-detach_pair_self p k es) f

-- Of that last pair no session is found afterwards.
pub ping-removes-last :
    (alive : UuidPair → Bool) (k : ℕ) (es : List SessionElement) (e : SessionElement) (p : UuidPair)
    → doomed (dead_pairs alive es) ≡ some p
    → find k (contents (ping_timer_proc alive (some es)).1) ≡ some e
    → pair_eq e.foyer_gate_uuid_pair p ≡ false
unfolding ping_timer_proc
ping-removes-last alive k es e p d f = go (dead_pairs alive es) d f
  where
    go :
        (ps : List UuidPair)
        → doomed ps ≡ some p
        → find k (remove_sessions ps es).1 ≡ some e
        → pair_eq e.foyer_gate_uuid_pair p ≡ false
    go [] q f = cc
    go (x ∷ ps) q f =
        let same : back x ps ≡ p = ground arith in
        rw (← same) (
          unfold remove_rounds in
          find-remove_rounds_self (back x ps) ps k (detach_pair (back x ps) es).1 e
            (find-detach_pair_self (back x ps) k es) f)

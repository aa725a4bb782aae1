-- ===== src/Interserver/Sessions/Each.antt =====
-- interserver_acceptor.cpp and interserver_connector.cpp: the loops over the map of sessions.
use poseidon_circe.Prelude.{
  ℕ, ◌≤◌, ◌≡◌, refl, List, [], ◌∷◌, ◌&&◌, not, Bool, true, false, if◌then◌else◌, some, ◌==◌, length,
  All, arith,
}
use poseidon_circe.FlatMap.{count}
use poseidon_circe.FlatMap.Weak.{live}
use poseidon_circe.Interserver.Sessions.{Session, Heap, store, for_each_live}

-- An entry of the map points to the object.
unfoldable pub points_to : ℕ → List (ℕ × ℕ) → Bool
points_to p [] = false
points_to p ((k, q) ∷ m) = let rest = points_to p m in if q == p then true else rest

-- No two entries point to one object.
abbrev pub IsDistinct : List (ℕ × ℕ) → Type 0
IsDistinct [] = Unit {0}
IsDistinct ((k, p) ∷ m) = (points_to p m ≡ false) × IsDistinct m

-- The loop changes exactly the objects in the map that are there still, each once, and returns
-- their number.
pub for_each_live_lem :
    (expired : ℕ → Bool) (change : Session → Session) (m : List (ℕ × ℕ)) (heap : Heap) (p : ℕ)
    → IsDistinct m
    → ((for_each_live expired change m heap).0 p
        ≡ (if points_to p m && not (expired p) then change (heap p) else heap p))
      × ((for_each_live expired change m heap).1 ≡ length (live expired m))
unfolding for_each_live points_to live
for_each_live_lem expired change [] heap p d = (refl, refl)
for_each_live_lem expired change ((k, q) ∷ m) heap p d = ground (
  arith,
  for_each_live_lem expired change m heap p,
  for_each_live_lem expired change m (store q (change (heap q)) heap) p,
)

-- Every session in the map has its key for its UUID.
abbrev pub IsTrue : Heap → List (ℕ × ℕ) → Type 0
IsTrue heap m = All (λ e. (heap e.1).connection_uuid ≡ some e.0) m

-- A session whose UUID has no entry is not in the map.
pub points_to-false :
    (heap : Heap) (m : List (ℕ × ℕ)) (k p : ℕ)
    → IsTrue heap m
    → (heap p).connection_uuid ≡ some k
    → count k m ≡ 0
    → points_to p m ≡ false
unfolding points_to count
points_to-false heap [] k p t e c = refl
points_to-false heap ((j, q) ∷ m) k p t e c = ground (arith, points_to-false heap m k p t.1 e)

pub IsDistinct-IsTrue :
    (heap : Heap) (m : List (ℕ × ℕ)) → IsTrue heap m → ((k : ℕ) → count k m ≤ 1) → IsDistinct m
unfolding count
IsDistinct-IsTrue heap [] t u = tt
IsDistinct-IsTrue heap ((k, p) ∷ m) t u = (
  points_to-false heap m k p t.1 t.0 (ground (arith, u k)),
  IsDistinct-IsTrue heap m t.1 (λ j. ground (arith, u j)),
)

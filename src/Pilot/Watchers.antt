-- ===== src/Pilot/Watchers.antt =====
-- circe-pilot/circe-pilot/src/compass_watcher_map.hpp and compass_watcher_map.cpp: the connections
-- that are told of a compass's new values, by the UUID of the watcher. A `weak_ptr` is the address
-- of its connection, as in `Pilot.Lock`. A random UUID is an argument.
use poseidon_circe.Prelude.{
  ℕ, ◌+◌, ◌≤◌, ◌≡◌, List, [], ◌∷◌, ◌++◌, Bool, true, false, if◌then◌else◌, length, ◌==◌, arith,
}
use poseidon_circe.Prelude.State.{M, ok, throw, assertion}
use poseidon_circe.FlatMap.{
  has, emplace, erase, erase_if, count, has-count, count-emplace, count-erase, count-erase_if,
}
use mathlib.Core.List.{append-nil, append_assoc}

abbrev pub WatcherMap : Type 0
WatcherMap = List (ℕ × ℕ)

module _ (expired : ℕ → Bool) where
  -- The watchers whose connections still exist are added to `watchers_ret` and counted.
  unfoldable pub get_watchers : WatcherMap → List (ℕ × ℕ) → List (ℕ × ℕ) × ℕ
  get_watchers [] watchers_ret = (watchers_ret, 0)
  get_watchers ((uuid, ptr) ∷ m) watchers_ret = elim (expired ptr) [
    | true ↦ get_watchers m watchers_ret
    | false ↦ let (ret, n) = get_watchers m (watchers_ret ++ (uuid, ptr) ∷ []) in (ret, n + 1)
  ]

  -- An emplacement in a `flat_map` fails where the key is taken.
  unfoldable pub add_watcher : ℕ → ℕ → M WatcherMap ℕ
  add_watcher random ptr m =
      let m' = erase_if expired m in
      if has random m' then (m', throw assertion) else (emplace random ptr m', ok random)

  pub get_watchers_lem :
      (m ret : WatcherMap)
      → get_watchers m ret ≡ (ret ++ erase_if expired m, length (erase_if expired m))
  unfolding get_watchers erase_if
  get_watchers_lem [] ret = ground (arith, append-nil ret)
  get_watchers_lem ((uuid, ptr) ∷ m) ret = ground (
    arith,
    get_watchers_lem m ret,
    get_watchers_lem m (ret ++ (uuid, ptr) ∷ []),
    append_assoc ret ((uuid, ptr) ∷ []) (erase_if expired m),
  )

unfoldable pub remove_watcher : WatcherMap → ℕ → WatcherMap × Bool
remove_watcher m uuid = if has uuid m then (erase uuid m, true) else (m, false)

-- No UUID has two entries, as in every `flat_map`.
abbrev pub IsUnique : WatcherMap → Type 0
IsUnique m = (k : ℕ) → count k m ≤ 1

pub add_watcher-IsUnique :
    (expired : ℕ → Bool) (random ptr : ℕ) (m : WatcherMap)
    → IsUnique m
    → IsUnique (add_watcher expired random ptr m).0
unfolding add_watcher
add_watcher-IsUnique expired random ptr m u k = ground (
  arith,
  u k,
  count-erase_if expired m k,
  has-count random (erase_if expired m),
  count-emplace random ptr (erase_if expired m) k,
)

pub remove_watcher-IsUnique :
    (m : WatcherMap) (uuid : ℕ) → IsUnique m → IsUnique (remove_watcher m uuid).0
unfolding remove_watcher
remove_watcher-IsUnique m uuid u k = ground (arith, u k, count-erase uuid m k)

-- Once removed, a watcher is gone, and every other watcher is left.
has-remove_watcher :
    (m : WatcherMap) (uuid k : ℕ)
    → IsUnique m
    → has k (remove_watcher m uuid).0 ≡ (if uuid == k then false else has k m)
unfolding remove_watcher
has-remove_watcher m uuid k u =
    ground (
      arith,
      u k,
      count-erase uuid m k,
      has-count k m,
      has-count uuid m,
      has-count k (erase uuid m),
    )

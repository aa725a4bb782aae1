-- ===== src/Foyer/Broadcast/Groups.antt =====
-- circe-foyer/circe-foyer/src/servlets.cpp: how the broadcast groups its clients by gate.
use poseidon_circe.Prelude.{
  ℕ, ◌≤◌, ◌≡◌, refl, List, [], ◌∷◌, ◌&&◌, ◌||◌, Bool, true, false, if◌then◌else◌, Option, none,
  some, is_some, ◌==◌, Bool-cases, Option-cases, inl, inr, arith,
}
use poseidon_circe.Prelude.State.{ok}
use poseidon_circe.FlatMap.{has, find, count, emplace, has-count, count-emplace}
use poseidon_circe.FlatMap.Weak.{has_iff_find, find-emplace, find-has}
use poseidon_circe.Interserver.Acceptor.{Acceptor, get_session}
use poseidon_circe.Foyer.Broadcast.{Group, insert, add_client, change_at, require_gate, collect}

abbrev pub member : ℕ → List ℕ → Bool
member c [] = false
member c (d ∷ ds) = if d == c then true else member c ds

member-insert :
    (c d : ℕ) (ds : List ℕ) → member c (insert d ds) ≡ (if d == c then true else member c ds)
unfolding insert
member-insert c d [] = refl
member-insert c d (e ∷ ds) = ground (arith, member-insert c d ds)

-- The notification asks for the client of the gate.
abbrev pub asks : ℕ → ℕ → List (ℕ × ℕ) → Bool
asks g c [] = false
asks g c ((h, d) ∷ clients) = if h == g && d == c then true else asks g c clients

abbrev pub clients_in : Option Group → List ℕ
clients_in none = []
clients_in (some (p, clients)) = clients

abbrev changed : (Group → Group) → Option Group → Option Group
changed f none = none
changed f (some g) = some (f g)

find-change_at :
    (k : ℕ) (f : Group → Group) (m : List (ℕ × Group)) (j : ℕ)
    → find j (change_at k f m) ≡ (if k == j then changed f (find j m) else find j m)
unfolding find change_at
find-change_at k f [] j = ground arith
find-change_at k f ((i, g) ∷ m) j = ground (arith, find-change_at k f m j)

count-change_at :
    (k : ℕ) (f : Group → Group) (m : List (ℕ × Group)) (j : ℕ)
    → count j (change_at k f m) ≡ count j m
unfolding count change_at
count-change_at k f [] j = refl
count-change_at k f ((i, g) ∷ m) j = ground (arith, count-change_at k f m j)

-- The elements of the map, where `P` says which clients have been asked for so far.
pub record Fits (session : ℕ → Option ℕ) (P : ℕ → ℕ → Bool) (m : List (ℕ × Group)) : Type 0 where
  pub once : (g : ℕ) → count g m ≤ 1
  pub conn : (g : ℕ) (group : Group) → find g m ≡ some group → session g ≡ group.0
  pub members : (g c : ℕ) → member c (clients_in (find g m)) ≡ (P g c && is_some (session g))

module _ (session : ℕ → Option ℕ) where
  pub none-Fits : Fits session (λ g c. false) []
  none-Fits = record {
    once = λ g. unfold count in omega arith;
    conn = λ g group e. unfold find in cc;
    members = λ g c. unfold find in refl;
  }

  Fits-emplace :
      (P : ℕ → ℕ → Bool) (m : List (ℕ × Group)) (g : ℕ)
      → has g m ≡ false
      → Fits session P m
      → Fits session P (emplace g (session g, []) m)
  Fits-emplace P m g h v = record {
    once = λ j. ground (arith, v.once j, count-emplace g (session g, []) m j, has-count g m);
    conn = λ j group e. ground (arith, find-emplace g j (session g, []) m h, v.conn j group);
    members =
        λ j c. ground (arith, find-emplace g j (session g, []) m h, find-has g m h, v.members j c);
  }

  add_client-conn : (c : ℕ) (group : Group) → (add_client c group).0 ≡ group.0
  unfolding add_client
  add_client-conn c (none, ds) = refl
  add_client-conn c (some p, ds) = refl

  add_client-member :
      (c d : ℕ) (group : Group)
      → member d (add_client c group).1
        ≡ (if c == d && is_some group.0 then true else member d group.1)
  unfolding add_client
  add_client-member c d (none, ds) = ground arith
  add_client-member c d (some p, ds) = ground (arith, member-insert d c ds)

  Fits-change_at :
      (P : ℕ → ℕ → Bool) (m : List (ℕ × Group)) (g c : ℕ) (group : Group)
      → find g m ≡ some group
      → Fits session P m
      → Fits session
          (λ h d. if g == h && c == d then true else P h d)
          (change_at g (add_client c) m)
  Fits-change_at P m g c group e v = record {
    once = λ j. ground (arith, v.once j, count-change_at g (add_client c) m j);
    conn = λ j group' f. ground (
      arith,
      find-change_at g (add_client c) m j,
      v.conn j group',
      v.conn g group e,
      add_client-conn c group,
    );
    members = λ j d. ground (
      arith,
      find-change_at g (add_client c) m j,
      v.members j d,
      v.conn g group e,
      add_client-member c d group,
    );
  }

module _ (expired accepts : ℕ → Bool) (a : Acceptor) (session : ℕ → Option ℕ)
    (found : (g : ℕ) → get_session expired g a ≡ ok (session g)) where
  record Required (P : ℕ → ℕ → Bool) (g : ℕ) (m : List (ℕ × Group)) : Type 0 where
    map_then : List (ℕ × Group)
    group : Group
    made : require_gate expired accepts g a m ≡ ok map_then
    there : find g map_then ≡ some group
    fits : Fits session P map_then

  require_gate-Required :
      (P : ℕ → ℕ → Bool) (g : ℕ) (m : List (ℕ × Group)) → Fits session P m → Required P g m
  unfolding require_gate
  require_gate-Required P g m v = elim (Bool-cases (has g m)) [
    | inl h ↦ elim (Option-cases (find g m)) [
      | inl e ↦ ground (arith, has_iff_find g m)
      | inr (group, e) ↦ record {
        map_then = m;
        group = group;
        made = rw h refl;
        there = e;
        fits = v;
      }
    ]
    | inr h ↦ record {
      map_then = emplace g (session g, []) m;
      group = (session g, []);
      made = rw (h, found g) refl;
      there = ground (arith, find-emplace g g (session g, []) m h);
      fits = Fits-emplace session P m g h v;
    }
  ]

  pub record Collected (P : ℕ → ℕ → Bool) (clients : List (ℕ × ℕ)) (m : List (ℕ × Group))
      : Type 0 where
    pub groups : List (ℕ × Group)
    pub made : collect expired accepts a clients m ≡ ok groups
    pub fits : Fits session (λ g c. asks g c clients || P g c) groups

  pub collect-Collected :
      (P : ℕ → ℕ → Bool) (clients : List (ℕ × ℕ)) (m : List (ℕ × Group))
      → Fits session P m
      → Collected P clients m
  unfolding collect
  collect-Collected P [] m v = record { groups = m; made = refl; fits = v }
  collect-Collected P ((g, c) ∷ clients) m v =
      let r = require_gate-Required P g m v in
      let rest =
        collect-Collected (λ h d. if g == h && c == d then true else P h d) clients
          (change_at g (add_client c) r.map_then)
          (Fits-change_at session P r.map_then g c r.group r.there r.fits) in
      record {
        groups = rest.groups;
        made = rw (r.made, collect) rest.made;
        fits = record {
          once = rest.fits.once;
          conn = rest.fits.conn;
          members = λ h d. ground (arith, rest.fits.members h d);
        };
      }

-- ===== src/Gate/BanList/Bans.antt =====
-- ip_ban_list.cpp: what counting a request does to the bans.
use poseidon_circe.Prelude.{
  ℕ, ◌≤◌, ◌≡◌, ◌⊎◌, ◌∙◌, refl, ap, List, [], ◌∷◌, false, Option, none, some, ◌==◌, leb, All, arith,
  Bool-cases, Option-cases, inl, inr,
}
use poseidon_circe.Poseidon.{Arith64}
use poseidon_circe.Gate.BanList.{
  CounterIndex, IpElement, find, put, erase_expired, require, new_element, count_request,
  accumulate, get_counter,
}

-- Each address has one element at most, and an element is kept as long as its ban lasts.
abbrev pub WellKept : List IpElement → Type 0
WellKept [] = Unit {0}
WellKept (e ∷ es) =
    (e.ban_expiry_time ≤ e.expiry_time)
    × All (λ e'. (e'.ip_port == e.ip_port) ≡ false) es
    × WellKept es

-- The time until which an address is banned, or 0.
abbrev pub ban_expiry : Option IpElement → ℕ
ban_expiry none = 0
ban_expiry (some e) = e.ban_expiry_time

abbrev pub banned_until : ℕ → List IpElement → ℕ
banned_until key es = ban_expiry (find key es)

find-absent :
    (k : ℕ) (es : List IpElement) → All (λ e'. (e'.ip_port == k) ≡ false) es → find k es ≡ none
unfolding find
find-absent k [] a = refl
find-absent k (e ∷ es) a = ground (arith, find-absent k es a.1)

erase_expired-All :
    (k now : ℕ) (es : List IpElement)
    → All (λ e'. (e'.ip_port == k) ≡ false) es
    → All (λ e'. (e'.ip_port == k) ≡ false) (erase_expired now es)
unfolding erase_expired
erase_expired-All k now [] a = tt
erase_expired-All k now (e ∷ es) a = ground (arith, erase_expired-All k now es a.1)

pub erase_expired-WellKept :
    (now : ℕ) (es : List IpElement) → WellKept es → WellKept (erase_expired now es)
unfolding erase_expired
erase_expired-WellKept now [] w = tt
erase_expired-WellKept now (e ∷ es) w =
    ground (arith, erase_expired-WellKept now es w.2, erase_expired-All e.ip_port now es w.1)

All-ip :
    (j k : ℕ) (es : List IpElement)
    → j ≡ k
    → All (λ e'. (e'.ip_port == j) ≡ false) es
    → All (λ e'. (e'.ip_port == k) ≡ false) es
All-ip j k es p a = rw (← p) a

-- The elements that are erased are no longer banned.
pub find-erase_expired :
    (k now : ℕ) (es : List IpElement)
    → WellKept es
    → (find k (erase_expired now es) ≡ find k es)
      ⊎ ((find k (erase_expired now es) ≡ none) × (banned_until k es ≤ now))
unfolding find erase_expired
find-erase_expired k now [] w = inl refl
find-erase_expired k now (e ∷ es) w = elim (Bool-cases (e.ip_port == k)) [
  | inl h ↦ ground (
    arith,
    find-absent k (erase_expired now es)
        (erase_expired-All k now es (All-ip e.ip_port k es (ground arith) w.1)),
  )
  | inr h ↦ ground (arith, find-erase_expired k now es w.2)
]

find-put :
    (k : ℕ) (x : IpElement) (es : List IpElement)
    → (x.ip_port == k) ≡ false
    → find k (put x es) ≡ find k es
unfolding find put
find-put k x [] ne = refl
find-put k x (e ∷ es) ne = ground (arith, find-put k x es ne)

pub find-put_self :
    (x e : IpElement) (es : List IpElement)
    → find x.ip_port es ≡ some e
    → find x.ip_port (put x es) ≡ some x
unfolding find put
find-put_self x e [] f = cc
find-put_self x e (y ∷ es) f = ground (arith, find-put_self x e es)

put-All :
    (k : ℕ) (x : IpElement) (es : List IpElement)
    → (x.ip_port == k) ≡ false
    → All (λ e'. (e'.ip_port == k) ≡ false) es
    → All (λ e'. (e'.ip_port == k) ≡ false) (put x es)
unfolding put
put-All k x [] ne a = tt
put-All k x (e ∷ es) ne a = ground (arith, put-All k x es ne a.1)

put-WellKept :
    (x : IpElement) (es : List IpElement)
    → x.ban_expiry_time ≤ x.expiry_time
    → WellKept es
    → WellKept (put x es)
unfolding put
put-WellKept x [] b w = tt
put-WellKept x (e ∷ es) b w = elim (Bool-cases (e.ip_port == x.ip_port)) [
  | inl h ↦ rw h (b, All-ip e.ip_port x.ip_port es (ground arith) w.1, w.2)
  | inr h ↦ rw h (w.0, put-All e.ip_port x es (ground arith) w.1, put-WellKept x es b w.2)
]

none-All :
    (k : ℕ) (es : List IpElement) → find k es ≡ none → All (λ e'. (e'.ip_port == k) ≡ false) es
unfolding find
none-All k [] f = tt
none-All k (e ∷ es) f = ground (arith, none-All k es)

find-WellKept :
    (k : ℕ) (es : List IpElement) (e : IpElement)
    → WellKept es
    → find k es ≡ some e
    → (e.ban_expiry_time ≤ e.expiry_time) × (e.ip_port ≡ k)
unfolding find
find-WellKept k [] e w f = cc
find-WellKept k (x ∷ es) e w f = ground (arith, find-WellKept k es e w.2)

-- What `require` gives: an element of the address that is in the list, and every other address as
-- it was.
pub record Required (k : ℕ) (es : List IpElement) (r : IpElement × List IpElement) : Type 0 where
  pub kept : WellKept r.1
  pub same_ip : r.0.ip_port ≡ k
  pub lasts : r.0.ban_expiry_time ≤ r.0.expiry_time
  pub present : find k r.1 ≡ some r.0
  pub others : (j : ℕ) → (k == j) ≡ false → find j r.1 ≡ find j es

pub require-Required :
    (k expiry_time : ℕ) (es : List IpElement)
    → WellKept es
    → Required k es (require k expiry_time es)
unfolding require new_element
require-Required k expiry_time es w = elim (Option-cases (find k es)) [
  | inl f ↦
      rw (f, require)
        (record {
          kept = (omega arith, none-All k es f, w);
          same_ip = refl;
          lasts = omega arith;
          present = unfold find in ground arith;
          others = λ j ne. unfold find in ground arith;
        })
  | inr (e, f) ↦
      let (lasts, ip) = find-WellKept k es e w f in
      rw (f, require)
        (record { kept = w; same_ip = ip; lasts = lasts; present = f; others = λ j ne. refl })
]

module _ (lib : Arith64) (i : CounterIndex) (max now duration : ℕ) where
  count_request-WellKept :
      (k : ℕ) (es : List IpElement) (r : IpElement × List IpElement)
      → Required k es r
      → WellKept (count_request lib i max now duration r).0
  unfolding count_request
  count_request-WellKept k es (e, es') r =
      elim (Option-cases (lib.checked_add (get_counter i e.counters) 1)) [
        | inl o ↦ rw (o, count_request) r.kept
        | inr (n, o) ↦ elim (Bool-cases (leb max n)) [
          | inl b ↦ rw (o, count_request, b) (put-WellKept _ es' (omega arith) r.kept)
          | inr b ↦ rw (o, count_request, b) (put-WellKept _ es' r.lasts r.kept)
        ]
      ]

  count_request-find :
      (k j : ℕ) (es : List IpElement) (r : IpElement × List IpElement)
      → Required k es r
      → (k == j) ≡ false
      → find j (count_request lib i max now duration r).0 ≡ find j es
  unfolding count_request
  count_request-find k j es (e, es') r ne =
      let apart : (e.ip_port == j) ≡ false = ground (arith, r.same_ip) in
      elim (Option-cases (lib.checked_add (get_counter i e.counters) 1)) [
        | inl o ↦ rw (o, count_request) (r.others j ne)
        | inr (n, o) ↦ elim (Bool-cases (leb max n)) [
          | inl b ↦ rw (o, count_request, b) (find-put j _ es' apart ∙ r.others j ne)
          | inr b ↦ rw (o, count_request, b) (find-put j _ es' apart ∙ r.others j ne)
        ]
      ]

  -- Counting a request keeps the elements apart, and as long as their bans.
  pub accumulate-WellKept :
      (key : Option ℕ) (es : List IpElement)
      → WellKept es
      → WellKept (accumulate lib i max now duration key es).0
  unfolding accumulate
  accumulate-WellKept none es w = erase_expired-WellKept now es w
  accumulate-WellKept (some k) es w =
      count_request-WellKept k (erase_expired now es) _
        (require-Required k _ (erase_expired now es) (erase_expired-WellKept now es w))

  -- A request from one address leaves the ban of every other address as it is, unless that ban is
  -- over: what is forgotten with expired elements is no ban that is still in force.
  pub other_bans_kept :
      (k j : ℕ) (es : List IpElement)
      → WellKept es
      → (k == j) ≡ false
      → (banned_until j (accumulate lib i max now duration (some k) es).0 ≡ banned_until j es)
        ⊎ (banned_until j es ≤ now)
  unfolding accumulate
  other_bans_kept k j es w ne =
      let r =
        require-Required k (lib.saturated_add now 60000) (erase_expired now es)
          (erase_expired-WellKept now es w) in
      let same = count_request-find k j (erase_expired now es) _ r ne in
      elim (find-erase_expired j now es w) [
        | inl e ↦ inl (ap ban_expiry (same ∙ e))
        | inr (_, over) ↦ inr over
      ]

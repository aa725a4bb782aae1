-- ===== src/Gate/BanList/Floods.antt =====
-- ip_ban_list.cpp: how many requests of one address pass before it is banned.
use poseidon_circe.Prelude.{
  ℕ, ◌+◌, ◌-◌, ◌≤◌, ◌<◌, ◌^◌, ◌≡◌, ◌∙◌, refl, ap, sym, subst, ◌⊎◌, leb→le, List, Option, none, some,
  leb, min, arith, Bool-cases, Option-cases, inl, inr,
}
use poseidon_circe.Prelude.State.{ok, throw, exception}
use poseidon_circe.Poseidon.{Arith64}
use poseidon_circe.Gate.BanList.{
  CounterIndex, counter_http_request, counter_websocket_request, counter_auth_failure, IpElement,
  get_counter, set_counter, find, put, erase_expired, require, new_element, count_request,
  accumulate,
}
use poseidon_circe.Gate.BanList.Bans.{
  WellKept, banned_until, ban_expiry, find-put_self, erase_expired-WellKept, Required,
  require-Required,
}

get-set_counter :
    (i : CounterIndex) (n : ℕ) (e : IpElement) → get_counter i (set_counter i n e.counters) ≡ n
get-set_counter counter_http_request n e = refl
get-set_counter counter_websocket_request n e = refl
get-set_counter counter_auth_failure n e = refl

-- The requests of an address that are on record at a time.
abbrev pub recorded_in : CounterIndex → Option IpElement → ℕ
recorded_in i none = 0
recorded_in i (some e) = get_counter i e.counters

abbrev pub recorded : CounterIndex → ℕ → List IpElement → ℕ
recorded i key es = recorded_in i (find key es)

zero_counter : (i : CounterIndex) (key t : ℕ) → get_counter i (new_element key t).counters ≡ 0
unfolding new_element
zero_counter counter_http_request key t = refl
zero_counter counter_websocket_request key t = refl
zero_counter counter_auth_failure key t = refl

module _ (lib : Arith64) (i : CounterIndex) (max now duration : ℕ) where
  required_counter :
      (key t : ℕ) (es : List IpElement)
      → get_counter i (require key t es).0.counters ≡ recorded i key es
  unfolding require new_element
  required_counter key t es = elim (Option-cases (find key es)) [
    | inl f ↦ rw (f, require) (zero_counter i key t)
    | inr (e, f) ↦ rw (f, require)
  ]

  -- The counter and the time of expiry of an address's element.
  abbrev pub OnRecord : ℕ → ℕ → ℕ → List IpElement → Type 0
  OnRecord key n t es =
      (e : IpElement) × (find key es ≡ some e)
      × (get_counter i e.counters ≡ n)
      × (e.expiry_time ≡ t)

  count_request_outcome :
      (key : ℕ) (es : List IpElement) (r : IpElement × List IpElement)
      → Required key es r
      → now < 2 ^ 64
      → duration < 2 ^ 64
      → get_counter i r.0.counters + 1 < 2 ^ 64
      → let out = count_request lib i max now duration r in
        let n = get_counter i r.0.counters + 1 in
        ((max ≤ n)
          × (out.1 ≡ throw exception)
          × (banned_until key out.0 ≡ min (now + duration) (2 ^ 64 - 1)))
        ⊎ ((n < max) × (out.1 ≡ ok tt) × OnRecord key n r.0.expiry_time out.0)
  unfolding count_request
  count_request_outcome key es (e, es') r p q s =
      let n = get_counter i e.counters + 1 in
      let added : lib.checked_add (get_counter i e.counters) 1 ≡ some n =
        ground (arith, lib.checked_add_lem (get_counter i e.counters) 1) in
      let found = λ (x : IpElement) (same : x.ip_port ≡ key).
        subst (λ k. find k (put x es') ≡ some x) same
          (find-put_self x e es' (subst (λ k. find k es' ≡ some e) (sym same) r.present)) in
      let counted = record e { counters = set_counter i n e.counters } in
      let until = lib.saturated_add now duration in
      elim (Bool-cases (leb max n)) [
        | inl b ↦
            rw (added, count_request, b)
              (inl (
                omega (arith, leb→le max n b),
                refl,
                ap ban_expiry (
                      found (record counted { expiry_time = until; ban_expiry_time = until })
                        r.same_ip)
                    ∙ lib.saturated_add_lem now duration p q,
              ))
        | inr b ↦
            rw (added, count_request, b)
              (inr (
                ground arith,
                refl,
                (counted, found counted r.same_ip, get-set_counter i n e, refl),
              ))
      ]

  -- On a list that is well kept, with times and a number on record that fit in 64 bits: a request
  -- takes the number on record, after expired elements are erased, one up. Where that is less than
  -- the maximum it passes, and where it reaches the maximum it is refused and the address is banned
  -- for the duration, or until the end of time.
  pub accumulate_outcome :
      (key : ℕ) (es : List IpElement)
      → WellKept es
      → now < 2 ^ 64
      → duration < 2 ^ 64
      → recorded i key (erase_expired now es) + 1 < 2 ^ 64
      → let out = accumulate lib i max now duration (some key) es in
        let n = recorded i key (erase_expired now es) + 1 in
        ((max ≤ n)
          × (out.1 ≡ throw exception)
          × (banned_until key out.0 ≡ min (now + duration) (2 ^ 64 - 1)))
        ⊎ ((n < max) × (out.1 ≡ ok tt) × (recorded i key out.0 ≡ n))
  unfolding accumulate
  accumulate_outcome key es w p q s =
      let t = lib.saturated_add now 60000 in
      let live = erase_expired now es in
      let c = required_counter key t live in
      let r = require-Required key t live (erase_expired-WellKept now es w) in
      elim (count_request_outcome key live (require key t live) r p q (omega (arith, c))) [
        | inl (a, b, d) ↦ inl (omega (arith, c), b, d)
        | inr (a, b, (e, f, g, h)) ↦
            inr (omega (arith, c), b, ap (recorded_in i) f ∙ g ∙ omega (arith, c))
      ]

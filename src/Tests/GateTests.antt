-- ===== src/Tests/GateTests.antt =====
-- The gate's theorems on a ban list with one banned address.
use poseidon_circe.Prelude.{
  ◌+◌, ◌-◌, ◌<◌, ◌≤◌, ◌^◌, ◌≡◌, ◌⊎◌, refl, List, [], ◌∷◌, some, arith, min,
}
use poseidon_circe.Prelude.State.{ok, throw, exception}
use poseidon_circe.Poseidon.{documented}
use poseidon_circe.Gate.BanList.{IpElement, counter_http_request, erase_expired, find, accumulate}
use poseidon_circe.Gate.BanList.Bans.{WellKept, banned_until, accumulate-WellKept, other_bans_kept}
use poseidon_circe.Gate.BanList.Floods.{recorded, accumulate_outcome}

-- An address that has sent 4 requests, and one that is banned until 5000.
abbrev elements : List IpElement
elements =
    record {
      ip_port = 1;
      expiry_time = 3000;
      counters = record { http_request = 4; websocket_request = 0; auth_failure = 0 };
      ban_expiry_time = 0;
    }
    ∷ record {
      ip_port = 2;
      expiry_time = 5000;
      counters = record { http_request = 9; websocket_request = 0; auth_failure = 0 };
      ban_expiry_time = 5000;
    }
    ∷ []

elements-WellKept : WellKept elements
elements-WellKept = (omega arith, (refl, tt), (omega arith, tt, tt))

accumulate-WellKept_example :
    WellKept (accumulate documented counter_http_request 5 1000 600 (some 1) elements).0
accumulate-WellKept_example =
    accumulate-WellKept documented counter_http_request 5 1000 600 (some 1) elements
      elements-WellKept

other_bans_kept_example :
    (banned_until 2 (accumulate documented counter_http_request 5 1000 600 (some 1) elements).0
      ≡ banned_until 2 elements)
    ⊎ (banned_until 2 elements ≤ 1000)
other_bans_kept_example =
    other_bans_kept documented counter_http_request 5 1000 600 1 2 elements elements-WellKept refl

few_recorded : recorded counter_http_request 1 (erase_expired 1000 elements) + 1 < 2 ^ 64
unfolding erase_expired find
few_recorded = omega arith

-- The fifth request of the first address, with a maximum of 5.
accumulate_outcome_example :
    let out = accumulate documented counter_http_request 5 1000 600 (some 1) elements in
    let n = recorded counter_http_request 1 (erase_expired 1000 elements) + 1 in
    ((5 ≤ n) × (out.1 ≡ throw exception) × (banned_until 1 out.0 ≡ min (1000 + 600) (2 ^ 64 - 1)))
    ⊎ ((n < 5) × (out.1 ≡ ok tt) × (recorded counter_http_request 1 out.0 ≡ n))
accumulate_outcome_example =
    accumulate_outcome documented counter_http_request 5 1000 600 1 elements elements-WellKept
      (omega arith) (omega arith) few_recorded

-- ===== src/Balancer/P2c.antt =====
-- lb/server/http/p2c.go: a pool of backends that picks by the power of two choices.
-- Backends are values here: in a pool an object of the code stands in one list at a time.
pub mod Lists
pub mod Pools
pub mod Picks
pub mod Faults
pub mod Race
pub mod Rounds
pub mod Started
use gofordevopsclass.Prelude.{
  ℕ, ◌+◌, String, Bool, true, false, ◌&&◌, if◌then◌else◌, nat_beq, ltb, ◌==◌, string_eq, length,
  get_elem?, List, [], ◌∷◌, ◌++◌, map, Option, none, some,
}
use gofordevopsclass.Prelude.Int.{ℤ, pos, ltb_ℤ}
use gofordevopsclass.Balancer.Backend.{
  IpBackend, WeightedBackend, url, set_health, HealthState, healthy, sick,
}

pub data PoolError : Type 0 where
  context_done backend_is_sick already_exists could_not_find : PoolError

-- addToValue: the new list, or none for `backend already exists`.
unfoldable pub add_to_value : WeightedBackend → List WeightedBackend → Option (List WeightedBackend)
add_to_value b [] = some (b ∷ [])
add_to_value b (back ∷ backs) =
    let rest = add_to_value b backs in
    if url b == url back then none else (elim rest [ none ↦ none | some n ↦ some (back ∷ n) ])

-- The loop of removeFromValue.
unfoldable pub others : String → List WeightedBackend → List WeightedBackend
others u [] = []
others u (back ∷ backs) = if u == url back then others u backs else back ∷ others u backs

-- removeFromValue: its error, and the list that is stored afterwards. An empty list is left with
-- no error.
unfoldable pub remove_from_value :
    String → List WeightedBackend → Option PoolError × List WeightedBackend
remove_from_value u [] = (none, [])
remove_from_value u (b ∷ bs) =
    let n = others u (b ∷ bs) in
    if nat_beq (length (b ∷ bs)) (length n) then (some could_not_find, b ∷ bs) else (none, n)

pub record Pool : Type 0 where
  pub healthy : List WeightedBackend
  pub sick : List WeightedBackend
  pub closed : Bool

-- A call that returns, or that panics and takes the process down.
pub data Ran {ℓ} (A : Type ℓ) : Type ℓ where
  ran : A → Ran A
  panicked : Ran A

unfoldable pub new_p2c : Pool
new_p2c = record { healthy = []; sick = []; closed = false }

-- Close: close(s.done) panics the second time.
unfoldable pub close : Pool → Ran Pool
close p = if p.closed then panicked else ran (record p { closed = true })

abbrev stored_healthy : Pool → Option (List WeightedBackend) → Option PoolError × Pool
stored_healthy p none = (some already_exists, p)
stored_healthy p (some n) = (none, record p { healthy = n })

-- Add, with what ctx.Err and the health check say.
unfoldable pub add : Bool → (String → Bool) → IpBackend → Pool → Option PoolError × Pool
add ctx_err hc b p =
    if ctx_err
    then (some context_done, p)
    else if hc b.url
    then stored_healthy p (
        add_to_value
          (record { backend = record b { health = HealthState.healthy }; weight = pos 0 })
          p.healthy)
    else (some backend_is_sick, p)

-- Remove drops the errors of both removals.
unfoldable pub remove : IpBackend → Pool → Pool
remove b p = record p {
  healthy = (remove_from_value b.url p.healthy).1;
  sick = (remove_from_value b.url p.sick).1;
}

abbrev moved_to_sick : Pool → Option (List WeightedBackend) → Ran Pool
moved_to_sick p none = panicked
moved_to_sick p (some n) = ran (record p { sick = n })

abbrev moved_to_healthy : Pool → Option (List WeightedBackend) → Ran Pool
moved_to_healthy p none = panicked
moved_to_healthy p (some n) = ran (record p { healthy = n })

-- setHealth writes to the backend wherever it stands.
abbrev pub mark : HealthState → String → List WeightedBackend → List WeightedBackend
mark h u [] = []
mark h u (b ∷ bs) = (if url b == u then set_health h b else b) ∷ mark h u bs

-- healthyToSick, with no other goroutine between its steps.
unfoldable pub healthy_to_sick : WeightedBackend → Pool → Ran Pool
healthy_to_sick b p =
    let (e, n) = remove_from_value (url b) p.healthy in
    elim e [
      | some x ↦ ran (record p { healthy = mark HealthState.sick (url b) p.healthy })
      | none ↦
          moved_to_sick (record p { healthy = n })
            (add_to_value (set_health HealthState.sick b) p.sick)
    ]

unfoldable pub sick_to_healthy : WeightedBackend → Pool → Ran Pool
sick_to_healthy b p =
    let (e, n) = remove_from_value (url b) p.sick in
    elim e [
      | some x ↦ ran (record p { sick = mark HealthState.healthy (url b) p.sick })
      | none ↦
          moved_to_healthy (record p { sick = n })
            (add_to_value (set_health HealthState.healthy b) p.healthy)
    ]

-- The goroutines of healthChecks, one after another: first those of the healthy list, then those of
-- the sick list, both as they stood at the start.
unfoldable pub check_healthy : (String → Bool) → List WeightedBackend → Pool → Ran Pool
check_healthy hc [] p = ran p
check_healthy hc (b ∷ bs) p =
    if hc (url b)
    then check_healthy hc bs p
    else (elim (healthy_to_sick b p) [ ran q ↦ check_healthy hc bs q | panicked ↦ panicked ])

unfoldable pub check_sick : (String → Bool) → List WeightedBackend → Pool → Ran Pool
check_sick hc [] p = ran p
check_sick hc (b ∷ bs) p =
    if hc (url b)
    then (elim (sick_to_healthy b p) [ ran q ↦ check_sick hc bs q | panicked ↦ panicked ])
    else check_sick hc bs p

unfoldable pub health_checks : (String → Bool) → Pool → Ran Pool
health_checks hc p = elim (check_healthy hc p.healthy p) [
  | ran q ↦ check_sick hc p.sick q
  | panicked ↦ panicked
]

-- ServeHTTP: the backend that serves a request, for the two numbers that Int31n(len(backs)) gives;
-- none is the answer 500. An index out of range, which Int31n never gives, is none as well.
unfoldable pub serve_http : ℕ → ℕ → Pool → Option WeightedBackend
serve_http x y p = elim (get_elem? p.healthy x) [
  | none ↦ none
  | some bx ↦ elim (get_elem? p.healthy y) [
    | none ↦ none
    | some by ↦ some (if ltb_ℤ bx.weight by.weight then bx else by)
  ]
]

pub data PoolStatus : Type 0 where
  ps_full ps_empty ps_degraded : PoolStatus

pub data BackendStatus : Type 0 where
  bs_healthy bs_sick : BackendStatus

pub record BackendHealth : Type 0 where
  pub ip : String
  pub port : ℕ
  pub url_path : String
  pub status : BackendStatus

pub record PoolHealth : Type 0 where
  pub status : PoolStatus
  pub backends : List BackendHealth

abbrev pub health_of : BackendStatus → WeightedBackend → BackendHealth
health_of s w = record {
  ip = w.backend.ip;
  port = w.backend.port;
  url_path = w.backend.url_path;
  status = s;
}

-- Health, for a request that asks for the healthy backends, the sick ones, or both.
unfoldable pub health : Bool → Bool → Pool → PoolHealth
health want_healthy want_sick p =
    let n = length p.healthy in
    let k = length p.sick in
    if nat_beq k 0 && nat_beq n 0 then record { status = ps_empty; backends = [] } else record {
      status = if ltb 0 k then ps_degraded else ps_full;
      backends =
          (if want_healthy then map (health_of bs_healthy) p.healthy else [])
          ++ (if want_sick then map (health_of bs_sick) p.sick else []);
    }

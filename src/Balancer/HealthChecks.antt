-- ===== src/Balancer/HealthChecks.antt =====
-- Health checks and the making of backends of lb/server/http/server.go. A check is true where the
-- code returns no error. The GET of a path at an endpoint, the parsing of an ip and the text of a
-- url are parameters.
pub mod Arrivals
use gofordevopsclass.Prelude.{
  String, Bool, true, false, ◌&&◌, ◌||◌, if◌then◌else◌, contains, string_eq, nat_eq, List, [], ◌∷◌,
  Option, none, some,
}
use gofordevopsclass.Prelude.Int.{ℤ, pos, pos_part, ltb_ℤ}
use gofordevopsclass.Prelude.Text.{trim_space}
use gofordevopsclass.GoMap.{lookup}
use gofordevopsclass.Balancer.Backend.{IpBackend, HealthState}
use gofordevopsclass.Balancer.P2c.{PoolHealth, health}
use gofordevopsclass.Balancer.LoadBalancer.{LoadBalancer}

abbrev pub HealthCheck : Type 0
HealthCheck = String → Bool

-- HealthMultiplexer: an error of any check is its error, whichever reports first.
unfoldable pub health_multiplexer : List HealthCheck → HealthCheck
health_multiplexer [] endpoint = true
health_multiplexer (hc ∷ hcs) endpoint = health_multiplexer hcs endpoint && hc endpoint

-- StatusCheck: none is the error for no healthy values. `get` is none where the request fails.
unfoldable pub status_check :
    (String → String → Option String) → String → List String → Option HealthCheck
status_check get path [] = none
status_check get path (v ∷ vs) = some (λ endpoint. elim (get endpoint path) [
  | none ↦ false
  | some body ↦ contains (trim_space body) (v ∷ vs)
])

-- The check of a port in IPBackend.validate.
unfoldable pub bad_port : ℤ → Bool
bad_port p = ltb_ℤ p (pos 1) || ltb_ℤ (pos 65534) p

-- NewIPBackend, for an ip that net.ParseIP gave: such an ip passes validate. The argument for the
-- path is dropped, as in the code. none is its error.
unfoldable pub new_ip_backend : (String → ℤ → String) → String → ℤ → String → Option IpBackend
new_ip_backend url_of ip port path =
    if bad_port port
    then none
    else some (record {
      ip = ip;
      port = pos_part port;
      url_path = "";
      health = HealthState.unknown_hs;
      url = url_of ip port;
    })

-- LoadBalancer.PoolHealth: none is `pool not found`.
unfoldable pub pool_health : String → Bool → Bool → LoadBalancer → Option PoolHealth
pool_health p want_healthy want_sick l = elim (lookup p l.pools) [
  | none ↦ none
  | some r ↦ elim (lookup r l.heap) [
    | none ↦ none
    | some q ↦ some (health want_healthy want_sick q)
  ]
]

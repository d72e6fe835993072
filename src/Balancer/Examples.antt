-- ===== src/Balancer/Examples.antt =====
-- The theorems on the load balancer at a pool of two backends.
use gofordevopsclass.Prelude.Int.{ℤ}
use gofordevopsclass.Prelude.Text.{is_empty, trim_space, trim_left, trim_right, is_space}
use mathlib.Core.List.Perm
use gofordevopsclass.Balancer.HealthChecks.{HealthCheck, health_multiplexer}
use gofordevopsclass.Balancer.HealthChecks.Arrivals.{receive, health_multiplexer-receive}
use gofordevopsclass.Balancer.Rpc.{pt_p2c, blank}
use gofordevopsclass.Balancer.Rpc
use gofordevopsclass.Balancer.Rpc.Pools.{RpcInv, HaveValues, pass_all, add_pool_registers}
use gofordevopsclass.Balancer.Client.{StatusCheck, returned}
use gofordevopsclass.Balancer.Client
use gofordevopsclass.Prelude.{
  ℕ, ◌+◌, String, Bool, true, false, if◌then◌else◌, ◌==◌, string_eq, nat_eq, beq-ne, beq-eq,
  Bool-cases, inl, inr, pair-IsDistinct, [], ◌∷◌, Option, none, some, ◌≡◌, ◌≢◌, ◌⊎◌, refl, arith,
}
use gofordevopsclass.Prelude.Int.{pos}
use gofordevopsclass.GoMap.{lookup}
use gofordevopsclass.GoMap.Laws.{empty-IsGoMap}
use gofordevopsclass.Balancer.Backend.{IpBackend, WeightedBackend, HealthState, healthy, sick}
use gofordevopsclass.Balancer.P2c.{Pool, ran, panicked, new_p2c, health_checks, add}
use gofordevopsclass.Balancer.P2c.Pools.{IsSeparate, in_healthy, in_sick}
use gofordevopsclass.Balancer.P2c.Rounds.{checks_of, round, round_sorts}
use gofordevopsclass.Balancer.P2c.Faults.{readded_backend_crashes}
use gofordevopsclass.Balancer.P2c.Race.{at_start, run, both_load_first, lost_update_crashes}
use gofordevopsclass.Balancer.LoadBalancer.{LoadBalancer, add_pool, remove_pool}
use gofordevopsclass.Balancer.LoadBalancer.Routes.{
  LbInv, Answered, add_pool_exact, remove_pool_exact,
}

abbrev backend : String → HealthState → IpBackend
backend u h = record { ip = "10.0.0.1"; port = 8080; url_path = ""; health = h; url = u }

abbrev weighted : String → HealthState → ℕ → WeightedBackend
weighted u h n = record { backend = backend u h; weight = pos n }

-- One healthy and one sick backend.
abbrev mixed : Pool
mixed = record {
  healthy = weighted "http://a" healthy 3 ∷ [];
  sick = weighted "http://b" sick 0 ∷ [];
  closed = false;
}

abbrev two_healthy : Pool
two_healthy = record {
  healthy = weighted "http://a" healthy 3 ∷ weighted "http://b" healthy 1 ∷ [];
  sick = [];
  closed = false;
}

mixed-IsSeparate : IsSeparate mixed
mixed-IsSeparate u = omega (arith, pair-IsDistinct "http://a" "http://b" refl u)

-- Only b answers.
abbrev b_answers : String → Bool
b_answers u = u == "http://b"

-- The goroutines come to their moves in the order in which they are started.
round_sorts_example :
    (q : Pool) × (round b_answers (checks_of mixed) mixed ≡ ran q)
    × IsSeparate q
    × ((u : String)
        → in_healthy u q ≡ (if b_answers u then in_healthy u mixed + in_sick u mixed else 0))
    × ((u : String)
        → in_sick u q ≡ (if b_answers u then 0 else in_healthy u mixed + in_sick u mixed))
round_sorts_example =
    round_sorts b_answers mixed (checks_of mixed) mixed-IsSeparate (Perm.refl (checks_of mixed))

readded_backend_crashes_example :
    ((add false b_answers (backend "http://b" sick) mixed).0 ≡ none)
    × (health_checks b_answers (add false b_answers (backend "http://b" sick) mixed).1 ≡ panicked)
readded_backend_crashes_example =
    readded_backend_crashes b_answers (backend "http://b" sick) mixed refl (omega arith) refl

lost_update_crashes_example :
    (q : Pool) × (run
        (weighted "http://a" healthy 3)
        (weighted "http://b" healthy 1)
        at_start
        at_start
        two_healthy
        both_load_first
      ≡ ran q)
    × (in_healthy "http://a" q ≡ 1)
    × (in_sick "http://a" q ≡ 1)
    × ((hc : String → Bool) → health_checks hc q ≡ panicked)
lost_update_crashes_example =
    lost_update_crashes (weighted "http://a" healthy 3) (weighted "http://b" healthy 1) two_healthy
      (beq-ne "http://a" "http://b" refl) refl refl

-- A balancer with one pool in memory that has no pattern yet.
abbrev one_pool : LoadBalancer
one_pool = record { pools = []; mux = []; heap = (0, new_p2c) ∷ [] }

one_pool-LbInv : LbInv one_pool
unfolding lookup
one_pool-LbInv = record {
  map = empty-IsGoMap ℕ;
  routes = λ p. refl;
  live = λ p r h. absurd (cc);
  apart = λ p q r h k. absurd (cc);
  named = λ p h. refl;
}

in_memory : lookup 0 one_pool.heap ≡ some new_p2c
unfolding lookup
in_memory = refl

still_open : new_p2c.closed ≡ false
unfolding new_p2c
still_open = refl

unnamed : (k : String) → lookup k one_pool.pools ≢ some 0
unfolding lookup
unnamed k h = cc

add_pool_exact_example :
    ((is_empty "/" ≡ true) × (add_pool "/" 0 one_pool ≡ panicked))
    ⊎ ((is_empty "/" ≡ false) × Answered "/" 0 one_pool (add_pool "/" 0 one_pool))
add_pool_exact_example =
    add_pool_exact "/" 0 new_p2c one_pool one_pool-LbInv in_memory still_open unnamed

-- The same balancer once the pool has a pattern.
abbrev served : LoadBalancer
served = record { pools = ("/", 0) ∷ []; mux = ("/", 0) ∷ []; heap = (0, new_p2c) ∷ [] }

served-LbInv : LbInv served
unfolding lookup
served-LbInv = record {
  map = λ k. ground arith;
  routes = λ p. refl;
  live = λ p r h. (new_p2c, ground (arith, in_memory, still_open), still_open);
  apart = λ p q r h k. ground (arith, string_eq.beq_iff "/" p, string_eq.beq_iff "/" q);
  named = λ p h. elim (Bool-cases ("/" == p)) [
    | inl b ↦ absurd (cc (beq-eq "/" p b, h))
    | inr b ↦ ground arith
  ];
}

remove_pool_exact_example :
    (l : LoadBalancer) × (remove_pool "/" served ≡ ran l)
    × LbInv l
    × ((k : String) → lookup k l.mux ≡ (if "/" == k then none else lookup k served.mux))
remove_pool_exact_example = remove_pool_exact "/" served served-LbInv

-- The server with that balancer, and a client's status check.
abbrev rpc_server : Rpc.Server
rpc_server = record { lb = one_pool; checks = []; next_pool = 1 }

rpc_server-RpcInv : RpcInv rpc_server
unfolding lookup
rpc_server-RpcInv = record { lb_inv = one_pool-LbInv; below = λ r h. ground arith }

abbrev status_page : StatusCheck
status_page = record { url_path = "/health"; healthy_values = "ok" ∷ [] }

abbrev get_ok : String → String → Option String
get_ok endpoint path = some "ok"

abbrev same_ip : String → Option String
same_ip t = some t

abbrev just_ip : String → ℤ → String
just_ip t p = t

has_value : HaveValues (status_page ∷ [])
has_value = ((λ h. cc), tt)

named : blank "/" ≡ false
unfolding trim_space trim_left trim_right is_space
named = refl

add_pool_registers_example :
    let (r, t) = Client.add_pool get_ok same_ip just_ip "/" pt_p2c (status_page ∷ []) rpc_server in
    (r ≡ returned tt)
    × RpcInv t
    × ((k : String) → lookup k t.lb.mux ≡ (if "/" == k then some 1 else lookup k rpc_server.lb.mux))
    × ((hc : HealthCheck) × (lookup 1 t.checks ≡ some hc)
        × ((e : String) → hc e ≡ pass_all get_ok e (status_page ∷ [])))
unfolding lookup
add_pool_registers_example =
    add_pool_registers get_ok same_ip just_ip "/" status_page [] rpc_server rpc_server-RpcInv named
      has_value refl

-- The second check fails, and reports first.
health_multiplexer-receive_example :
    health_multiplexer ((λ e. e == "10.0.0.1:80") ∷ (λ e. e == "10.0.0.2:80") ∷ []) "10.0.0.1:80"
    ≡ receive (false ∷ true ∷ [])
health_multiplexer-receive_example =
    health_multiplexer-receive ((λ e. e == "10.0.0.1:80") ∷ (λ e. e == "10.0.0.2:80") ∷ [])
      "10.0.0.1:80" (false ∷ true ∷ []) (Perm.swap false true [])

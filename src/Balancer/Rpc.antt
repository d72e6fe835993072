-- ===== src/Balancer/Rpc.antt =====
-- The gRPC handlers of lb/server/grpc/server.go over the load balancer.
pub mod Pools
use gofordevopsclass.Prelude.{
  ℕ, suc, String, Bool, if◌then◌else◌, nat_eq, List, [], ◌∷◌, Option, none, some,
}
use gofordevopsclass.Prelude.Int.{ℤ}
use gofordevopsclass.Prelude.Text.{trim_space, is_empty}
use gofordevopsclass.GoMap.{GoMap, lookup, insert}
use gofordevopsclass.Balancer.Backend.{IpBackend}
use gofordevopsclass.Balancer.P2c.{
  Pool, PoolHealth, PoolError, Ran, ran, panicked, new_p2c, add, remove,
}
use gofordevopsclass.Balancer.LoadBalancer.{LoadBalancer, LbError, get_pool}
use gofordevopsclass.Balancer.LoadBalancer
use gofordevopsclass.Balancer.HealthChecks.{
  HealthCheck, health_multiplexer, status_check, bad_port, new_ip_backend, pool_health,
}

pub data PoolType : Type 0 where
  pt_unknown pt_p2c pt_other : PoolType

-- A HealthCheck of a request: its StatusCheck, none for another type.
pub record StatusCheckReq : Type 0 where
  pub url_path : String
  pub healthy_values : List String

-- req.HealthChecks is a pointer, and may be nil.
pub record AddPoolReq : Type 0 where
  pub pattern : String
  pub pool_type : PoolType
  pub health_checks : Option (List (Option StatusCheckReq))

-- A Backend of a request: its IPBackend, none for another type.
pub record BackendReq : Type 0 where
  pub ip : String
  pub port : ℤ
  pub url_path : String

pub data RpcError : Type 0 where
  empty_pattern no_pool_type no_health_check no_healthy_value no_check_type : RpcError
  unknown_pool_type no_such_pool no_backend_type bad_ip port_is_invalid : RpcError
  lb_error : LbError → RpcError
  pool_error : PoolError → RpcError

-- The balancer, the health check of each pool, and the number of the next pool.
pub record Server : Type 0 where
  pub lb : LoadBalancer
  pub checks : GoMap ℕ HealthCheck
  pub next_pool : ℕ

pub data Built {ℓ} (A : Type ℓ) : Type ℓ where
  built : A → Built A
  refused : RpcError → Built A

abbrev pub blank : String → Bool
blank s = is_empty (trim_space s)

module _ (get : String → String → Option String) (parse_ip : String → Option String)
    (url_of : String → ℤ → String) where
  abbrev pub with_check : HealthCheck → Built (List HealthCheck) → Built (List HealthCheck)
  with_check hc (built l) = built (hc ∷ l)
  with_check hc (refused e) = refused e

  -- The loop over the health checks of AddPool.
  unfoldable pub build_checks : List (Option StatusCheckReq) → Built (List HealthCheck)
  build_checks [] = built []
  build_checks (none ∷ hs) = refused no_check_type
  build_checks (some h ∷ hs) = elim (status_check get h.url_path h.healthy_values) [
    | none ↦ refused no_healthy_value
    | some hc ↦ with_check hc (build_checks hs)
  ]

  abbrev pub answered :
      Server → Ran (Option LbError × LoadBalancer) → Ran (Option RpcError × Server)
  answered s panicked = panicked
  answered s (ran (none, l)) = ran (none, record s { lb = l })
  answered s (ran (some e, l)) = ran (some (lb_error e), record s { lb = l })

  -- NewP2C, which starts its health loop, and then AddPool of the balancer.
  abbrev pub register : String → List HealthCheck → Server → Ran (Option RpcError × Server)
  register p hcs s =
      let n = s.next_pool in
      let l : LoadBalancer = record (s.lb) { heap = insert n new_p2c s.lb.heap } in
      answered (record s { checks = insert n (health_multiplexer hcs) s.checks; next_pool = suc n })
        (LoadBalancer.add_pool p n l)

  abbrev pub of_type :
      PoolType → String → Built (List HealthCheck) → Server → Ran (Option RpcError × Server)
  of_type t p (refused e) s = ran (some e, s)
  of_type pt_p2c p (built hcs) s = register p hcs s
  of_type pt_other p (built hcs) s = ran (some unknown_pool_type, s)
  of_type pt_unknown p (built hcs) s = ran (some no_pool_type, s)

  abbrev pub with_checks :
      AddPoolReq → Option (List (Option StatusCheckReq)) → Server → Ran (Option RpcError × Server)
  with_checks req none s = panicked
  with_checks req (some []) s = ran (some no_health_check, s)
  with_checks req (some (h ∷ hs)) s = of_type req.pool_type req.pattern (build_checks (h ∷ hs)) s

  abbrev pub typed : AddPoolReq → PoolType → Server → Ran (Option RpcError × Server)
  typed req pt_unknown s = ran (some no_pool_type, s)
  typed req pt_p2c s = with_checks req req.health_checks s
  typed req pt_other s = with_checks req req.health_checks s

  unfoldable pub add_pool : AddPoolReq → Server → Ran (Option RpcError × Server)
  add_pool req s =
      if blank req.pattern then ran (some empty_pattern, s) else typed req req.pool_type s

  unfoldable pub remove_pool : String → Server → Ran (Option RpcError × Server)
  remove_pool p s =
      if blank p then ran (some empty_pattern, s) else (elim (LoadBalancer.remove_pool p s.lb) [
        | panicked ↦ panicked
        | ran l ↦ ran (none, record s { lb = l })
      ])

  -- The switch over the type of a backend, in AddBackend and RemoveBackend.
  unfoldable pub make_backend : Option BackendReq → Built IpBackend
  make_backend none = refused no_backend_type
  make_backend (some b) = elim (parse_ip b.ip) [
    | none ↦ refused bad_ip
    | some ip ↦
        if bad_port b.port
        then refused port_is_invalid
        else (elim (new_ip_backend url_of ip b.port b.url_path) [
          | none ↦ refused port_is_invalid
          | some back ↦ built back
        ])
  ]

  abbrev pub put_pool : ℕ → Pool → Server → Server
  put_pool r q s = record s { lb = record (s.lb) { heap = insert r q s.lb.heap } }

  -- pool.Add and pool.Remove of the pool of a number, which is in memory.
  abbrev pub add_to :
      Bool → IpBackend → ℕ → Option HealthCheck → Option Pool → Server → Option RpcError × Server
  add_to ctx_err b r (some hc) (some p) s =
      let (e, q) = add ctx_err hc b p in
      (elim e [ none ↦ none | some x ↦ some (pool_error x) ], put_pool r q s)
  add_to ctx_err b r none p s = (some no_such_pool, s)
  add_to ctx_err b r (some hc) none s = (some no_such_pool, s)

  abbrev pub remove_from : IpBackend → ℕ → Option Pool → Server → Option RpcError × Server
  remove_from b r none s = (some no_such_pool, s)
  remove_from b r (some p) s = (none, put_pool r (remove b p) s)

  unfoldable pub add_backend : Bool → String → Option BackendReq → Server → Option RpcError × Server
  add_backend ctx_err p br s =
      if blank p then (some empty_pattern, s) else (elim (get_pool p s.lb) [
        | none ↦ (some no_such_pool, s)
        | some r ↦ elim (make_backend br) [
          | refused e ↦ (some e, s)
          | built b ↦ add_to ctx_err b r (lookup r s.checks) (lookup r s.lb.heap) s
        ]
      ])

  unfoldable pub remove_backend : String → Option BackendReq → Server → Option RpcError × Server
  remove_backend p br s = if blank p then (some empty_pattern, s) else (elim (make_backend br) [
    | refused e ↦ (some e, s)
    | built b ↦ elim (get_pool p s.lb) [
      | none ↦ (some no_such_pool, s)
      | some r ↦ remove_from b r (lookup r s.lb.heap) s
    ]
  ])

  -- PoolHealth.
  unfoldable pub get_health : String → Bool → Bool → Server → Built PoolHealth
  get_health p want_healthy want_sick s = elim (pool_health p want_healthy want_sick s.lb) [
    | none ↦ refused no_such_pool
    | some h ↦ built h
  ]

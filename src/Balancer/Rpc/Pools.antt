-- ===== src/Balancer/Rpc/Pools.antt =====
-- AddPool of the client and the handler of the load balancer, down to the routes.
use gofordevopsclass.Prelude.{
  ℕ, suc, ◌<◌, String, Bool, true, false, ◌&&◌, ◌==◌, string_eq, nat_eq, if◌then◌else◌, contains,
  List, [], ◌∷◌, Option, none, some, is_some, Option-cases, ◌≡◌, ◌≢◌, refl, sym, subst, ◌∙◌, inl,
  inr, arith, beq_self,
}
use gofordevopsclass.Prelude.Int.{ℤ}
use gofordevopsclass.Prelude.Text.{trim_space}
use gofordevopsclass.GoMap.{lookup, insert}
use gofordevopsclass.GoMap.Laws.{lookup-insert}
use gofordevopsclass.Balancer.P2c.{Pool, new_p2c, ran}
use gofordevopsclass.Balancer.LoadBalancer.{LoadBalancer, LbError}
use gofordevopsclass.Balancer.LoadBalancer
use gofordevopsclass.Balancer.LoadBalancer.Routes.{LbInv, add_proper}
use gofordevopsclass.Prelude.Text.{is_empty, trim_space_empty}
use gofordevopsclass.Balancer.HealthChecks.{HealthCheck, health_multiplexer, status_check}
use gofordevopsclass.Balancer.Rpc.{
  Server, Built, built, refused, StatusCheckReq, pt_p2c, blank, build_checks, with_check, register,
}
use gofordevopsclass.Balancer.Rpc
use gofordevopsclass.Balancer.Client.{StatusCheck, to_pb, status_to_pb, returned, Result}
use gofordevopsclass.Balancer.Client

-- A well-formed balancer whose pools were made under numbers below the next one.
pub record RpcInv (s : Server) : Type 0 where
  pub lb_inv : LbInv s.lb
  pub below : (r : ℕ) → is_some (lookup r s.lb.heap) ≡ true → r < s.next_pool

-- What a status check says of an endpoint: it answers with one of the values.
abbrev pub passes : (String → String → Option String) → String → StatusCheck → Bool
passes get endpoint c = elim (get endpoint c.url_path) [
  | none ↦ false
  | some body ↦ contains (trim_space body) c.healthy_values
]

abbrev pub pass_all : (String → String → Option String) → String → List StatusCheck → Bool
pass_all get endpoint [] = true
pass_all get endpoint (c ∷ cs) = passes get endpoint c && pass_all get endpoint cs

-- Every check has a value to look for.
abbrev pub HaveValues : List StatusCheck → Type 0
HaveValues [] = Unit {0}
HaveValues (c ∷ cs) = (c.healthy_values ≢ []) × HaveValues cs

module _ (get : String → String → Option String) (parse_ip : String → Option String)
    (url_of : String → ℤ → String) where
  valued :
      (c : StatusCheck) (v : String) (vs : List String)
      → c.healthy_values ≡ v ∷ vs
      → status_check get c.url_path c.healthy_values ≡ some (λ e. passes get e c)
  unfolding status_check
  valued c v vs x = rw x refl

  build_all :
      (cs : List StatusCheck)
      → HaveValues cs
      → (hcs : List HealthCheck) × (build_checks get parse_ip url_of (to_pb cs) ≡ built hcs)
        × ((e : String) → health_multiplexer hcs e ≡ pass_all get e cs)
  unfolding build_checks to_pb status_to_pb health_multiplexer status_check
  build_all [] h = ([], refl, λ e. refl)
  build_all (c ∷ cs) h = go c.healthy_values refl (build_all cs h.1)
    where
      go :
          (vs : List String)
          → c.healthy_values ≡ vs
          → ((hcs : List HealthCheck) × (build_checks get parse_ip url_of (to_pb cs) ≡ built hcs)
              × ((e : String) → health_multiplexer hcs e ≡ pass_all get e cs))
          → (hcs : List HealthCheck) × (build_checks get parse_ip url_of (to_pb (c ∷ cs))
              ≡ built hcs)
            × ((e : String) → health_multiplexer hcs e ≡ pass_all get e (c ∷ cs))
      go [] x ih = absurd (h.0 x)
      go (v ∷ vs) x (hcs, b, m) =
          let hc : HealthCheck = λ e. passes get e c in
          let made : status_check get c.url_path c.healthy_values ≡ some hc = valued c v vs x in
          (hc ∷ hcs, rw (made, build_checks, b) refl, λ e. ground (arith, m e))

  new_open : new_p2c.closed ≡ false
  unfolding new_p2c
  new_open = refl

  -- The balancer with a new pool in memory that no pattern has.
  with_pool : Server → LoadBalancer
  with_pool s = record (s.lb) { heap = insert s.next_pool new_p2c s.lb.heap }

  unused_number : (s : Server) → RpcInv s → lookup s.next_pool s.lb.heap ≡ none
  unused_number s v = elim (Option-cases (lookup s.next_pool s.lb.heap)) [
    | inl x ↦ x
    | inr (q, x) ↦ absurd (omega (arith, v.below s.next_pool (ground arith)))
  ]

  with_pool-LbInv : (s : Server) → RpcInv s → LbInv (with_pool s)
  unfolding with_pool
  with_pool-LbInv s v = record {
    map = v.lb_inv.map;
    routes = v.lb_inv.routes;
    live = λ p r h. kept p r h (v.lb_inv.live p r h);
    apart = v.lb_inv.apart;
    named = v.lb_inv.named;
  }
    where
      kept :
          (p : String) (r : ℕ)
          → lookup p s.lb.pools ≡ some r
          → ((q : Pool) × (lookup r s.lb.heap ≡ some q) × (q.closed ≡ false))
          → (q : Pool) × (lookup r (insert s.next_pool new_p2c s.lb.heap) ≡ some q)
            × (q.closed ≡ false)
      kept p r h (q, x, o) = (
        q,
        ground (
          arith,
          lookup-insert s.next_pool r new_p2c s.lb.heap,
          unused_number s v,
          nat_eq.beq_iff s.next_pool r,
        ),
        o,
      )

  not_blank : (p : String) → blank p ≡ false → is_empty p ≡ false
  not_blank String.[] h = ground (arith, trim_space_empty String.[])
  not_blank (String.◌∷◌ c p) h = refl

  -- The balancer and the server behind an AddPool of a new pattern.
  abbrev routed_to : String → Server → LoadBalancer
  routed_to p s = record (with_pool s) {
    pools = insert p s.next_pool s.lb.pools;
    mux = insert p s.next_pool s.lb.mux;
  }

  abbrev registered : String → List HealthCheck → Server → Server
  registered p hcs s = record s {
    lb = routed_to p s;
    checks = insert s.next_pool (health_multiplexer hcs) s.checks;
    next_pool = suc s.next_pool;
  }

  route_added :
      (p : String) (s : Server)
      → RpcInv s
      → lookup p s.lb.pools ≡ none
      → is_empty p ≡ false
      → LoadBalancer.add_pool p s.next_pool (with_pool s) ≡ ran (none, routed_to p s)
  unfolding LoadBalancer.add_pool LoadBalancer.handle with_pool
  route_added p s v free proper = ground (arith, v.lb_inv.routes p)

  routed_to-LbInv :
      (p : String) (s : Server)
      → RpcInv s
      → lookup p s.lb.pools ≡ none
      → is_empty p ≡ false
      → LbInv (routed_to p s)
  unfolding with_pool
  routed_to-LbInv p s v free proper =
      let (e, l, eq, inv, alt) =
        add_proper p s.next_pool new_p2c (with_pool s) (with_pool-LbInv s v) here new_open apart
          proper in
      subst LbInv
        (same_result (e, l) (none, routed_to p s) (sym eq ∙ route_added p s v free proper)) inv
    where
      here : lookup s.next_pool (with_pool s).heap ≡ some new_p2c
      here =
          ground
            (arith, lookup-insert s.next_pool s.next_pool new_p2c s.lb.heap, beq_self s.next_pool)

      apart : (k : String) → lookup k s.lb.pools ≢ some s.next_pool
      apart k h =
          let (q, x, o) = v.lb_inv.live k s.next_pool h in absurd (cc (x, unused_number s v))

      same_result : (x y : Option LbError × LoadBalancer) → ran x ≡ ran y → x.1 ≡ y.1
      same_result x y h = ground (arith, h)

  registered-RpcInv :
      (p : String) (hcs : List HealthCheck) (s : Server)
      → RpcInv s
      → lookup p s.lb.pools ≡ none
      → is_empty p ≡ false
      → RpcInv (registered p hcs s)
  unfolding with_pool
  registered-RpcInv p hcs s v free proper = record {
    lb_inv = routed_to-LbInv p s v free proper;
    below = λ r h. ground (
      arith,
      lookup-insert s.next_pool r new_p2c s.lb.heap,
      v.below r,
      nat_eq.beq_iff s.next_pool r,
    );
  }

  -- AddPool of the client, for a pattern that is not blank and not taken, with at least one status
  -- check and a healthy value in each, on a server whose balancer is well formed: it returns no
  -- error. The pattern is routed to a new pool, every other pattern keeps its route, the pool's
  -- health check passes an endpoint exactly if each of the checks finds one of its values there,
  -- and the server stays well formed.
  pub add_pool_registers :
      (p : String) (c : StatusCheck) (cs : List StatusCheck) (s : Server)
      → RpcInv s
      → blank p ≡ false
      → HaveValues (c ∷ cs)
      → lookup p s.lb.pools ≡ none
      → let (r, t) = Client.add_pool get parse_ip url_of p pt_p2c (c ∷ cs) s in
        (r ≡ returned tt)
        × RpcInv t
        × ((k : String)
            → lookup k t.lb.mux ≡ (if p == k then some s.next_pool else lookup k s.lb.mux))
        × ((hc : HealthCheck) × (lookup s.next_pool t.checks ≡ some hc)
            × ((e : String) → hc e ≡ pass_all get e (c ∷ cs)))
  unfolding Client.add_pool Rpc.add_pool to_pb with_pool
  add_pool_registers p c cs s v b h free =
      let (hcs, built_all, exact) = build_all (c ∷ cs) h in
      let added : LoadBalancer.add_pool p s.next_pool
            (record (s.lb) { heap = insert s.next_pool new_p2c s.lb.heap })
          ≡ ran (none, routed_to p s) =
        route_added p s v free (not_blank p b) in
      rw (b, Client.add_pool, Rpc.add_pool, built_all, Rpc.of_type, register, added)
        (
          refl,
          registered-RpcInv p hcs s v free (not_blank p b),
          λ k. lookup-insert p k s.next_pool s.lb.mux,
          (
            health_multiplexer hcs,
            ground (
              arith,
              lookup-insert s.next_pool s.next_pool (health_multiplexer hcs) s.checks,
              beq_self s.next_pool,
            ),
            exact,
          ),
        )

-- ===== src/Balancer/P2c/Pools.antt =====
-- The pool of p2c.go: no backend is in it twice, and what each operation does to it.
use gofordevopsclass.Prelude.{
  ℕ, ◌+◌, ◌-◌, ◌≤◌, ◌<◌, String, Bool, true, false, if◌then◌else◌, ◌==◌, string_eq, one_if, count,
  count-append, contains, List, [], ◌∷◌, ◌++◌, Option, none, some, ◌≡◌, refl, arith, Bool-cases,
  inl, inr, ap, ◌⊎◌,
}
use gofordevopsclass.Prelude.Int.{pos}
use gofordevopsclass.Balancer.Backend.{IpBackend, WeightedBackend, url, set_health, HealthState}
use gofordevopsclass.Balancer.P2c.{
  Pool, PoolError, ran, add, remove, others, add_to_value, healthy_to_sick, sick_to_healthy,
  backend_is_sick, context_done, already_exists,
}
use gofordevopsclass.Balancer.P2c.Lists.{
  urls, urls-append, add_to_value_lem, remove_from_value_lem, count-others, remove_from_value_found,
  contains-count,
}

-- How often a url stands in the healthy list, and in the sick list.
abbrev pub in_healthy : String → Pool → ℕ
in_healthy u p = count u (urls p.healthy)

abbrev pub in_sick : String → Pool → ℕ
in_sick u p = count u (urls p.sick)

-- No url stands in the pool twice.
abbrev pub IsSeparate : Pool → Type 0
IsSeparate p = (u : String) → in_healthy u p + in_sick u p ≤ 1

pub count-added :
    (b : WeightedBackend) (v : List WeightedBackend) (u : String)
    → count u (urls (v ++ b ∷ [])) ≡ count u (urls v) + one_if (url b == u)
count-added b v u =
    omega (arith, ap (count u) (urls-append v (b ∷ [])), count-append u (urls v) (url b ∷ []))

-- A healthy backend of a separate pool moves to the sick list.
pub healthy_to_sick_lem :
    (b : WeightedBackend) (p : Pool)
    → IsSeparate p
    → 0 < in_healthy (url b) p
    → (q : Pool) × (healthy_to_sick b p ≡ ran q)
      × ((u : String) → in_healthy u q ≡ in_healthy u p - one_if (url b == u))
      × ((u : String) → in_sick u q ≡ in_sick u p + one_if (url b == u))
unfolding healthy_to_sick
healthy_to_sick_lem b p s h = (
  record p {
    healthy = others (url b) p.healthy;
    sick = p.sick ++ set_health HealthState.sick b ∷ [];
  },
  ground (
    arith,
    remove_from_value_lem (url b) p.healthy,
    remove_from_value_found (url b) p.healthy h,
    add_to_value_lem (set_health HealthState.sick b) p.sick,
    contains-count (url b) (urls p.sick),
    s (url b),
  ),
  (λ u. ground (arith, count-others (url b) u p.healthy, s u, string_eq.beq_iff (url b) u)),
  (λ u. count-added (set_health HealthState.sick b) p.sick u),
)

-- A sick backend of a separate pool moves to the healthy list.
pub sick_to_healthy_lem :
    (b : WeightedBackend) (p : Pool)
    → IsSeparate p
    → 0 < in_sick (url b) p
    → (q : Pool) × (sick_to_healthy b p ≡ ran q)
      × ((u : String) → in_healthy u q ≡ in_healthy u p + one_if (url b == u))
      × ((u : String) → in_sick u q ≡ in_sick u p - one_if (url b == u))
unfolding sick_to_healthy
sick_to_healthy_lem b p s h = (
  record p {
    healthy = p.healthy ++ set_health HealthState.healthy b ∷ [];
    sick = others (url b) p.sick;
  },
  ground (
    arith,
    remove_from_value_lem (url b) p.sick,
    remove_from_value_found (url b) p.sick h,
    add_to_value_lem (set_health HealthState.healthy b) p.healthy,
    contains-count (url b) (urls p.healthy),
    s (url b),
  ),
  (λ u. count-added (set_health HealthState.healthy b) p.healthy u),
  (λ u. ground (arith, count-others (url b) u p.sick, s u, string_eq.beq_iff (url b) u)),
)

-- Remove takes the url out of both lists and leaves every other.
pub remove_exact :
    (b : IpBackend) (p : Pool) (u : String)
    → (in_healthy u (remove b p) ≡ (if b.url == u then 0 else in_healthy u p))
      × (in_sick u (remove b p) ≡ (if b.url == u then 0 else in_sick u p))
unfolding remove
remove_exact b p u = (
  rw (remove_from_value_lem b.url p.healthy) (count-others b.url u p.healthy),
  rw (remove_from_value_lem b.url p.sick) (count-others b.url u p.sick),
)

-- The value that Add puts into the pool.
abbrev entry : IpBackend → WeightedBackend
entry b = record { backend = record b { health = HealthState.healthy }; weight = pos 0 }

-- What Add does when it succeeds, and when it fails.
abbrev pub Added : (String → Bool) → IpBackend → Pool → Option PoolError × Pool → Type 0
Added hc b p (e, q) =
    (e ≡ none)
    × (hc b.url ≡ true)
    × (in_healthy b.url p ≡ 0)
    × (q.sick ≡ p.sick)
    × ((u : String) → in_healthy u q ≡ in_healthy u p + one_if (b.url == u))

abbrev pub Refused : Bool → (String → Bool) → IpBackend → Pool → Option PoolError × Pool → Type 0
Refused ctx_err hc b p (e, q) =
    (q ≡ p)
    × (e ≡ (
        if ctx_err
        then some context_done
        else if hc b.url
        then some already_exists
        else some backend_is_sick))
    × (0 < (if ctx_err then 1 else if hc b.url then in_healthy b.url p else 1))

-- Add puts the backend among the healthy ones, and does nothing else, if the context is alive, the
-- check passes and the url is not among them; else it says which of these failed, in that order,
-- and changes nothing.
pub add_exact :
    (ctx_err : Bool) (hc : String → Bool) (b : IpBackend) (p : Pool)
    → ((ctx_err ≡ false) × Added hc b p (add ctx_err hc b p))
      ⊎ Refused ctx_err hc b p (add ctx_err hc b p)
unfolding add
add_exact true hc b p = inr (refl, refl, omega arith)
add_exact false hc b p = elim (Bool-cases (hc b.url)) [
  | inr x ↦ inr (ground arith)
  | inl x ↦ elim (Bool-cases (contains b.url (urls p.healthy))) [
    | inl y ↦ inr (
        ground (arith, add_to_value_lem (entry b) p.healthy, contains-count b.url (urls p.healthy)))
    | inr y ↦
        let stored : add_to_value (entry b) p.healthy ≡ some (p.healthy ++ entry b ∷ []) =
          ground (arith, add_to_value_lem (entry b) p.healthy) in
        inl (
          refl,
          rw (x, stored, add)
              (
                refl,
                refl,
                ground (arith, contains-count b.url (urls p.healthy)),
                refl,
                (λ u. count-added (entry b) p.healthy u),
              ),
        )
  ]
]

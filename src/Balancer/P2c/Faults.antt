-- ===== src/Balancer/P2c/Faults.antt =====
-- A sequence of calls on a pool of p2c.go after which a health check takes the process down.
use gofordevopsclass.Prelude.{
  ◌+◌, ◌≤◌, ◌<◌, String, Bool, true, false, if◌then◌else◌, ◌==◌, string_eq, count, contains, List,
  [], ◌∷◌, none, ◌≡◌, refl, arith, beq_self, Bool-cases, inl, inr, ◌⊎◌, Option-cases,
}
use gofordevopsclass.Balancer.Backend.{IpBackend, WeightedBackend, url, set_health, HealthState}
use gofordevopsclass.Balancer.P2c.{
  Pool, Ran, ran, panicked, add, remove_from_value, healthy_to_sick, sick_to_healthy, check_healthy,
  check_sick, health_checks, mark,
}
use gofordevopsclass.Balancer.P2c.Lists.{
  urls, add_to_value_lem, remove_from_value_lem, count-others, remove_from_value_found,
  contains-count,
}
use gofordevopsclass.Balancer.P2c.Pools.{in_healthy, in_sick, count-added, add_exact}

Ran-cases {ℓ} : {A : Type ℓ} (r : Ran A) → (r ≡ panicked) ⊎ ((a : A) × (r ≡ ran a))
Ran-cases (ran a) = inr (a, refl)
Ran-cases panicked = inl refl

-- A backend that passes while its url is in both lists.
both_lists_panic :
    (b : WeightedBackend) (p : Pool)
    → 0 < in_healthy (url b) p
    → 0 < in_sick (url b) p
    → sick_to_healthy b p ≡ panicked
unfolding sick_to_healthy
both_lists_panic b p h s = ground (
  arith,
  remove_from_value_lem (url b) p.sick,
  remove_from_value_found (url b) p.sick s,
  add_to_value_lem (set_health HealthState.healthy b) p.healthy,
  contains-count (url b) (urls p.healthy),
)

url_mark : (h : HealthState) (u : String) (v : List WeightedBackend) → urls (mark h u v) ≡ urls v
url_mark h u [] = refl
url_mark h u (b ∷ v) = ground (arith, url_mark h u v)

-- Whatever moves, a url stays in both lists until its own check: it passes, so no check takes it
-- from the healthy list.
sick_to_healthy_keeps :
    (b : WeightedBackend) (p q : Pool) (u : String)
    → sick_to_healthy b p ≡ ran q
    → (in_healthy u p ≤ in_healthy u q)
      × (in_sick u p ≤ in_sick u q + (if url b == u then in_sick u p else 0))
unfolding sick_to_healthy
sick_to_healthy_keeps b p q u e = elim (Option-cases (remove_from_value (url b) p.sick).0) [
  | inr (x, y) ↦ ground (arith, url_mark HealthState.healthy (url b) p.sick)
  | inl y ↦ ground (
    arith,
    remove_from_value_lem (url b) p.sick,
    count-others (url b) u p.sick,
    add_to_value_lem (set_health HealthState.healthy b) p.healthy,
    count-added (set_health HealthState.healthy b) p.healthy u,
    Bool-cases (contains (url b) (urls p.healthy)),
  )
]

healthy_to_sick_keeps :
    (b : WeightedBackend) (p q : Pool) (u : String)
    → healthy_to_sick b p ≡ ran q
    → (in_healthy u p ≤ in_healthy u q + (if url b == u then in_healthy u p else 0))
      × (in_sick u p ≤ in_sick u q)
unfolding healthy_to_sick
healthy_to_sick_keeps b p q u e = elim (Option-cases (remove_from_value (url b) p.healthy).0) [
  | inr (x, y) ↦ ground (arith, url_mark HealthState.sick (url b) p.healthy)
  | inl y ↦ ground (
    arith,
    remove_from_value_lem (url b) p.healthy,
    count-others (url b) u p.healthy,
    add_to_value_lem (set_health HealthState.sick b) p.sick,
    count-added (set_health HealthState.sick b) p.sick u,
    Bool-cases (contains (url b) (urls p.sick)),
  )
]

check_healthy_keeps :
    (hc : String → Bool) (u : String) (bs : List WeightedBackend) (p q : Pool)
    → hc u ≡ true
    → check_healthy hc bs p ≡ ran q
    → (in_healthy u p ≤ in_healthy u q) × (in_sick u p ≤ in_sick u q)
unfolding check_healthy
check_healthy_keeps hc u [] p q x e = ground arith
check_healthy_keeps hc u (b ∷ bs) p q x e = elim (Bool-cases (hc (url b))) [
  | inl y ↦ check_healthy_keeps hc u bs p q x (ground arith)
  | inr y ↦ elim (Ran-cases (healthy_to_sick b p)) [
    | inl z ↦ absurd (ground arith)
    | inr (r, z) ↦
        let rest = check_healthy_keeps hc u bs r q x (ground arith) in
        ground (arith, healthy_to_sick_keeps b p r u z, rest, string_eq.beq_iff (url b) u)
  ]
]

check_sick_panics :
    (hc : String → Bool) (u : String) (bs : List WeightedBackend) (p : Pool)
    → hc u ≡ true
    → 0 < count u (urls bs)
    → 0 < in_healthy u p
    → 0 < in_sick u p
    → check_sick hc bs p ≡ panicked
unfolding check_sick
check_sick_panics hc u [] p x n h s = absurd (omega arith)
check_sick_panics hc u (b ∷ bs) p x n h s = elim (Bool-cases (url b == u)) [
  | inl y ↦
      let same = (string_eq.beq_iff (url b) u).0 y in
      ground (arith, same, both_lists_panic b p (rw same h) (rw same s))
  | inr y ↦ elim (Bool-cases (hc (url b))) [
    | inr z ↦ rw (z, check_sick) (check_sick_panics hc u bs p x (ground arith) h s)
    | inl z ↦ elim (Ran-cases (sick_to_healthy b p)) [
      | inl w ↦ ground arith
      | inr (r, w) ↦
          rw (z, w, check_sick)
            (check_sick_panics hc u bs r x (ground arith)
              (ground (arith, sick_to_healthy_keeps b p r u w))
              (ground (arith, sick_to_healthy_keeps b p r u w)))
    ]
  ]
]

pub both_lists_crash :
    (hc : String → Bool) (u : String) (p : Pool)
    → hc u ≡ true
    → 0 < in_healthy u p
    → 0 < in_sick u p
    → health_checks hc p ≡ panicked
unfolding health_checks
both_lists_crash hc u p x h s = elim (Ran-cases (check_healthy hc p.healthy p)) [
  | inl y ↦ ground arith
  | inr (q, y) ↦
      let keeps = check_healthy_keeps hc u p.healthy p q x y in
      ground (arith, check_sick_panics hc u p.sick q x s (omega arith) (omega arith))
]

-- Adding a backend that the pool holds as sick and not as healthy, and that passes its check, is
-- accepted; the round of health checks after it panics.
pub readded_backend_crashes :
    (hc : String → Bool) (b : IpBackend) (p : Pool)
    → hc b.url ≡ true
    → 0 < in_sick b.url p
    → in_healthy b.url p ≡ 0
    → ((add false hc b p).0 ≡ none) × (health_checks hc (add false hc b p).1 ≡ panicked)
readded_backend_crashes hc b p x s h = elim (add_exact false hc b p) [
  | inr (e, f, g) ↦ absurd (ground arith)
  | inl (e, (f, g, i, j, k)) ↦ (
    f,
    both_lists_crash hc b.url (add false hc b p).1 x (ground (arith, k b.url, beq_self b.url))
        (ground arith),
  )
]

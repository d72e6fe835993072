-- ===== src/Balancer/P2c/Started.antt =====
-- The two models of a round of healthChecks of p2c.go: its goroutines in the order of the lists, and in
-- any order.
use gofordevopsclass.Prelude.{
  String, Bool, List, [], ◌∷◌, ◌++◌, map, ◌≡◌, refl, ◌∙◌, Bool-cases, inl, inr,
}
use gofordevopsclass.Balancer.Backend.{WeightedBackend, url}
use gofordevopsclass.Balancer.P2c.{
  Pool, Ran, ran, panicked, healthy_to_sick, sick_to_healthy, check_healthy, check_sick,
  health_checks,
}
use gofordevopsclass.Balancer.P2c.Rounds.{Check, of_healthy, of_sick, checks_of, check, round}

-- The goroutines of a list, one after another, and then the others.
after_healthy :
    (hc : String → Bool) (bs : List WeightedBackend) (cs : List Check) (p : Pool)
    → round hc (map of_healthy bs ++ cs) p
      ≡ (elim (check_healthy hc bs p) [ ran q ↦ round hc cs q | panicked ↦ panicked ])
unfolding round check check_healthy
after_healthy hc [] cs p = refl
after_healthy hc (b ∷ bs) cs p = elim (Bool-cases (hc (url b))) [
  | inl x ↦ rw (x, round, check_healthy) (after_healthy hc bs cs p)
  | inr x ↦ rw (x, round, check_healthy) (go (healthy_to_sick b p) (λ q. after_healthy hc bs cs q))
]
  where
    go :
        (r : Ran Pool)
        → ((q : Pool)
            → round hc (map of_healthy bs ++ cs) q
              ≡ (elim (check_healthy hc bs q) [ ran z ↦ round hc cs z | panicked ↦ panicked ]))
        → (elim r as (λ x. Ran Pool) [
          | ran q ↦ round hc (map of_healthy bs ++ cs) q
          | panicked ↦ panicked
        ])
          ≡ (elim (elim r as (λ x. Ran Pool) [
            | ran q ↦ check_healthy hc bs q
            | panicked ↦ panicked
          ]) [ ran q ↦ round hc cs q | panicked ↦ panicked ])
    go (ran q) ih = ih q
    go panicked ih = refl

after_sick :
    (hc : String → Bool) (bs : List WeightedBackend) (p : Pool)
    → round hc (map of_sick bs) p ≡ check_sick hc bs p
unfolding round check check_sick
after_sick hc [] p = refl
after_sick hc (b ∷ bs) p = elim (Bool-cases (hc (url b))) [
  | inr x ↦ rw (x, round, check_sick) (after_sick hc bs p)
  | inl x ↦ rw (x, round, check_sick) (go (sick_to_healthy b p) (λ q. after_sick hc bs q))
]
  where
    go :
        (r : Ran Pool)
        → ((q : Pool) → round hc (map of_sick bs) q ≡ check_sick hc bs q)
        → (elim r as (λ x. Ran Pool) [ ran q ↦ round hc (map of_sick bs) q | panicked ↦ panicked ])
          ≡ (elim r [ ran q ↦ check_sick hc bs q | panicked ↦ panicked ])
    go (ran q) ih = ih q
    go panicked ih = refl

-- health_checks is the round in which the goroutines come in the order in which they are started.
pub round-health_checks :
    (hc : String → Bool) (p : Pool) → round hc (checks_of p) p ≡ health_checks hc p
unfolding health_checks
round-health_checks hc p =
    after_healthy hc p.healthy (map of_sick p.sick) p ∙ then_sick (check_healthy hc p.healthy p)
  where
    then_sick :
        (r : Ran Pool)
        → (elim r as (λ x. Ran Pool) [
          | ran q ↦ round hc (map of_sick p.sick) q
          | panicked ↦ panicked
        ])
          ≡ (elim r [ ran q ↦ check_sick hc p.sick q | panicked ↦ panicked ])
    then_sick (ran q) = after_sick hc p.sick q
    then_sick panicked = refl

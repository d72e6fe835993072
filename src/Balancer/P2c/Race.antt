-- ===== src/Balancer/P2c/Race.antt =====
-- Two goroutines of healthChecks of p2c.go, step by step. Each runs healthyToSick, which reads a
-- list and writes it back in two steps (Load, Store); the mutex is held by the caller alone.
use gofordevopsclass.Prelude.{
  String, Bool, true, false, string_eq, List, [], ◌∷◌, Option, none, some, ◌≡◌, ◌≢◌, arith,
  beq_self, Bool-cases, inl, inr,
}
use gofordevopsclass.Balancer.Backend.{WeightedBackend, url, set_health, HealthState}
use gofordevopsclass.Balancer.P2c.{
  Pool, Ran, ran, panicked, add_to_value, remove_from_value, others, mark, healthy_to_sick,
  check_healthy, health_checks,
}
use gofordevopsclass.Balancer.P2c.Pools.{in_healthy, in_sick}
use gofordevopsclass.Balancer.P2c.Faults.{both_lists_crash}

-- Where a goroutine stands in healthyToSick.
pub data Pc : Type 0 where
  at_start removed finished : Pc
  loaded_healthy loaded_sick : List WeightedBackend → Pc

abbrev stored_sick : Pool → Option (List WeightedBackend) → Ran (Pc × Pool)
stored_sick p none = panicked
stored_sick p (some n) = ran (finished, record p { sick = n })

-- One step of the goroutine of a backend whose check has failed.
unfoldable pub step : WeightedBackend → Pc → Pool → Ran (Pc × Pool)
step b at_start p = ran (loaded_healthy p.healthy, p)
step b (loaded_healthy l) p =
    let (e, n) = remove_from_value (url b) l in
    elim e [
      | some x ↦ ran (finished, record p { healthy = mark HealthState.sick (url b) p.healthy })
      | none ↦ ran (removed, record p { healthy = n })
    ]
step b removed p = ran (loaded_sick p.sick, p)
step b (loaded_sick l) p = stored_sick p (add_to_value (set_health HealthState.sick b) l)
step b finished p = ran (finished, p)

-- Two goroutines under a schedule: true is a step of the first one, false of the second.
unfoldable pub run : WeightedBackend → WeightedBackend → Pc → Pc → Pool → List Bool → Ran Pool
run a b x y p [] = ran p
run a b x y p (true ∷ s) = elim (step a x p) [
  | ran (x', q) ↦ run a b x' y q s
  | panicked ↦ panicked
]
run a b x y p (false ∷ s) = elim (step b y p) [
  | ran (y', q) ↦ run a b x y' q s
  | panicked ↦ panicked
]

-- The four steps of a goroutine without a step of the other are healthyToSick as a whole.
pub run-healthy_to_sick :
    (a b : WeightedBackend) (y : Pc) (p : Pool)
    → run a b at_start y p (true ∷ true ∷ true ∷ true ∷ []) ≡ healthy_to_sick a p
unfolding run step healthy_to_sick
run-healthy_to_sick a b y p = ground arith

-- Both load the healthy list before either stores it; then each ends alone.
abbrev pub both_load_first : List Bool
both_load_first = true ∷ false ∷ true ∷ false ∷ true ∷ true ∷ false ∷ false ∷ []

crashes :
    (hc : String → Bool) (a : WeightedBackend) (bs : List WeightedBackend) (c : Bool)
    → health_checks hc
        (record { healthy = a ∷ []; sick = set_health HealthState.sick a ∷ bs; closed = c })
      ≡ panicked
unfolding health_checks check_healthy healthy_to_sick remove_from_value others add_to_value
crashes hc a bs c = elim (Bool-cases (hc (url a))) [
  | inl x ↦
      both_lists_crash hc (url a)
        (record { healthy = a ∷ []; sick = set_health HealthState.sick a ∷ bs; closed = c }) x
        (ground (arith, beq_self (url a))) (ground (arith, beq_self (url a)))
  | inr x ↦ ground (arith, beq_self (url a))
]

-- Two healthy backends fail their check in one round. There is a schedule of the two goroutines
-- after which the first is in both lists, and then every later round of checks panics, whatever
-- the checks say.
pub lost_update_crashes :
    (a b : WeightedBackend) (p : Pool)
    → url a ≢ url b
    → p.healthy ≡ a ∷ b ∷ []
    → p.sick ≡ []
    → (q : Pool) × (run a b at_start at_start p both_load_first ≡ ran q)
      × (in_healthy (url a) q ≡ 1)
      × (in_sick (url a) q ≡ 1)
      × ((hc : String → Bool) → health_checks hc q ≡ panicked)
unfolding run step remove_from_value others add_to_value
lost_update_crashes a b p d h s = (
  q,
  ground (
    arith,
    beq_self (url a),
    beq_self (url b),
    string_eq.beq_iff (url a) (url b),
    string_eq.beq_iff (url b) (url a),
  ),
  ground (arith, beq_self (url a)),
  ground (arith, beq_self (url a), string_eq.beq_iff (url b) (url a)),
  (λ hc. crashes hc a (set_health HealthState.sick b ∷ []) p.closed),
)
  where
    q : Pool
    q = record p {
      healthy = a ∷ [];
      sick = set_health HealthState.sick a ∷ set_health HealthState.sick b ∷ [];
    }

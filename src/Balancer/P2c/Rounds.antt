-- ===== src/Balancer/P2c/Rounds.antt =====
-- The goroutines of healthChecks of p2c.go in any order, each of them whole. Race has two of them
-- that overlap.
use mathlib.Core.List.{Permᴰ, Perm}
use mathlib.Core.Logic.{∥∥₁_elim}
use native.Mathlib.Nat.{ℕ_set}
use gofordevopsclass.Prelude.{
  ℕ, ◌+◌, ◌-◌, ◌≤◌, String, Bool, true, false, not, ◌&&◌, if◌then◌else◌, ◌==◌, string_eq, one_if,
  count, List, [], ◌∷◌, ◌++◌, map, ◌≡◌, refl, sym, ◌∙◌, ap, arith, beq_self, Bool-cases, inl, inr,
}
use gofordevopsclass.Balancer.Backend.{WeightedBackend, url}
use gofordevopsclass.Balancer.P2c.{Pool, Ran, ran, panicked, healthy_to_sick, sick_to_healthy}
use gofordevopsclass.Balancer.P2c.Lists.{urls}
use gofordevopsclass.Balancer.P2c.Pools.{
  in_healthy, in_sick, IsSeparate, healthy_to_sick_lem, sick_to_healthy_lem,
}

-- A goroutine of healthChecks: its backend, and in which list it stood.
pub record Check : Type 0 where
  pub was_healthy : Bool
  pub backend : WeightedBackend

abbrev pub of_healthy : WeightedBackend → Check
of_healthy b = record { was_healthy = true; backend = b }

abbrev pub of_sick : WeightedBackend → Check
of_sick b = record { was_healthy = false; backend = b }

-- The goroutines that healthChecks starts, for the lists as they stood at the start. (A backend that
-- fails and moves before the sick list is read gets a second one, which fails as well and does
-- nothing.) A check says the same of a url during a round.
abbrev pub checks_of : Pool → List Check
checks_of p = map of_healthy p.healthy ++ map of_sick p.sick

-- One goroutine, with no other one between its steps.
unfoldable pub check : (String → Bool) → Check → Pool → Ran Pool
check hc c p =
    if c.was_healthy
    then (if hc (url c.backend) then ran p else healthy_to_sick c.backend p)
    else (if hc (url c.backend) then sick_to_healthy c.backend p else ran p)

-- The goroutines in the order in which they come to their moves.
unfoldable pub round : (String → Bool) → List Check → Pool → Ran Pool
unfolding check
round hc [] p = ran p
round hc (c ∷ cs) p = elim (check hc c p) [ ran q ↦ round hc cs q | panicked ↦ panicked ]

-- How many of the goroutines have a backend of the url from the healthy list, or from the sick one.
abbrev from_list : Bool → String → List Check → ℕ
from_list w u [] = 0
from_list w u (c ∷ cs) =
    one_if ((if w then c.was_healthy else not c.was_healthy) && (url c.backend == u))
    + from_list w u cs

-- What the goroutines do to the lists.
abbrev Moved : (String → Bool) → List Check → Pool → Ran Pool → Type 0
Moved hc cs p r =
    (q : Pool) × (r ≡ ran q)
    × ((u : String)
        → in_healthy u q ≡ (
            if hc u
            then in_healthy u p + from_list false u cs
            else in_healthy u p - from_list true u cs))
    × ((u : String)
        → in_sick u q ≡ (
            if hc u then in_sick u p - from_list false u cs else in_sick u p + from_list true u cs))

round_next :
    (hc : String → Bool) (c : Check) (cs : List Check) (p p' q : Pool)
    → check hc c p ≡ ran p'
    → round hc cs p' ≡ ran q
    → round hc (c ∷ cs) p ≡ ran q
unfolding round
round_next hc c cs p p' q d e = rw (d, round) e

round_lem :
    (hc : String → Bool) (cs : List Check) (p : Pool)
    → IsSeparate p
    → ((u : String) → from_list true u cs ≤ in_healthy u p)
    → ((u : String) → from_list false u cs ≤ in_sick u p)
    → Moved hc cs p (round hc cs p)
unfolding round check
round_lem hc [] p s h k = (p, refl, (λ u. ground arith), λ u. ground arith)
round_lem hc (c ∷ cs) p s h k = elim (Bool-cases c.was_healthy) [
  | inl w ↦ elim (Bool-cases (hc (url c.backend))) [
    | inl x ↦
        let (q, e, f, g) =
          round_lem hc cs p s (λ u. omega (arith, h u)) (λ u. ground (arith, k u)) in
        (
          q,
          round_next hc c cs p p q (ground arith) e,
          (λ u. ground (arith, f u, string_eq.beq_iff (url c.backend) u)),
          (λ u. ground (arith, g u, string_eq.beq_iff (url c.backend) u)),
        )
    | inr x ↦
        let (p', e', f', g') =
          healthy_to_sick_lem c.backend p s
            (ground (arith, h (url c.backend), beq_self (url c.backend))) in
        let (q, e, f, g) =
          round_lem hc cs p' (λ u. ground (arith, s u, f' u, g' u, h u))
            (λ u. ground (arith, h u, f' u)) (λ u. ground (arith, k u, g' u)) in
        (
          q,
          round_next hc c cs p p' q (ground (arith, e')) e,
          (λ u. ground (arith, f u, f' u, h u, string_eq.beq_iff (url c.backend) u)),
          (λ u. ground (arith, g u, g' u, h u, string_eq.beq_iff (url c.backend) u)),
        )
  ]
  | inr w ↦ elim (Bool-cases (hc (url c.backend))) [
    | inl x ↦
        let (p', e', f', g') =
          sick_to_healthy_lem c.backend p s
            (ground (arith, k (url c.backend), beq_self (url c.backend))) in
        let (q, e, f, g) =
          round_lem hc cs p' (λ u. ground (arith, s u, f' u, g' u, k u))
            (λ u. ground (arith, h u, f' u)) (λ u. ground (arith, k u, g' u)) in
        (
          q,
          round_next hc c cs p p' q (ground (arith, e')) e,
          (λ u. ground (arith, f u, f' u, k u, string_eq.beq_iff (url c.backend) u)),
          (λ u. ground (arith, g u, g' u, k u, string_eq.beq_iff (url c.backend) u)),
        )
    | inr x ↦
        let (q, e, f, g) =
          round_lem hc cs p s (λ u. ground (arith, h u)) (λ u. omega (arith, k u)) in
        (
          q,
          round_next hc c cs p p q (ground arith) e,
          (λ u. ground (arith, f u, string_eq.beq_iff (url c.backend) u)),
          (λ u. ground (arith, g u, string_eq.beq_iff (url c.backend) u)),
        )
  ]
]

from_list-permᴰ :
    (w : Bool) (u : String) {xs ys : List Check} → Permᴰ xs ys → from_list w u xs ≡ from_list w u ys
from_list-permᴰ w u Permᴰ.nil = refl
from_list-permᴰ w u (Permᴰ.cons {l₁ = l} {l₂ = r} e p) =
    ap (λ c. from_list w u (c ∷ l)) e ∙ ground (arith, from_list-permᴰ w u p)
from_list-permᴰ w u (Permᴰ.swap {a = a} {b = b} {a' = a'} {b' = b'} {l = l} e f) =
    ap (λ c. from_list w u (c ∷ b ∷ l)) e ∙ (ap (λ c. from_list w u (b' ∷ c ∷ l)) f ∙ omega arith)
from_list-permᴰ w u (Permᴰ.trans p q) = from_list-permᴰ w u p ∙ from_list-permᴰ w u q

from_list-perm :
    (w : Bool) (u : String) {xs ys : List Check} → Perm xs ys → from_list w u xs ≡ from_list w u ys
from_list-perm w u p = ∥∥₁_elim p (ℕ_set _ _) (from_list-permᴰ w u)

-- The goroutines of the lists of a pool.
count-checks :
    (u : String) (hs ss : List WeightedBackend)
    → (from_list true u (map of_healthy hs ++ map of_sick ss) ≡ count u (urls hs))
      × (from_list false u (map of_healthy hs ++ map of_sick ss) ≡ count u (urls ss))
count-checks u [] [] = (refl, refl)
count-checks u [] (b ∷ ss) = let (x, y) = count-checks u [] ss in ground arith
count-checks u (b ∷ hs) ss = let (x, y) = count-checks u hs ss in ground arith

-- A round of health checks over a pool in which no backend stands twice, if none of its goroutines
-- moves a backend while another one does: in whatever order they come to their moves, the round
-- does not panic, the pool stays so, and exactly the backends that pass are healthy afterwards,
-- exactly those that fail are sick, none lost and none made up.
pub round_sorts :
    (hc : String → Bool) (p : Pool) (order : List Check)
    → IsSeparate p
    → Perm (checks_of p) order
    → (q : Pool) × (round hc order p ≡ ran q)
      × IsSeparate q
      × ((u : String) → in_healthy u q ≡ (if hc u then in_healthy u p + in_sick u p else 0))
      × ((u : String) → in_sick u q ≡ (if hc u then 0 else in_healthy u p + in_sick u p))
round_sorts hc p order s perm =
    let from_h : (u : String) → from_list true u order ≡ in_healthy u p =
      λ u. sym (from_list-perm true u perm) ∙ (count-checks u p.healthy p.sick).0 in
    let from_s : (u : String) → from_list false u order ≡ in_sick u p =
      λ u. sym (from_list-perm false u perm) ∙ (count-checks u p.healthy p.sick).1 in
    let (q, e, f, g) =
      round_lem hc order p s (λ u. omega (arith, from_h u)) (λ u. omega (arith, from_s u)) in
    (
      q,
      e,
      (λ u. ground (arith, s u, f u, g u, from_h u, from_s u)),
      (λ u. ground (arith, f u, from_h u, from_s u)),
      (λ u. ground (arith, g u, from_h u, from_s u)),
    )

-- ===== src/Balancer/HealthChecks/Arrivals.antt =====
-- The goroutines of HealthMultiplexer of lb/server/http/server.go: their results, true for no error,
-- come through the channel in the order in which the checks end.
use mathlib.Core.Bool.{Bool-set}
use mathlib.Core.List.{Permᴰ, Perm}
use mathlib.Core.Logic.{∥∥₁_elim}
use gofordevopsclass.Prelude.{
  String, Bool, true, false, if◌then◌else◌, List, [], ◌∷◌, map, ◌≡◌, refl, ◌∙◌, arith,
}
use gofordevopsclass.Balancer.HealthChecks.{HealthCheck, health_multiplexer}

-- The loop that receives: it returns at the first error, and nil behind the last result.
unfoldable pub receive : List Bool → Bool
receive [] = true
receive (r ∷ rs) = let rest = receive rs in if r then rest else false

receive-permᴰ : {xs ys : List Bool} → Permᴰ xs ys → receive xs ≡ receive ys
unfolding receive
receive-permᴰ Permᴰ.nil = refl
receive-permᴰ (Permᴰ.cons e p) = ground (arith, e, receive-permᴰ p)
receive-permᴰ (Permᴰ.swap e f) = ground (arith, e, f)
receive-permᴰ (Permᴰ.trans p q) = receive-permᴰ p ∙ receive-permᴰ q

in_turn :
    (hcs : List HealthCheck) (endpoint : String)
    → health_multiplexer hcs endpoint ≡ receive (map (λ hc. hc endpoint) hcs)
unfolding health_multiplexer receive
in_turn [] endpoint = refl
in_turn (hc ∷ hcs) endpoint = ground (arith, in_turn hcs endpoint)

-- In whatever order the results of the checks arrive, the loop that receives them returns what the
-- checks, called in turn, say together: no error exactly if none of them has one.
pub health_multiplexer-receive :
    (hcs : List HealthCheck) (endpoint : String) (arrivals : List Bool)
    → Perm (map (λ hc. hc endpoint) hcs) arrivals
    → health_multiplexer hcs endpoint ≡ receive arrivals
health_multiplexer-receive hcs endpoint arrivals p =
    in_turn hcs endpoint ∙ ∥∥₁_elim p (Bool-set _ _) receive-permᴰ

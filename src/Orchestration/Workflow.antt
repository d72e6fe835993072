-- ===== src/Orchestration/Workflow.antt =====
-- orchestration/workflow/workflow.go: the rollout over all endpoints. Here are the precondition, the
-- canaries and the status; Rollout has the concurrent part of Run.
pub mod Rollout
pub mod Bounds
pub mod Returns
pub mod Precondition
pub mod Canaries
pub mod Whole
pub mod Retry
use gofordevopsclass.Prelude.{
  ℕ, zero, suc, ◌+◌, String, Bool, true, false, ◌&&◌, nat_beq, if◌then◌else◌, length, contains,
  string_eq, List, [], ◌∷◌, Option, none, some, map,
}
use gofordevopsclass.Prelude.Int.{ℤ}
use gofordevopsclass.Orchestration.Config.{Config}
use gofordevopsclass.Orchestration.Actions.{Actions, ActionError, World, run}

pub data EndState : Type 0 where
  es_unknown es_success es_precondition_failure es_canary_failure es_max_failures : EndState

-- pb.PoolHealth, as the balancer reports it.
pub data PoolStatus : Type 0 where
  ps_unknown ps_empty ps_full ps_degraded : PoolStatus

-- GetIpBackend of a backend: its ip and port, none for another kind of backend.
pub record PoolHealth : Type 0 where
  pub status : PoolStatus
  pub backends : List (Option (String × ℤ))

pub data LbStateError : Type 0 where
  pool_health_failed wrong_count not_in_config not_an_ip not_healthy : LbStateError

-- net.JoinHostPort of an ip and strconv.Itoa of a port.
module _ (join_host_port : String → ℤ → String) where
  -- The loop over the backends of the pool, against the set of the configured ones.
  unfoldable pub all_configured : List String → List (Option (String × ℤ)) → Option LbStateError
  all_configured cs [] = none
  all_configured cs (none ∷ bs) = some not_an_ip
  all_configured cs (some (ip, port) ∷ bs) =
      let rest = all_configured cs bs in
      if contains (join_host_port ip port) cs then rest else some not_in_config

  abbrev check_status : List String → List (Option (String × ℤ)) → PoolStatus → Option LbStateError
  check_status cs bs ps_empty = if nat_beq (length cs) 0 then none else some wrong_count
  check_status cs bs ps_full =
      if nat_beq (length cs) (length bs) then all_configured cs bs else some wrong_count
  check_status cs bs ps_unknown = some not_healthy
  check_status cs bs ps_degraded = some not_healthy

  -- checkLBState, for what the balancer answers (none is an error).
  unfoldable pub check_lb_state : Config → Option PoolHealth → Option LbStateError
  check_lb_state c none = some pool_health_failed
  check_lb_state c (some ph) = check_status c.backends ph.backends ph.status

-- The canaries: at most n of the actions, one at a time, each in its own world; an error stops them.
-- The actions afterwards, the number of those that ran, and whether one failed. none: a run of an
-- action did not return.
unfoldable pub canaries :
    ℕ → List (World × Actions) → Option (Option ActionError × List Actions × ℕ)
canaries zero l = some (none, map (λ (w, a). a) l, 0)
canaries (suc n) [] = some (none, [], 0)
canaries (suc n) ((w, a) ∷ l) = elim (run w a) [
  | none ↦ none
  | some (some e, b, tr) ↦ some (some e, b ∷ map (λ (w, a). a) l, 1)
  | some (none, b, tr) ↦ elim (canaries n l) [
    | none ↦ none
    | some (e, bs, k) ↦ some (e, b ∷ bs, suc k)
  ]
]

-- Status: the actions with an error.
unfoldable pub failures : List Actions → List Actions
failures [] = []
failures (a ∷ l) = let rest = failures l in elim a.err [ none ↦ rest | some e ↦ a ∷ rest ]

-- ===== src/Orchestration/Workflow/Whole.antt =====
-- Workflow of orchestration/workflow/workflow.go from New to its end state, and RetryFailed.
use gofordevopsclass.Prelude.{
  ℕ, suc, ◌+◌, ◌≤◌, String, Bool, true, false, length, contains, string_eq, List, [], ◌∷◌, Option,
  none, some, IsDistinct, ◌≡◌, ◌⊎◌, arith,
}
use gofordevopsclass.Prelude.Int.{ℤ, pos, negsuc, pos_part}
use gofordevopsclass.Orchestration.Config.{Config, Net}
use gofordevopsclass.Orchestration.Actions.{Actions, ActionError, World, run}
use gofordevopsclass.Orchestration.Actions
use gofordevopsclass.Orchestration.Workflow.{
  EndState, es_unknown, es_success, es_precondition_failure, es_canary_failure, es_max_failures,
  PoolHealth, LbStateError, check_lb_state, canaries, ps_empty, ps_full,
}
use gofordevopsclass.Orchestration.Workflow.Rollout.{Rollout, Steps, start, exceeds, returned}
use gofordevopsclass.Orchestration.Workflow.Bounds.{rollout_ends}
use gofordevopsclass.Orchestration.Workflow.Canaries.{AllFresh, first_well, canaries_exact}
use gofordevopsclass.Orchestration.Workflow.Precondition.{addresses, check_lb_state-same}

-- buildActions: none is the error of the first backend whose Actions cannot be made.
unfoldable pub build_actions : Net → List String → Option (List Actions)
build_actions net [] = some []
build_actions net (b ∷ bs) =
    let rest = build_actions net bs in
    elim (Actions.new net b) [
      | none ↦ none
      | some a ↦ elim rest [ none ↦ none | some l ↦ some (a ∷ l) ]
    ]

-- New: the configuration and the actions of the workflow.
unfoldable pub new_workflow : Net → Config → Option (Config × List Actions)
unfolding build_actions
new_workflow net c = elim (build_actions net c.backends) [ none ↦ none | some l ↦ some (c, l) ]

-- The state that Run sets behind its goroutines: ESSuccess or ESMaxFailures.
abbrev pub end_of : Bool → EndState
end_of true = es_success
end_of false = es_max_failures

-- How a call of Run comes to its end: with an end state, or with a panic that takes the program down.
pub data Outcome : Type 0 where
  ended : EndState → Outcome
  crashed : Outcome

-- A run of the workflow to its end, with what the balancer said of the pool (none is an error), the
-- actions with the worlds that the canaries meet, and the steps of the concurrent part. The indices
-- are the outcome, w.failures, and the number of actions behind the canaries without an error. A
-- negative CanaryNum means no canaries and a loop that starts at a negative index: its first
-- goroutine panics, if the test of the failures does not break the loop before. A negative
-- Concurrency makes no channel, but a panic.
pub data Run (join_host_port : String → ℤ → String) (c : Config) (ph : Option PoolHealth)
    (l : List (World × Actions)) : Outcome → ℕ → ℕ → Type 0 where
  precondition :
      (e : LbStateError)
      → check_lb_state join_host_port c ph ≡ some e
      → Run join_host_port c ph l (ended es_precondition_failure) 0 0
  canary :
      (cn : ℕ) (e : ActionError) (bs : List Actions) (k : ℕ)
      → check_lb_state join_host_port c ph ≡ none
      → c.canary_num ≡ pos cn
      → canaries cn l ≡ some (some e, bs, k)
      → Run join_host_port c ph l (ended es_canary_failure) 0 0
  no_channel :
      (bs : List Actions) (k n : ℕ)
      → check_lb_state join_host_port c ph ≡ none
      → canaries (pos_part c.canary_num) l ≡ some (none, bs, k)
      → c.concurrency ≡ negsuc n
      → Run join_host_port c ph l crashed 0 0
  negative_index :
      (n m : ℕ)
      → check_lb_state join_host_port c ph ≡ none
      → c.canary_num ≡ negsuc n
      → c.concurrency ≡ pos (suc m)
      → exceeds c.max_failures 0 ≡ false
      → Run join_host_port c ph l crashed 0 0
  negative_index_broken_off :
      (n m : ℕ)
      → check_lb_state join_host_port c ph ≡ none
      → c.canary_num ≡ negsuc n
      → c.concurrency ≡ pos (suc m)
      → exceeds c.max_failures 0 ≡ true
      → Run join_host_port c ph l (ended es_max_failures) 0 0
  rollout :
      (cn cap : ℕ) (bs : List Actions) (k n : ℕ) (r : Rollout) (b : Bool)
      → check_lb_state join_host_port c ph ≡ none
      → c.canary_num ≡ pos cn
      → c.concurrency ≡ pos cap
      → canaries cn l ≡ some (none, bs, k)
      → Steps (length l) cap c.max_failures (start cn) n r
      → r.mode ≡ returned b
      → Run join_host_port c ph l (ended (end_of b)) r.failures r.good

module _ (join_host_port : String → ℤ → String) (c : Config) (ph : PoolHealth)
    (l : List (World × Actions)) (fresh : AllFresh l) where
  -- What is known of a run, by its outcome.
  abbrev Known : Outcome → ℕ → ℕ → Type 0
  Known (ended es_success) f g =
      (cn : ℕ) × (c.canary_num ≡ pos cn)
      × (check_lb_state join_host_port c (some ph) ≡ none)
      × (first_well cn l ≡ true)
      × (length l ≤ cn + g + f)
      × (exceeds c.max_failures f ≡ false)
  Known (ended es_max_failures) f g = 0 ≤ 0
  Known (ended es_unknown) f g = 0 ≤ 0
  Known (ended es_precondition_failure) f g = 0 ≤ 0
  Known (ended es_canary_failure) f g = 0 ≤ 0
  Known crashed f g = 0 ≤ 0

  no_canary_failed :
      (cn : ℕ) (bs : List Actions) (k : ℕ)
      → canaries cn l ≡ some (none, bs, k)
      → first_well cn l ≡ true
  no_canary_failed cn bs k p =
      let (e, bs', k', q, i, j, o) = canaries_exact cn l fresh in grind arith

  run-Known : {o : Outcome} {f g : ℕ} → Run join_host_port c (some ph) l o f g → Known o f g
  run-Known (precondition e p) = omega arith
  run-Known (canary cn e bs k p y q) = omega arith
  run-Known (no_channel bs k n p q y) = omega arith
  run-Known (negative_index n m p x y z) = omega arith
  run-Known (negative_index_broken_off n m p x y z) = omega arith
  run-Known (rollout cn cap bs k n r true p u v q t m) =
      let (x, y, (z, w)) = rollout_ends (length l) cap c.max_failures cn true t m in
      (cn, u, p, no_canary_failed cn bs k q, omega arith, y)
  run-Known (rollout cn cap bs k n r false p u v q t m) = omega arith

  -- After a run that ends in ESSuccess, of a workflow whose actions have not failed before: CanaryNum
  -- is not negative; the pool was empty and so is the configuration, or it was full and has exactly
  -- the configured backends (if its addresses are distinct); all went well at each canary; every
  -- action behind the canaries was run, to an error or without one; and the errors are no more than
  -- MaxFailures.
  pub run_success :
      {f g : ℕ}
      → Run join_host_port c (some ph) l (ended es_success) f g
      → IsDistinct (addresses join_host_port ph.backends)
      → (cn : ℕ) × (c.canary_num ≡ pos cn)
        × (((ph.status ≡ ps_empty) × (c.backends ≡ []))
            ⊎ ((ph.status ≡ ps_full)
                × ((x : String)
                    → contains x c.backends ≡ contains x (addresses join_host_port ph.backends))))
        × (first_well cn l ≡ true)
        × (length l ≤ cn + g + f)
        × (exceeds c.max_failures f ≡ false)
  run_success p d =
      let (cn, u, x, y, z, w) = run-Known p in
      (cn, u, check_lb_state-same join_host_port c ph x d, y, z, w)

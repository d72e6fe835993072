-- ===== src/Orchestration/Examples.antt =====
-- The theorems on the rollout at two endpoints.
use gofordevopsclass.Prelude.{
  ℕ, ◌+◌, ◌-◌, ◌*◌, ◌≤◌, String, Bool, true, false, if◌then◌else◌, ◌==◌, string_eq, pair-IsDistinct,
  length, contains, List, [], ◌∷◌, Option, none, some, ◌≡◌, ◌⊎◌, ◌↔◌, inl, refl, arith, ap, ◌∙◌,
}
use gofordevopsclass.Prelude.Int.{ℤ, pos, pos_part}
use gofordevopsclass.Orchestration.Config.{Net, Config, validate, validate_exact, IsAccepted}
use gofordevopsclass.Orchestration.Actions.{Actions, ActionError, World, fresh, run}
use gofordevopsclass.Orchestration.Actions.Runs.{plan, all_well, answers_well, Ends, run_exact}
use gofordevopsclass.Orchestration.Workflow.{
  PoolHealth, ps_full, ps_empty, check_lb_state, all_configured, canaries,
}
use gofordevopsclass.Orchestration.Workflow.Canaries.{first_well, canaries_exact}
use gofordevopsclass.Orchestration.Workflow.Precondition.{addresses}
use gofordevopsclass.Orchestration.Workflow.Rollout.{
  Rollout, holding, all_started, returned, start, exceeds, Step, Steps, nothing, more, acquire,
  proceed, finish_loop, succeed, done, wait,
}
use gofordevopsclass.Orchestration.Workflow.Bounds.{rollout_bounded}
use gofordevopsclass.Orchestration.Workflow.Returns.{rollout_returns}
use gofordevopsclass.Orchestration.Workflow.Whole.{Run, ended, rollout, run_success}
use gofordevopsclass.Orchestration.Workflow.{es_success}

-- Every address is 10.0.0.1 with port 8080, but for "x", which is no ip.
abbrev net : Net
net = record {
  split_host_port = λ s. some (s, "8080");
  atoi = λ s. pos 8080;
  parse_ip = λ s. if s == "x" then none else some "10.0.0.1";
}

abbrev config : Config
config = record {
  concurrency = pos 2;
  canary_num = pos 1;
  max_failures = pos 1;
  src = "/bin/server";
  lb = "lb";
  pattern = "/";
  backends = "a" ∷ "b" ∷ [];
}

validate_exact_example : (validate net config ≡ none) ↔ IsAccepted net config
validate_exact_example = validate_exact net config

-- All goes well but for the start of the binary.
abbrev world : World
world = record {
  src_opens = true;
  context_over = λ s. false;
  installed_at_answers = true;
  installed_at = some "/srv/server";
  remove_ok = true;
  find_pid_ok = true;
  pid = some "17";
  term_ok = true;
  dies_of_term = true;
  kill_ok = true;
  dies_of_kill = true;
  dst_opens = true;
  copy_ok = true;
  binary_starts = true;
  healthz_ok = false;
  add_ok = true;
}

run_exact_example :
    Ends
      (if world.src_opens then all_well world plan else false)
      plan
      (fresh "a")
      (run world (fresh "a"))
run_exact_example = run_exact world (fresh "a") refl

abbrev endpoints : List (World × Actions)
endpoints = (world, fresh "a") ∷ (world, fresh "b") ∷ []

canaries_exact_example :
    (e : Option ActionError) × (bs : List Actions) × (k : ℕ) × (canaries 1 endpoints
      ≡ some (e, bs, k))
    × (k ≤ 1)
    × (length bs ≡ length endpoints)
    × ((e ≡ none) ↔ (first_well 1 endpoints ≡ true))
canaries_exact_example = canaries_exact 1 endpoints (refl, (refl, omega arith))

abbrev join : String → ℤ → String
join ip port = ip

abbrev full_pool : PoolHealth
full_pool = record { status = ps_full; backends = some ("b", pos 8080) ∷ some ("a", pos 8080) ∷ [] }

accepted : check_lb_state join config (some full_pool) ≡ none
unfolding check_lb_state all_configured
accepted = refl

-- Two actions, one of them a canary; the other one has been started and runs.
abbrev one_runs : Rollout
one_runs = record (start 1) { next = 2; held = 1; running = 1 }

one_runs-Steps : Steps 2 2 (pos 1) (start 1) 2 one_runs
unfolding exceeds
one_runs-Steps =
    more 1 _ _ (more 0 _ _ nothing (acquire (start 1) refl (omega arith) (omega arith)))
      (proceed (record (start 1) { mode = holding; held = 1 }) refl refl)

rollout_bounded_example :
    (one_runs.running + one_runs.ended ≤ 2)
    × (one_runs.failures ≤ pos_part (pos 1) + 2)
    × (one_runs.next ≡ 1 + one_runs.running + one_runs.good + one_runs.failures)
    × ((one_runs.next ≤ 2) ⊎ (one_runs.next ≡ 1))
rollout_bounded_example = rollout_bounded 2 2 (pos 1) 1 one_runs-Steps

rollout_returns_example :
    (2 ≤ 7 * (2 - 1) + 3)
    × (((b : Bool) × (one_runs.mode ≡ returned b)) ⊎ ((s : Rollout) × Step 2 2 (pos 1) one_runs s))
rollout_returns_example = rollout_returns 2 2 (pos 1) 1 (omega arith) one_runs-Steps

-- The same rollout once it has returned.
abbrev success : Rollout
success = record (start 1) { mode = returned true; next = 2; held = 1; leaving = 1; good = 1 }

success-Steps : Steps 2 2 (pos 1) (start 1) 6 success
unfolding exceeds
success-Steps =
    more 5 _ _
      (more 4 _ _
        (more 3 _ _ (more 2 _ _ one_runs-Steps (succeed one_runs 0 refl))
          (done (record one_runs { running = 0; ended = 1; good = 1 }) 0 refl))
        (finish_loop (record one_runs { running = 0; leaving = 1; good = 1 }) refl (omega arith)))
      (wait (record one_runs { mode = all_started; running = 0; leaving = 1; good = 1 }) false
        (inl refl) refl refl refl)

-- The same endpoints where all goes well.
abbrev well_world : World
well_world = record world { healthz_ok = true }

abbrev well_endpoints : List (World × Actions)
well_endpoints = (well_world, fresh "a") ∷ (well_world, fresh "b") ∷ []

canaries_pass : (bs : List Actions) × (k : ℕ) × (canaries 1 well_endpoints ≡ some (none, bs, k))
unfolding all_well answers_well
canaries_pass =
    let (e, bs, k, p, i, j, o) = canaries_exact 1 well_endpoints (refl, (refl, omega arith)) in
    let (u, v) = o in (bs, k, p ∙ ap (λ x. some (x, bs, k)) (v refl))

succeeds : Run join config (some full_pool) well_endpoints (ended es_success) 0 1
succeeds =
    let (bs, k, p) = canaries_pass in
    rollout 1 2 bs k 6 success true accepted refl refl p success-Steps refl

run_success_example :
    (cn : ℕ) × (config.canary_num ≡ pos cn)
    × (((full_pool.status ≡ ps_empty) × (config.backends ≡ []))
        ⊎ ((full_pool.status ≡ ps_full)
            × ((x : String)
                → contains x config.backends ≡ contains x (addresses join full_pool.backends))))
    × (first_well cn well_endpoints ≡ true)
    × (length well_endpoints ≤ cn + 1 + 0)
    × (exceeds (pos 1) 0 ≡ false)
run_success_example =
    run_success join config full_pool well_endpoints (refl, (refl, omega arith)) succeeds
      (pair-IsDistinct "b" "a" refl)

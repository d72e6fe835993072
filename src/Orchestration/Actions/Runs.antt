-- ===== src/Orchestration/Actions/Runs.antt =====
-- What Run of orchestration/actions/actions.go does on an endpoint, and what it leaves behind.
use gofordevopsclass.Prelude.{
  ℕ, zero, suc, ◌<◌, Bool, true, false, if◌then◌else◌, List, [], ◌∷◌, ◌++◌, Option, none, some,
  Option-cases, Bool-cases, is_some, ◌≡◌, ◌⊎◌, ◌↔◌, inl, inr, refl, arith,
}
use gofordevopsclass.Orchestration.Actions.{
  Stage, find_app, kill_job, kill_pid, find_app_local, rm_backend, job_kill, cp, job_start,
  add_backend, ActionError, World, Actions, call, loop, run, Next, go_on, all_done, fails,
  context_done, cannot_open_src, find_app_failed, found_nothing, remove_failed, find_pid_failed,
  no_job, kill_failed, kill_after_term_failed, death_timeout, open_failed, copy_failed,
  start_failed, unreachable, add_failed,
}

-- The stages in the order of an upgrade.
abbrev pub plan : List Stage
plan = find_app_local ∷ rm_backend ∷ job_kill ∷ cp ∷ job_start ∷ add_backend ∷ []

abbrev rank : Stage → ℕ
rank find_app_local = 6
rank rm_backend = 5
rank job_kill = 4
rank cp = 3
rank job_start = 2
rank add_backend = 1

abbrev from_stage : Stage → List Stage
from_stage find_app_local = plan
from_stage rm_backend = rm_backend ∷ job_kill ∷ cp ∷ job_start ∷ add_backend ∷ []
from_stage job_kill = job_kill ∷ cp ∷ job_start ∷ add_backend ∷ []
from_stage cp = cp ∷ job_start ∷ add_backend ∷ []
from_stage job_start = job_start ∷ add_backend ∷ []
from_stage add_backend = add_backend ∷ []

-- Calls of state functions, but for what they return, keep the error and the state of old.
abbrev Keeps : Actions → Actions → Type 0
Keeps a b = (b.err ≡ a.err) × (b.failed_state ≡ a.failed_state)

-- Each answer that the stage waits for is a good one. A job that outlives SIGTERM must die of
-- SIGKILL.
unfoldable pub answers_well : World → Stage → Bool
answers_well w find_app_local = if w.installed_at_answers then is_some w.installed_at else false
answers_well w rm_backend = w.remove_ok
answers_well w job_kill =
    if w.find_pid_ok
    then (if is_some w.pid
        then (if w.term_ok
            then (if w.dies_of_term then true else if w.kill_ok then w.dies_of_kill else false)
            else false)
        else false)
    else false
answers_well w cp = if w.dst_opens then w.copy_ok else false
answers_well w job_start = if w.binary_starts then w.healthz_ok else false
answers_well w add_backend = w.add_ok

-- The context is not over at any of the stages, and all of their answers are good.
unfoldable pub all_well : World → List Stage → Bool
all_well w [] = true
all_well w (s ∷ r) =
    if w.context_over s then false else if answers_well w s then all_well w r else false

data Called (w : World) (s : Stage) (a : Actions) (r : Next × Actions) : Type 0 where
  failed :
      (x : ActionError) (b : Actions)
      → r ≡ (fails x, b)
      → answers_well w s ≡ false
      → Keeps a b
      → Called w s a r
  last :
      (b : Actions)
      → r ≡ (all_done, b)
      → answers_well w s ≡ true
      → from_stage s ≡ s ∷ []
      → Keeps a b
      → Called w s a r
  next :
      (t : Stage) (b : Actions)
      → r ≡ (go_on t, b)
      → answers_well w s ≡ true
      → from_stage s ≡ s ∷ from_stage t
      → rank t < rank s
      → Keeps a b
      → Called w s a r

call-Called : (w : World) (s : Stage) (a : Actions) → Called w s a (call w s a)
unfolding call find_app kill_job kill_pid answers_well
call-Called w find_app_local a = elim (Bool-cases w.installed_at_answers) [
  | inr x ↦ failed find_app_failed a (ground arith) (ground arith) (refl, refl)
  | inl x ↦ elim (Option-cases w.installed_at) [
    | inl n ↦ failed found_nothing a (ground arith) (ground arith) (refl, refl)
    | inr (d, m) ↦
        next rm_backend (record a { dst = d }) (ground arith) (ground arith) refl (omega arith)
          (refl, refl)
  ]
]
call-Called w rm_backend a = elim (Bool-cases w.remove_ok) [
  | inr x ↦ failed remove_failed a (ground arith) (ground arith) (refl, refl)
  | inl x ↦ next job_kill a (ground arith) (ground arith) refl (omega arith) (refl, refl)
]
call-Called w job_kill a = elim (Bool-cases w.find_pid_ok) [
  | inr x ↦ failed find_pid_failed a (ground arith) (ground arith) (refl, refl)
  | inl x ↦ elim (Option-cases w.pid) [
    | inl n ↦ failed no_job a (ground arith) (ground arith) (refl, refl)
    | inr (d, m) ↦ elim (Bool-cases w.term_ok) [
      | inr o ↦ failed kill_failed a (ground arith) (ground arith) (refl, refl)
      | inl o ↦ elim (Bool-cases w.dies_of_term) [
        | inl y ↦ next cp a (ground arith) (ground arith) refl (omega arith) (refl, refl)
        | inr y ↦ elim (Bool-cases w.kill_ok) [
          | inr z ↦ failed kill_after_term_failed a (ground arith) (ground arith) (refl, refl)
          | inl z ↦ elim (Bool-cases w.dies_of_kill) [
            | inl u ↦ next cp a (ground arith) (ground arith) refl (omega arith) (refl, refl)
            | inr u ↦ failed death_timeout a (ground arith) (ground arith) (refl, refl)
          ]
        ]
      ]
    ]
  ]
]
call-Called w cp a = elim (Bool-cases w.dst_opens) [
  | inr x ↦ failed open_failed a (ground arith) (ground arith) (refl, refl)
  | inl x ↦ elim (Bool-cases w.copy_ok) [
    | inr y ↦ failed copy_failed a (ground arith) (ground arith) (refl, refl)
    | inl y ↦ next job_start a (ground arith) (ground arith) refl (omega arith) (refl, refl)
  ]
]
call-Called w job_start a = elim (Bool-cases w.binary_starts) [
  | inr x ↦ failed start_failed a (ground arith) (ground arith) (refl, refl)
  | inl x ↦ elim (Bool-cases w.healthz_ok) [
    | inr y ↦ failed unreachable a (ground arith) (ground arith) (refl, refl)
    | inl y ↦ next add_backend a (ground arith) (ground arith) refl (omega arith) (refl, refl)
  ]
]
call-Called w add_backend a = elim (Bool-cases w.add_ok) [
  | inr x ↦ failed add_failed a (ground arith) (ground arith) (refl, refl)
  | inl x ↦ last a (ground arith) (ground arith) refl (refl, refl)
]

-- The error of a run, or else the one of old.
abbrev pub or_old : Option ActionError → Option ActionError → Option ActionError
or_old none o = o
or_old (some x) o = some x

-- How a run that has some stages ahead ends: it returns; the stages that it called are the first of
-- those, and all of them if there is no error; there is none exactly if all is well at each stage;
-- an error is kept in the actions, and without one they keep the error of old; there is never a
-- state to go on from.
abbrev pub Ends :
    Bool → List Stage → Actions → Option (Option ActionError × Actions × List Stage) → Type 0
Ends well ahead a r =
    (e : Option ActionError) × (b : Actions) × (tr : List Stage) × (rest : List Stage) × (r
      ≡ some (e, b, tr))
    × (ahead ≡ tr ++ rest)
    × ((e ≡ none) → (rest ≡ []))
    × ((e ≡ none) ↔ (well ≡ true))
    × (b.err ≡ or_old e a.err)
    × (b.failed_state ≡ none)

split : (s : Stage) → (rest : List Stage) × (from_stage s ≡ s ∷ rest)
split find_app_local = (from_stage rm_backend, refl)
split rm_backend = (from_stage job_kill, refl)
split job_kill = (from_stage cp, refl)
split cp = (from_stage job_start, refl)
split job_start = (from_stage add_backend, refl)
split add_backend = ([], refl)

all_well_head :
    (w : World) (s : Stage)
    → w.context_over s ≡ true ⊎ answers_well w s ≡ false
    → all_well w (from_stage s) ≡ false
unfolding all_well
all_well_head w s h = let (r, q) = split s in elim h [ inl x ↦ ground arith | inr x ↦ ground arith ]

loop-Ends :
    (f : ℕ) (w : World) (s : Stage) (a : Actions)
    → rank s < f
    → a.failed_state ≡ none
    → Ends (all_well w (from_stage s)) (from_stage s) a (loop f w s a)
unfolding loop all_well
loop-Ends zero w s a h n = ground arith
loop-Ends (suc f) w s a h n = elim (Bool-cases (w.context_over s)) [
  | inl x ↦ (
    some context_done,
    record a { err = some context_done },
    [],
    from_stage s,
    ground arith,
    refl,
    ground arith,
    ground (arith, all_well_head w s (inl x)),
    refl,
    n,
  )
  | inr x ↦ elim (call-Called w s a) [
    | failed e b r v k ↦
        let (rest, q) = split s in
        (
          some e,
          record b { failed_state = none; err = some e },
          s ∷ [],
          rest,
          ground arith,
          ground arith,
          ground arith,
          ground (arith, all_well_head w s (inr v)),
          refl,
          refl,
        )
    | last b r v q k ↦ (
      none,
      b,
      s ∷ [],
      [],
      ground arith,
      ground arith,
      ground arith,
      ground arith,
      ground arith,
      ground arith,
    )
    | next t b r v q l k ↦
        let (e, c, tr, rest, u, m, x0, x1, y, z) = loop-Ends f w t b (omega arith) (ground arith) in
        (e, c, s ∷ tr, rest, ground arith, ground arith, x0, ground arith, ground arith, z)
  ]
]

-- A run on actions without a failed state returns. It calls stages in the order of the upgrade.
-- There is no error exactly if the source opens and all is well at each stage, and then every stage
-- was called. The actions keep the error, or without one the error of old, and no failed state.
pub run_exact :
    (w : World) (a : Actions)
    → a.failed_state ≡ none
    → Ends (if w.src_opens then all_well w plan else false) plan a (run w a)
unfolding run
run_exact w a n = elim (Bool-cases w.src_opens) [
  | inl x ↦
      let (e, c, tr, rest, u, m, x0, x1, y, z) =
        loop-Ends 7 w find_app_local (record a { started = true }) (omega arith) n in
      (e, c, tr, rest, ground arith, m, x0, ground arith, y, z)
  | inr x ↦ (
    some cannot_open_src,
    record a { err = some cannot_open_src },
    [],
    plan,
    ground arith,
    refl,
    ground arith,
    ground arith,
    refl,
    n,
  )
]

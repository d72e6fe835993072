-- ===== src/Orchestration/Actions.antt =====
-- orchestration/actions/actions.go: the upgrade of one endpoint, as a machine of state functions.
-- What the machine, the network and the balancer answer during a run is a parameter of the run.
pub mod Runs
use gofordevopsclass.Orchestration.Config.{Net, check_ip_port, address, refused}
use gofordevopsclass.Prelude.{
  ℕ, zero, suc, String, Bool, true, false, if◌then◌else◌, List, [], ◌∷◌, Option, none, some,
}

-- The state functions. jobStart goes on to reachable by itself.
pub data Stage : Type 0 where
  find_app_local rm_backend job_kill cp job_start add_backend : Stage

pub data ActionError : Type 0 where
  cannot_open_src context_done : ActionError
  find_app_failed found_nothing : ActionError
  remove_failed : ActionError
  find_pid_failed no_job kill_failed kill_after_term_failed death_timeout : ActionError
  open_failed copy_failed start_failed unreachable add_failed : ActionError

-- The answers that one run meets. A field is true where the call succeeds.
pub record World : Type 0 where
  pub src_opens : Bool
  -- ctx.Err() != nil before the stage.
  pub context_over : Stage → Bool
  pub installed_at_answers : Bool
  -- The body of the answer, already trimmed and cleaned; none if it is empty.
  pub installed_at : Option String
  pub remove_ok : Bool
  pub find_pid_ok : Bool
  -- The pid, none if no job runs.
  pub pid : Option String
  pub term_ok : Bool
  pub dies_of_term : Bool
  pub kill_ok : Bool
  pub dies_of_kill : Bool
  pub dst_opens : Bool
  pub copy_ok : Bool
  pub binary_starts : Bool
  pub healthz_ok : Bool
  pub add_ok : Bool

pub record Actions : Type 0 where
  pub endpoint : String
  pub dst : String
  pub started : Bool
  pub failed_state : Option Stage
  pub err : Option ActionError

abbrev pub fresh : String → Actions
fresh e = record { endpoint = e; dst = ""; started = false; failed_state = none; err = none }

-- New: none is the error of CheckIPPort.
unfoldable pub new : Net → String → Option Actions
new net e = elim (check_ip_port net e) [ refused x ↦ none | address ip p ↦ some (fresh e) ]

-- What a state function returns: the next one (none is nil), or an error, which in each of them
-- comes with a nil function.
pub data Next : Type 0 where
  go_on : Stage → Next
  all_done : Next
  fails : ActionError → Next

unfoldable pub find_app : World → Actions → Next × Actions
find_app w a =
    if w.installed_at_answers
    then (elim w.installed_at [
      | none ↦ (fails found_nothing, a)
      | some d ↦ (go_on rm_backend, record a { dst = d })
    ])
    else (fails find_app_failed, a)

-- SIGTERM, and SIGKILL for a job that outlives it.
unfoldable pub kill_job : World → Next
kill_job w =
    if w.term_ok
    then (if w.dies_of_term
        then go_on cp
        else if w.kill_ok
        then (if w.dies_of_kill then go_on cp else fails death_timeout)
        else fails kill_after_term_failed)
    else fails kill_failed

unfoldable pub kill_pid : World → Option String → Next
unfolding kill_job
kill_pid w none = fails no_job
kill_pid w (some p) = kill_job w

-- One call of a state function.
unfoldable pub call : World → Stage → Actions → Next × Actions
unfolding find_app kill_pid
call w find_app_local a = find_app w a
call w rm_backend a = (if w.remove_ok then go_on job_kill else fails remove_failed, a)
call w job_kill a = (if w.find_pid_ok then kill_pid w w.pid else fails find_pid_failed, a)
call w cp a = (
  if w.dst_opens
      then (if w.copy_ok then go_on job_start else fails copy_failed)
      else fails open_failed,
  a,
)
call w job_start a = (
  if w.binary_starts
      then (if w.healthz_ok then go_on add_backend else fails unreachable)
      else fails start_failed,
  a,
)
call w add_backend a = (if w.add_ok then all_done else fails add_failed, a)

-- The loop of Run, with the stages that it called, in order. none: the fuel ran out.
unfoldable pub loop :
    ℕ → World → Stage → Actions → Option (Option ActionError × Actions × List Stage)
loop zero w s a = none
loop (suc f) w s a =
    if w.context_over s
    then some (some context_done, record a { err = some context_done }, [])
    else (let (n, b) = call w s a in
        elim n [
          | fails e ↦ some (some e, record b { failed_state = none; err = some e }, s ∷ [])
          | all_done ↦ some (none, b, s ∷ [])
          | go_on t ↦ elim (loop f w t b) [ none ↦ none | some (e, c, tr) ↦ some (e, c, s ∷ tr) ]
        ])

-- The stage at which Run begins.
abbrev pub first : Option Stage → Stage
first none = find_app_local
first (some s) = s

-- Run. Six calls are the most that one run makes; the fuel is one more.
unfoldable pub run : World → Actions → Option (Option ActionError × Actions × List Stage)
run w a =
    if w.src_opens
    then loop 7 w (first a.failed_state) (record a { started = true })
    else some (some cannot_open_src, record a { err = some cannot_open_src }, [])

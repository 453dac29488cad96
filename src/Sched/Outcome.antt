-- ===== src/Sched/Outcome.antt =====
-- internal/sched/sched.go: what ends a run. The goroutine of a task runs `execute` or `readopt_run`
-- and then `finish`; `Cancel` and `Recover` come from outside. An Attempt is what the environment
-- answers while one run goes on: the error of opening the log, what the executor returns, the
-- error of the run's context by then (cancelled or past its deadline), and the reset time and
-- window that gate.ParseExhaustion finds in the tail of the log.
pub mod Laws
pub mod Recovery
pub mod Stale
use kranq.Base.{
  ℕ, Bool, true, false, not, ◌&&◌, List, [], ◌∷◌, ◌++◌, Option, none, some, if◌then◌else◌, ◌==◌,
}
use kranq.Base.Int.{ℤ, pos, negsuc}
use kranq.Base.Text.{Bytes, same, codes, empty}
use kranq.Gate.{mark_exhausted_until, mark_healthy}
use kranq.Sched.Defs.{Config, Scheduler, add_key, delete_key, remaining}
use kranq.Sched.{update_task, mark_lost, fail, finish, unless_terminal}
use kranq.State.Task.{
  Task, Status, running, succeeded, failed, cancelled, blocked, claude, is_running, own_token,
  env_get, env_set, claude_token_var,
}
use kranq.State.Store.{Store, Result, ok, err, update, list}

pub data RunResult : Type 0 where
  exited : ℤ → RunResult
  run_error : Bytes → RunResult

pub record Attempt : Type 0 where
  pub log_error : Option Bytes
  pub outcome : RunResult
  pub interrupted : Option Bytes
  pub resets_at : ℕ
  pub window : Bytes

-- task.RateLimitExitCode
abbrev pub rate_limit_exit_code : ℕ
rate_limit_exit_code = 75

abbrev pub is_code : ℤ → ℕ → Bool
is_code (pos n) k = n == k
is_code (negsuc n) k = false

abbrev pub set_waiting : Task → Task
set_waiting u = record u {
  status = blocked;
  blocked_on = claude;
  started_at = none;
  exec_pgid = 0;
  error = codes "waiting for claude usage";
}

abbrev pub set_finished : ℤ → ℕ → Task → Task
set_finished code at u = record u {
  status = if is_code code 0 then succeeded else failed;
  exit_code = code;
  finished_at = some at;
  exec_pgid = 0;
  error = [];
}

abbrev pub is_rate_limited : Task → ℤ → Bool
is_rate_limited t code = is_code code rate_limit_exit_code && t.needs_claude && own_token t

-- The branch of `settle` for a run that used up the machine's claude usage.
unfoldable pub hold : Bool → Bool → ℕ → Scheduler → Task → Attempt → Scheduler
unfolding update_task
hold saved noted now s t a =
    let (gate, until) = mark_exhausted_until noted s.gate now a.resets_at a.window in
    update_task saved (record s { gate = gate }) t.id set_waiting

unfoldable pub settle_code : Bool → Bool → ℕ → Scheduler → Task → Attempt → ℤ → Scheduler
unfolding hold update_task
settle_code saved noted now s t a code =
    if is_rate_limited t code
    then hold saved noted now s t a
    else (let healthy = t.needs_claude && is_code code 0 && own_token t in
        let s' = if healthy then record s { gate = mark_healthy noted s.gate } else s in
        update_task saved s' t.id (unless_terminal (set_finished code now)))

-- The runner's own error: interrupted, if the run's context is over, and failed otherwise.
unfoldable pub settle_error : Bool → ℕ → Scheduler → Bytes → Bytes → Option Bytes → Scheduler
unfolding mark_lost fail
settle_error saved now s id msg (some why) =
    mark_lost saved now s id (codes "the run was interrupted: " ++ why)
settle_error saved now s id msg none = fail saved now s id msg

unfoldable pub settle_result : Bool → Bool → ℕ → Scheduler → Task → Attempt → RunResult → Scheduler
unfolding settle_code settle_error
settle_result saved noted now s t a (exited code) = settle_code saved noted now s t a code
settle_result saved noted now s t a (run_error msg) =
    settle_error saved now s t.id msg a.interrupted

-- `settle`; `saved` is for the store's write and `noted` for the gate's.
unfoldable pub settle : Bool → Bool → ℕ → Scheduler → Task → Attempt → Scheduler
unfolding settle_result
settle saved noted now s t a = settle_result saved noted now s t a a.outcome

-- The environment that the job's script is built with: the caller's own, and the machine's claude
-- token where the task needs one and the caller brought none.
unfoldable pub job_env : Config → Bool → Task → List (Bytes × Bytes)
job_env cfg needs t =
    if needs && empty (env_get t.env claude_token_var) && not (empty cfg.claude_token)
    then env_set t.env claude_token_var cfg.claude_token
    else t.env

-- `openLog`, and what follows it.
abbrev pub with_log : Option Bytes → Scheduler → (Bytes → Scheduler) → Scheduler
with_log none go stop = go
with_log (some why) go stop = stop why

-- `execute`. `parsed` is what task.Parse makes of the spec: an error's text, or the spec's
-- NeedsClaude, on which only the job's environment depends.
pub data Parsed : Type 0 where
  invalid : Bytes → Parsed
  valid : Bool → Parsed

unfoldable pub execute : Bool → Bool → ℕ → Scheduler → Task → Parsed → Attempt → Scheduler
unfolding settle fail
execute saved noted now s t (invalid msg) a = fail saved now s t.id (codes "invalid spec: " ++ msg)
execute saved noted now s t (valid needs) a =
    with_log a.log_error (settle saved noted now s t a) (λ why. fail saved now s t.id why)

unfoldable pub readopt_run : Bool → Bool → ℕ → Scheduler → Task → Attempt → Scheduler
unfolding settle mark_lost
readopt_run saved noted now s t a =
    with_log a.log_error (settle saved noted now s t a) λ why.
      mark_lost saved now s t.id (codes "re-adopted but its log could not be opened: " ++ why)

unfoldable pub delete_job : Bytes → List Task → List Task
delete_job id [] = []
delete_job id (t ∷ ts) = if same t.id id then ts else t ∷ delete_job id ts

-- The goroutine that `launch` starts, and the one that `readopt` starts, from end to end.
unfoldable pub run_job : Bool → Bool → ℕ → Scheduler → Task → Parsed → Attempt → Scheduler
unfolding execute finish delete_job
run_job saved noted now s t parsed a =
    let s' = finish (execute saved noted now s t parsed a) t.id in
    record s' { jobs = delete_job t.id s'.jobs }

unfoldable pub run_readopted : Bool → Bool → ℕ → Scheduler → Task → Attempt → Scheduler
unfolding readopt_run finish delete_job
run_readopted saved noted now s t a =
    let s' = finish (readopt_run saved noted now s t a) t.id in
    record s' { jobs = delete_job t.id s'.jobs }

abbrev pub set_cancelled : ℕ → Task → Task
set_cancelled at u = record u { status = cancelled; finished_at = some at }

-- `Cancel`. That it also cancels the run's context shows in `interrupted` of the run's Attempt.
unfoldable pub cancel : Bool → ℕ → Scheduler → Bytes → Scheduler × Result Task
cancel saved now s id =
    let (store, r) = update saved s.store id (unless_terminal (set_cancelled now)) in
    (record s { store = store }, r)

unfoldable pub readopt : Scheduler → Task → Scheduler
readopt s t = record s { running = add_key t.id s.running; jobs = s.jobs ++ t ∷ [] }

unfoldable pub recover_task : (Task → Bool) → (Task → Bool) → ℕ → Scheduler → Task → Scheduler
unfolding mark_lost readopt
recover_task adoptable saves now s t =
    if not (is_running t.status)
    then s
    else if not (adoptable t)
    then mark_lost (saves t) now s t.id
        (codes "the daemon restarted while this task was running, and its job is gone")
    else readopt s t

unfoldable pub recover_loop : (Task → Bool) → (Task → Bool) → ℕ → Scheduler → List Task → Scheduler
unfolding recover_task
recover_loop adoptable saves now s [] = s
recover_loop adoptable saves now s (t ∷ ts) =
    recover_loop adoptable saves now (recover_task adoptable saves now s t) ts

-- `Recover`, at the start of the daemon.
unfoldable pub recover : (Task → Bool) → (Task → Bool) → ℕ → Scheduler → Scheduler
unfolding recover_loop
recover adoptable saves now s = recover_loop adoptable saves now s (list s.store)

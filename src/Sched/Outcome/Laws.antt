-- ===== src/Sched/Outcome/Laws.antt =====
-- What the end of a run does to its task, to the other tasks and to the gate.
use kranq.Base.{
  ℕ, ◌+◌, ◌≤◌, ◌<◌, Bool, true, false, ◌&&◌, [], none, some, if◌then◌else◌, ◌≡◌, ◌≢◌, refl, ap, ◌∙◌,
  ◌⊎◌, inl, inr, arith, Bool-cases,
}
use kranq.Base.Int.{ℤ, pos}
use kranq.Base.Text.{Bytes, codes, same_refl}
use kranq.Gate.{Gate, available, mark_exhausted_until, minute}
use kranq.Gate.Laws.{mark_exhausted_until-closes}
use kranq.Sched.Defs.{Config, Scheduler, Round, judge, admit, remaining}
use kranq.Sched.Outcome.{
  Attempt, exited, is_rate_limited, settle, settle_result, settle_code, hold, cancel,
  rate_limit_exit_code, set_waiting, set_finished, is_code,
}
use kranq.Sched.Progress.{AtId}
use kranq.Sched.Progress.Steps.{Guarded, settle_result-Evolves, cancel-Evolves}
use kranq.Sched.{update_task, unless_terminal}
use kranq.State.Task.{
  Task, blocked, claude, succeeded, failed, cancelled, terminal, own_token, pending,
}
use kranq.State.Store.{lookup}
use kranq.State.Store.Laws.{lookup-update}

-- A task that is over keeps its whole record.
abbrev pub KeepsTerminal : Task → Task → Type 0
KeepsTerminal t u = terminal t ≡ true → u ≡ t

KeepsTerminal-Guarded : Guarded KeepsTerminal
KeepsTerminal-Guarded = record {
  stays = λ t h. refl;
  lost = λ at why t h. rw h;
  failed = λ at why t h. rw h;
  finished = λ code at t h. rw h;
  cancelled = λ at t h. rw h;
}

-- However a run ends, short of a rate limit on the machine's own token, a task that is over by then
-- keeps its record: a cancelled task stays cancelled, whatever its job did. A cancel that comes
-- when a task is over changes nothing either.
pub settle-KeepsTerminal :
    (saved noted : Bool) (now : ℕ) (s : Scheduler) (t : Task) (a : Attempt) (id : Bytes)
    → ((code : ℤ) → a.outcome ≡ exited code → is_rate_limited t code ≡ false)
    → AtId KeepsTerminal
        (lookup id s.store.index)
        (lookup id (settle saved noted now s t a).store.index)
      × AtId KeepsTerminal
          (lookup id s.store.index)
          (lookup id (cancel saved now s t.id).0.store.index)
unfolding settle
settle-KeepsTerminal saved noted now s t a id h = (
  settle_result-Evolves KeepsTerminal KeepsTerminal-Guarded saved noted now s t a a.outcome h id,
  cancel-Evolves KeepsTerminal KeepsTerminal-Guarded saved now s t.id id,
)

update_task-found :
    (s : Scheduler) (id : Bytes) (u : Task) (f : Task → Task)
    → ((t : Task) → (f t).id ≡ t.id)
    → lookup id s.store.index ≡ some u
    → lookup id (update_task true s id f).store.index ≡ some (f u)
unfolding update_task
update_task-found s id u f k e = rw (lookup-update true s.store id id f k, same_refl id, e)

-- The same where the gate was touched first.
update_task-found_gate :
    (b : Bool) (s : Scheduler) (gate : Gate) (id : Bytes) (u : Task) (f : Task → Task)
    → ((t : Task) → (f t).id ≡ t.id)
    → lookup id s.store.index ≡ some u
    → lookup id (update_task true (if b then record s { gate = gate } else s) id f).store.index
      ≡ some (f u)
update_task-found_gate true s gate id u f k e =
    update_task-found (record s { gate = gate }) id u f k e
update_task-found_gate false s gate id u f k e = update_task-found s id u f k e

settle_code-found :
    (noted : Bool) (now : ℕ) (s : Scheduler) (t u : Task) (a : Attempt) (code : ℤ)
    → lookup t.id s.store.index ≡ some u
    → lookup t.id (settle_code true noted now s t a code).store.index
      ≡ some (
          if is_rate_limited t code
          then set_waiting u
          else unless_terminal (set_finished code now) u)
unfolding settle_code hold
settle_code-found noted now s t u a code e = elim (Bool-cases (is_rate_limited t code)) [
  | inl h ↦ rw h (
      update_task-found
        (record s { gate = (mark_exhausted_until noted s.gate now a.resets_at a.window).0 }) t.id u
        _ (λ v. refl) e)
  | inr h ↦ rw h (update_task-found_gate _ s _ t.id u _ (λ v. ground arith) e)
]

-- What the record of a task is after a run that exited, if the disk takes the write. If the code is
-- 75 and the task needs claude and brought no token of its own, it is blocked on claude, with no time
-- of start. Otherwise a task that was over already keeps its record, and any other has succeeded for
-- code 0 and failed for any other code, with that code and the time, and without an error.
pub settle-exited :
    (noted : Bool) (now : ℕ) (s : Scheduler) (t u : Task) (a : Attempt) (code : ℤ)
    → a.outcome ≡ exited code
    → lookup t.id s.store.index ≡ some u
    → lookup t.id (settle true noted now s t a).store.index
      ≡ some (
          if is_code code 75 && t.needs_claude && own_token t
          then record u {
            status = blocked;
            blocked_on = claude;
            started_at = none;
            exec_pgid = 0;
            error = codes "waiting for claude usage";
          }
          else if terminal u
          then u
          else record u {
            status = if is_code code 0 then succeeded else failed;
            exit_code = code;
            finished_at = some now;
            exec_pgid = 0;
            error = [];
          })
unfolding settle settle_result
settle-exited noted now s t u a code o e =
    rw (o, settle_result) (settle_code-found noted now s t u a code e)

-- The hole in that rule: a run that is cancelled and then ends by the rate limit of the machine's
-- token is put back to blocked, which is pending, and so may be launched again.
pub settle_revives_cancelled :
    (noted : Bool) (now : ℕ) (s : Scheduler) (t u : Task) (a : Attempt)
    → a.outcome ≡ exited (pos rate_limit_exit_code)
    → t.needs_claude ≡ true
    → own_token t ≡ true
    → lookup t.id s.store.index ≡ some u
    → u.status ≡ cancelled
    → (v : Task) × (lookup t.id (settle true noted now s t a).store.index ≡ some v)
      × (v.status ≡ blocked)
      × (pending v ≡ true)
settle_revives_cancelled noted now s t u a o n k e c = (
  set_waiting u,
  settle-exited noted now s t u a (pos rate_limit_exit_code) o e ∙ rw (n, k),
  refl,
  refl,
)

module _ (saved noted : Bool) (now : ℕ) (s : Scheduler) (t : Task) (a : Attempt)
    (limited : a.outcome ≡ exited (pos rate_limit_exit_code)) (needs : t.needs_claude ≡ true)
    (own : own_token t ≡ true) where
  settle_rate_limited-gate :
      (settle saved noted now s t a).gate
      ≡ (mark_exhausted_until noted s.gate now a.resets_at a.window).0
  unfolding settle settle_result settle_code hold update_task
  settle_rate_limited-gate = rw (limited, settle_result, needs, own)

  -- A rate-limited run on the machine's token closes the gate: as long as the gate is still the one
  -- that the end of this run left, and the retry interval is not over, no round of a tick launches a
  -- task that needs the machine's token.
  pub settle_rate_limited-judge :
      (later : ℕ) (u : Task) (cfg : Config) (r : Round)
      → r.scheduler.gate ≡ (settle saved noted now s t a).gate
      → later < now + s.gate.retry
      → u.needs_claude ≡ true
      → own_token u ≡ true
      → judge cfg later r u ≢ admit
  unfolding judge
  settle_rate_limited-judge later u cfg r g lt n o h =
      let closed = mark_exhausted_until-closes noted s.gate now a.resets_at a.window later in
      let same_gate = g ∙ settle_rate_limited-gate in
      ground (arith, closed.1.0, closed.2, ap (λ x. available x later) same_gate)

-- The time that an adopted job has left: between a minute and the whole timeout, if the timeout is
-- at least a minute and the job did not start in the future; and it is not renewed by a restart,
-- since it ends where the timeout of its own start ends, if that is more than a minute away.
pub remaining_bounds :
    (cfg : Config) (t : Task) (now started : ℕ)
    → t.started_at ≡ some started
    → started ≤ now
    → minute ≤ cfg.task_timeout
    → (minute ≤ remaining cfg t now)
      × (remaining cfg t now ≤ cfg.task_timeout)
      × ((now + remaining cfg t now ≡ started + cfg.task_timeout)
          ⊎ (started + cfg.task_timeout < now + minute))
unfolding remaining
remaining_bounds cfg t now started e h m = rw (e, remaining) (ground arith)

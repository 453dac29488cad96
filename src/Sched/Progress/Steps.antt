-- ===== src/Sched/Progress/Steps.antt =====
-- The changes that each operation of the scheduler makes to one task.
use kranq.Base.{
  ℕ, Bool, true, false, Option, none, some, if◌then◌else◌, ◌≡◌, refl, arith, inl, inr, Bool-cases,
}
use kranq.Base.Int.{ℤ}
use kranq.Base.Text.{Bytes}
use kranq.Gate.{Gate}
use kranq.Sched.Defs.{
  Config, Scheduler, Round, Verdict, not_pending, slots_full, hold_for_claude, no_memory, no_cpus,
  admit,
}
use kranq.Sched.{
  update_task, unless_terminal, set_lost, mark_lost, set_failed, fail, set_blocked, block,
  is_blocked_on, set_running, launch, launch_with, act, tick_task,
}
use kranq.Sched.Admission.{after}
use kranq.Sched.Outcome.{
  Attempt, exited, run_error, hold, settle_code, settle_error, settle_result, with_log, settle,
  execute, invalid, valid, readopt_run, cancel, readopt, recover_task, set_waiting, set_finished,
  set_cancelled, is_rate_limited, Parsed, RunResult,
}
use kranq.Sched.Progress.{Evolves, update-Evolves, Evolves-refl}
use kranq.State.Task.{Task, Blocker, claude, memory, slots, is_running}
use kranq.State.Store.{Store, Result, ok, err, update}

-- The changes that leave a finished task alone.
pub record Guarded (R : Task → Task → Type 0) : Type 0 where
  pub stays : (t : Task) → R t t
  pub lost : (at : ℕ) (why : Bytes) (t : Task) → R t (unless_terminal (set_lost at why) t)
  pub failed : (at : ℕ) (why : Bytes) (t : Task) → R t (unless_terminal (set_failed at why) t)
  pub finished : (code : ℤ) (at : ℕ) (t : Task) → R t (unless_terminal (set_finished code at) t)
  pub cancelled : (at : ℕ) (t : Task) → R t (unless_terminal (set_cancelled at) t)

-- The changes that are made to a task whatever its status is by then.
pub record Unguarded (R : Task → Task → Type 0) : Type 0 where
  pub waiting : (t : Task) → R t (set_waiting t)
  pub blocking : (on : Blocker) (t : Task) → R t (set_blocked on t)
  pub launching : (at : ℕ) (t : Task) → R t (set_running at t)

module _ (R : Task → Task → Type 0) (g : Guarded R) where
  update_task-Evolves :
      (saved : Bool) (s : Scheduler) (id : Bytes) (f : Task → Task)
      → ((t : Task) → (f t).id ≡ t.id)
      → ((t : Task) → R t (f t))
      → Evolves R s.store (update_task saved s id f).store
  unfolding update_task
  update_task-Evolves saved s id f k h = update-Evolves R g.stays saved s.store id f k h

  pub mark_lost-Evolves :
      (saved : Bool) (now : ℕ) (s : Scheduler) (id why : Bytes)
      → Evolves R s.store (mark_lost saved now s id why).store
  unfolding mark_lost
  mark_lost-Evolves saved now s id why =
      update_task-Evolves saved s id _ (λ t. ground arith) (g.lost now why)

  pub fail-Evolves :
      (saved : Bool) (now : ℕ) (s : Scheduler) (id why : Bytes)
      → Evolves R s.store (fail saved now s id why).store
  unfolding fail
  fail-Evolves saved now s id why =
      update_task-Evolves saved s id _ (λ t. ground arith) (g.failed now why)

  pub cancel-Evolves :
      (saved : Bool) (now : ℕ) (s : Scheduler) (id : Bytes)
      → Evolves R s.store (cancel saved now s id).0.store
  unfolding cancel
  cancel-Evolves saved now s id =
      update-Evolves R g.stays saved s.store id _ (λ t. ground arith) (g.cancelled now)

  -- The gate has no part in what happens to the store.
  gate_aside :
      (b saved : Bool) (s : Scheduler) (gate : Gate) (id : Bytes) (f : Task → Task)
      → ((t : Task) → (f t).id ≡ t.id)
      → ((t : Task) → R t (f t))
      → Evolves R s.store (update_task saved (if b then record s { gate = gate } else s) id f).store
  unfolding update_task
  gate_aside true saved s gate id f k h = update-Evolves R g.stays saved s.store id f k h
  gate_aside false saved s gate id f k h = update-Evolves R g.stays saved s.store id f k h

  -- A run that was not rate limited.
  pub settle_code-Evolves :
      (saved noted : Bool) (now : ℕ) (s : Scheduler) (t : Task) (a : Attempt) (code : ℤ)
      → is_rate_limited t code ≡ false
      → Evolves R s.store (settle_code saved noted now s t a code).store
  unfolding settle_code
  settle_code-Evolves saved noted now s t a code h =
      rw h (gate_aside _ saved s _ t.id _ (λ u. ground arith) (g.finished code now))

  settle_error-Evolves :
      (saved : Bool) (now : ℕ) (s : Scheduler) (id msg : Bytes) (why : Option Bytes)
      → Evolves R s.store (settle_error saved now s id msg why).store
  unfolding settle_error
  settle_error-Evolves saved now s id msg none = fail-Evolves saved now s id msg
  settle_error-Evolves saved now s id msg (some w) = mark_lost-Evolves saved now s id _

  pub settle_result-Evolves :
      (saved noted : Bool) (now : ℕ) (s : Scheduler) (t : Task) (a : Attempt) (r : RunResult)
      → ((code : ℤ) → r ≡ exited code → is_rate_limited t code ≡ false)
      → Evolves R s.store (settle_result saved noted now s t a r).store
  unfolding settle_result
  settle_result-Evolves saved noted now s t a (exited code) h =
      settle_code-Evolves saved noted now s t a code (h code refl)
  settle_result-Evolves saved noted now s t a (run_error msg) h =
      settle_error-Evolves saved now s t.id msg a.interrupted

  recover_task-Evolves :
      (adoptable saves : Task → Bool) (now : ℕ) (s : Scheduler) (t : Task)
      → Evolves R s.store (recover_task adoptable saves now s t).store
  unfolding recover_task readopt
  recover_task-Evolves adoptable saves now s t = elim (Bool-cases (is_running t.status)) [
    | inl r ↦ elim (Bool-cases (adoptable t)) [
      | inl a ↦ rw (r, a) (Evolves-refl R g.stays s.store)
      | inr a ↦ rw (r, a) (mark_lost-Evolves (saves t) now s t.id _)
    ]
    | inr r ↦ rw r (Evolves-refl R g.stays s.store)
  ]

module _ (R : Task → Task → Type 0) where
  with_log-Evolves :
      (s : Scheduler) (o : Option Bytes) (go : Scheduler) (stop : Bytes → Scheduler)
      → Evolves R s.store go.store
      → ((why : Bytes) → Evolves R s.store (stop why).store)
      → Evolves R s.store (with_log o go stop).store
  with_log-Evolves s none go stop h k = h
  with_log-Evolves s (some why) go stop h k = k why

module _ (R : Task → Task → Type 0) (g : Guarded R) (u : Unguarded R) where
  hold-Evolves :
      (saved noted : Bool) (now : ℕ) (s : Scheduler) (t : Task) (a : Attempt)
      → Evolves R s.store (hold saved noted now s t a).store
  unfolding hold update_task
  hold-Evolves saved noted now s t a =
      update-Evolves R g.stays saved s.store t.id _ (λ v. refl) u.waiting

  settle_code_any :
      (saved noted : Bool) (now : ℕ) (s : Scheduler) (t : Task) (a : Attempt) (code : ℤ)
      → Evolves R s.store (settle_code saved noted now s t a code).store
  unfolding settle_code
  settle_code_any saved noted now s t a code = elim (Bool-cases (is_rate_limited t code)) [
    | inl h ↦ rw h (hold-Evolves saved noted now s t a)
    | inr h ↦ unfold settle_code in settle_code-Evolves R g saved noted now s t a code h
  ]

  settle_result_any :
      (saved noted : Bool) (now : ℕ) (s : Scheduler) (t : Task) (a : Attempt) (r : RunResult)
      → Evolves R s.store (settle_result saved noted now s t a r).store
  unfolding settle_result
  settle_result_any saved noted now s t a (exited code) = settle_code_any saved noted now s t a code
  settle_result_any saved noted now s t a (run_error msg) =
      settle_error-Evolves R g saved now s t.id msg a.interrupted

  pub execute-Evolves :
      (saved noted : Bool) (now : ℕ) (s : Scheduler) (t : Task) (p : Parsed) (a : Attempt)
      → Evolves R s.store (execute saved noted now s t p a).store
  unfolding execute settle
  execute-Evolves saved noted now s t (invalid msg) a = fail-Evolves R g saved now s t.id _
  execute-Evolves saved noted now s t (valid needs) a =
      with_log-Evolves R s a.log_error _ _ (settle_result_any saved noted now s t a a.outcome)
        (λ why. fail-Evolves R g saved now s t.id why)

  pub readopt_run-Evolves :
      (saved noted : Bool) (now : ℕ) (s : Scheduler) (t : Task) (a : Attempt)
      → Evolves R s.store (readopt_run saved noted now s t a).store
  unfolding readopt_run settle
  readopt_run-Evolves saved noted now s t a =
      with_log-Evolves R s a.log_error _ _ (settle_result_any saved noted now s t a a.outcome)
        (λ why. mark_lost-Evolves R g saved now s t.id _)

  block-Evolves :
      (saved : Bool) (s : Scheduler) (t : Task) (on : Blocker)
      → Evolves R s.store (block saved s t on).store
  unfolding block update_task
  block-Evolves saved s t on = elim (Bool-cases (is_blocked_on t on)) [
    | inl h ↦ rw h (Evolves-refl R g.stays s.store)
    | inr h ↦ rw h (update-Evolves R g.stays saved s.store t.id _ (λ v. refl) (u.blocking on))
  ]

  launch_with-store :
      (s : Scheduler) (id : Bytes) (p : Store × Result Task) → (launch_with s id p).store ≡ p.0
  unfolding launch_with
  launch_with-store s id (store, ok t) = refl
  launch_with-store s id (store, err e) = refl

  launch-Evolves :
      (saved : Bool) (now : ℕ) (s : Scheduler) (t : Task)
      → Evolves R s.store (launch saved now s t).store
  unfolding launch
  launch-Evolves saved now s t =
      rw (launch_with-store _ t.id (update saved s.store t.id (set_running now)))
        (update-Evolves R g.stays saved s.store t.id _ (λ v. refl) (u.launching now))

  act-Evolves :
      (cfg : Config) (saved : Bool) (now : ℕ) (r : Round) (t : Task) (v : Verdict)
      → Evolves R r.scheduler.store (after (act cfg saved now r t v)).scheduler.store
  unfolding act
  act-Evolves cfg saved now r t admit = launch-Evolves saved now r.scheduler t
  act-Evolves cfg saved now r t not_pending = Evolves-refl R g.stays r.scheduler.store
  act-Evolves cfg saved now r t slots_full = Evolves-refl R g.stays r.scheduler.store
  act-Evolves cfg saved now r t hold_for_claude = block-Evolves saved r.scheduler t claude
  act-Evolves cfg saved now r t no_memory = block-Evolves saved r.scheduler t memory
  act-Evolves cfg saved now r t no_cpus = block-Evolves saved r.scheduler t slots

  pub tick_task-Evolves :
      (cfg : Config) (saved : Bool) (now : ℕ) (r : Round) (t : Task)
      → Evolves R r.scheduler.store (after (tick_task cfg saved now r t)).scheduler.store
  unfolding tick_task
  tick_task-Evolves cfg saved now r t = act-Evolves cfg saved now r t _

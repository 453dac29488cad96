-- ===== src/Sched/Progress.antt =====
-- How the record of a task may change: what an update of the store by a given function does to
-- every id, and that each operation of the scheduler is made of such updates.
pub mod Steps
use kranq.Base.{
  ℕ, ◌+◌, ◌≤◌, Bool, true, false, not, ◌&&◌, List, [], ◌∷◌, Option, none, some, if◌then◌else◌, ◌≡◌,
  refl, ◌∙◌, arith, ◌⊎◌, inl, inr, Bool-cases, Option-cases,
}
use kranq.Base.Text.{Bytes, same, same_iff}
use kranq.Gate.{Gate}
use kranq.Sched.Defs.{
  Config, Scheduler, Round, Verdict, not_pending, slots_full, hold_for_claude, no_memory, no_cpus,
  admit,
}
use kranq.Sched.{
  update_task, unless_terminal, set_lost, mark_lost, set_failed, fail, set_blocked, block,
  set_running, launch, launch_with, finish, act, tick_task,
}
use kranq.Sched.Admission.{after}
use kranq.Sched.Outcome.{
  Attempt, exited, run_error, hold, settle_code, settle, execute, invalid, valid, readopt_run,
  run_job, run_readopted, cancel, readopt, recover_task, recover, set_waiting, set_finished,
  set_cancelled, is_rate_limited, Parsed,
}
use kranq.State.Task.{Task, Status, Blocker, queued, is_queued, terminal}
use kranq.State.Store.{Store, Result, ok, err, lookup, update, create}
use kranq.State.Store.Laws.{lookup-update, lookup-create}

-- What a step keeps of a task: it is the same work, it is never put back into the queue, and its
-- attempts do not go down.
pub record Keeps (t u : Task) : Type 0 where
  pub same_id : u.id ≡ t.id
  pub same_spec : u.spec_yaml ≡ t.spec_yaml
  pub same_env : u.env ≡ t.env
  pub same_memory : u.memory_bytes ≡ t.memory_bytes
  pub same_cpus : u.cpus ≡ t.cpus
  pub same_created : u.created_at ≡ t.created_at
  pub not_requeued : is_queued u.status ≡ true → is_queued t.status ≡ true
  pub attempts_grow : t.attempts ≤ u.attempts

-- The relation at one id. A task may appear, and none disappears.
abbrev pub AtId : (Task → Task → Type 0) → Option Task → Option Task → Type 0
AtId R none o = Unit {0}
AtId R (some t) none = ⊥
AtId R (some t) (some u) = R t u

abbrev pub Evolves : (Task → Task → Type 0) → Store → Store → Type 0
Evolves R s s' = (j : Bytes) → AtId R (lookup j s.index) (lookup j s'.index)

module _ (R : Task → Task → Type 0) (stays : (t : Task) → R t t) where
  AtId-refl : (o : Option Task) → AtId R o o
  AtId-refl none = tt
  AtId-refl (some t) = stays t

  pub Evolves-refl : (s : Store) → Evolves R s s
  Evolves-refl s j = AtId-refl (lookup j s.index)

  AtId-map :
      (f : Task → Task)
      → ((t : Task) → R t (f t))
      → (b : Bool) (o : Option Task)
      → AtId R o (if b then (elim o [ none ↦ none | some t ↦ some (f t) ]) else o)
  AtId-map f h true none = tt
  AtId-map f h true (some t) = h t
  AtId-map f h false o = AtId-refl o

  -- An update evolves the store as its function changes one task, whether or not it is written.
  pub update-Evolves :
      (saved : Bool) (s : Store) (id : Bytes) (f : Task → Task)
      → ((t : Task) → (f t).id ≡ t.id)
      → ((t : Task) → R t (f t))
      → Evolves R s (update saved s id f).0
  update-Evolves saved s id f k h j =
      rw (lookup-update saved s id j f k) (AtId-map f h (saved && same id j) (lookup j s.index))

module _ (R : Task → Task → Type 0) (step : (t u v : Task) → R t u → R u v → R t v) where
  pub AtId-trans : (o p q : Option Task) → AtId R o p → AtId R p q → AtId R o q
  AtId-trans none p q h k = tt
  AtId-trans (some t) none q h k = absurd h
  AtId-trans (some t) (some u) none h k = k
  AtId-trans (some t) (some u) (some v) h k = step t u v h k

-- ===== src/Sched/World/Laws.antt =====
-- What happens to a task under every schedule.
use kranq.Base.{
  ℕ, Bool, true, false, ◌&&◌, List, [], ◌∷◌, Option, none, some, if◌then◌else◌, ◌≡◌, inl, inr, refl,
  arith, Option-cases, All,
}
use kranq.Base.Text.{Bytes, same}
use kranq.Sched.Admission.{after}
use kranq.Sched.Defs.{Config, Scheduler}
use kranq.Sched.Outcome.{run_job, run_readopted}
use kranq.Sched.Progress.{Keeps, AtId, Evolves, Evolves-refl, AtId-trans}
use kranq.Sched.Progress.Steps.{
  Guarded, Unguarded, execute-Evolves, readopt_run-Evolves, cancel-Evolves, tick_task-Evolves,
}
use kranq.Sched.World.{
  World, Loop, Event, submits, tick_begins, tick_goes_on, job_ends, readopted_ends, cancels, prunes,
  find_job, round_of, resume, go_on, start_tick, step, run,
}
use kranq.Sched.{Flow, next, return, tick_task}
use kranq.State.Task.{Task}
use kranq.State.Store.{Store, create, lookup, prune}
use kranq.State.Store.Laws.{lookup-create, lookup-prune_index}

Keeps-Guarded : Guarded Keeps
Keeps-Guarded = record {
  stays = λ t. ground arith;
  lost = λ at why t. ground arith;
  failed = λ at why t. ground arith;
  finished = λ code at t. ground arith;
  cancelled = λ at t. ground arith;
}

Keeps-Unguarded : Unguarded Keeps
Keeps-Unguarded = record {
  waiting = λ t. ground arith;
  blocking = λ on t. ground arith;
  launching = λ at t. ground arith;
}

Keeps-trans : (t u v : Task) → Keeps t u → Keeps u v → Keeps t v
Keeps-trans t u v h k = ground arith

create-Evolves : (saved : Bool) (s : Store) (t : Task) → Evolves Keeps s (create saved s t).0
create-Evolves saved s t j =
    rw (lookup-create saved s t j) (at_id (saved && same t.id j) (lookup j s.index))
  where
    at_id :
        (b : Bool) (o : Option Task)
        → AtId Keeps o (if b then (elim o [ none ↦ some t | some u ↦ some u ]) else o)
    at_id true none = tt
    at_id true (some u) = Keeps-Guarded.stays u
    at_id false none = tt
    at_id false (some u) = Keeps-Guarded.stays u

-- An event that does not remove the directory of a task.
abbrev pub Spares : Bytes → Event → Type 0
Spares id (prunes removed older_than now) = (t : Task) → t.id ≡ id → removed t ≡ false
Spares id _ = Unit {0}

module _ (cfg : Config) where
  resume-store : (ts : List Task) (f : Flow) → (resume ts f).scheduler ≡ (after f).scheduler
  unfolding resume
  resume-store ts (next r) = refl
  resume-store ts (return r) = refl

  go_on-Evolves :
      (saved : Bool) (now : ℕ) (s : Scheduler) (l : Loop) (ts : List Task)
      → Evolves Keeps s.store (go_on cfg saved now s l ts).scheduler.store
  unfolding go_on
  go_on-Evolves saved now s l [] = Evolves-refl Keeps Keeps-Guarded.stays s.store
  go_on-Evolves saved now s l (t ∷ ts) =
      rw (resume-store ts (tick_task cfg saved now (round_of s l) t))
        (tick_task-Evolves Keeps Keeps-Guarded Keeps-Unguarded cfg saved now (round_of s l) t)

  step-AtId :
      (w : World) (e : Event) (id : Bytes)
      → Spares id e
      → AtId Keeps
          (lookup id w.scheduler.store.index)
          (lookup id (step cfg w e).scheduler.store.index)
  unfolding step start_tick run_job run_readopted prune
  step-AtId w (submits saved t) j sp = create-Evolves saved w.scheduler.store _ j
  step-AtId w (tick_begins snapshot) j sp = elim (Option-cases w.ticking) [
    | inl e ↦ rw (e, step) (Evolves-refl Keeps Keeps-Guarded.stays w.scheduler.store j)
    | inr (l, e) ↦ rw (e, step) (Evolves-refl Keeps Keeps-Guarded.stays w.scheduler.store j)
  ]
  step-AtId w (tick_goes_on saved now) j sp = elim (Option-cases w.ticking) [
    | inl e ↦ rw (e, step) (Evolves-refl Keeps Keeps-Guarded.stays w.scheduler.store j)
    | inr (l, e) ↦ rw (e, step) (go_on-Evolves saved now w.scheduler l l.waiting j)
  ]
  step-AtId w (job_ends saved noted now id parsed a) j sp =
      elim (Option-cases (find_job id w.scheduler.jobs)) [
        | inl e ↦ rw (e, step) (Evolves-refl Keeps Keeps-Guarded.stays w.scheduler.store j)
        | inr (t, e) ↦
            rw (e, step)
              (execute-Evolves Keeps Keeps-Guarded Keeps-Unguarded saved noted now w.scheduler t
                parsed a j)
      ]
  step-AtId w (readopted_ends saved noted now id a) j sp =
      elim (Option-cases (find_job id w.scheduler.jobs)) [
        | inl e ↦ rw (e, step) (Evolves-refl Keeps Keeps-Guarded.stays w.scheduler.store j)
        | inr (t, e) ↦
            rw (e, step)
              (readopt_run-Evolves Keeps Keeps-Guarded Keeps-Unguarded saved noted now w.scheduler t
                a j)
      ]
  step-AtId w (cancels saved now id) j sp =
      cancel-Evolves Keeps Keeps-Guarded saved now w.scheduler id j
  step-AtId w (prunes removed older_than now) j sp =
      rw (lookup-prune_index removed older_than now j w.scheduler.store.index sp)
        (Evolves-refl Keeps Keeps-Guarded.stays w.scheduler.store j)

  -- Under every schedule in which no prune removes the directory of the task, a task in the store
  -- stays there as the same work: its id, spec, environment, memory, cpus and time of creation do not
  -- change, its attempts never go down, and it is queued only if it was queued before; so nothing that
  -- has started ever goes back to the queue.
  pub run-Keeps :
      (w : World) (es : List Event) (id : Bytes)
      → All (Spares id) es
      → AtId Keeps
          (lookup id w.scheduler.store.index)
          (lookup id (run cfg w es).scheduler.store.index)
  unfolding run
  run-Keeps w [] id sp = Evolves-refl Keeps Keeps-Guarded.stays w.scheduler.store id
  run-Keeps w (e ∷ es) id sp =
      AtId-trans Keeps Keeps-trans _ _ _ (step-AtId w e id sp.0)
        (run-Keeps (step cfg w e) es id sp.1)

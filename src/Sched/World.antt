-- ===== src/Sched/World.antt =====
-- The scheduler with what happens around it, in any order: the goroutine of the ticks, those of the
-- jobs, that of the daemon, which prunes the store, and the calls that come in over the socket. Each
-- event is what one goroutine does between two points where another may run, with one exception: the
-- end of a job writes its task and gives the slot back in one event. A tick yields between two of its
-- tasks, and works on records that it listed before. A schedule is a list of events.
pub mod Laws
use kranq.Base.{ℕ, Bool, true, false, List, [], ◌∷◌, Option, none, some, if◌then◌else◌}
use kranq.Base.Int.{ℤ}
use kranq.Base.Text.{Bytes, same}
use kranq.Hostres.{Snapshot}
use kranq.Sched.Defs.{Config, Scheduler, Round}
use kranq.Sched.{Flow, next, return, tick_task, begin_tick}
use kranq.Sched.Outcome.{Attempt, Parsed, run_job, run_readopted, cancel}
use kranq.State.Task.{Task, queued}
use kranq.State.Store.{create, list, prune}

-- What the goroutine of a tick holds between two tasks.
pub record Loop : Type 0 where
  pub snapshot : Snapshot
  pub cpus : ℤ
  pub launched : List Task
  pub waiting : List Task

pub record World : Type 0 where
  pub scheduler : Scheduler
  pub ticking : Option Loop

pub data Event : Type 0 where
  submits : Bool → Task → Event
  tick_begins : Snapshot → Event
  tick_goes_on : Bool → ℕ → Event
  job_ends : Bool → Bool → ℕ → Bytes → Parsed → Attempt → Event
  readopted_ends : Bool → Bool → ℕ → Bytes → Attempt → Event
  cancels : Bool → ℕ → Bytes → Event
  prunes : (Task → Bool) → ℕ → ℕ → Event

unfoldable pub find_job : Bytes → List Task → Option Task
find_job id [] = none
find_job id (t ∷ ts) = if same t.id id then some t else find_job id ts

abbrev pub round_of : Scheduler → Loop → Round
round_of s l = record { scheduler = s; snapshot = l.snapshot; cpus = l.cpus; launched = l.launched }

unfoldable pub resume : List Task → Flow → World
resume ts (next r) = record {
  scheduler = r.scheduler;
  ticking =
      some (record { snapshot = r.snapshot; cpus = r.cpus; launched = r.launched; waiting = ts });
}
resume ts (return r) = record { scheduler = r.scheduler; ticking = none }

unfoldable pub go_on : Config → Bool → ℕ → Scheduler → Loop → List Task → World
unfolding resume
go_on cfg saved now s l [] = record { scheduler = s; ticking = none }
go_on cfg saved now s l (t ∷ ts) = resume ts (tick_task cfg saved now (round_of s l) t)

unfoldable pub start_tick : Scheduler → Snapshot → World
unfolding begin_tick
start_tick s snapshot =
    let r = begin_tick s snapshot in
    record {
      scheduler = r.scheduler;
      ticking = some (record {
        snapshot = r.snapshot;
        cpus = r.cpus;
        launched = r.launched;
        waiting = list s.store;
      });
    }

-- An event that does not fit, as the end of a job that is not running, changes nothing.
unfoldable pub step : Config → World → Event → World
unfolding find_job go_on start_tick prune
step cfg w (submits saved t) = record w {
  scheduler = record w.scheduler {
    store = (create saved w.scheduler.store (record t { status = queued })).0;
  };
}
step cfg w (tick_begins snapshot) = elim w.ticking [
  | some _ ↦ w
  | none ↦ start_tick w.scheduler snapshot
]
step cfg w (tick_goes_on saved now) = elim w.ticking [
  | some l ↦ go_on cfg saved now w.scheduler l l.waiting
  | none ↦ w
]
step cfg w (job_ends saved noted now id parsed a) = elim (find_job id w.scheduler.jobs) [
  | some t ↦ record w { scheduler = run_job saved noted now w.scheduler t parsed a }
  | none ↦ w
]
step cfg w (readopted_ends saved noted now id a) = elim (find_job id w.scheduler.jobs) [
  | some t ↦ record w { scheduler = run_readopted saved noted now w.scheduler t a }
  | none ↦ w
]
step cfg w (cancels saved now id) = record w { scheduler = (cancel saved now w.scheduler id).0 }
step cfg w (prunes removed older_than now) = record w {
  scheduler = record w.scheduler { store = (prune removed older_than now w.scheduler.store).0 };
}

unfoldable pub run : Config → World → List Event → World
unfolding step
run cfg w [] = w
run cfg w (e ∷ es) = run cfg (step cfg w e) es

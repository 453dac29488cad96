-- ===== src/Sched.antt =====
-- internal/sched/sched.go: the operations of the scheduler. Each takes the time at which it runs,
-- and for each write of the store a flag that says whether the disk took it.
pub mod Defs
pub mod Outcome
pub mod Admission
pub mod Order
pub mod Progress
pub mod World
use kranq.Base.{
  ℕ, suc, ◌+◌, ◌-◌, Bool, true, false, not, ◌&&◌, ◌||◌, List, [], ◌∷◌, ◌++◌, Option, none, some,
  if◌then◌else◌, ◌==◌,
}
use kranq.Base.Int.{ℤ, pos, negsuc, add64, sub64}
use kranq.Base.Text.{Bytes, same, codes, empty}
use kranq.Gate.{Gate, available, mark_exhausted_until, mark_healthy}
use kranq.Hostres.{Snapshot}
use kranq.State.Task.{
  Task, Status, Blocker, queued, blocked, running, succeeded, failed, cancelled, lost, nothing,
  claude, memory, slots, terminal, pending, is_running, is_blocked, own_token, env_get, env_set,
  claude_token_var,
}
use kranq.State.Store.{Store, Result, ok, err, get, update, list, lookup}
use Defs.{
  Config, StopReason, no_stop, slots_in_use, needs_memory, needs_cpus, Scheduler, add_key,
  delete_key, cpus_in_use, Verdict, not_pending, slots_full, hold_for_claude, no_memory, no_cpus,
  admit, Round, judge,
}

-- Update where the caller drops the result.
unfoldable pub update_task : Bool → Scheduler → Bytes → (Task → Task) → Scheduler
update_task saved s id f = record s { store = (update saved s.store id f).0 }

-- The guard of the writes that must not touch a task which is already over.
abbrev pub unless_terminal : (Task → Task) → Task → Task
unless_terminal f u = if terminal u then u else f u

abbrev pub set_lost : ℕ → Bytes → Task → Task
set_lost at reason u = record u {
  status = lost;
  lost_at = some at;
  lost_reason = reason;
  finished_at = some at;
}

unfoldable pub mark_lost : Bool → ℕ → Scheduler → Bytes → Bytes → Scheduler
unfolding update_task
mark_lost saved now s id reason = update_task saved s id (unless_terminal (set_lost now reason))

abbrev pub set_failed : ℕ → Bytes → Task → Task
set_failed at msg u = record u {
  status = failed;
  error = msg;
  exit_code = negsuc 0;
  finished_at = some at;
}

unfoldable pub fail : Bool → ℕ → Scheduler → Bytes → Bytes → Scheduler
unfolding update_task
fail saved now s id msg = update_task saved s id (unless_terminal (set_failed now msg))

abbrev pub is_blocked_on : Task → Blocker → Bool
is_blocked_on t claude = is_blocked t.status && (elim t.blocked_on [ claude ↦ true | _ ↦ false ])
is_blocked_on t memory = is_blocked t.status && (elim t.blocked_on [ memory ↦ true | _ ↦ false ])
is_blocked_on t slots = is_blocked t.status && (elim t.blocked_on [ slots ↦ true | _ ↦ false ])
is_blocked_on t nothing = is_blocked t.status && (elim t.blocked_on [ nothing ↦ true | _ ↦ false ])

abbrev pub set_blocked : Blocker → Task → Task
set_blocked on u = record u { status = blocked; blocked_on = on }

unfoldable pub block : Bool → Scheduler → Task → Blocker → Scheduler
unfolding update_task
block saved s t on = if is_blocked_on t on then s else update_task saved s t.id (set_blocked on)

abbrev pub set_running : ℕ → Task → Task
set_running started u = record u {
  status = running;
  blocked_on = nothing;
  started_at = some started;
  attempts = u.attempts + 1;
}

-- `finish`, run when a goroutine ends or when its task could not be written.
unfoldable pub finish : Scheduler → Bytes → Scheduler
finish s id = record s { running = delete_key id s.running }

-- The goroutine of `launch` starts only if the record could be written.
unfoldable pub launch_with : Scheduler → Bytes → Store × Result Task → Scheduler
unfolding finish
launch_with s id (store, ok updated) = record s { store = store; jobs = s.jobs ++ updated ∷ [] }
launch_with s id (store, err e) = finish (record s { store = store }) id

unfoldable pub launch : Bool → ℕ → Scheduler → Task → Scheduler
unfolding launch_with
launch saved now s t =
    launch_with (record s { running = add_key t.id s.running }) t.id
      (update saved s.store t.id (set_running now))

-- What a round of the loop leaves: it goes on to the next task, or the tick returns.
pub data Flow : Type 0 where
  next : Round → Flow
  return : Round → Flow

abbrev pub with_scheduler : Round → Scheduler → Round
with_scheduler r s = record r { scheduler = s }

abbrev pub stop_with : StopReason → Scheduler → Scheduler
stop_with why s = record s { stopped = why }

unfoldable pub act : Config → Bool → ℕ → Round → Task → Verdict → Flow
unfolding block launch add64 sub64
act cfg saved now r t not_pending = next r
act cfg saved now r t slots_full =
    return (with_scheduler r (stop_with (slots_in_use cfg.max_vms) r.scheduler))
act cfg saved now r t hold_for_claude = next (with_scheduler r (block saved r.scheduler t claude))
act cfg saved now r t no_memory = return (
    with_scheduler r (
      stop_with (needs_memory t.id t.memory_bytes r.snapshot.available_bytes)
        (block saved r.scheduler t memory)))
act cfg saved now r t no_cpus = return (
    with_scheduler r
      (stop_with (needs_cpus t.id t.cpus r.cpus r.snapshot.cpus) (block saved r.scheduler t slots)))
act cfg saved now r t admit = next (record r {
  scheduler = launch saved now r.scheduler t;
  snapshot = record r.snapshot {
    available_bytes = sub64 r.snapshot.available_bytes t.memory_bytes;
  };
  cpus = add64 r.cpus t.cpus;
  launched = r.launched ++ t ∷ [];
})

unfoldable pub tick_task : Config → Bool → ℕ → Round → Task → Flow
unfolding act
tick_task cfg saved now r t = act cfg saved now r t (judge cfg now r t)

-- The loop over the listed tasks. `saves` says for each task whether its write succeeds.
unfoldable pub tick_loop : Config → (Task → Bool) → ℕ → List Task → Round → Round
unfolding tick_task
tick_loop cfg saves now [] r = r
tick_loop cfg saves now (t ∷ ts) r = elim (tick_task cfg (saves t) now r t) [
  | return r' ↦ r'
  | next r' ↦ tick_loop cfg saves now ts r'
]

unfoldable pub begin_tick : Scheduler → Snapshot → Round
begin_tick s snapshot = record {
  scheduler = stop_with no_stop s;
  snapshot = snapshot;
  cpus = cpus_in_use s;
  launched = [];
}

unfoldable pub tick : Config → (Task → Bool) → ℕ → Scheduler → Snapshot → Round
unfolding tick_loop begin_tick
tick cfg saves now s snapshot = tick_loop cfg saves now (list s.store) (begin_tick s snapshot)

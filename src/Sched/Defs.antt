-- ===== src/Sched/Defs.antt =====
-- internal/sched/sched.go: the types of the scheduler, and what it decides about one task.
-- `running` holds the keys of the map of cancel functions; `jobs` holds a task for each goroutine
-- that runs or waits on a job, as the record was when the goroutine started.
use kranq.Base.{
  ℕ, ◌+◌, ◌-◌, Bool, not, ◌&&◌, List, [], ◌∷◌, none, some, length, leb, ltb, if◌then◌else◌,
}
use kranq.Base.Int.{ℤ, pos, add64}
use kranq.Base.Text.{Bytes, same}
use kranq.Gate.{Gate, available, minute}
use kranq.Hostres.{Snapshot, fits, fits_cpu}
use kranq.State.Task.{Task, pending, own_token}
use kranq.State.Store.{Store, Result, ok, err, get}

pub record Config : Type 0 where
  pub max_vms : ℕ
  pub memory_headroom : ℤ
  pub task_timeout : ℕ
  pub claude_token : Bytes

-- Why a tick stopped early: what the text of `stopped` is printed from.
pub data StopReason : Type 0 where
  no_stop : StopReason
  slots_in_use : ℕ → StopReason
  needs_memory : Bytes → ℤ → ℤ → StopReason
  needs_cpus : Bytes → ℤ → ℤ → ℤ → StopReason

pub record Scheduler : Type 0 where
  pub store : Store
  pub gate : Gate
  pub running : List Bytes
  pub jobs : List Task
  pub stopped : StopReason

-- s.running[id] = cancel, and delete(s.running, id).
unfoldable pub add_key : Bytes → List Bytes → List Bytes
add_key id [] = id ∷ []
add_key id (k ∷ ks) = if same k id then k ∷ ks else k ∷ add_key id ks

unfoldable pub delete_key : Bytes → List Bytes → List Bytes
delete_key id [] = []
delete_key id (k ∷ ks) = if same k id then delete_key id ks else k ∷ delete_key id ks

abbrev pub running_count : Scheduler → ℕ
running_count s = length s.running

abbrev pub cpus_of : Result Task → ℤ
cpus_of (ok t) = t.cpus
cpus_of (err e) = pos 0

-- `cpusInUse`: a running id that the store no longer holds counts for nothing.
unfoldable pub cpus_of_ids : Store → List Bytes → ℤ
unfolding add64
cpus_of_ids s [] = pos 0
cpus_of_ids s (id ∷ ids) = add64 (cpus_of (get s id)) (cpus_of_ids s ids)

abbrev pub cpus_in_use : Scheduler → ℤ
cpus_in_use s = cpus_of_ids s.store s.running

-- `remaining`. The clock minus the start, taken from the timeout, is timeout + start - now; below a
-- minute, a negative result included, a minute is left.
unfoldable pub remaining : Config → Task → ℕ → ℕ
remaining cfg t now = elim t.started_at [
  | none ↦ cfg.task_timeout
  | some started ↦
      let left = cfg.task_timeout + started - now in if ltb left minute then minute else left
]

-- One round of the loop in `Tick`, between the guards and what they lead to.
pub data Verdict : Type 0 where
  not_pending slots_full hold_for_claude no_memory no_cpus admit : Verdict

-- What a tick carries from task to task: the scheduler, the snapshot with its memory counted down,
-- the cpus in use, and the tasks given to `launch`, in order.
pub record Round : Type 0 where
  pub scheduler : Scheduler
  pub snapshot : Snapshot
  pub cpus : ℤ
  pub launched : List Task

abbrev pub held_by_gate : Gate → ℕ → Task → Bool
held_by_gate g now t = t.needs_claude && own_token t && not (available g now)

unfoldable pub judge : Config → ℕ → Round → Task → Verdict
judge cfg now r t =
    if not (pending t)
    then not_pending
    else if leb cfg.max_vms (running_count r.scheduler)
    then slots_full
    else if held_by_gate r.scheduler.gate now t
    then hold_for_claude
    else if not (fits r.snapshot t.memory_bytes cfg.memory_headroom)
    then no_memory
    else if not (fits_cpu r.snapshot t.cpus r.cpus)
    then no_cpus
    else admit

-- ===== src/Sched/Outcome/Recovery.antt =====
-- What a restart of the daemon does to the tasks that it finds.
use kranq.Base.{ℕ, Bool, true, not, ◌&&◌, Option, none, some}
use kranq.Base.Text.{Bytes, codes}
use kranq.Sched.{unless_terminal, set_lost}
use kranq.State.Task.{Task, is_running}

abbrev pub gone : Bytes
gone = codes "the daemon restarted while this task was running, and its job is gone"

-- Running, with no job behind it any more.
abbrev pub is_orphan : (Task → Bool) → Task → Bool
is_orphan adoptable t = is_running t.status && not (adoptable t)

abbrev if_some : Option Task → (Task → Option Task → Option Task) → Option Task → Option Task
if_some none f o = o
if_some (some t) f o = f t o

abbrev lose : ℕ → Option Task → Option Task
lose now none = none
lose now (some u) = some (unless_terminal (set_lost now gone) u)

module _ (adoptable : Task → Bool) (now : ℕ) where
  abbrev all_saved : Task → Bool
  all_saved t = true

-- ===== src/Tests/Sched.antt =====
-- The store, the gate and the scheduler on three tasks: `first` is old and wants no claude, `second`
-- needs claude, and `third` is already running.
use kranq.Base.{
  ℕ, ◌+◌, ◌-◌, ◌*◌, ◌≤◌, ◌<◌, Bool, true, false, not, ◌&&◌, List, [], ◌∷◌, ◌++◌, Option, none, some,
  ◌≡◌, ◌≢◌, ◌↔◌, ◌⊎◌, refl, inl, inr, arith, if◌then◌else◌, ◌==◌, All, select, length, ltb,
}
use kranq.Base.Int.{ℤ, pos, ◌+ℤ◌, ◌≤ℤ◌}
use kranq.Base.Text.{Bytes, codes, same}
use kranq.Gate.{
  Gate, Persisted, Codec, load, token_id, next_check, new, available, mark_exhausted_until,
  mark_healthy, reset, minute,
}
use kranq.Gate.Laws.{mark_exhausted_until-closes, new-mark_exhausted_until, mark_healthy-opens}
use kranq.Hostres.{Snapshot}
use kranq.Sched.Admission.{tick_fits, total_memory, total_cpus, exact_cpus}
use kranq.Sched.Defs.{
  Config, Scheduler, Round, no_stop, judge, admit, cpus_in_use, running_count, remaining,
}
use kranq.Sched.Order.{tick_in_order, eligible}
use kranq.Sched.Outcome.{Attempt, exited, settle, cancel, valid, is_code}
use kranq.Sched.Outcome.Laws.{
  settle-KeepsTerminal, KeepsTerminal, settle-exited, settle_revives_cancelled,
  settle_rate_limited-judge,
}
use kranq.Sched.Outcome.Stale.{launch_revives_cancelled}
use kranq.Sched.Progress.{AtId, Keeps}
use kranq.Sched.World.{World, Event, tick_begins, tick_goes_on, job_ends, cancels, prunes, run}
use kranq.Sched.World.Laws.{run-Keeps, Spares}
use kranq.Sched.{launch, tick, begin_tick}
use kranq.State.Task.{
  Task, Status, queued, running, cancelled, blocked, nothing, pending, terminal, own_token, claude,
  succeeded, failed,
}
use kranq.State.Store.{Store, get, list, lookup, prune_index, prunable, update}
use kranq.State.Store.Laws.{prune-select, is_dropped}
use kranq.State.Store.Listing.{list_lem, Distinct, OldestFirst}

abbrev plain : Task
plain = record {
  id = codes "a";
  status = queued;
  blocked_on = nothing;
  exit_code = pos 0;
  error = [];
  attempts = 0;
  needs_claude = false;
  memory_bytes = pos 4;
  cpus = pos 2;
  spec_yaml = codes "name: a";
  env = [];
  exec_pgid = 0;
  created_at = 10;
  started_at = none;
  finished_at = none;
  lost_at = none;
  lost_reason = [];
}

abbrev first : Task
first = plain

abbrev second : Task
second = record plain { id = codes "b"; needs_claude = true; created_at = 20 }

abbrev third : Task
third = record plain {
  id = codes "c";
  status = running;
  needs_claude = true;
  created_at = 5;
  started_at = some 6;
  attempts = 1;
}

abbrev three : Store
three = record { index = second ∷ first ∷ third ∷ [] }

abbrev digest : Bytes → Bytes
digest token = token

-- What the gate writes when it is closed at 100 until 900, and a codec that knows that record.
abbrev at_900 : Persisted
at_900 = record { token_id = codes "t"; until = 900; exhaustions = 1; last_reason = codes "w" }

abbrev codec : Codec
codec = record {
  encode = λ p. if p.until == 900 then some (codes "900") else none;
  decode = λ b. if same b (codes "900") then some at_900 else none;
}

abbrev gate : Gate
gate = record {
  codec = codec;
  path = codes "gate.json";
  token_id = codes "t";
  present = true;
  retry = 50;
  until = 0;
  exhaustions = 0;
  reason = [];
  file = none;
}

abbrev busy : Scheduler
busy = record {
  store = three;
  gate = gate;
  running = codes "c" ∷ [];
  jobs = third ∷ [];
  stopped = no_stop;
}

abbrev config : Config
config = record {
  max_vms = 2;
  memory_headroom = pos 2;
  task_timeout = 3 * minute;
  claude_token = codes "machine";
}

abbrev machine : Snapshot
machine = record { total_bytes = pos 16; available_bytes = pos 12; cpus = pos 8; ok = true }

abbrev all_saved : Task → Bool
all_saved t = true

abbrev rate_limited : Attempt
rate_limited = record {
  log_error = none;
  outcome = exited (pos 75);
  interrupted = none;
  resets_at = 0;
  window = codes "five_hour";
}

abbrev clean : Attempt
clean = record rate_limited { outcome = exited (pos 0) }

-- The oldest pending task takes the last slot, and the next one stops the tick.
tick-busy : (tick config all_saved 100 busy machine).launched ≡ first ∷ []
unfolding tick judge list lookup available kranq.Hostres.fits kranq.Hostres.fits_cpu
    kranq.Base.Int.sub64 kranq.Base.Int.add64 kranq.Sched.Defs.cpus_of_ids kranq.State.Store.get
    same update kranq.Sched.Defs.add_key
tick-busy = refl

mark_exhausted_until-closes_example :
    let (g', until) = mark_exhausted_until true gate 100 120 (codes "five_hour") in
    (until ≡ (if ltb (100 + gate.retry) 120 then 120 else 100 + gate.retry))
    × ((available g' 149 ≡ true) ↔ (until ≤ 149))
    × (100 + gate.retry ≤ until)
    × (g'.exhaustions ≡ gate.exhaustions + 1)
mark_exhausted_until-closes_example =
    mark_exhausted_until-closes true gate 100 120 (codes "five_hour") 149

new-mark_exhausted_until_example :
    let g =
      (mark_exhausted_until true
        (new codec digest (codes "g") (codes "t") 50 none)
        100
        900
        (codes "w")).0 in
    new codec digest (codes "g") (codes "t") 50 g.file ≡ g
unfolding new load token_id next_check same
new-mark_exhausted_until_example =
    new-mark_exhausted_until codec digest (codes "g") (codes "t") 50 100 900 (codes "w") none
      (codes "900") refl refl refl

mark_healthy-opens_example :
    (available (mark_healthy true gate) 1 ≡ true)
    × ((mark_healthy true gate).reason ≡ [])
    × ((mark_healthy true gate).exhaustions ≡ gate.exhaustions)
    × (available (reset true gate) 1 ≡ true)
    × ((reset true gate).exhaustions ≡ 0)
mark_healthy-opens_example = mark_healthy-opens true gate 1

tick_fits_example :
    let started = (tick config all_saved 100 busy machine).launched in
    ((total_memory started ≤ℤ pos 0)
      ⊎ (config.memory_headroom +ℤ total_memory started ≤ℤ machine.available_bytes))
    × ((total_cpus started ≤ℤ pos 0)
        ⊎ (exact_cpus busy.store busy.running +ℤ total_cpus started ≤ℤ machine.cpus))
unfolding list get same ◌+ℤ◌
tick_fits_example =
    tick_fits config all_saved 100 busy machine (omega arith) (omega arith) (omega arith)
      (omega arith)

tick_in_order_example :
    let r = tick config all_saved 100 busy machine in
    (rest : List Task) × (select (eligible busy.gate 100) (list busy.store) ≡ r.launched ++ rest)
    × ((rest ≡ []) ⊎ (r.scheduler.stopped ≢ no_stop))
tick_in_order_example = tick_in_order config all_saved 100 busy machine

abbrev world : World
world = record { scheduler = busy; ticking = none }

abbrev only_third : Task → Bool
only_third t = same t.id (codes "c")

abbrev schedule : List Event
schedule =
    tick_begins machine
    ∷ tick_goes_on true 100
    ∷ cancels true 101 (codes "b")
    ∷ tick_goes_on true 102
    ∷ job_ends true true 103 (codes "c") (valid true) clean
    ∷ prunes only_third 0 200
    ∷ []

schedule_spares : All (Spares (codes "b")) schedule
unfolding same
schedule_spares = (tt, (tt, (tt, (tt, (tt, (λ t e. rw e refl, tt))))))

run-Keeps_example :
    AtId Keeps
      (lookup (codes "b") three.index)
      (lookup (codes "b") (run config world schedule).scheduler.store.index)
run-Keeps_example = run-Keeps config world schedule (codes "b") schedule_spares

settle-KeepsTerminal_example :
    AtId KeepsTerminal
      (lookup (codes "b") three.index)
      (lookup (codes "b") (settle true true 100 busy third clean).store.index)
    × AtId KeepsTerminal
        (lookup (codes "b") three.index)
        (lookup (codes "b") (cancel true 100 busy (codes "c")).0.store.index)
settle-KeepsTerminal_example =
    settle-KeepsTerminal true true 100 busy third clean (codes "b") (λ code e. ground arith)

settle-exited_example :
    lookup (codes "c") (settle true true 100 busy third clean).store.index
    ≡ some (
        if is_code (pos 0) 75 && third.needs_claude && own_token third
        then record third {
          status = blocked;
          blocked_on = claude;
          started_at = none;
          exec_pgid = 0;
          error = codes "waiting for claude usage";
        }
        else if terminal third
        then third
        else record third {
          status = if is_code (pos 0) 0 then succeeded else failed;
          exit_code = pos 0;
          finished_at = some 100;
          exec_pgid = 0;
          error = [];
        })
unfolding lookup same
settle-exited_example = settle-exited true 100 busy third third clean (pos 0) refl refl

abbrev called_off : Task
called_off = record third { status = cancelled }

abbrev called_off_scheduler : Scheduler
called_off_scheduler = record busy { store = record { index = called_off ∷ [] } }

settle_revives_cancelled_example :
    (v : Task) × (lookup
        (codes "c")
        (settle true true 100 called_off_scheduler third rate_limited).store.index
      ≡ some v)
    × (v.status ≡ blocked)
    × (pending v ≡ true)
unfolding lookup kranq.State.Task.env_get same
settle_revives_cancelled_example =
    settle_revives_cancelled true 100 called_off_scheduler third called_off rate_limited refl refl
      refl refl refl

settle_rate_limited-judge_example :
    judge config 120 (begin_tick (settle true true 100 busy third rate_limited) machine) second
    ≢ admit
unfolding begin_tick kranq.State.Task.env_get
settle_rate_limited-judge_example =
    settle_rate_limited-judge true true 100 busy third rate_limited refl refl refl 120 second config
      (begin_tick (settle true true 100 busy third rate_limited) machine) refl (omega arith) refl
      refl

list_lem_example :
    OldestFirst (list three)
    × Distinct (list three)
    × ((id : Bytes) → lookup id (list three) ≡ lookup id three.index)
unfolding lookup same
list_lem_example = list_lem three (refl, (refl, (refl, tt)))

prune-select_example :
    ((prune_index all_saved 5 100 (called_off ∷ [])).0
      ≡ select (λ t. not (is_dropped all_saved 5 100 t)) (called_off ∷ []))
    × (length (prune_index all_saved 5 100 (called_off ∷ [])).0
          + (prune_index all_saved 5 100 (called_off ∷ [])).1
        ≡ length (called_off ∷ []))
prune-select_example = prune-select all_saved 5 100 (called_off ∷ [])

launch_revives_cancelled_example :
    (v : Task) × (lookup (codes "a") (cancel true 50 busy (codes "a")).0.store.index ≡ some v)
    × (v.status ≡ cancelled)
    × (w : Task) × (lookup
          (codes "a")
          (launch true 60 (cancel true 50 busy (codes "a")).0 first).store.index
        ≡ some w)
    × (w.status ≡ running)
    × (w.attempts ≡ first.attempts + 1)
unfolding lookup same
launch_revives_cancelled_example = launch_revives_cancelled 50 60 busy first first refl refl

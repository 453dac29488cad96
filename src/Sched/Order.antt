-- ===== src/Sched/Order.antt =====
-- The order in which a tick takes tasks.
use kranq.Base.{
  ℕ, Bool, true, false, not, ◌&&◌, List, [], ◌∷◌, ◌++◌, ◌≡◌, ◌≢◌, ◌⊎◌, inl, inr, refl, arith,
  select, append_assoc, sym, ap, ◌∙◌, subst,
}
use kranq.Gate.{Gate}
use kranq.Hostres.{Snapshot}
use kranq.Sched.Defs.{
  Config, Scheduler, Round, Verdict, not_pending, slots_full, hold_for_claude, no_memory, no_cpus,
  admit, judge, held_by_gate, StopReason, no_stop,
}
use kranq.Sched.{next, return, act, tick_task, tick_loop, begin_tick, tick, block, launch}
use kranq.State.Task.{Task, Blocker, claude, pending}
use kranq.State.Store.{list}

-- A task that waits only for memory, cpus or a slot.
abbrev pub eligible : Gate → ℕ → Task → Bool
eligible g now t = pending t && not (held_by_gate g now t)

abbrev VerdictEligible : Verdict → Bool → Type 0
VerdictEligible not_pending b = b ≡ false
VerdictEligible hold_for_claude b = b ≡ false
VerdictEligible admit b = b ≡ true
VerdictEligible _ b = Unit {0}

judge-eligible :
    (cfg : Config) (now : ℕ) (r : Round) (t : Task)
    → VerdictEligible (judge cfg now r t) (eligible r.scheduler.gate now t)
unfolding judge
judge-eligible cfg now r t = ground arith

-- What `launched` of the loop's result is, from a round in which nothing has stopped the tick.
record Served (launched waiting done : List Task) (why : StopReason) : Type 0 where
  rest : List Task
  splits : launched ++ waiting ≡ done ++ rest
  all_or_stopped : (rest ≡ []) ⊎ (why ≢ no_stop)

block-gate :
    (saved : Bool) (s : Scheduler) (t : Task) (on : Blocker)
    → ((block saved s t on).gate ≡ s.gate) × ((block saved s t on).stopped ≡ s.stopped)
unfolding block
block-gate saved s t on = ground arith

launch-gate :
    (saved : Bool) (now : ℕ) (s : Scheduler) (t : Task)
    → ((launch saved now s t).gate ≡ s.gate) × ((launch saved now s t).stopped ≡ s.stopped)
unfolding launch
launch-gate saved now s t = ground arith

module _ (cfg : Config) (saves : Task → Bool) (now : ℕ) (g : Gate) where
  abbrev Fresh : Round → Type 0
  Fresh r = (r.scheduler.gate ≡ g) × (r.scheduler.stopped ≡ no_stop)

  abbrev LoopServes : List Task → Round → Type 0
  LoopServes ts r =
      let end = tick_loop cfg saves now ts r in
      Served r.launched (select (eligible g now) ts) end.launched end.scheduler.stopped

  loop-next :
      (t : Task) (ts : List Task) (r r' : Round)
      → tick_task cfg (saves t) now r t ≡ next r'
      → tick_loop cfg saves now (t ∷ ts) r ≡ tick_loop cfg saves now ts r'
  unfolding tick_loop
  loop-next t ts r r' e = rw (e, tick_loop)

  loop-return :
      (t : Task) (ts : List Task) (r r' : Round)
      → tick_task cfg (saves t) now r t ≡ return r'
      → tick_loop cfg saves now (t ∷ ts) r ≡ r'
  unfolding tick_loop
  loop-return t ts r r' e = rw (e, tick_loop)

  -- A round that goes on: the task is skipped, or it is eligible and launched.
  Served-skip :
      (t : Task) (ts : List Task) (r r' : Round)
      → tick_task cfg (saves t) now r t ≡ next r'
      → eligible g now t ≡ false
      → r'.launched ≡ r.launched
      → LoopServes ts r'
      → LoopServes (t ∷ ts) r
  Served-skip t ts r r' e q k s = rw (loop-next t ts r r' e, q, ← k) s

  Served-launch :
      (t : Task) (ts : List Task) (r r' : Round)
      → tick_task cfg (saves t) now r t ≡ next r'
      → eligible g now t ≡ true
      → r'.launched ≡ r.launched ++ t ∷ []
      → LoopServes ts r'
      → LoopServes (t ∷ ts) r
  Served-launch t ts r r' e q k s =
      rw (loop-next t ts r r' e, q)
        (record {
          rest = s.rest;
          splits =
              sym (append_assoc r.launched (t ∷ []) _)
              ∙ ap (λ l. l ++ select (eligible g now) ts) (sym k)
              ∙ s.splits;
          all_or_stopped = s.all_or_stopped;
        })

  Served-return :
      (t : Task) (ts : List Task) (r r' : Round)
      → tick_task cfg (saves t) now r t ≡ return r'
      → r'.launched ≡ r.launched
      → r'.scheduler.stopped ≢ no_stop
      → LoopServes (t ∷ ts) r
  Served-return t ts r r' e k stop =
      rw (loop-return t ts r r' e) (record {
        rest = select (eligible g now) (t ∷ ts);
        splits = rw k;
        all_or_stopped = inr stop;
      })

  round-Served :
      (t : Task) (ts : List Task) (r : Round) (v : Verdict)
      → tick_task cfg (saves t) now r t ≡ act cfg (saves t) now r t v
      → VerdictEligible v (eligible g now t)
      → Fresh r
      → ((r' : Round) → Fresh r' → LoopServes ts r')
      → LoopServes (t ∷ ts) r
  unfolding act
  round-Served t ts r not_pending e q f ih = Served-skip t ts r _ e q refl (ih r f)
  round-Served t ts r hold_for_claude e q f ih =
      let b = block-gate (saves t) r.scheduler t claude in
      Served-skip t ts r _ e q refl (ih _ (b.0 ∙ f.0, b.1 ∙ f.1))
  round-Served t ts r admit e q f ih =
      let b = launch-gate (saves t) now r.scheduler t in
      Served-launch t ts r _ e q refl (ih _ (b.0 ∙ f.0, b.1 ∙ f.1))
  round-Served t ts r slots_full e q f ih = Served-return t ts r _ e refl (λ h. cc)
  round-Served t ts r no_memory e q f ih = Served-return t ts r _ e refl (λ h. cc)
  round-Served t ts r no_cpus e q f ih = Served-return t ts r _ e refl (λ h. cc)

  loop-Served : (ts : List Task) (r : Round) → Fresh r → LoopServes ts r
  unfolding tick_loop
  loop-Served [] r f = record { rest = []; splits = refl; all_or_stopped = inl refl }
  loop-Served (t ∷ ts) r f =
      round-Served t ts r (judge cfg now r t) refl
        (subst (λ h. VerdictEligible (judge cfg now r t) (eligible h now t)) f.0
          (judge-eligible cfg now r t))
        f (λ r' f'. loop-Served ts r' f')

-- A tick launches a prefix, in order of submission, of the pending tasks that the gate does not
-- hold; so a small task never overtakes a large one. If it launches fewer than all of them, it
-- leaves a reason for having stopped.
pub tick_in_order :
    (cfg : Config) (saves : Task → Bool) (now : ℕ) (s : Scheduler) (snapshot : Snapshot)
    → let r = tick cfg saves now s snapshot in
      (rest : List Task) × (select (eligible s.gate now) (list s.store) ≡ r.launched ++ rest)
      × ((rest ≡ []) ⊎ (r.scheduler.stopped ≢ no_stop))
unfolding tick begin_tick
tick_in_order cfg saves now s snapshot =
    let served =
      loop-Served cfg saves now s.gate (list s.store) (begin_tick s snapshot) (refl, refl) in
    (served.rest, served.splits, served.all_or_stopped)

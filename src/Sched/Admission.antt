-- ===== src/Sched/Admission.antt =====
-- What one tick admits: memory, cpus, slots and order.
use kranq.Base.{
  ℕ, Bool, true, List, [], ◌∷◌, ◌++◌, ◌≡◌, ◌⊎◌, inl, inr, refl, arith, All, ap, ◌∙◌, subst, sym,
}
use kranq.Base.Text.{Bytes}
use kranq.Base.Int.{ℤ, pos, ◌+ℤ◌, ◌-ℤ◌, ◌≤ℤ◌, int_laws, add64, max_int, add64-small, sub64-small}
use kranq.Hostres.{Snapshot, fits, fits_cpu, fits_sound, fits_cpu_sound}
use kranq.Sched.Defs.{
  Config, Scheduler, Round, Verdict, not_pending, slots_full, hold_for_claude, no_memory, no_cpus,
  admit, judge, cpus_of, cpus_of_ids,
}
use kranq.Sched.{Flow, next, return, act, tick_task, tick_loop, begin_tick, tick}
use kranq.State.Task.{Task}
use kranq.State.Store.{Store, list, get}

abbrev pub after : Flow → Round
after (next r) = r
after (return r) = r

-- What every round of a tick keeps holds of the whole tick, for tasks that all meet `Q`.
pub tick_loop_inv {ℓ κ} :
    (P : Round → Type ℓ) (Q : Task → Type κ) (cfg : Config) (saves : Task → Bool) (now : ℕ)
    → ((r : Round) (t : Task) → Q t → P r → P (after (tick_task cfg (saves t) now r t)))
    → (ts : List Task) (r : Round) → All Q ts
    → P r
    → P (tick_loop cfg saves now ts r)
unfolding tick_loop
tick_loop_inv P Q cfg saves now keep [] r q p = p
tick_loop_inv P Q cfg saves now keep (t ∷ ts) r q p =
    go (tick_task cfg (saves t) now r t) (keep r t q.0 p)
      (λ r' p'. tick_loop_inv P Q cfg saves now keep ts r' q.1 p')
  where
    go :
        (f : Flow)
        → P (after f)
        → ((r' : Round) → P r' → P (tick_loop cfg saves now ts r'))
        → P (elim f [ return r' ↦ r' | next r' ↦ tick_loop cfg saves now ts r' ])
    go (next r') p' rest = rest r' p'
    go (return r') p' rest = p'

abbrev pub total_memory : List Task → ℤ
total_memory [] = pos 0
total_memory (t ∷ ts) = t.memory_bytes +ℤ total_memory ts

abbrev pub total_cpus : List Task → ℤ
total_cpus [] = pos 0
total_cpus (t ∷ ts) = t.cpus +ℤ total_cpus ts

total_memory-concat :
    (ts : List Task) (t : Task) → total_memory (ts ++ t ∷ []) ≡ total_memory ts +ℤ t.memory_bytes
total_memory-concat [] t = omega int_laws
total_memory-concat (u ∷ ts) t =
    ap (◌+ℤ◌ u.memory_bytes) (total_memory-concat ts t) ∙ omega int_laws

total_cpus-concat :
    (ts : List Task) (t : Task) → total_cpus (ts ++ t ∷ []) ≡ total_cpus ts +ℤ t.cpus
total_cpus-concat [] t = omega int_laws
total_cpus-concat (u ∷ ts) t = ap (◌+ℤ◌ u.cpus) (total_cpus-concat ts t) ∙ omega int_laws

-- 2 ^ 62 - 1: two such numbers of cpus have a sum that does not wrap around.
abbrev pub half_int : ℤ
half_int = pos 4_611_686_018_427_387_903

-- Memory and cpus that are not negative; half of what a number can hold is more cpus than there are.
abbrev pub AsksFor : Task → Type 0
AsksFor t =
    (pos 0 ≤ℤ t.memory_bytes)
    × (t.memory_bytes ≤ℤ max_int)
    × (pos 0 ≤ℤ t.cpus)
    × (t.cpus ≤ℤ half_int)

-- What a machine and a configuration are like: not negative, and the cpus below half of an integer.
abbrev pub IsReal : Config → Snapshot → Type 0
IsReal cfg start =
    (pos 0 ≤ℤ cfg.memory_headroom)
    × (pos 0 ≤ℤ start.available_bytes)
    × (start.available_bytes ≤ℤ max_int)
    × (start.cpus ≤ℤ half_int)

-- Giving out `m` moves it from what is left to what is given out.
give_out : (a m s t : ℤ) → a +ℤ s ≡ t → a -ℤ m +ℤ (s +ℤ m) ≡ t
give_out a m s t h = step ∙ h
  where
    step : a -ℤ m +ℤ (s +ℤ m) ≡ a +ℤ s
    step = omega int_laws

memory_step :
    (avail headroom m s : ℤ)
    → pos 0 ≤ℤ m
    → (m ≤ℤ pos 0) ⊎ (headroom ≤ℤ avail -ℤ m)
    → (s ≤ℤ pos 0) ⊎ (headroom ≤ℤ avail)
    → (s +ℤ m ≤ℤ pos 0) ⊎ (headroom ≤ℤ avail -ℤ m)
memory_step avail headroom m s h (inr fit) l = inr fit
memory_step avail headroom m s h (inl free) (inl old) = inl (omega int_laws)
memory_step avail headroom m s h (inl free) (inr old) = inr (omega int_laws)

cpus_step :
    (used limit c s : ℤ)
    → pos 0 ≤ℤ c
    → (c ≤ℤ pos 0) ⊎ (used +ℤ c ≤ℤ limit)
    → (s ≤ℤ pos 0) ⊎ (used ≤ℤ limit)
    → (s +ℤ c ≤ℤ pos 0) ⊎ (used +ℤ c ≤ℤ limit)
cpus_step used limit c s h (inr fit) l = inr fit
cpus_step used limit c s h (inl free) (inl old) = inl (omega int_laws)
cpus_step used limit c s h (inl free) (inr old) = inr (omega int_laws)

-- What a tick has given out so far, against what it began with.
record Ledger (cfg : Config) (start : Snapshot) (in_use : ℤ) (r : Round) : Type 0 where
  memory_left : r.snapshot.available_bytes +ℤ total_memory r.launched ≡ start.available_bytes
  memory_fits :
      (total_memory r.launched ≤ℤ pos 0) ⊎ (cfg.memory_headroom ≤ℤ r.snapshot.available_bytes)
  cpus_used : r.cpus ≡ in_use +ℤ total_cpus r.launched
  cpus_fit : (total_cpus r.launched ≤ℤ pos 0) ⊎ (r.cpus ≤ℤ r.snapshot.cpus)
  same_cpus : r.snapshot.cpus ≡ start.cpus
  some_left : (pos 0 ≤ℤ r.snapshot.available_bytes) × (r.snapshot.available_bytes ≤ℤ max_int)
  some_used : (pos 0 ≤ℤ r.cpus) × (r.cpus ≤ℤ half_int)

-- What is left after a task that fits, and what is used.
left_bounds :
    (avail headroom m : ℤ)
    → pos 0 ≤ℤ m
    → pos 0 ≤ℤ headroom
    → (pos 0 ≤ℤ avail) × (avail ≤ℤ max_int)
    → (m ≤ℤ pos 0) ⊎ (headroom ≤ℤ avail -ℤ m)
    → (pos 0 ≤ℤ avail -ℤ m) × (avail -ℤ m ≤ℤ max_int)
left_bounds avail headroom m p q r (inl free) = (omega int_laws, omega int_laws)
left_bounds avail headroom m p q r (inr fit) = (omega int_laws, omega int_laws)

used_bounds :
    (used limit c : ℤ)
    → pos 0 ≤ℤ c
    → limit ≤ℤ half_int
    → (pos 0 ≤ℤ used) × (used ≤ℤ half_int)
    → (c ≤ℤ pos 0) ⊎ (used +ℤ c ≤ℤ limit)
    → (pos 0 ≤ℤ used +ℤ c) × (used +ℤ c ≤ℤ half_int)
used_bounds used limit c p q r (inl free) = (omega int_laws, omega int_laws)
used_bounds used limit c p q r (inr fit) = (omega int_laws, omega int_laws)

sum_in_range :
    (a b : ℤ) → (pos 0 ≤ℤ a) × (a ≤ℤ half_int) → pos 0 ≤ℤ b → b ≤ℤ half_int → add64 a b ≡ a +ℤ b
sum_in_range a b h k l = add64-small a b h.0 k (omega int_laws)

map_right : {A B C : Type 0} → (B → C) → A ⊎ B → A ⊎ C
map_right f (inl a) = inl a
map_right f (inr b) = inr (f b)

module _ (cfg : Config) (start : Snapshot) (in_use : ℤ) (real : IsReal cfg start) where
  memory-fits :
      (r : Round) (t : Task)
      → fits r.snapshot t.memory_bytes cfg.memory_headroom ≡ true
      → AsksFor t
      → Ledger cfg start in_use r
      → (t.memory_bytes ≤ℤ pos 0)
        ⊎ (cfg.memory_headroom ≤ℤ r.snapshot.available_bytes -ℤ t.memory_bytes)
  memory-fits r t m q l =
      map_right
        (λ h.
          subst (λ x. cfg.memory_headroom ≤ℤ x)
            (sub64-small r.snapshot.available_bytes t.memory_bytes l.some_left.0 q.0 l.some_left.1
              q.1)
            h.1)
        (fits_sound r.snapshot t.memory_bytes cfg.memory_headroom m)

  cpus-fit :
      (r : Round) (t : Task)
      → fits_cpu r.snapshot t.cpus r.cpus ≡ true
      → AsksFor t
      → Ledger cfg start in_use r
      → (t.cpus ≤ℤ pos 0) ⊎ (r.cpus +ℤ t.cpus ≤ℤ r.snapshot.cpus)
  cpus-fit r t c q l =
      map_right
        (λ h.
          subst (λ x. x ≤ℤ r.snapshot.cpus) (sum_in_range r.cpus t.cpus l.some_used q.2 q.3) h.1)
        (fits_cpu_sound r.snapshot t.cpus r.cpus c)

  admit-Ledger :
      (saved : Bool) (now : ℕ) (r : Round) (t : Task)
      → fits r.snapshot t.memory_bytes cfg.memory_headroom ≡ true
      → fits_cpu r.snapshot t.cpus r.cpus ≡ true
      → AsksFor t
      → Ledger cfg start in_use r
      → Ledger cfg start in_use (after (act cfg saved now r t admit))
  unfolding act
  admit-Ledger saved now r t m c q l =
      let avail = r.snapshot.available_bytes in
      let fm = memory-fits r t m q l in
      let fc = cpus-fit r t c q l in
      let em = sub64-small avail t.memory_bytes l.some_left.0 q.0 l.some_left.1 q.1 in
      let ec = sum_in_range r.cpus t.cpus l.some_used q.2 q.3 in
      record {
        memory_left =
            rw (total_memory-concat r.launched t, em)
              (give_out avail t.memory_bytes (total_memory r.launched) _ l.memory_left);
        memory_fits =
            rw (total_memory-concat r.launched t, em)
              (memory_step avail cfg.memory_headroom t.memory_bytes _ q.0 fm l.memory_fits);
        cpus_used =
            rw (total_cpus-concat r.launched t, ec)
              (ap (λ x. x +ℤ t.cpus) l.cpus_used ∙ omega int_laws);
        cpus_fit =
            rw (total_cpus-concat r.launched t, ec)
              (cpus_step r.cpus r.snapshot.cpus t.cpus _ q.2 fc l.cpus_fit);
        same_cpus = l.same_cpus;
        some_left =
            rw em (left_bounds avail cfg.memory_headroom t.memory_bytes q.0 real.0 l.some_left fm);
        some_used = rw ec (
            used_bounds r.cpus r.snapshot.cpus t.cpus q.2
              (subst (λ x. x ≤ℤ half_int) (sym l.same_cpus) real.3) l.some_used fc);
      }

  -- A verdict other than `admit` gives nothing out.
  act-Ledger :
      (saved : Bool) (now : ℕ) (r : Round) (t : Task) (v : Verdict)
      → (v ≡ admit
          → (fits r.snapshot t.memory_bytes cfg.memory_headroom ≡ true)
            × (fits_cpu r.snapshot t.cpus r.cpus ≡ true))
      → AsksFor t
      → Ledger cfg start in_use r
      → Ledger cfg start in_use (after (act cfg saved now r t v))
  unfolding act
  act-Ledger saved now r t admit f q l = admit-Ledger saved now r t (f refl).0 (f refl).1 q l
  act-Ledger saved now r t not_pending f q l = l
  act-Ledger saved now r t slots_full f q l = ground arith
  act-Ledger saved now r t hold_for_claude f q l = ground arith
  act-Ledger saved now r t no_memory f q l = ground arith
  act-Ledger saved now r t no_cpus f q l = ground arith

  judge-admit :
      (now : ℕ) (r : Round) (t : Task)
      → judge cfg now r t ≡ admit
      → (fits r.snapshot t.memory_bytes cfg.memory_headroom ≡ true)
        × (fits_cpu r.snapshot t.cpus r.cpus ≡ true)
  unfolding judge
  judge-admit now r t h = ground arith

  tick_task-Ledger :
      (saved : Bool) (now : ℕ) (r : Round) (t : Task)
      → AsksFor t
      → Ledger cfg start in_use r
      → Ledger cfg start in_use (after (tick_task cfg saved now r t))
  unfolding tick_task
  tick_task-Ledger saved now r t q l =
      act-Ledger saved now r t (judge cfg now r t) (judge-admit now r t) q l

memory_end :
    (avail headroom m start : ℤ)
    → avail +ℤ m ≡ start
    → (m ≤ℤ pos 0) ⊎ (headroom ≤ℤ avail)
    → (m ≤ℤ pos 0) ⊎ (headroom +ℤ m ≤ℤ start)
memory_end avail headroom m start e (inl h) = inl h
memory_end avail headroom m start e (inr h) = inr (rw (← e) (omega int_laws))

cpus_end :
    (used in_use c limit start : ℤ)
    → used ≡ in_use +ℤ c
    → limit ≡ start
    → (c ≤ℤ pos 0) ⊎ (used ≤ℤ limit)
    → (c ≤ℤ pos 0) ⊎ (in_use +ℤ c ≤ℤ start)
cpus_end used in_use c limit start e k (inl h) = inl h
cpus_end used in_use c limit start e k (inr h) = inr (rw (← e, ← k) h)

abbrev pub exact_cpus : Store → List Bytes → ℤ
exact_cpus s [] = pos 0
exact_cpus s (id ∷ ids) = cpus_of (get s id) +ℤ exact_cpus s ids

abbrev pub NonNegative : Store → Bytes → Type 0
NonNegative s id = pos 0 ≤ℤ cpus_of (get s id)

cpus_of_ids-exact_cpus :
    (s : Store) (ids : List Bytes)
    → All (NonNegative s) ids
    → exact_cpus s ids ≤ℤ half_int
    → (cpus_of_ids s ids ≡ exact_cpus s ids) × (pos 0 ≤ℤ exact_cpus s ids)
unfolding cpus_of_ids
cpus_of_ids-exact_cpus s [] n h = (refl, omega arith)
cpus_of_ids-exact_cpus s (id ∷ ids) n h =
    let rest = cpus_of_ids-exact_cpus s ids n.1 (le_sum (cpus_of (get s id)) _ n.0 h) in
    let sum : pos 0 ≤ℤ cpus_of (get s id) +ℤ exact_cpus s ids = sum_nonneg _ _ n.0 rest.1 in
    (
      ap (add64 (cpus_of (get s id))) rest.0
          ∙ add64-small (cpus_of (get s id)) (exact_cpus s ids) n.0 rest.1 (half_le _ h),
      sum,
    )
  where
    le_sum : (a b : ℤ) → pos 0 ≤ℤ a → a +ℤ b ≤ℤ half_int → b ≤ℤ half_int
    le_sum a b h k = omega int_laws

    sum_nonneg : (a b : ℤ) → pos 0 ≤ℤ a → pos 0 ≤ℤ b → pos 0 ≤ℤ a +ℤ b
    sum_nonneg a b h k = omega int_laws

    half_le : (a : ℤ) → a ≤ℤ half_int → a ≤ℤ max_int
    half_le a h = omega int_laws

-- One tick never promises more than the machine has: the tasks that it launches together ask for no
-- memory, or leave at least the headroom of what the probe found available; and they ask for no
-- cpus, or fit with the cpus of the running tasks into the machine's. No listed task asks for a
-- negative memory or number of cpus, no running task for a negative number of cpus, and neither the
-- headroom nor what is available is negative. And the numbers are small enough not to wrap around: no
-- task, no machine and not all running tasks together have 2^62 cpus or more, and memory is below 2^63.
pub tick_fits :
    (cfg : Config) (saves : Task → Bool) (now : ℕ) (s : Scheduler) (snapshot : Snapshot)
    → IsReal cfg snapshot
    → All AsksFor (list s.store)
    → All (NonNegative s.store) s.running
    → exact_cpus s.store s.running ≤ℤ half_int
    → let started = (tick cfg saves now s snapshot).launched in
      ((total_memory started ≤ℤ pos 0)
        ⊎ (cfg.memory_headroom +ℤ total_memory started ≤ℤ snapshot.available_bytes))
      × ((total_cpus started ≤ℤ pos 0)
          ⊎ (exact_cpus s.store s.running +ℤ total_cpus started ≤ℤ snapshot.cpus))
unfolding tick begin_tick
tick_fits cfg saves now s snapshot real q n h =
    let in_use = exact_cpus s.store s.running in
    let exact = cpus_of_ids-exact_cpus s.store s.running n h in
    let start : Ledger cfg snapshot in_use (begin_tick s snapshot) = record {
      memory_left = omega int_laws;
      memory_fits = inl (omega arith);
      cpus_used = exact.0 ∙ omega int_laws;
      cpus_fit = inl (omega arith);
      same_cpus = refl;
      some_left = (real.1, real.2);
      some_used = rw exact.0 (exact.1, h);
    } in
    let l =
      tick_loop_inv (Ledger cfg snapshot in_use) AsksFor cfg saves now
        (λ r t. tick_task-Ledger cfg snapshot in_use real (saves t) now r t) (list s.store)
        (begin_tick s snapshot) q start in
    (
      memory_end _ cfg.memory_headroom _ _ l.memory_left l.memory_fits,
      cpus_end _ _ _ _ _ l.cpus_used l.same_cpus l.cpus_fit,
    )

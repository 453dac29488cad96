-- ===== src/Sched/Outcome/Stale.antt =====
-- A tick works on the records that it listed, which may be out of date by then.
use kranq.Base.{ℕ, ◌+◌, true, some, ◌≡◌, refl, ap, ◌∙◌, arith}
use kranq.Base.Text.{Bytes, same_refl}
use kranq.Sched.{launch, launch_with, finish, set_running, unless_terminal}
use kranq.Sched.Defs.{Scheduler, add_key}
use kranq.Sched.Outcome.{cancel, set_cancelled}
use kranq.State.Task.{Task, running, cancelled, pending}
use kranq.State.Store.{Store, Result, ok, err, update, lookup}
use kranq.State.Store.Laws.{lookup-update}

launch_with-store :
    (s : Scheduler) (id : Bytes) (p : Store × Result Task) → (launch_with s id p).store ≡ p.0
unfolding launch_with finish
launch_with-store s id (store, ok t) = refl
launch_with-store s id (store, err e) = refl

lookup-update-same :
    (s : Store) (id : Bytes) (f : Task → Task) (u : Task)
    → ((t : Task) → (f t).id ≡ t.id)
    → lookup id s.index ≡ some u
    → lookup id (update true s id f).0.index ≡ some (f u)
lookup-update-same s id f u keeps e = lookup-update true s id id f keeps ∙ rw (same_refl id, e) refl

lookup-cancel :
    (n : ℕ) (s : Scheduler) (id : Bytes) (u : Task)
    → lookup id s.store.index ≡ some u
    → lookup id (cancel true n s id).0.store.index ≡ some (unless_terminal (set_cancelled n) u)
unfolding cancel
lookup-cancel n s id u e =
    lookup-update-same s.store id (unless_terminal (set_cancelled n)) u (λ t. ground arith) e

lookup-launch :
    (now : ℕ) (s : Scheduler) (t u : Task)
    → lookup t.id s.store.index ≡ some u
    → lookup t.id (launch true now s t).store.index ≡ some (set_running now u)
unfolding launch
lookup-launch now s t u e =
    ap (λ (st : Store). lookup t.id st.index)
      (launch_with-store (record s { running = add_key t.id s.running }) t.id
        (update true s.store t.id (set_running now)))
    ∙ lookup-update-same s.store t.id (set_running now) u (λ v. refl) e

pending-cancelled :
    (n : ℕ) (u : Task) → pending u ≡ true → (unless_terminal (set_cancelled n) u).status ≡ cancelled
pending-cancelled n u p = ground arith

-- A pending task that is cancelled after a tick listed it and before the tick launches it is recorded
-- as cancelled, and then as running all the same, with one attempt more: the launch does not look
-- whether the task is over.
pub launch_revives_cancelled :
    (n now : ℕ) (s : Scheduler) (t u : Task)
    → lookup t.id s.store.index ≡ some u
    → pending u ≡ true
    → (v : Task) × (lookup t.id (cancel true n s t.id).0.store.index ≡ some v)
      × (v.status ≡ cancelled)
      × (w : Task) × (lookup t.id (launch true now (cancel true n s t.id).0 t).store.index ≡ some w)
      × (w.status ≡ running)
      × (w.attempts ≡ u.attempts + 1)
launch_revives_cancelled n now s t u e p = (
  unless_terminal (set_cancelled n) u,
  lookup-cancel n s t.id u e,
  pending-cancelled n u p,
  set_running now (unless_terminal (set_cancelled n) u),
  lookup-launch now (cancel true n s t.id).0 t (unless_terminal (set_cancelled n) u)
      (lookup-cancel n s t.id u e),
  refl,
  ground arith,
)

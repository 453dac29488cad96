-- ===== src/State/Store/Laws.antt =====
-- The store as a map: what an id reads after each operation.
use kranq.Base.{
  ℕ, ◌+◌, not, ◌&&◌, List, [], ◌∷◌, none, some, ◌≡◌, refl, inl, inr, arith, length, if◌then◌else◌,
  Option-cases, Bool-cases, select, Bool, true, false, ltb, leb, ◌||◌,
}
use kranq.Base.Text.{Bytes, same, same_iff}
use kranq.State.Task.{
  Task, Status, queued, blocked, running, succeeded, failed, cancelled, lost, is_terminal,
}
use kranq.State.Store.{Store, lookup, put, create, update, prunable, prune_index}

-- A write is read back at its id, and no other id changes.
pub lookup-put :
    (id : Bytes) (t : Task) (ts : List Task)
    → lookup id (put t ts) ≡ (if same t.id id then some t else lookup id ts)
unfolding lookup put
lookup-put id t [] = refl
lookup-put id t (u ∷ us) =
    ground (arith, same_iff u.id t.id, same_iff t.id id, same_iff u.id id, lookup-put id t us)

pub lookup-id : (id : Bytes) (ts : List Task) {t : Task} → lookup id ts ≡ some t → t.id ≡ id
unfolding lookup
lookup-id id [] e = cc
lookup-id id (u ∷ us) {t} e = elim (Bool-cases (same u.id id)) [
  | inl h ↦ ground (arith, same_iff u.id id)
  | inr h ↦ lookup-id id us (rw h at e)
]

-- What an update leaves at every id: the changed record at its own id if it was there and the disk
-- took it, and otherwise what stood there.
pub lookup-update :
    (saved : Bool) (s : Store) (id j : Bytes) (f : Task → Task)
    → ((t : Task) → (f t).id ≡ t.id)
    → lookup j (update saved s id f).0.index ≡ (
        if saved && same id j
        then (elim (lookup j s.index) [ none ↦ none | some t ↦ some (f t) ])
        else lookup j s.index)
unfolding update
lookup-update saved s id j f keeps = elim (Option-cases (lookup id s.index)) [
  | inl e ↦ rw (e, update) (ground (arith, same_iff id j))
  | inr (t, e) ↦
      rw (e, update)
        (ground (arith, same_iff id j, lookup-put j (f t) s.index, keeps t, lookup-id id s.index e))
]

-- Create adds a task under an id that was free, refuses one that is taken, and touches no other id.
pub lookup-create :
    (saved : Bool) (s : Store) (t : Task) (j : Bytes)
    → lookup j (create saved s t).0.index ≡ (
        if saved && same t.id j
        then (elim (lookup j s.index) [ none ↦ some t | some u ↦ some u ])
        else lookup j s.index)
unfolding create
lookup-create saved s t j = elim (Option-cases (lookup t.id s.index)) [
  | inl e ↦ rw (e, create) (ground (arith, same_iff t.id j, lookup-put j t s.index))
  | inr (u, e) ↦ rw (e, create) (ground (arith, same_iff t.id j))
]

abbrev pub is_over : Status → Bool
is_over queued = false
is_over blocked = false
is_over running = false
is_over succeeded = true
is_over failed = true
is_over cancelled = true
is_over lost = true

-- The tasks that a prune drops: those that are over, were created at least so long ago, and whose
-- directory could be removed.
abbrev pub is_dropped : (Task → Bool) → ℕ → ℕ → Task → Bool
is_dropped removed older_than now t =
    is_over t.status && (not (ltb now (t.created_at + older_than)) && removed t)

prunable-is_dropped :
    (removed : Task → Bool) (older_than now : ℕ) (t : Task)
    → prunable removed older_than now t ≡ is_dropped removed older_than now t
prunable-is_dropped removed older_than now t = on_status t.status
  where
    on_status :
        (s : Status)
        → (if not (is_terminal s) || not (leb (t.created_at + older_than) now)
            then false
            else removed t)
          ≡ (is_over s && (not (ltb now (t.created_at + older_than)) && removed t))
    on_status queued = refl
    on_status blocked = refl
    on_status running = refl
    on_status succeeded = ground arith
    on_status failed = ground arith
    on_status cancelled = ground arith
    on_status lost = ground arith

-- Prune drops the tasks that succeeded, failed, were cancelled or lost, were created at least the
-- given time ago and whose directory could be removed; it keeps all others in their order, and
-- returns how many it dropped.
pub prune-select :
    (removed : Task → Bool) (older_than now : ℕ) (ts : List Task)
    → ((prune_index removed older_than now ts).0
        ≡ select (λ t. not (is_dropped removed older_than now t)) ts)
      × (length (prune_index removed older_than now ts).0
            + (prune_index removed older_than now ts).1
          ≡ length ts)
unfolding prune_index
prune-select removed older_than now [] = (refl, refl)
prune-select removed older_than now (t ∷ ts) =
    elim (Bool-cases (prunable removed older_than now t)) [
      | inl h ↦ rw h (ground (arith, prune-select removed older_than now ts))
      | inr h ↦ rw h (ground (arith, prune-select removed older_than now ts))
    ]

-- A prune that cannot remove the directory of a task leaves what its id reads.
pub lookup-prune_index :
    (removed : Task → Bool) (older_than now : ℕ) (id : Bytes) (ts : List Task)
    → ((t : Task) → t.id ≡ id → removed t ≡ false)
    → lookup id (prune_index removed older_than now ts).0 ≡ lookup id ts
unfolding prune_index lookup
lookup-prune_index removed older_than now id [] h = refl
lookup-prune_index removed older_than now id (t ∷ ts) h =
    elim (Bool-cases (prunable removed older_than now t)) [
      | inl p ↦
          rw p (
            ground
              (arith, lookup-prune_index removed older_than now id ts h, same_iff t.id id, h t))
      | inr p ↦ rw p (ground (arith, lookup-prune_index removed older_than now id ts h))
    ]

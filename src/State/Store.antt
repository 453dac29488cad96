-- ===== src/State/Store.antt =====
-- internal/state/store.go: the index of the store, a Go map from ids to tasks, as a list with one
-- entry for each id. The flag `saved` says whether the operating system took the write of the
-- task's files; the index changes only when it did.
pub mod Laws
pub mod Listing
use kranq.Base.{
  ℕ, ◌+◌, Bool, true, false, not, ◌||◌, List, [], ◌∷◌, Option, none, some, leb, if◌then◌else◌,
}
use kranq.Base.Text.{Bytes, same}
use kranq.State.Task.{Task, terminal}

pub data StoreError : Type 0 where
  not_found already_exists not_written : StoreError

pub data Result {ℓ} (A : Type ℓ) : Type ℓ where
  ok : A → Result A
  err : StoreError → Result A

pub record Store : Type 0 where
  pub index : List Task

-- s.index[id]
unfoldable pub lookup : Bytes → List Task → Option Task
lookup id [] = none
lookup id (t ∷ ts) = if same t.id id then some t else lookup id ts

-- s.index[t.ID] = t
unfoldable pub put : Task → List Task → List Task
put t [] = t ∷ []
put t (u ∷ us) = if same u.id t.id then t ∷ us else u ∷ put t us

unfoldable pub get : Store → Bytes → Result Task
unfolding lookup
get s id = elim (lookup id s.index) [ none ↦ err not_found | some t ↦ ok t ]

unfoldable pub write : Bool → Store → Task → Store × Result (Unit {0})
write saved s t = if saved then (record { index = put t s.index }, ok tt) else (s, err not_written)

unfoldable pub create : Bool → Store → Task → Store × Result (Unit {0})
unfolding write
create saved s t = elim (lookup t.id s.index) [
  | some _ ↦ (s, err already_exists)
  | none ↦ write saved s t
]

-- The record that Update writes, and what it returns.
unfoldable pub rewrite : Bool → Store → Task → Store × Result Task
rewrite saved s t = if saved then (record { index = put t s.index }, ok t) else (s, err not_written)

unfoldable pub update : Bool → Store → Bytes → (Task → Task) → Store × Result Task
unfolding rewrite
update saved s id f = elim (lookup id s.index) [
  | none ↦ (s, err not_found)
  | some t ↦ rewrite saved s (f t)
]

-- sort.Slice by CreatedAt. Go leaves the order of equal times open; here they keep their order.
unfoldable pub insert_by_time : Task → List Task → List Task
insert_by_time t [] = t ∷ []
insert_by_time t (u ∷ us) =
    if leb t.created_at u.created_at then t ∷ u ∷ us else u ∷ insert_by_time t us

unfoldable pub sort_by_time : List Task → List Task
unfolding insert_by_time
sort_by_time [] = []
sort_by_time (t ∷ ts) = insert_by_time t (sort_by_time ts)

unfoldable pub list : Store → List Task
unfolding sort_by_time
list s = sort_by_time s.index

-- `removed` says of each task whether os.RemoveAll of its directory succeeds. The test of the
-- cutoff, !CreatedAt.After(now - olderThan), is CreatedAt + olderThan ≤ now.
abbrev pub prunable : (Task → Bool) → ℕ → ℕ → Task → Bool
prunable removed older_than now t =
    if not (terminal t) || not (leb (t.created_at + older_than) now) then false else removed t

unfoldable pub prune_index : (Task → Bool) → ℕ → ℕ → List Task → List Task × ℕ
prune_index removed older_than now [] = ([], 0)
prune_index removed older_than now (t ∷ ts) =
    let (kept, n) = prune_index removed older_than now ts in
    if prunable removed older_than now t then (kept, n + 1) else (t ∷ kept, n)

unfoldable pub prune : (Task → Bool) → ℕ → ℕ → Store → Store × ℕ
unfolding prune_index
prune removed older_than now s =
    let (kept, n) = prune_index removed older_than now s.index in (record { index = kept }, n)

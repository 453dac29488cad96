-- ===== src/State/Store/Listing.antt =====
-- What `List` shows of the index.
use kranq.Base.{◌≤◌, List, [], ◌∷◌, none, ◌≡◌, refl, ◌∙◌, arith, leb, Bool-cases, inl, inr, sym}
use kranq.Base.Text.{Bytes, same, same_iff}
use kranq.State.Task.{Task}
use kranq.State.Store.{Store, lookup, put, insert_by_time, sort_by_time, list}
use kranq.State.Store.Laws.{lookup-put}

-- A Go map has one entry for a key.
abbrev pub Distinct : List Task → Type 0
Distinct [] = Unit
Distinct (t ∷ ts) = (lookup t.id ts ≡ none) × Distinct ts

abbrev pub OldestFirst : List Task → Type 0
OldestFirst [] = Unit
OldestFirst (t ∷ []) = Unit
OldestFirst (t ∷ u ∷ us) = (t.created_at ≤ u.created_at) × OldestFirst (u ∷ us)

-- Writing a task keeps the ids distinct.
pub put-Distinct : (t : Task) (ts : List Task) → Distinct ts → Distinct (put t ts)
unfolding put lookup
put-Distinct t [] d = (refl, tt)
put-Distinct t (u ∷ us) d = elim (Bool-cases (same u.id t.id)) [
  | inl h ↦ rw h (rw (sym ((same_iff u.id t.id).0 h)) d.0, d.1)
  | inr h ↦ rw h (
    ground (arith, lookup-put u.id t us, same_iff t.id u.id, same_iff u.id t.id),
    put-Distinct t us d.1,
  )
]

lookup-insert_by_time :
    (id : Bytes) (t : Task) (us : List Task)
    → lookup t.id us ≡ none
    → lookup id (insert_by_time t us) ≡ lookup id (t ∷ us)
unfolding insert_by_time lookup
lookup-insert_by_time id t [] h = refl
lookup-insert_by_time id t (u ∷ us) h =
    ground
      (arith, same_iff u.id id, same_iff t.id id, same_iff u.id t.id, lookup-insert_by_time id t us)

insert_by_time-Distinct :
    (t : Task) (us : List Task)
    → lookup t.id us ≡ none
    → Distinct us
    → Distinct (insert_by_time t us)
unfolding insert_by_time lookup
insert_by_time-Distinct t [] h d = (refl, tt)
insert_by_time-Distinct t (u ∷ us) h d = elim (Bool-cases (leb t.created_at u.created_at)) [
  | inl e ↦ rw e (h, d)
  | inr e ↦ rw e (
    ground (arith, d.0, same_iff t.id u.id, same_iff u.id t.id, lookup-insert_by_time u.id t us),
    insert_by_time-Distinct t us (ground arith) d.1,
  )
]

lookup-sort_by_time :
    (id : Bytes) (ts : List Task) → Distinct ts → lookup id (sort_by_time ts) ≡ lookup id ts
unfolding sort_by_time lookup
lookup-sort_by_time id [] d = refl
lookup-sort_by_time id (t ∷ ts) d =
    lookup-insert_by_time id t (sort_by_time ts) (lookup-sort_by_time t.id ts d.1 ∙ d.0)
    ∙ rw (lookup-sort_by_time id ts d.1)

sort_by_time-Distinct : (ts : List Task) → Distinct ts → Distinct (sort_by_time ts)
unfolding sort_by_time
sort_by_time-Distinct [] d = tt
sort_by_time-Distinct (t ∷ ts) d =
    insert_by_time-Distinct t (sort_by_time ts) (lookup-sort_by_time t.id ts d.1 ∙ d.0)
      (sort_by_time-Distinct ts d.1)

insert_by_time-OldestFirst :
    (t : Task) (us : List Task) → OldestFirst us → OldestFirst (insert_by_time t us)
unfolding insert_by_time
insert_by_time-OldestFirst t [] d = tt
insert_by_time-OldestFirst t (u ∷ []) d = ground arith
insert_by_time-OldestFirst t (u ∷ v ∷ us) d =
    ground (arith, insert_by_time-OldestFirst t (v ∷ us) d.1)

sort_by_time-OldestFirst : (ts : List Task) → OldestFirst (sort_by_time ts)
unfolding sort_by_time
sort_by_time-OldestFirst [] = tt
sort_by_time-OldestFirst (t ∷ ts) =
    insert_by_time-OldestFirst t (sort_by_time ts) (sort_by_time-OldestFirst ts)

-- The listed tasks are those of the index, each id with the record that `Get` returns for it and
-- listed once, and no task stands before an older one.
pub list_lem :
    (s : Store)
    → Distinct s.index
    → OldestFirst (list s)
      × Distinct (list s)
      × ((id : Bytes) → lookup id (list s) ≡ lookup id s.index)
unfolding list
list_lem s d = (
  sort_by_time-OldestFirst s.index,
  sort_by_time-Distinct s.index d,
  λ id. lookup-sort_by_time id s.index d,
)

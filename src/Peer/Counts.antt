-- ===== src/Peer/Counts.antt =====
-- Counting the peers that pass a test, through each operation on their list.
use kranq.Base.{
  ℕ, suc, ◌+◌, ◌≤◌, Bool, true, false, List, [], ◌∷◌, ◌++◌, Option, none, some, if◌then◌else◌, find,
  ◌≡◌, refl, ap, ◌∙◌, arith, Bool-cases, subst, inl, inr,
}
use kranq.Base.Text.{Bytes, same, same_iff}
use kranq.Peer.{
  Peer, Answer, ok, err, named, set_default, apply_default, replace, insert, sort_by_name, is_empty,
  is_default,
}

abbrev pub count {ℓ} : {A : Type ℓ} → (A → Bool) → List A → ℕ
count p [] = 0
count p (x ∷ xs) = if p x then suc (count p xs) else count p xs

-- A registry has at most one peer of each name, and exactly one default unless it is empty.
pub record IsRegistry (ps : List Peer) : Type 0 where
  pub one_name : (name : Bytes) → count (named name) ps ≤ 1
  pub one_default : count is_default ps ≡ (if is_empty ps then 0 else 1)

abbrev pub OnOk {ℓ} : {A : Type ℓ} → (A → Type 0) → Answer A → Type 0
OnOk P (ok a) = P a
OnOk P (err e) = Unit

pub count-append :
    (f : Peer → Bool) (ps qs : List Peer) → count f (ps ++ qs) ≡ count f ps + count f qs
count-append f [] qs = omega arith
count-append f (p ∷ ps) qs = ground (arith, count-append f ps qs)

pub count-insert :
    (f : Peer → Bool) (p : Peer) (ps : List Peer) → count f (insert p ps) ≡ count f (p ∷ ps)
unfolding insert
count-insert f p [] = refl
count-insert f p (q ∷ qs) = ground (arith, count-insert f p qs)

pub count-sort_by_name : (f : Peer → Bool) (ps : List Peer) → count f (sort_by_name ps) ≡ count f ps
unfolding sort_by_name
count-sort_by_name f [] = refl
count-sort_by_name f (p ∷ ps) =
    count-insert f p (sort_by_name ps)
    ∙ ap (λ n. if f p then suc n else n) (count-sort_by_name f ps)

pub insert-nonempty : (p : Peer) (ps : List Peer) → is_empty (insert p ps) ≡ false
unfolding insert
insert-nonempty p [] = refl
insert-nonempty p (q ∷ qs) = ground arith

pub sort_by_name-is_empty : (ps : List Peer) → is_empty (sort_by_name ps) ≡ is_empty ps
unfolding sort_by_name
sort_by_name-is_empty [] = refl
sort_by_name-is_empty (p ∷ ps) = insert-nonempty p (sort_by_name ps)

pub count-named-set_default :
    (n name : Bytes) (ps : List Peer) → count (named n) (set_default name ps) ≡ count (named n) ps
unfolding set_default
count-named-set_default n name [] = refl
count-named-set_default n name (p ∷ ps) = ground (arith, count-named-set_default n name ps)

pub count-default-set_default :
    (name : Bytes) (ps : List Peer) → count is_default (set_default name ps) ≡ count (named name) ps
unfolding set_default
count-default-set_default name [] = refl
count-default-set_default name (p ∷ ps) = ground (arith, count-default-set_default name ps)

pub set_default-is_empty :
    (name : Bytes) (ps : List Peer) → is_empty (set_default name ps) ≡ is_empty ps
unfolding set_default
set_default-is_empty name [] = refl
set_default-is_empty name (p ∷ ps) = refl

pub apply_default-is_empty :
    (p : Peer) (ps : List Peer) → is_empty (apply_default p ps) ≡ is_empty ps
unfolding apply_default
apply_default-is_empty p ps = ground (arith, set_default-is_empty p.name ps)

pub count-named-apply_default :
    (n : Bytes) (p : Peer) (ps : List Peer)
    → count (named n) (apply_default p ps) ≡ count (named n) ps
unfolding apply_default
count-named-apply_default n p ps = ground (arith, count-named-set_default n p.name ps)

pub count-default-apply_default :
    (p : Peer) (ps : List Peer)
    → count is_default (apply_default p ps)
      ≡ (if p.default then count (named p.name) ps else count is_default ps)
unfolding apply_default
count-default-apply_default p ps = ground (arith, count-default-set_default p.name ps)

pub count-named-replace :
    (n : Bytes) (p : Peer) (ps : List Peer) → count (named n) (replace p ps) ≡ count (named n) ps
unfolding replace
count-named-replace n p [] = refl
count-named-replace n p (q ∷ qs) = elim (Bool-cases (same q.name p.name)) [
  | inl h ↦ rw (h, (same_iff q.name p.name).0 h) refl
  | inr h ↦ rw h (ground (arith, count-named-replace n p qs))
]

abbrev pub one : Bool → ℕ
one b = if b then 1 else 0

pub some_default : Option Peer → Bool
some_default none = false
some_default (some p) = p.default

pub found_default :
    (q existing : Peer) (qs : List Peer) (f : Peer → Bool)
    → f q ≡ true
    → find f (q ∷ qs) ≡ some existing
    → q.default ≡ existing.default
unfolding some_default
found_default q existing qs f s h =
    ap some_default (subst (λ b. (if b then some q else find f qs) ≡ some existing) s h)

pub found_later :
    (q existing : Peer) (qs : List Peer) (f : Peer → Bool)
    → f q ≡ false
    → find f (q ∷ qs) ≡ some existing
    → find f qs ≡ some existing
found_later q existing qs f s h = subst (λ b. (if b then some q else find f qs) ≡ some existing) s h

pub count-default-replace :
    (p existing : Peer) (ps : List Peer)
    → find (named p.name) ps ≡ some existing
    → count is_default (replace p ps) + one existing.default ≡ count is_default ps + one p.default
unfolding replace
count-default-replace p existing [] h = absurd (ground arith)
count-default-replace p existing (q ∷ qs) h = elim (Bool-cases (same q.name p.name)) [
  | inl s ↦ rw s (ground (arith, found_default q existing qs (named p.name) s h))
  | inr s ↦ rw s (
      ground
        (arith, count-default-replace p existing qs (found_later q existing qs (named p.name) s h)))
]

pub replace-is_empty : (p : Peer) (ps : List Peer) → is_empty (replace p ps) ≡ is_empty ps
unfolding replace
replace-is_empty p [] = refl
replace-is_empty p (q ∷ qs) = ground arith

-- What the search for a name says of the number of peers of that name.
pub count-named-found :
    (name : Bytes) (p : Peer) (ps : List Peer)
    → find (named name) ps ≡ some p
    → 1 ≤ count (named name) ps
count-named-found name p [] h = absurd (ground arith)
count-named-found name p (q ∷ qs) h = ground (arith, count-named-found name p qs)

pub count-named-not_found :
    (name : Bytes) (ps : List Peer) → find (named name) ps ≡ none → count (named name) ps ≡ 0
count-named-not_found name [] h = refl
count-named-not_found name (q ∷ qs) h = ground (arith, count-named-not_found name qs)

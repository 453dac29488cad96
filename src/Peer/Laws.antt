-- ===== src/Peer/Laws.antt =====
-- internal/peer/registry.go: the names and the default of a registry, through Add and Remove.
use kranq.Base.{
  ◌+◌, ◌≤◌, Bool, true, false, List, [], ◌∷◌, ◌++◌, Option, none, some, if◌then◌else◌, find, ◌≡◌,
  refl, ap, arith, ◌⊎◌, Bool-cases, subst, inl, inr, length,
}
use kranq.Base.Text.{Bytes, same, same_iff, same_refl}
use kranq.Peer.{
  Peer, PeerError, ok, err, named, apply_default, replace, edited, edit, append_new, is_empty,
  with_bin, add_checked, add, refusal, without, default_first, remove_found, remove, is_default,
}
use kranq.Peer.Counts.{
  count, IsRegistry, OnOk, one, count-append, count-sort_by_name, sort_by_name-is_empty,
  apply_default-is_empty, count-named-apply_default, count-default-apply_default,
  count-named-replace, found_default, found_later, count-default-replace, replace-is_empty,
  count-named-found, count-named-not_found,
}

edit-IsRegistry :
    (p existing : Peer) (ps : List Peer)
    → IsRegistry ps
    → find (named p.name) ps ≡ some existing
    → IsRegistry (edit (edited p existing) ps)
edit-IsRegistry p existing ps r h = record {
  one_name = λ n. omega (
    arith,
    r.one_name n,
    count-named-apply_default n (edited p existing) (replace (edited p existing) ps),
    count-named-replace n (edited p existing) ps,
  );
  one_default = ground (
    arith,
    r.one_default,
    r.one_name p.name,
    count-default-apply_default (edited p existing) (replace (edited p existing) ps),
    apply_default-is_empty (edited p existing) (replace (edited p existing) ps),
    replace-is_empty (edited p existing) ps,
    count-named-replace p.name (edited p existing) ps,
    count-named-found p.name existing ps h,
    count-default-replace (edited p existing) existing ps h,
  );
}

append_nonempty : (ps : List Peer) (p : Peer) → is_empty (ps ++ p ∷ []) ≡ false
append_nonempty [] p = refl
append_nonempty (q ∷ qs) p = refl

count_sorted :
    (f : Peer → Bool) (p : Peer) (ps : List Peer)
    → count f (append_new p ps) ≡ count f (apply_default p (ps ++ p ∷ []))
count_sorted f p ps = count-sort_by_name f (apply_default p (ps ++ p ∷ []))

count-named-append :
    (n : Bytes) (p : Peer) (ps : List Peer)
    → IsRegistry ps
    → find (named p.name) ps ≡ none
    → count (named n) (ps ++ p ∷ []) ≤ 1
count-named-append n p ps r h = elim (Bool-cases (same p.name n)) [
  | inl s ↦ ground (
    arith,
    count-append (named n) ps (p ∷ []),
    count-named-not_found n ps (subst (λ m. find (named m) ps ≡ none) ((same_iff p.name n).0 s) h),
  )
  | inr s ↦ ground (arith, count-append (named n) ps (p ∷ []), r.one_name n)
]

append_new-IsRegistry :
    (p : Peer) (ps : List Peer)
    → IsRegistry ps
    → find (named p.name) ps ≡ none
    → (is_empty ps ≡ false) ⊎ (p.default ≡ true)
    → IsRegistry (append_new p ps)
append_new-IsRegistry p ps r h d = record {
  one_name = λ n. omega (
    arith,
    count-named-append n p ps r h,
    count_sorted (named n) p ps,
    count-named-apply_default n p (ps ++ p ∷ []),
  );
  one_default = ground (
    arith,
    d,
    r.one_default,
    count_sorted is_default p ps,
    count-default-apply_default p (ps ++ p ∷ []),
    count-named-append p.name p ps r h,
    count-append is_default ps (p ∷ []),
    count-append (named p.name) ps (p ∷ []),
    same_refl p.name,
    count-named-not_found p.name ps h,
    sort_by_name-is_empty (apply_default p (ps ++ p ∷ [])),
    apply_default-is_empty p (ps ++ p ∷ []),
    append_nonempty ps p,
  );
}

count-default-without :
    (name : Bytes) (p : Peer) (ps : List Peer)
    → find (named name) ps ≡ some p
    → count is_default (without name ps) + one p.default ≡ count is_default ps
unfolding without
count-default-without name p [] h = absurd (ground arith)
count-default-without name p (q ∷ qs) h = elim (Bool-cases (same q.name name)) [
  | inl s ↦ rw s (ground (arith, found_default q p qs (named name) s h))
  | inr s ↦
      rw s (ground (arith, count-default-without name p qs (found_later q p qs (named name) s h)))
]

count-named-without :
    (n name : Bytes) (ps : List Peer) → count (named n) (without name ps) ≤ count (named n) ps
unfolding without
count-named-without n name [] = omega arith
count-named-without n name (q ∷ qs) = ground (arith, count-named-without n name qs)

is_empty_iff : (ps : List Peer) → (is_empty ps ≡ true) ⊎ (1 ≤ length ps)
is_empty_iff [] = inl refl
is_empty_iff (p ∷ ps) = inr (omega arith)

count-default-default_first :
    (ps : List Peer)
    → count is_default ps ≡ 0
    → count is_default (default_first ps) ≡ (if is_empty ps then 0 else 1)
count-default-default_first [] h = refl
count-default-default_first (p ∷ ps) h = ground arith

default_first-is_empty : (ps : List Peer) → is_empty (default_first ps) ≡ is_empty ps
default_first-is_empty [] = refl
default_first-is_empty (p ∷ ps) = refl

count-named-default_first :
    (n : Bytes) (ps : List Peer) → count (named n) (default_first ps) ≡ count (named n) ps
count-named-default_first n [] = refl
count-named-default_first n (p ∷ ps) = refl

count_le_nonempty : (f : Peer → Bool) (ps : List Peer) → (is_empty ps ≡ false) ⊎ (count f ps ≡ 0)
count_le_nonempty f [] = inr refl
count_le_nonempty f (p ∷ ps) = inl refl

without-IsRegistry :
    (name : Bytes) (p : Peer) (ps : List Peer)
    → IsRegistry ps
    → find (named name) ps ≡ some p
    → IsRegistry (if p.default then default_first (without name ps) else without name ps)
without-IsRegistry name p ps r h = elim (Bool-cases p.default) [
  | inl d ↦ rw d (record {
    one_name = λ n. omega (
      arith,
      r.one_name n,
      count-named-default_first n (without name ps),
      count-named-without n name ps,
    );
    one_default = ground (
      arith,
      r.one_default,
      count-default-without name p ps h,
      count-default-default_first (without name ps),
      default_first-is_empty (without name ps),
      count_le_nonempty is_default ps,
    );
  })
  | inr d ↦ rw d (record {
    one_name = λ n. omega (arith, r.one_name n, count-named-without n name ps);
    one_default = ground (
      arith,
      r.one_default,
      count-default-without name p ps h,
      count-named-found name p ps h,
      count_le_nonempty is_default (without name ps),
      count_le_nonempty (named name) ps,
    );
  })
]

-- Removing a peer from a registry leaves a registry: one peer per name, and one default unless no
-- peer is left.
pub remove-IsRegistry :
    (name : Bytes) (ps : List Peer) → IsRegistry ps → OnOk IsRegistry (remove name ps)
unfolding remove remove_found
remove-IsRegistry name ps r = go (find (named name) ps) refl
  where
    go : (o : Option Peer) → find (named name) ps ≡ o → OnOk IsRegistry (remove_found name ps o)
    go none h = tt
    go (some p) h = without-IsRegistry name p ps r h

add_checked-IsRegistry :
    (p : Peer) (ps : List Peer) (o : Option Peer)
    → IsRegistry ps
    → find (named p.name) ps ≡ o
    → IsRegistry (add_checked p ps o)
unfolding add_checked
add_checked-IsRegistry p ps (some existing) r h = edit-IsRegistry p existing ps r h
add_checked-IsRegistry p ps none r h = elim (Bool-cases (is_empty ps)) [
  | inl e ↦ rw e (append_new-IsRegistry (record p { default = true }) ps r h (inr refl))
  | inr e ↦ rw e (append_new-IsRegistry p ps r h (inl e))
]

with_bin-name : (p : Peer) → (with_bin p).name ≡ p.name
with_bin-name p = ground arith

-- Adding a peer to a registry, a new one or one that is there already, leaves a registry: one peer
-- per name, and exactly one default.
pub add-IsRegistry : (p : Peer) (ps : List Peer) → IsRegistry ps → OnOk IsRegistry (add p ps)
unfolding add
add-IsRegistry p ps r = go (refusal p)
  where
    go :
        (o : Option PeerError)
        → OnOk IsRegistry (elim o [
          | some e ↦ err e
          | none ↦ ok (add_checked (with_bin p) ps (find (named p.name) ps))
        ])
    go (some e) = tt
    go none =
        add_checked-IsRegistry (with_bin p) ps (find (named p.name) ps) r
          (ap (λ n. find (named n) ps) (with_bin-name p))

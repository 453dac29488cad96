-- ===== src/Image/Prune/Walk.antt =====
-- The loop from heads to their ancestors.
use kranq.Base.{
  ℕ, ◌+◌, ◌≤◌, zero, suc, true, false, not, ◌||◌, List, [], ◌∷◌, if◌then◌else◌, ◌≡◌, ◌⊎◌, inl, inr,
  refl, sym, ap, ◌∙◌, subst, arith, length, Bool-cases, length-select-le, select,
}
use kranq.Base.Text.{Bytes, empty, same, same_iff, same_refl}
use kranq.Image.Meta.{Meta, load}
use kranq.Image.Prune.{has, parent_of, keep_chain, keep_chains}

-- Of a list of names that were kept: the parent of each is kept too, is none, or is `next`, but for
-- names that were kept from the start.
abbrev pub IsClosedBut : (Bytes → Bytes) → List Bytes → Bytes → List Bytes → Type 0
IsClosedBut parent start next keep =
    (n : Bytes)
    → has n keep ≡ true
    → (has n start ≡ true)
      ⊎ ((empty (parent n) ≡ true) ⊎ ((has (parent n) keep ≡ true) ⊎ (same (parent n) next ≡ true)))

abbrev pub IsClosed : (Bytes → Bytes) → List Bytes → List Bytes → Type 0
IsClosed parent start keep =
    (n : Bytes)
    → has n keep ≡ true
    → (has n start ≡ true) ⊎ ((empty (parent n) ≡ true) ⊎ (has (parent n) keep ≡ true))

-- How many records have names that are not kept.
abbrev pub missing : List Bytes → List Meta → ℕ
missing keep ms = length (select (λ m. not (has m.name keep)) ms)

missing_le :
    (n : Bytes) (keep : List Bytes) (ms : List Meta) → missing (n ∷ keep) ms ≤ missing keep ms
missing_le n keep [] = omega arith
missing_le n keep (m ∷ ms) = ground (arith, missing_le n keep ms)

-- A record of the name that is kept now.
missing-lt_found :
    (n : Bytes) (keep : List Bytes) (m : Meta) (ms : List Meta)
    → same m.name n ≡ true
    → has m.name keep ≡ false
    → suc (missing (n ∷ keep) (m ∷ ms)) ≤ missing keep (m ∷ ms)
missing-lt_found n keep m ms e h = ground (arith, missing_le n keep ms)

parent_of_next :
    (n : Bytes) (m : Meta) (ms : List Meta)
    → same m.name n ≡ false
    → parent_of (m ∷ ms) n ≡ parent_of ms n
unfolding parent_of load
parent_of_next n m ms e = rw (parent_of, load, e) refl

missing-lt_next :
    (n : Bytes) (keep : List Bytes) (m : Meta) (ms : List Meta)
    → same m.name n ≡ false
    → suc (missing (n ∷ keep) ms) ≤ missing keep ms
    → suc (missing (n ∷ keep) (m ∷ ms)) ≤ missing keep (m ∷ ms)
missing-lt_next n keep m ms e q = ground arith

missing-lt :
    (n : Bytes) (keep : List Bytes) (ms : List Meta)
    → has n keep ≡ false
    → (empty (parent_of ms n) ≡ true) ⊎ (suc (missing (n ∷ keep) ms) ≤ missing keep ms)
unfolding parent_of load
missing-lt n keep [] h = inl refl
missing-lt n keep (m ∷ ms) h = elim (Bool-cases (same m.name n)) [
  | inl e ↦
      inr (missing-lt_found n keep m ms e (ap (λ x. has x keep) ((same_iff m.name n).0 e) ∙ h))
  | inr e ↦ elim (missing-lt n keep ms h) [
    | inl p ↦ inl (ap empty (parent_of_next n m ms e) ∙ p)
    | inr q ↦ inr (missing-lt_next n keep m ms e q)
  ]
]

-- The fuel that a walk still needs.
abbrev pub need : List Meta → Bytes → List Bytes → ℕ
need ms name keep = if empty name then 1 else missing keep ms + 2

need-parent :
    (n : Bytes) (keep : List Bytes) (ms : List Meta) (fuel : ℕ)
    → has n keep ≡ false
    → missing keep ms + 2 ≤ suc fuel
    → need ms (parent_of ms n) (n ∷ keep) ≤ fuel
need-parent n keep ms fuel h e = elim (missing-lt n keep ms h) [
  | inl p ↦ rw p (omega arith)
  | inr q ↦ ground arith
]

IsClosedBut-step :
    (parent : Bytes → Bytes) (start keep : List Bytes) (name : Bytes)
    → IsClosedBut parent start name keep
    → IsClosedBut parent start (parent name) (name ∷ keep)
IsClosedBut-step parent start keep name c n h = elim (Bool-cases (same n name)) [
  | inl e ↦ inr (
      inr (
        inr (
          ap (λ x. same (parent x) (parent name)) ((same_iff n name).0 e)
          ∙ same_refl (parent name))))
  | inr e ↦ elim (c n (ground arith)) [
    | inl s ↦ inl s
    | inr (inl p) ↦ inr (inl p)
    | inr (inr (inl q)) ↦ inr (inr (inl (ground arith)))
    | inr (inr (inr q)) ↦ inr (inr (inl (ground arith)))
  ]
]

-- A walk that stops.
IsClosed-end :
    (parent : Bytes → Bytes) (start keep : List Bytes) (name : Bytes)
    → (empty name || has name keep) ≡ true
    → IsClosedBut parent start name keep
    → IsClosed parent start keep
IsClosed-end parent start keep name t c n h = elim (c n h) [
  | inl s ↦ inl s
  | inr (inl p) ↦ inr (inl p)
  | inr (inr (inl q)) ↦ inr (inr q)
  | inr (inr (inr q)) ↦ elim (Bool-cases (empty name)) [
    | inl e ↦ inr (inl (ap empty ((same_iff (parent n) name).0 q) ∙ e))
    | inr e ↦ inr (inr (ap (λ x. has x keep) ((same_iff (parent n) name).0 q) ∙ ground arith))
  ]
]

-- With enough fuel a walk ends with names that are closed under parents.
keep_chain-IsClosed :
    (fuel : ℕ) (ms : List Meta) (start keep : List Bytes) (name : Bytes)
    → need ms name keep ≤ fuel
    → IsClosedBut (parent_of ms) start name keep
    → IsClosed (parent_of ms) start (keep_chain fuel (parent_of ms) name keep)
unfolding keep_chain
keep_chain-IsClosed zero ms start keep name e c = absurd (ground arith)
keep_chain-IsClosed (suc fuel) ms start keep name e c =
    elim (Bool-cases (empty name || has name keep)) [
      | inl t ↦ rw t (IsClosed-end (parent_of ms) start keep name t c)
      | inr t ↦ rw t (
          keep_chain-IsClosed fuel ms start (name ∷ keep) (parent_of ms name)
            (need-parent name keep ms fuel (ground arith) (ground arith))
            (IsClosedBut-step (parent_of ms) start keep name c))
    ]

-- A walk forgets nothing, and keeps where it starts.
keep_chain-keeps :
    (fuel : ℕ) (parent : Bytes → Bytes) (keep : List Bytes) (name n : Bytes)
    → has n keep ≡ true
    → has n (keep_chain fuel parent name keep) ≡ true
unfolding keep_chain
keep_chain-keeps zero parent keep name n h = h
keep_chain-keeps (suc fuel) parent keep name n h = elim (Bool-cases (empty name || has name keep)) [
  | inl t ↦ rw t h
  | inr t ↦ rw t (keep_chain-keeps fuel parent (name ∷ keep) (parent name) n (ground arith))
]

keep_chain-head :
    (fuel : ℕ) (parent : Bytes → Bytes) (keep : List Bytes) (name : Bytes)
    → empty name ≡ false
    → has name (keep_chain (suc fuel) parent name keep) ≡ true
unfolding keep_chain
keep_chain-head fuel parent keep name e = elim (Bool-cases (has name keep)) [
  | inl t ↦ rw (e, t) t
  | inr t ↦
      rw (e, t)
        (keep_chain-keeps fuel parent (name ∷ keep) (parent name) name
          (ground (arith, same_refl name)))
]

pub keep_chains-keeps :
    (fuel : ℕ) (parent : Bytes → Bytes) (hs keep : List Bytes) (n : Bytes)
    → has n keep ≡ true
    → has n (keep_chains fuel parent hs keep) ≡ true
unfolding keep_chains
keep_chains-keeps fuel parent [] keep n h = h
keep_chains-keeps fuel parent (a ∷ hs) keep n h =
    keep_chains-keeps fuel parent hs (keep_chain fuel parent a keep) n
      (keep_chain-keeps fuel parent keep a n h)

pub keep_chains-heads :
    (fuel : ℕ) (parent : Bytes → Bytes) (hs keep : List Bytes) (n : Bytes)
    → empty n ≡ false
    → has n hs ≡ true
    → has n (keep_chains (suc fuel) parent hs keep) ≡ true
unfolding keep_chains
keep_chains-heads fuel parent [] keep n e h = absurd (ground arith)
keep_chains-heads fuel parent (a ∷ hs) keep n e h = elim (Bool-cases (same n a)) [
  | inl s ↦ keep_chains-keeps (suc fuel) parent hs (keep_chain (suc fuel) parent a keep) n (
      subst (λ x. has x (keep_chain (suc fuel) parent a keep) ≡ true) (sym ((same_iff n a).0 s))
        (keep_chain-head fuel parent keep a (ap empty (sym ((same_iff n a).0 s)) ∙ e)))
  | inr s ↦
      keep_chains-heads fuel parent hs (keep_chain (suc fuel) parent a keep) n e (ground arith)
]

need_le : (ms : List Meta) (name : Bytes) (keep : List Bytes) → need ms name keep ≤ length ms + 2
need_le ms name keep = ground (arith, length-select-le (λ m. not (has m.name keep)) ms)

IsClosed-start :
    (parent : Bytes → Bytes) (start keep : List Bytes) (name : Bytes)
    → IsClosed parent start keep
    → IsClosedBut parent start name keep
IsClosed-start parent start keep name c n h = elim (c n h) [
  | inl s ↦ inl s
  | inr (inl p) ↦ inr (inl p)
  | inr (inr q) ↦ inr (inr (inl q))
]

pub keep_chains-IsClosed :
    (ms : List Meta) (start hs keep : List Bytes)
    → IsClosed (parent_of ms) start keep
    → IsClosed (parent_of ms) start (keep_chains (length ms + 2) (parent_of ms) hs keep)
unfolding keep_chains
keep_chains-IsClosed ms start [] keep c = c
keep_chains-IsClosed ms start (a ∷ hs) keep c =
    keep_chains-IsClosed ms start hs (keep_chain (length ms + 2) (parent_of ms) a keep) (
      keep_chain-IsClosed (length ms + 2) ms start keep a (need_le ms a keep)
        (IsClosed-start (parent_of ms) start keep a c))

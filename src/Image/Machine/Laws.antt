-- ===== src/Image/Machine/Laws.antt =====
-- What Destroy does to the machines.
use kranq.Base.{Bool, true, false, ◌&&◌, ◌≡◌, inl, inr, sym, refl, ap, ◌∙◌, arith, Bool-cases, List}
use kranq.Base.Text.{Bytes, same, same_iff}
use kranq.Image.Name.{managed}
use kranq.Image.Meta.{Meta}
use kranq.Image.Machine.{Driver, IsLawful, Host, deleted, destroy}

module _ (D : Driver) where
  -- Every name of a machine that was gone stays gone.
  abbrev pub StaysGone : Host D → Host D → Type 0
  StaysGone h k = (n : Bytes) → D.exists h.vm n ≡ false → D.exists k.vm n ≡ false

module _ (D : Driver) (unlinks : Bytes → Bool) (L : IsLawful D) where
  pub deleted-vm :
      (ms : List Meta) (name : Bytes) (x : D.World × Bool)
      → (deleted D unlinks ms name x).0.vm ≡ x.0
  deleted-vm ms name (w, true) = refl
  deleted-vm ms name (w, false) = refl

  pub deleted-ok :
      (ms : List Meta) (name : Bytes) (x : D.World × Bool) → (deleted D unlinks ms name x).1 ≡ x.1
  deleted-ok ms name (w, true) = refl
  deleted-ok ms name (w, false) = refl

  -- The machines after the two calls of Destroy.
  abbrev pub after : Host D → Bytes → D.World × Bool
  after h name = D.delete (D.stop h.vm name true).0 name

  other_name :
      (name n : Bytes)
      → managed name ≡ true
      → (managed n && same n name) ≡ false
      → same n name ≡ false
  other_name name n m s = elim (Bool-cases (same n name)) [
    | inr e ↦ e
    | inl e ↦ absurd (other_managed (ap managed ((same_iff n name).0 e) ∙ m) e)
  ]
    where
      other_managed : managed n ≡ true → same n name ≡ true → ⊥
      other_managed g e = ground arith

  pub destroy-other :
      (h : Host D) (name n : Bytes)
      → (managed n && same n name) ≡ false
      → D.exists (destroy D unlinks h name).0.vm n ≡ D.exists h.vm n
  unfolding destroy
  destroy-other h name n s = elim (Bool-cases (managed name)) [
    | inr m ↦ rw m refl
    | inl m ↦ rw m (
        ap (λ w. D.exists w n) (deleted-vm h.metas name (after h name))
        ∙ L.delete_other (D.stop h.vm name true).0 name n (other_name name n m s)
        ∙ L.stop_exists h.vm name n true)
  ]

  pub destroy-StaysGone : (h : Host D) (name : Bytes) → StaysGone D h (destroy D unlinks h name).0
  unfolding destroy
  destroy-StaysGone h name n g = elim (Bool-cases (managed name)) [
    | inr m ↦ rw m g
    | inl m ↦ rw m (
        ap (λ w. D.exists w n) (deleted-vm h.metas name (after h name))
        ∙ L.delete_gone (D.stop h.vm name true).0 name n (L.stop_exists h.vm name n true ∙ g))
  ]

  pub destroy-ok :
      (h : Host D) (name : Bytes)
      → (destroy D unlinks h name).1 ≡ true
      → D.exists (destroy D unlinks h name).0.vm name ≡ false
  unfolding destroy
  destroy-ok h name = elim (Bool-cases (managed name)) [
    | inr m ↦ rw m (λ t. absurd (ground arith))
    | inl m ↦ rw m (λ t.
        ap (λ w. D.exists w name) (deleted-vm h.metas name (after h name))
        ∙ L.delete_ok (D.stop h.vm name true).0 name
            (sym (deleted-ok h.metas name (after h name)) ∙ t))
  ]

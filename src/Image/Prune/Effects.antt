-- ===== src/Image/Prune/Effects.antt =====
-- What Prune does to the machines.
use kranq.Base.{
  Bool, true, false, ◌||◌, List, [], ◌∷◌, Option, none, some, ◌≡◌, inl, inr, refl, sym, ap, ◌∙◌,
  arith, Bool-cases,
}
use kranq.Base.Int.{ℤ}
use kranq.Base.Text.{Bytes, same, same_iff}
use kranq.Image.Machine.{Instance, Driver, IsLawful, Host, destroy}
use kranq.Image.Machine.Laws.{StaysGone, destroy-StaysGone, destroy-ok}
use kranq.Image.Meta.{sort_names, insert_name}
use kranq.Image.Prune.{
  has, keep_limit, kept, after_destroy, prune_names, groups, prune_listed, prune,
}

has-insert_name :
    (n a : Bytes) (bs : List Bytes) → has n (insert_name a bs) ≡ (same n a || has n bs)
has-insert_name n a [] = refl
has-insert_name n a (b ∷ bs) = ground (arith, has-insert_name n a bs)

pub has-sort_names : (n : Bytes) (ns : List Bytes) → has n (sort_names ns) ≡ has n ns
unfolding sort_names
has-sort_names n [] = refl
has-sort_names n (a ∷ ns) =
    has-insert_name n a (sort_names ns) ∙ ap (λ b. same n a || b) (has-sort_names n ns)

abbrev pub reports : Bytes → Option (List Bytes) → Bool
reports n none = false
reports n (some ns) = has n ns

module _ (D : Driver) (unlinks : Bytes → Bool) where
  pub prune_at :
      (limit : ℤ) (protect : List Bytes) (h : Host D) (is : List Instance)
      → D.list h.vm ≡ some is
      → prune D unlinks limit protect h ≡ prune_listed D unlinks (keep_limit limit) protect h is
  unfolding prune prune_names sort_names
  prune_at limit protect h is l = rw (prune, l) refl

module _ (D : Driver) (unlinks : Bytes → Bool) (L : IsLawful D) where
  -- Whatever is true of the world after a Destroy and after the rest is true after both.
  after_destroy-vm :
      (P : D.World → Type 0) (a : Bytes) (next : Host D → Host D × List Bytes) (x : Host D × Bool)
      → P (next x.0).0.vm
      → P (after_destroy D unlinks a next x).0.vm
  after_destroy-vm P a next (h, true) p = p
  after_destroy-vm P a next (h, false) p = p

  module _ (keep : List Bytes) where
    prune_names-StaysGone :
        (ns : List Bytes) (h : Host D) → StaysGone D h (prune_names D unlinks keep ns h).0
    unfolding prune_names
    prune_names-StaysGone [] h n g = g
    prune_names-StaysGone (a ∷ ns) h n g = elim (Bool-cases (has a keep)) [
      | inl k ↦ rw k (prune_names-StaysGone ns h n g)
      | inr k ↦ rw k (
          after_destroy-vm (λ w. D.exists w n ≡ false) a (prune_names D unlinks keep ns)
            (destroy D unlinks h a)
            (prune_names-StaysGone ns (destroy D unlinks h a).0 n
              (destroy-StaysGone D unlinks L h a n g)))
    ]

    -- What is reported is gone.
    abbrev ReportsGone : Bytes → Host D × List Bytes → Type 0
    ReportsGone n (k, ns) = has n ns ≡ true → D.exists k.vm n ≡ false

    after_destroy-ReportsGone :
        (ns : List Bytes) (a n : Bytes) (x : Host D × Bool)
        → (x.1 ≡ true → D.exists x.0.vm a ≡ false)
        → ReportsGone n (prune_names D unlinks keep ns x.0)
        → ReportsGone n (after_destroy D unlinks a (prune_names D unlinks keep ns) x)
    after_destroy-ReportsGone ns a n (h, false) o r t = r t
    after_destroy-ReportsGone ns a n (h, true) o r t = elim (Bool-cases (same n a)) [
      | inr e ↦ r (ground arith)
      | inl e ↦ prune_names-StaysGone ns h n (ap (D.exists h.vm) ((same_iff n a).0 e) ∙ o refl)
    ]

    prune_names-ReportsGone :
        (ns : List Bytes) (h : Host D) (n : Bytes) → ReportsGone n (prune_names D unlinks keep ns h)
    unfolding prune_names
    prune_names-ReportsGone [] h n = λ t. absurd (ground arith)
    prune_names-ReportsGone (a ∷ ns) h n = elim (Bool-cases (has a keep)) [
      | inl k ↦ rw k (prune_names-ReportsGone ns h n)
      | inr k ↦ rw k (
          after_destroy-ReportsGone ns a n (destroy D unlinks h a) (destroy-ok D unlinks L h a)
            (prune_names-ReportsGone ns (destroy D unlinks h a).0 n))
    ]

  pub prune-gone :
      (limit : ℤ) (protect : List Bytes) (h : Host D) (is : List Instance) (n : Bytes)
      → D.list h.vm ≡ some is
      → reports n (prune D unlinks limit protect h).1 ≡ true
      → D.exists (prune D unlinks limit protect h).0.vm n ≡ false
  prune-gone limit protect h is n l = rw (prune_at D unlinks limit protect h is l) (λ t.
      prune_names-ReportsGone (kept (keep_limit limit) protect h.metas is) (groups is) h n (
        sym (
          has-sort_names n
            (prune_names D unlinks (kept (keep_limit limit) protect h.metas is) (groups is) h).1)
        ∙ t))

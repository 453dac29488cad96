-- ===== src/Image/Prune/Collects.antt =====
-- Which machines Prune destroys.
use kranq.Base.{
  Bool, true, false, not, ◌&&◌, ◌||◌, List, [], ◌∷◌, ◌++◌, some, ◌≡◌, inl, inr, refl, sym, ap, ◌∙◌,
  subst, arith, any-append, Bool-cases, select,
}
use kranq.Base.Int.{ℤ}
use kranq.Base.Text.{Bytes, codes, has_prefix, same, same_iff}
use kranq.Image.Name.{run_prefix, managed, is_layer, is_base, legacy}
use kranq.Image.Machine.{Instance, Driver, IsLawful, Host, deleted, destroy}
use kranq.Image.Meta.{Meta}
use kranq.Image.Prune.{
  has, keep_limit, names, kept, after_destroy, prune_names, groups, layers_of, bases_of,
  legacies_of, sort_bases, insert_base, prune,
}
use kranq.Image.Prune.Effects.{reports, prune-gone, prune_at, has-sort_names}

-- A name that Prune may destroy.
abbrev pub is_image : Bytes → Bool
is_image n = is_layer n || (is_base n || legacy n)

some_prefix : (a b c l : Bool) → (b || (a || l)) ≡ true → ((a || (b || (c || false))) || l) ≡ true
some_prefix a b c l h = ground arith

is_image-managed : (n : Bytes) → is_image n ≡ true → managed n ≡ true
unfolding managed is_layer is_base
is_image-managed n h =
    some_prefix (is_base n) (is_layer n) (has_prefix n (run_prefix ++ codes "-")) (legacy n) h

select-same :
    (p : Bytes → Bool) (n x : Bytes) (xs : List Bytes)
    → has n (select p xs) ≡ (p n && has n xs)
    → p n ≡ p x
    → same n x ≡ true
    → has n (select p (x ∷ xs)) ≡ (p n && has n (x ∷ xs))
select-same p n x xs h q e = ground arith

select-other :
    (p : Bytes → Bool) (n x : Bytes) (xs : List Bytes)
    → has n (select p xs) ≡ (p n && has n xs)
    → same n x ≡ false
    → has n (select p (x ∷ xs)) ≡ (p n && has n (x ∷ xs))
select-other p n x xs h e = ground arith

has-select :
    (p : Bytes → Bool) (n : Bytes) (xs : List Bytes) → has n (select p xs) ≡ (p n && has n xs)
has-select p n [] = ground arith
has-select p n (x ∷ xs) = elim (Bool-cases (same n x)) [
  | inl e ↦ select-same p n x xs (has-select p n xs) (ap p ((same_iff n x).0 e)) e
  | inr e ↦ select-other p n x xs (has-select p n xs) e
]

has-insert_base :
    (n a : Bytes) (bs : List Bytes) → has n (insert_base a bs) ≡ (same n a || has n bs)
has-insert_base n a [] = refl
has-insert_base n a (b ∷ bs) = ground (arith, has-insert_base n a bs)

has-sort_bases : (n : Bytes) (ns : List Bytes) → has n (sort_bases ns) ≡ has n ns
unfolding sort_bases
has-sort_bases n [] = refl
has-sort_bases n (a ∷ ns) =
    has-insert_base n a (sort_bases ns) ∙ ap (λ b. same n a || b) (has-sort_bases n ns)

-- The groups hold every image that is listed.
in_groups :
    (y b g : Bool)
    → (y || (b || g)) ≡ true
    → ((y && true) || (((not y && b) && true) || ((not y && (not b && g)) && true))) ≡ true
in_groups y b g h = ground arith

has-groups :
    (n : Bytes) (is : List Instance)
    → has n (names is) ≡ true
    → is_image n ≡ true
    → has n (groups is) ≡ true
has-groups n is h i =
    any-append (same n) (layers_of is) (sort_bases (bases_of is) ++ legacies_of is)
    ∙ ap (λ b. has n (layers_of is) || b)
        (any-append (same n) (sort_bases (bases_of is)) (legacies_of is))
    ∙ rw
        (
          has-sort_bases n (bases_of is),
          has-select is_layer n (names is),
          has-select (λ m. not (is_layer m) && is_base m) n (names is),
          has-select (λ m. not (is_layer m) && (not (is_base m) && legacy m)) n (names is),
          h,
        )
        (in_groups (is_layer n) (is_base n) (legacy n) i)

module _ (D : Driver) (unlinks : Bytes → Bool) where
  -- The driver deletes a machine whenever it is asked to.
  abbrev pub Deletes : Bytes → Type 0
  Deletes n = (w : D.World) → (D.delete w n).1 ≡ true

  deleted-true :
      (ms : List Meta) (name : Bytes) (x : D.World × Bool)
      → x.1 ≡ true
      → (deleted D unlinks ms name x).1 ≡ true
  deleted-true ms name (w, b) h = rw h refl

  destroy-true :
      (h : Host D) (n : Bytes) → managed n ≡ true → Deletes n → (destroy D unlinks h n).1 ≡ true
  unfolding destroy
  destroy-true h n m d =
      rw m (deleted-true h.metas n (D.delete (D.stop h.vm n true).0 n) (d (D.stop h.vm n true).0))

  reported_rest :
      (a n : Bytes) (next : Host D → Host D × List Bytes) (x : Host D × Bool)
      → has n (next x.0).1 ≡ true
      → has n (after_destroy D unlinks a next x).1 ≡ true
  reported_rest a n next (h, true) t = ground arith
  reported_rest a n next (h, false) t = t

  reported_now :
      (a n : Bytes) (next : Host D → Host D × List Bytes) (x : Host D × Bool)
      → same n a ≡ true
      → x.1 ≡ true
      → has n (after_destroy D unlinks a next x).1 ≡ true
  reported_now a n next (h, true) e t = ground arith
  reported_now a n next (h, false) e t = absurd (ground arith)

  prune_names-reports :
      (keep ns : List Bytes) (h : Host D) (n : Bytes)
      → has n ns ≡ true
      → has n keep ≡ false
      → managed n ≡ true
      → Deletes n
      → has n (prune_names D unlinks keep ns h).1 ≡ true
  unfolding prune_names
  prune_names-reports keep [] h n i k m d = absurd (ground arith)
  prune_names-reports keep (a ∷ ns) h n i k m d = elim (Bool-cases (same n a)) [
    | inl e ↦ rw (ap (λ x. has x keep) (sym ((same_iff n a).0 e)) ∙ k) (
        reported_now a n (prune_names D unlinks keep ns) (destroy D unlinks h a) e (
          subst (λ x. (destroy D unlinks h x).1 ≡ true) ((same_iff n a).0 e)
            (destroy-true h n m d)))
    | inr e ↦ elim (Bool-cases (has a keep)) [
      | inl t ↦ rw t (prune_names-reports keep ns h n (ground arith) k m d)
      | inr t ↦ rw t (
          reported_rest a n (prune_names D unlinks keep ns) (destroy D unlinks h a)
            (prune_names-reports keep ns (destroy D unlinks h a).0 n (ground arith) k m d))
    ]
  ]

  prune-reports :
      (limit : ℤ) (protect : List Bytes) (h : Host D) (is : List Instance) (n : Bytes)
      → D.list h.vm ≡ some is
      → has n (names is) ≡ true
      → is_image n ≡ true
      → has n (kept (keep_limit limit) protect h.metas is) ≡ false
      → Deletes n
      → reports n (prune D unlinks limit protect h).1 ≡ true
  prune-reports limit protect h is n l i m k d = rw (prune_at D unlinks limit protect h is l) (
      has-sort_names n
        (prune_names D unlinks (kept (keep_limit limit) protect h.metas is) (groups is) h).1
      ∙ prune_names-reports (kept (keep_limit limit) protect h.metas is) (groups is) h n
          (has-groups n is i m) k (is_image-managed n m) d)

  -- A prune destroys and reports every layer, base and image with an old name that is listed and that
  -- it does not keep, if the driver deletes it when asked to; the machine is not there any more.
  pub prune-collects :
      (limit : ℤ) (protect : List Bytes) (h : Host D) (is : List Instance) (n : Bytes)
      → IsLawful D
      → D.list h.vm ≡ some is
      → has n (names is) ≡ true
      → is_image n ≡ true
      → has n (kept (keep_limit limit) protect h.metas is) ≡ false
      → Deletes n
      → (reports n (prune D unlinks limit protect h).1 ≡ true)
        × (D.exists (prune D unlinks limit protect h).0.vm n ≡ false)
  prune-collects limit protect h is n L l i m k d =
      (reported, prune-gone D unlinks L limit protect h is n l reported)
    where
      reported : reports n (prune D unlinks limit protect h).1 ≡ true
      reported = prune-reports limit protect h is n l i m k d

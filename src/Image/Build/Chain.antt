-- ===== src/Image/Build/Chain.antt =====
-- The images of a chain, made sure of one after the other.
use kranq.Base.{
  ℕ, ◌+◌, Bool, true, false, List, [], ◌∷◌, Option, ◌≡◌, refl, sym, ap, ◌∙◌, arith, inl, inr,
  Bool-cases, subst, All, length,
}
use kranq.Base.Text.{Bytes}
use kranq.Project.Bind.{Resolved}
use kranq.Image.Meta.{Meta, load, touch}
use kranq.Image.Machine.{Driver, IsLawful, Host}
use kranq.Image.Build.{
  Made, cached, built, failed, is_made, is_there, is_complete, unless_failed, ensure_layers, ensure,
  touch_chain, touched_host, ensure_base, ensure_layer,
}
use kranq.Image.Build.Records.{load-touch}
use kranq.Image.Prune.{has}
use kranq.Image.Build.Fresh.{CanDestroy}
use kranq.Image.Build.Decides.{ensure_layer-decides, ensure_base-decides}
use kranq.Image.Build.Others.{WaitKeeps, ensure_layer-KeepsOther}

abbrev pub AllComplete : (D : Driver) → Host D → List Bytes → Type 0
AllComplete D h = All (λ n. is_complete D h n ≡ true)

-- No name stands twice in a list.
abbrev pub IsDistinct : List Bytes → Type 0
IsDistinct [] = Unit
IsDistinct (n ∷ ns) = (has n ns ≡ false) × IsDistinct ns

module _ (D : Driver) (unlinks : Bytes → Bool) (L : IsLawful D)
    (wait : Bytes → Host D → Option (Host D)) (staged : Resolved → Bool)
    (wrote : Bytes → Bool) where
  unless_failed-elim :
      (P : Host D × Bool → Type 0) (next : Host D → Host D × Bool) (x : Host D × Made)
      → (is_made x.1 ≡ true → P (next x.0))
      → P (x.0, false)
      → P (unless_failed D unlinks wait staged wrote next x)
  unless_failed-elim P next (h, m) t e = elim (Bool-cases (is_made m)) [
    | inl k ↦ rw k (t k)
    | inr k ↦ rw k e
  ]

  -- An image that is complete stays so while images of other names are made sure of.
  ensure_layers-keeps :
      (repo : Bytes) (now depth : ℕ) (parent : Bytes) (names : List Bytes) (ls : List Resolved)
      (h : Host D) (m : Bytes)
      → WaitKeeps D wait
      → has m names ≡ false
      → is_complete D h m ≡ true
      → is_complete D
          (ensure_layers D unlinks wait staged wrote repo now depth parent names ls h).0
          m
        ≡ true
  unfolding ensure_layers
  ensure_layers-keeps repo now depth parent [] ls h m w n c = c
  ensure_layers-keeps repo now depth parent (name ∷ names) [] h m w n c = c
  ensure_layers-keeps repo now depth parent (name ∷ names) (l ∷ ls) h m w n c =
      unless_failed-elim (λ x. is_complete D x.0 m ≡ true)
        (ensure_layers D unlinks wait staged wrote repo now (depth + 1) name names ls) k
        (λ t. ensure_layers-keeps repo now (depth + 1) name names ls k.0 m w (ground arith) after)
        after
    where
      k : Host D × Made
      k = ensure_layer D unlinks wait staged wrote h repo parent name (depth + 1) l now

      after : is_complete D k.0 m ≡ true
      after =
          ensure_layer-KeepsOther D unlinks L name wait staged wrote h repo parent (depth + 1) l now
            w m (ground arith) c

  -- What it takes for the names of a chain.
  abbrev pub AllDestroyable : List Bytes → Type 0
  AllDestroyable = All (CanDestroy D unlinks)

  unless_failed-ok :
      (next : Host D → Host D × Bool) (x : Host D × Made)
      → (unless_failed D unlinks wait staged wrote next x).1 ≡ true
      → (is_made x.1 ≡ true) × (unless_failed D unlinks wait staged wrote next x ≡ next x.0)
  unless_failed-ok next (h, failed) e = absurd (ground arith)
  unless_failed-ok next (h, cached) e = (refl, refl)
  unless_failed-ok next (h, built) e = (refl, refl)

  ensure_layers-AllComplete :
      (repo : Bytes) (now depth : ℕ) (parent : Bytes) (names : List Bytes) (ls : List Resolved)
      (h : Host D)
      → WaitKeeps D wait
      → length names ≡ length ls
      → IsDistinct names
      → AllDestroyable names
      → (ensure_layers D unlinks wait staged wrote repo now depth parent names ls h).1 ≡ true
      → AllComplete D
          (ensure_layers D unlinks wait staged wrote repo now depth parent names ls h).0
          names
  unfolding ensure_layers
  ensure_layers-AllComplete repo now depth parent [] ls h w e d c ok = tt
  ensure_layers-AllComplete repo now depth parent (name ∷ names) [] h w e d c ok =
      absurd (ground arith)
  ensure_layers-AllComplete repo now depth parent (name ∷ names) (l ∷ ls) h w e d c ok =
      subst (λ x. AllComplete D x.0 (name ∷ names)) (sym step.1)
        (
          ensure_layers-keeps repo now (depth + 1) name names ls k.0 name w d.0 (
              ensure_layer-decides D unlinks wait staged wrote L h repo parent name (depth + 1) l
                now c.0
              ∙ step.0),
          ensure_layers-AllComplete repo now (depth + 1) name names ls k.0 w (ground arith) d.1 c.1
              (sym (ap (λ x. x.1) step.1) ∙ ok),
        )
    where
      k : Host D × Made
      k = ensure_layer D unlinks wait staged wrote h repo parent name (depth + 1) l now

      step :
          (is_made k.1 ≡ true)
          × (unless_failed D unlinks wait staged wrote
                (ensure_layers D unlinks wait staged wrote repo now (depth + 1) name names ls)
                k
              ≡ ensure_layers D unlinks wait staged wrote repo now (depth + 1) name names ls k.0)
      step =
          unless_failed-ok
            (ensure_layers D unlinks wait staged wrote repo now (depth + 1) name names ls) k ok

  touch_chain-keeps :
      (repo : Bytes) (now : ℕ) (names : List Bytes) (ms : List Meta) (m : Bytes)
      → is_there (load ms m) ≡ true
      → is_there (load (touch_chain D unlinks wait staged wrote repo now names ms) m) ≡ true
  unfolding touch_chain
  touch_chain-keeps repo now [] ms m h = h
  touch_chain-keeps repo now (name ∷ names) ms m h =
      touch_chain-keeps repo now names (touch (wrote name) ms name repo now) m
        (load-touch (wrote name) ms name repo m now h)

  touched_complete :
      (repo : Bytes) (now : ℕ) (names : List Bytes) (h : Host D) (m : Bytes)
      → is_complete D h m ≡ true
      → is_complete D
          (record h { metas = touch_chain D unlinks wait staged wrote repo now names h.metas })
          m
        ≡ true
  unfolding is_complete
  touched_complete repo now names h m t = ground (arith, touch_chain-keeps repo now names h.metas m)

  touched-AllComplete :
      (repo : Bytes) (now : ℕ) (names done : List Bytes) (x : Host D × Bool)
      → AllComplete D x.0 done
      → AllComplete D (touched_host D unlinks wait staged wrote repo now names x).0 done
  touched-AllComplete repo now names done (h, false) c = c
  touched-AllComplete repo now names [] (h, true) c = tt
  touched-AllComplete repo now names (n ∷ done) (h, true) c = (
    touched_complete repo now names h n c.0,
    touched-AllComplete repo now names done (h, true) c.1,
  )

  touched-ok :
      (repo : Bytes) (now : ℕ) (names : List Bytes) (x : Host D × Bool)
      → (touched_host D unlinks wait staged wrote repo now names x).1 ≡ true
      → x.1 ≡ true
  touched-ok repo now names (h, true) t = t
  touched-ok repo now names (h, false) t = t

  -- When Ensure succeeds, every image of the chain is complete: the base and all layers, those that
  -- were found complete and those that were built. The names are different and kranq's, one for each
  -- layer; the driver deletes their machines when asked to and their records can be removed; and
  -- nothing that is complete is lost while one waits for a lock.
  pub ensure-AllComplete :
      (has_dir : Bool) (repo : Bytes) (now : ℕ) (base : Bytes) (names : List Bytes)
      (ls : List Resolved) (h : Host D)
      → WaitKeeps D wait
      → length names ≡ length ls
      → IsDistinct (base ∷ names)
      → AllDestroyable (base ∷ names)
      → (ensure D unlinks wait staged wrote has_dir repo now base names ls h).1 ≡ true
      → AllComplete D
          (ensure D unlinks wait staged wrote has_dir repo now base names ls h).0
          (base ∷ names)
  unfolding ensure
  ensure-AllComplete false repo now base names ls h w e d c ok = absurd (ground arith)
  ensure-AllComplete true repo now base names ls h w e d c ok =
      touched-AllComplete repo now names (base ∷ names)
        (unless_failed D unlinks wait staged wrote rest k)
        (subst (λ x. AllComplete D x.0 (base ∷ names)) (sym step.1)
          (
            ensure_layers-keeps repo now 0 base names ls k.0 base w d.0
                (ensure_base-decides D unlinks wait staged wrote L h base now c.0 ∙ step.0),
            ensure_layers-AllComplete repo now 0 base names ls k.0 w e d.1 c.1
                (sym (ap (λ x. x.1) step.1) ∙ ran),
          ))
    where
      rest : Host D → Host D × Bool
      rest = ensure_layers D unlinks wait staged wrote repo now 0 base names ls

      k : Host D × Made
      k = ensure_base D unlinks wait staged wrote h base now

      ran : (unless_failed D unlinks wait staged wrote rest k).1 ≡ true
      ran = touched-ok repo now names (unless_failed D unlinks wait staged wrote rest k) ok

      step : (is_made k.1 ≡ true) × (unless_failed D unlinks wait staged wrote rest k ≡ rest k.0)
      step = unless_failed-ok rest k ran

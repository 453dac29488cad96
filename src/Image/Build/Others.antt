-- ===== src/Image/Build/Others.antt =====
-- What making sure of an image does to the other images.
use kranq.Base.{
  ℕ, Bool, true, false, ◌&&◌, List, Option, none, some, ◌≡◌, refl, sym, ap, ap₂, ◌∙◌, arith, inl,
  inr, Bool-cases, subst,
}
use kranq.Base.Text.{Bytes, same}
use kranq.Project.Bind.{Resolved}
use kranq.Image.Name.{managed}
use kranq.Image.Meta.{Meta, load, save}
use kranq.Image.Machine.{Driver, IsLawful, Host, deleted, destroy}
use kranq.Image.Build.{
  is_there, is_complete, then_call, apply_layer, on_vm, or_destroy, build_layer, recorded,
  record_image, made_by, locked, once, layer_meta, ensure_layer,
}
use kranq.Image.Build.Records.{load-remove-other, load-save-other}
use kranq.Image.Machine.Laws.{destroy-other}
use kranq.Image.Build.Fresh.{then_call-elim, apply_layer-Stays}

module _ (D : Driver) (wait : Bytes → Host D → Option (Host D)) where
  -- No image that is complete is lost while one waits for a lock.
  abbrev pub WaitKeeps : Type 0
  WaitKeeps =
      (n m : Bytes) (h k : Host D)
      → wait n h ≡ some k
      → is_complete D h m ≡ true
      → is_complete D k m ≡ true

module _ (D : Driver) (unlinks : Bytes → Bool) (L : IsLawful D) (name : Bytes) where
  -- Nothing changes for any other image.
  abbrev pub Spares : Host D → Host D × Bool → Type 0
  Spares h x =
      (m : Bytes)
      → same m name ≡ false
      → (D.exists x.0.vm m ≡ D.exists h.vm m)
        × (is_there (load x.0.metas m) ≡ is_there (load h.metas m))

  then_call-Spares :
      (h : Host D) (x : Host D × Bool) (f : Host D → Host D × Bool)
      → Spares h x
      → ((k : Host D) → Spares k (f k))
      → Spares h (then_call D x f)
  then_call-Spares h x f s g =
      then_call-elim D (Spares h) x f
        (λ t m n. ((g x.0 m n).0 ∙ (s m n).0, (g x.0 m n).1 ∙ (s m n).1)) (λ e. s)

  deleted-metas :
      (ms : List Meta) (x : D.World × Bool) (m : Bytes)
      → same m name ≡ false
      → is_there (load (deleted D unlinks ms name x).0.metas m) ≡ is_there (load ms m)
  deleted-metas ms (w, true) m n = load-remove-other (unlinks name) ms name m n
  deleted-metas ms (w, false) m n = refl

  destroy-metas :
      (h : Host D) (m : Bytes)
      → same m name ≡ false
      → is_there (load (destroy D unlinks h name).0.metas m) ≡ is_there (load h.metas m)
  unfolding destroy
  destroy-metas h m n = elim (Bool-cases (managed name)) [
    | inr g ↦ rw g refl
    | inl g ↦ rw g (deleted-metas h.metas (D.delete (D.stop h.vm name true).0 name) m n)
  ]

  destroy-Spares : (h : Host D) → Spares h ((destroy D unlinks h name).0, false)
  destroy-Spares h m n = (destroy-other D unlinks L h name m (ground arith), destroy-metas h m n)

  or_destroy-Spares :
      (h : Host D) (x : Host D × Bool) → Spares h x → Spares h (or_destroy D unlinks name x)
  unfolding or_destroy
  or_destroy-Spares h (k, true) s m n = s m n
  or_destroy-Spares h (k, false) s m n =
      ((destroy-Spares k m n).0 ∙ (s m n).0, (destroy-Spares k m n).1 ∙ (s m n).1)

  on_vm-Spares :
      (h : Host D) (y : D.World × Bool)
      → ((m : Bytes) → same m name ≡ false → D.exists y.0 m ≡ D.exists h.vm m)
      → Spares h (on_vm D h y)
  on_vm-Spares h y e m n = (e m n, refl)

  after_destroy :
      (h : Host D) (x : Host D × Bool) → Spares (destroy D unlinks h name).0 x → Spares h x
  after_destroy h x s m n =
      ((s m n).0 ∙ (destroy-Spares h m n).0, (s m n).1 ∙ (destroy-Spares h m n).1)

  start-Spares : (h : Host D) → Spares h (or_destroy D unlinks name (on_vm D h (D.start h.vm name)))
  start-Spares h =
      or_destroy-Spares h (on_vm D h (D.start h.vm name))
        (on_vm-Spares h (D.start h.vm name) (λ m n. L.start_exists h.vm name m))

  stop-Spares : (h : Host D) → Spares h (on_vm D h (D.stop h.vm name false))
  stop-Spares h = on_vm-Spares h (D.stop h.vm name false) (λ m n. L.stop_exists h.vm name m false)

  build_layer-Spares :
      (staged : Resolved → Bool) (parent : Bytes) (l : Resolved) (h : Host D)
      → Spares h (build_layer D unlinks staged parent name l h)
  unfolding build_layer
  build_layer-Spares staged parent l h =
      after_destroy h (build_layer D unlinks staged parent name l h) (
        then_call-Spares h1 (on_vm D h1 (D.clone h1.vm parent name)) _
          (on_vm-Spares h1 (D.clone h1.vm parent name) (L.clone_other h1.vm parent name))
          (λ h2.
            then_call-Spares h2 (or_destroy D unlinks name (on_vm D h2 (D.start h2.vm name))) _
              (start-Spares h2)
              (λ h3.
                then_call-Spares h3
                  (or_destroy D unlinks name (on_vm D h3 (apply_layer D staged name l h3.vm))) _
                  (or_destroy-Spares h3 (on_vm D h3 (apply_layer D staged name l h3.vm)) (
                    on_vm-Spares h3 (apply_layer D staged name l h3.vm)
                      (λ m n. apply_layer-Stays D L staged name l h3.vm m)))
                  stop-Spares)))
    where
      h1 : Host D
      h1 = (destroy D unlinks h name).0

  module _ (wait : Bytes → Host D → Option (Host D)) (staged : Resolved → Bool)
      (wrote : Bytes → Bool) where
    recorded-Spares :
        (b : Bool) (m : Meta) (h : Host D)
        → m.name ≡ name
        → Spares h (recorded D unlinks h (save b h.metas m))
    recorded-Spares b m h e x n = (refl, load-save-other b m h.metas x (ap (same x) e ∙ n))

    -- Another image that is complete stays so.
    abbrev pub KeepsOther : Host D → Host D → Type 0
    KeepsOther h k =
        (m : Bytes) → same m name ≡ false → is_complete D h m ≡ true → is_complete D k m ≡ true

    Spares-KeepsOther : (h : Host D) (x : Host D × Bool) → Spares h x → KeepsOther h x.0
    unfolding is_complete
    Spares-KeepsOther h x s m n c = ap₂ (λ a b. a && b) (s m n).0 (s m n).1 ∙ c

    made_by-host : (x : Host D × Bool) → (made_by D unlinks wait staged wrote x).0 ≡ x.0
    made_by-host (h, true) = refl
    made_by-host (h, false) = refl

    locked-KeepsOther :
        (h : Host D) (build : Host D → Host D × Bool) (o : Option (Host D))
        → ((m : Bytes) (k : Host D)
            → o ≡ some k
            → is_complete D h m ≡ true
            → is_complete D k m ≡ true)
        → ((k : Host D) → KeepsOther k (build k).0)
        → KeepsOther h (locked D unlinks wait staged wrote name h build o).0
    locked-KeepsOther h build none w b m n c = c
    locked-KeepsOther h build (some k) w b m n c = elim (Bool-cases (is_complete D k name)) [
      | inl t ↦ rw t (w m k refl c)
      | inr t ↦ rw t (
          subst (λ z. is_complete D z m ≡ true) (sym (made_by-host (build k)))
            (b k m n (w m k refl c)))
    ]

    once-KeepsOther :
        (h : Host D) (build : Host D → Host D × Bool)
        → WaitKeeps D wait
        → ((k : Host D) → KeepsOther k (build k).0)
        → KeepsOther h (once D unlinks wait staged wrote h name build).0
    unfolding once
    once-KeepsOther h build w b m n c = elim (Bool-cases (is_complete D h name)) [
      | inl t ↦ rw t c
      | inr t ↦ rw t (locked-KeepsOther h build (wait name h) (λ x k e. w name x h k e) b m n c)
    ]

    pub ensure_layer-KeepsOther :
        (h : Host D) (repo parent : Bytes) (depth : ℕ) (l : Resolved) (now : ℕ)
        → WaitKeeps D wait
        → KeepsOther h (ensure_layer D unlinks wait staged wrote h repo parent name depth l now).0
    unfolding ensure_layer record_image
    ensure_layer-KeepsOther h repo parent depth l now w = once-KeepsOther h _ w (λ k.
        Spares-KeepsOther k
          (then_call D (build_layer D unlinks staged parent name l k) (
            record_image D unlinks wait staged wrote
              (layer_meta D unlinks wait staged wrote repo parent name depth l now)))
          (then_call-Spares k (build_layer D unlinks staged parent name l k)
            (record_image D unlinks wait staged wrote
              (layer_meta D unlinks wait staged wrote repo parent name depth l now))
            (build_layer-Spares staged parent l k)
            (λ j.
              recorded-Spares (wrote name)
                (layer_meta D unlinks wait staged wrote repo parent name depth l now) j refl)))

-- ===== src/Image/Build/Decides.antt =====
-- Whether an image that was made sure of counts as complete.
use kranq.Base.{ℕ, Bool, true, false, Option, none, some, ◌≡◌, refl, arith, inl, inr, Bool-cases}
use kranq.Base.Text.{Bytes}
use kranq.Project.Bind.{Resolved}
use kranq.Image.Meta.{Meta, load, save}
use kranq.Image.Machine.{Driver, IsLawful, Host}
use kranq.Image.Build.{
  is_made, is_there, is_complete, then_call, build_base, build_layer, recorded, record_image,
  made_by, locked, once, base_meta, layer_meta, ensure_base, ensure_layer,
}
use kranq.Image.Build.Records.{load-put_self}
use kranq.Image.Build.Fresh.{Fresh, CanDestroy, build_layer-Fresh, build_base-Fresh}

module _ (D : Driver) (unlinks : Bytes → Bool) (wait : Bytes → Host D → Option (Host D))
    (staged : Resolved → Bool) (wrote : Bytes → Bool) where
  -- The image is complete exactly if the build says so.
  abbrev Decided : Bytes → Host D × Bool → Type 0
  Decided name x = is_complete D x.0 name ≡ x.1

  incomplete :
      (h : Host D) (name : Bytes)
      → is_there (load h.metas name) ≡ false
      → is_complete D h name ≡ false
  unfolding is_complete
  incomplete h name n = ground arith

  saved-Decided :
      (b : Bool) (m : Meta) (h : Host D)
      → is_there (load h.metas m.name) ≡ false
      → D.exists h.vm m.name ≡ true
      → Decided m.name (recorded D unlinks h (save b h.metas m))
  unfolding save is_complete
  saved-Decided true m h n e = rw (e, load-put_self m h.metas) refl
  saved-Decided false m h n e = rw (e, n) refl

  recorded-Decided :
      (m : Meta) (x : Host D × Bool)
      → Fresh D unlinks m.name x
      → Decided m.name (then_call D x (record_image D unlinks wait staged wrote m))
  unfolding then_call record_image
  recorded-Decided m (h, true) r = saved-Decided (wrote m.name) m h r.0 (r.1 refl)
  recorded-Decided m (h, false) r = incomplete h m.name r.0

  made_by-decides :
      (name : Bytes) (x : Host D × Bool)
      → Decided name x
      → is_complete D (made_by D unlinks wait staged wrote x).0 name
        ≡ is_made (made_by D unlinks wait staged wrote x).1
  made_by-decides name (h, true) d = d
  made_by-decides name (h, false) d = d

  locked-decides :
      (name : Bytes) (h : Host D) (build : Host D → Host D × Bool) (o : Option (Host D))
      → is_complete D h name ≡ false
      → ((k : Host D) → Decided name (build k))
      → is_complete D (locked D unlinks wait staged wrote name h build o).0 name
        ≡ is_made (locked D unlinks wait staged wrote name h build o).1
  locked-decides name h build none n d = n
  locked-decides name h build (some k) n d = elim (Bool-cases (is_complete D k name)) [
    | inl t ↦ rw t t
    | inr t ↦ rw t (made_by-decides name (build k) (d k))
  ]

  once-decides :
      (name : Bytes) (h : Host D) (build : Host D → Host D × Bool)
      → ((k : Host D) → Decided name (build k))
      → is_complete D (once D unlinks wait staged wrote h name build).0 name
        ≡ is_made (once D unlinks wait staged wrote h name build).1
  unfolding once
  once-decides name h build d = elim (Bool-cases (is_complete D h name)) [
    | inl t ↦ rw t t
    | inr t ↦ rw t (locked-decides name h build (wait name h) t d)
  ]

  module _ (L : IsLawful D) where
    pub ensure_base-decides :
        (h : Host D) (name : Bytes) (now : ℕ)
        → CanDestroy D unlinks name
        → is_complete D (ensure_base D unlinks wait staged wrote h name now).0 name
          ≡ is_made (ensure_base D unlinks wait staged wrote h name now).1
    unfolding ensure_base
    ensure_base-decides h name now c = once-decides name h _ (λ k.
        recorded-Decided (base_meta D unlinks wait staged wrote name now)
          (build_base D unlinks name k) (build_base-Fresh D L unlinks name k c))

    -- A layer that was made sure of counts as complete, there and with a record, exactly if the call
    -- succeeds: it is found complete, before the lock or under it, or it is built and recorded; and
    -- after a failure, at whatever step, a half-built layer does not count, whether its machine is
    -- left over or not. The layer has a name of kranq's, the driver deletes its machine when asked
    -- to, and the file of its record can be removed.
    pub ensure_layer-decides :
        (h : Host D) (repo parent name : Bytes) (depth : ℕ) (l : Resolved) (now : ℕ)
        → CanDestroy D unlinks name
        → is_complete D
            (ensure_layer D unlinks wait staged wrote h repo parent name depth l now).0
            name
          ≡ is_made (ensure_layer D unlinks wait staged wrote h repo parent name depth l now).1
    unfolding ensure_layer
    ensure_layer-decides h repo parent name depth l now c = once-decides name h _ (λ k.
        recorded-Decided (layer_meta D unlinks wait staged wrote repo parent name depth l now)
          (build_layer D unlinks staged parent name l k)
          (build_layer-Fresh D L unlinks name staged parent l k c))

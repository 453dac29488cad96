-- ===== src/Image/Build/Fresh.antt =====
-- Whether an image counts as complete after it was made sure of.
use kranq.Base.{
  Bool, true, false, List, [], ◌∷◌, Option, none, some, ◌≡◌, refl, ◌∙◌, arith, inl, inr, Bool-cases,
}
use kranq.Base.Int.{ℤ}
use kranq.Base.Text.{Bytes, empty}
use kranq.Base.Strings.{trim_space}
use kranq.Project.Bind.{Resolved, dir}
use kranq.Image.Name.{managed}
use kranq.Image.Meta.{Meta, load}
use kranq.Image.Machine.{Driver, IsLawful, Host, deleted, destroy}
use kranq.Image.Script.{mkdir_script, reset_script, install_script, run_script}
use kranq.Image.Build.{
  no_files, is_there, then_call, exited, run_shell, upload, run_layer, apply_layer, on_vm,
  or_destroy, build_base, build_layer,
}
use kranq.Image.Build.Records.{load-remove_self, load-remove-keeps}

module _ (D : Driver) where
  pub then_call-elim {ℓ} :
      {A : Type ℓ} (P : A × Bool → Type 0) (x : A × Bool) (f : A → A × Bool)
      → (x.1 ≡ true → P (f x.0))
      → (x.1 ≡ false → P (x.0, false))
      → P (then_call D x f)
  unfolding then_call
  then_call-elim P (w, true) f t e = t refl
  then_call-elim P (w, false) f t e = e refl

  module _ (unlinks : Bytes → Bool) (name : Bytes) where
    -- The image has no record, and its machine is there.
    abbrev pub Ready : Host D → Type 0
    Ready h = (is_there (load h.metas name) ≡ false) × (D.exists h.vm name ≡ true)

    abbrev pub Fresh : Host D × Bool → Type 0
    Fresh x = (is_there (load x.0.metas name) ≡ false) × (x.1 ≡ true → D.exists x.0.vm name ≡ true)

    -- Files can be removed, and the driver deletes the machine when it is asked to.
    pub record CanDestroy : Type 0 where
      pub is_managed : managed name ≡ true
      pub unlinked : unlinks name ≡ true
      pub deletes : (w : D.World) → (D.delete w name).1 ≡ true

  module _ (L : IsLawful D) where
    -- A call that changes no machine.
    abbrev pub Stays : D.World → D.World × Bool → Type 0
    Stays w x = (m : Bytes) → D.exists x.0 m ≡ D.exists w m

    then_call-Stays :
        (w : D.World) (x : D.World × Bool) (f : D.World → D.World × Bool)
        → Stays w x
        → ((v : D.World) → Stays v (f v))
        → Stays w (then_call D x f)
    then_call-Stays w x f s g = then_call-elim (Stays w) x f (λ t m. g x.0 m ∙ s m) (λ e. s)

    exited-Stays :
        (w : D.World) (x : D.World × Option ℤ)
        → ((m : Bytes) → D.exists x.0 m ≡ D.exists w m)
        → Stays w (exited D x)
    exited-Stays w (v, none) s = s
    exited-Stays w (v, some code) s = s

    run_shell-Stays : (name script : Bytes) (w : D.World) → Stays w (run_shell D name script w)
    unfolding run_shell
    run_shell-Stays name script w =
        exited-Stays w (D.shell w name script) (L.shell_exists w name script)

    upload-Stays :
        (staged : Resolved → Bool) (name : Bytes) (l : Resolved) (w : D.World)
        → Stays w (upload D staged name l w)
    unfolding upload
    upload-Stays staged name l w = elim (Bool-cases (no_files l.files)) [
      | inl f ↦ rw f (λ m. refl)
      | inr f ↦ elim (Bool-cases (staged l)) [
        | inr s ↦ rw (f, s) (λ m. refl)
        | inl s ↦
            rw (f, s)
              (then_call-Stays w (run_shell D name reset_script w) _
                (run_shell-Stays name reset_script w)
                (λ v.
                  then_call-Stays v (D.copy_in v name) (run_shell D name (install_script l.roots))
                    (L.copy_in_exists v name) (run_shell-Stays name (install_script l.roots))))
      ]
    ]

    run_layer-Stays : (name : Bytes) (l : Resolved) (w : D.World) → Stays w (run_layer D name l w)
    run_layer-Stays name l w = elim (Bool-cases (empty (trim_space l.layer.run))) [
      | inl e ↦ rw e (λ m. refl)
      | inr e ↦ rw e (run_shell-Stays name (run_script l) w)
    ]

    pub apply_layer-Stays :
        (staged : Resolved → Bool) (name : Bytes) (l : Resolved) (w : D.World)
        → Stays w (apply_layer D staged name l w)
    unfolding apply_layer
    apply_layer-Stays staged name l w =
        then_call-Stays w (run_shell D name (mkdir_script (dir l.layer ∷ [])) w) _
          (run_shell-Stays name (mkdir_script (dir l.layer ∷ [])) w)
          (λ v.
            then_call-Stays v (upload D staged name l v) (run_layer D name l)
              (upload-Stays staged name l v) (run_layer-Stays name l))

    module _ (unlinks : Bytes → Bool) (name : Bytes) where
      then_call-Fresh :
          (x : Host D × Bool) (f : Host D → Host D × Bool)
          → Fresh unlinks name x
          → ((h : Host D) → Ready unlinks name h → Fresh unlinks name (f h))
          → Fresh unlinks name (then_call D x f)
      then_call-Fresh x f r g =
          then_call-elim (Fresh unlinks name) x f (λ t. g x.0 (r.0, r.1 t))
            (λ e. (r.0, λ t. absurd (ground arith)))

      on_vm-Fresh :
          (h : Host D) (y : D.World × Bool)
          → Ready unlinks name h
          → D.exists y.0 name ≡ D.exists h.vm name
          → Fresh unlinks name (on_vm D h y)
      on_vm-Fresh h y r e = (r.0, λ t. e ∙ r.1)

      deleted-forgotten :
          (ms : List Meta) (n : Bytes) (x : D.World × Bool)
          → is_there (load ms name) ≡ false
          → is_there (load (deleted D unlinks ms n x).0.metas name) ≡ false
      deleted-forgotten ms n (w, true) r = load-remove-keeps (unlinks n) ms n name r
      deleted-forgotten ms n (w, false) r = r

      destroy-forgotten :
          (h : Host D) (n : Bytes)
          → is_there (load h.metas name) ≡ false
          → is_there (load (destroy D unlinks h n).0.metas name) ≡ false
      unfolding destroy
      destroy-forgotten h n r = elim (Bool-cases (managed n)) [
        | inr m ↦ rw m r
        | inl m ↦ rw m (deleted-forgotten h.metas n (D.delete (D.stop h.vm n true).0 n) r)
      ]

      or_destroy-Fresh :
          (x : Host D × Bool)
          → Fresh unlinks name x
          → Fresh unlinks name (or_destroy D unlinks name x)
      unfolding or_destroy
      or_destroy-Fresh (h, true) r = r
      or_destroy-Fresh (h, false) r = (destroy-forgotten h name r.0, λ t. absurd (ground arith))

      deleted-forgets :
          (ms : List Meta) (x : D.World × Bool)
          → unlinks name ≡ true
          → x.1 ≡ true
          → is_there (load (deleted D unlinks ms name x).0.metas name) ≡ false
      deleted-forgets ms (w, true) u t = rw u (load-remove_self ms name)
      deleted-forgets ms (w, false) u t = absurd (ground arith)

      destroy-forgets :
          CanDestroy unlinks name
          → (h : Host D) → is_there (load (destroy D unlinks h name).0.metas name) ≡ false
      unfolding destroy
      destroy-forgets c h = rw c.is_managed (
          deleted-forgets h.metas (D.delete (D.stop h.vm name true).0 name) c.unlinked
            (c.deletes (D.stop h.vm name true).0))

      start-Fresh :
          (h : Host D)
          → Ready unlinks name h
          → Fresh unlinks name (or_destroy D unlinks name (on_vm D h (D.start h.vm name)))
      start-Fresh h r =
          or_destroy-Fresh (on_vm D h (D.start h.vm name))
            (on_vm-Fresh h (D.start h.vm name) r (L.start_exists h.vm name name))

      stop-Fresh :
          (h : Host D)
          → Ready unlinks name h
          → Fresh unlinks name (on_vm D h (D.stop h.vm name false))
      stop-Fresh h r = on_vm-Fresh h (D.stop h.vm name false) r (L.stop_exists h.vm name name false)

      pub build_layer-Fresh :
          (staged : Resolved → Bool) (parent : Bytes) (l : Resolved) (h : Host D)
          → CanDestroy unlinks name
          → Fresh unlinks name (build_layer D unlinks staged parent name l h)
      unfolding build_layer
      build_layer-Fresh staged parent l h c =
          then_call-Fresh (on_vm D h1 (D.clone h1.vm parent name)) _
            (destroy-forgets c h, L.clone_ok h1.vm parent name)
            (λ h2 r2.
              then_call-Fresh (or_destroy D unlinks name (on_vm D h2 (D.start h2.vm name))) _
                (start-Fresh h2 r2)
                (λ h3 r3.
                  then_call-Fresh
                    (or_destroy D unlinks name (on_vm D h3 (apply_layer D staged name l h3.vm))) _
                    (or_destroy-Fresh (on_vm D h3 (apply_layer D staged name l h3.vm)) (
                      on_vm-Fresh h3 (apply_layer D staged name l h3.vm) r3
                        (apply_layer-Stays staged name l h3.vm name)))
                    stop-Fresh))
        where
          h1 : Host D
          h1 = (destroy D unlinks h name).0

      pub build_base-Fresh :
          (h : Host D) → CanDestroy unlinks name → Fresh unlinks name (build_base D unlinks name h)
      unfolding build_base
      build_base-Fresh h c =
          then_call-Fresh (or_destroy D unlinks name (on_vm D h1 (D.create h1.vm name))) _
            (or_destroy-Fresh (on_vm D h1 (D.create h1.vm name))
              (destroy-forgets c h, L.create_ok h1.vm name))
            (λ h2 r2.
              then_call-Fresh (or_destroy D unlinks name (on_vm D h2 (D.stop h2.vm name false))) _
                (or_destroy-Fresh (on_vm D h2 (D.stop h2.vm name false)) (stop-Fresh h2 r2))
                (λ h3 r3.
                  then_call-Fresh (or_destroy D unlinks name (on_vm D h3 (D.start h3.vm name))) _
                    (start-Fresh h3 r3)
                    (λ h4 r4.
                      or_destroy-Fresh (on_vm D h4 (D.stop h4.vm name false)) (stop-Fresh h4 r4))))
        where
          h1 : Host D
          h1 = (destroy D unlinks h name).0

-- ===== src/Image/Build.antt =====
-- internal/image/manager.go: how a chain of images is made sure of. Other processes act while one
-- waits for a lock: `wait` is the host after that, if the lock is got. `staged` says whether the
-- files of a layer could be staged, and `wrote` whether the record of a name was written. What is
-- printed is left out.
pub mod Records
pub mod Fresh
pub mod Decides
pub mod Others
pub mod Chain
use kranq.Base.{
  ℕ, ◌+◌, Bool, true, false, not, ◌&&◌, List, [], ◌∷◌, ◌++◌, Option, none, some, if◌then◌else◌,
}
use kranq.Base.Int.{ℤ}
use kranq.Base.Text.{Bytes, codes, empty}
use kranq.Base.Strings.{trim_space}
use kranq.Project.Bind.{Resolved, File, dir}
use kranq.Image.Name.{chain}
use kranq.Image.Meta.{Meta, load, save, touch, with_repo}
use kranq.Image.Machine.{Driver, Host, destroy}
use kranq.Image.Script.{mkdir_script, reset_script, install_script, run_script, summary}
use kranq.Sched.Outcome.{is_code}

abbrev pub no_files : List File → Bool
no_files [] = true
no_files (f ∷ fs) = false

-- What becomes of an image: it was there, it was built, or neither.
pub data Made : Type 0 where
  cached built failed : Made

abbrev pub is_made : Made → Bool
is_made failed = false
is_made _ = true

abbrev pub is_there : Option Meta → Bool
is_there none = false
is_there (some m) = true

module _ (D : Driver) where
  unfoldable pub is_complete : Host D → Bytes → Bool
  unfolding load
  is_complete h name = D.exists h.vm name && is_there (load h.metas name)

  abbrev pub exited : D.World × Option ℤ → D.World × Bool
  exited (w, none) = (w, false)
  exited (w, some code) = (w, is_code code 0)

  -- Go's `if err != nil { return err }` between two calls.
  unfoldable pub then_call {ℓ} : {A : Type ℓ} → A × Bool → (A → A × Bool) → A × Bool
  then_call (w, true) next = next w
  then_call (w, false) next = (w, false)

  -- `shell`
  unfoldable pub run_shell : Bytes → Bytes → D.World → D.World × Bool
  run_shell name script w = exited (D.shell w name script)

  unfoldable pub upload : (Resolved → Bool) → Bytes → Resolved → D.World → D.World × Bool
  unfolding run_shell then_call reset_script install_script
  upload staged name l w =
      if no_files l.files
      then (w, true)
      else if not (staged l)
      then (w, false)
      else then_call (run_shell name reset_script w)
          (λ w1. then_call (D.copy_in w1 name) (run_shell name (install_script l.roots)))

  abbrev pub run_layer : Bytes → Resolved → D.World → D.World × Bool
  run_layer name l w =
      if empty (trim_space l.layer.run) then (w, true) else run_shell name (run_script l) w

  unfoldable pub apply_layer : (Resolved → Bool) → Bytes → Resolved → D.World → D.World × Bool
  unfolding run_shell upload then_call mkdir_script run_script trim_space
  apply_layer staged name l w =
      then_call (run_shell name (mkdir_script (dir l.layer ∷ [])) w)
        (λ w1. then_call (upload staged name l w1) (run_layer name l))

  abbrev pub on_vm : Host D → D.World × Bool → Host D × Bool
  on_vm h (w, b) = (record h { vm = w }, b)

  module _ (unlinks : Bytes → Bool) where
    -- A step after whose failure the image is destroyed.
    unfoldable pub or_destroy : Bytes → Host D × Bool → Host D × Bool
    unfolding destroy
    or_destroy name (h, true) = (h, true)
    or_destroy name (h, false) = ((destroy D unlinks h name).0, false)

    -- `BuildBase`
    unfoldable pub build_base : Bytes → Host D → Host D × Bool
    unfolding destroy or_destroy then_call
    build_base name h =
        let h1 = (destroy D unlinks h name).0 in
        then_call (or_destroy name (on_vm h1 (D.create h1.vm name))) (λ h2.
          then_call (or_destroy name (on_vm h2 (D.stop h2.vm name false))) (λ h3.
            then_call (or_destroy name (on_vm h3 (D.start h3.vm name)))
              (λ h4. or_destroy name (on_vm h4 (D.stop h4.vm name false)))))

    unfoldable pub build_layer :
        (Resolved → Bool) → Bytes → Bytes → Resolved → Host D → Host D × Bool
    unfolding destroy or_destroy apply_layer then_call
    build_layer staged parent name l h =
        let h1 = (destroy D unlinks h name).0 in
        then_call (on_vm h1 (D.clone h1.vm parent name)) (λ h2.
          then_call (or_destroy name (on_vm h2 (D.start h2.vm name))) (λ h3.
            then_call (or_destroy name (on_vm h3 (apply_layer staged name l h3.vm)))
              (λ h4. on_vm h4 (D.stop h4.vm name false))))

    abbrev pub recorded : Host D → List Meta × Bool → Host D × Bool
    recorded h (ms, b) = (record h { metas = ms }, b)

    module _ (wait : Bytes → Host D → Option (Host D)) (staged : Resolved → Bool)
        (wrote : Bytes → Bool) where
      unfoldable pub record_image : Meta → Host D → Host D × Bool
      unfolding save
      record_image m h = recorded h (save (wrote m.name) h.metas m)

      abbrev pub made_by : Host D × Bool → Host D × Made
      made_by (h, true) = (h, built)
      made_by (h, false) = (h, failed)

      abbrev pub locked :
          Bytes → Host D → (Host D → Host D × Bool) → Option (Host D) → Host D × Made
      locked name h build none = (h, failed)
      locked name h build (some h1) =
          if is_complete h1 name then (h1, cached) else made_by (build h1)

      unfoldable pub once : Host D → Bytes → (Host D → Host D × Bool) → Host D × Made
      unfolding is_complete
      once h name build =
          if is_complete h name then (h, cached) else locked name h build (wait name h)

      abbrev pub base_meta : Bytes → ℕ → Meta
      base_meta name now = record {
        name = name;
        parent = [];
        depth = 0;
        step = codes "base";
        copies = [];
        repos = [];
        created_at = now;
        last_used_at = now;
      }

      abbrev pub layer_meta : Bytes → Bytes → Bytes → ℕ → Resolved → ℕ → Meta
      layer_meta repo parent name depth l now = record {
        name = name;
        parent = parent;
        depth = depth;
        step = summary l.layer;
        copies = l.roots;
        repos = with_repo [] repo;
        created_at = now;
        last_used_at = now;
      }

      unfoldable pub ensure_base : Host D → Bytes → ℕ → Host D × Made
      unfolding once build_base record_image then_call
      ensure_base h name now =
          once h name (λ h1. then_call (build_base name h1) (record_image (base_meta name now)))

      unfoldable pub ensure_layer :
          Host D → Bytes → Bytes → Bytes → ℕ → Resolved → ℕ → Host D × Made
      unfolding once build_layer record_image then_call summary with_repo
      ensure_layer h repo parent name depth l now = once h name (λ h1.
          then_call (build_layer staged parent name l h1)
            (record_image (layer_meta repo parent name depth l now)))

      abbrev pub unless_failed : (Host D → Host D × Bool) → Host D × Made → Host D × Bool
      unless_failed next (h, m) = if is_made m then next h else (h, false)

      -- The loop of `Ensure`, over layers and their names.
      unfoldable pub ensure_layers :
          Bytes → ℕ → ℕ → Bytes → List Bytes → List Resolved → Host D → Host D × Bool
      unfolding ensure_layer
      ensure_layers repo now depth parent [] ls h = (h, true)
      ensure_layers repo now depth parent (name ∷ names) [] h = (h, true)
      ensure_layers repo now depth parent (name ∷ names) (l ∷ ls) h =
          unless_failed (ensure_layers repo now (depth + 1) name names ls)
            (ensure_layer h repo parent name (depth + 1) l now)

      unfoldable pub touch_chain : Bytes → ℕ → List Bytes → List Meta → List Meta
      unfolding touch
      touch_chain repo now [] ms = ms
      touch_chain repo now (name ∷ names) ms =
          touch_chain repo now names (touch (wrote name) ms name repo now)

      abbrev pub touched_host : Bytes → ℕ → List Bytes → Host D × Bool → Host D × Bool
      touched_host repo now names (h, true) =
          (record h { metas = touch_chain repo now names h.metas }, true)
      touched_host repo now names (h, false) = (h, false)

      -- `Ensure`, for the base and the names of the layers; `has_dir` says whether MetaDir is set.
      unfoldable pub ensure :
          Bool → Bytes → ℕ → Bytes → List Bytes → List Resolved → Host D → Host D × Bool
      unfolding ensure_base ensure_layers touch_chain
      ensure has_dir repo now base names ls h =
          if not has_dir
          then (h, false)
          else touched_host repo now names
              (unless_failed (ensure_layers repo now 0 base names ls) (ensure_base h base now))

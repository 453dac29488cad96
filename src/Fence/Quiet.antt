-- ===== src/Fence/Quiet.antt =====
-- The steps of a call that move no ref at the server.
use kranq.Base.{
  Bool, true, false, List, [], ◌∷◌, Option, none, some, ◌≡◌, refl, ◌∙◌, Bool-cases, inl, inr,
}
use kranq.Base.Text.{Bytes, codes, same}
use kranq.Base.Strings.{trim_space}
use kranq.Fence.Defs.{
  Holder, FenceError, not_prepared, tree_not_written, record_not_written, Client,
}
use kranq.Fence.Git.{Answer, Git, Same, IsLawful, is_oid, is_local}
use kranq.Fence.Ops.{
  hash_object_args, Reply, ok, err, git, then_ask, output, made_dir, init, commit_args, commit_tree,
  commit, environment,
}

module _ (G : Git) where
  -- A result that moved no ref, with a property of its value.
  abbrev pub Quiet {ℓ} : {A : Type ℓ} → (Bytes → Bytes) → (A → Type 0) → G.World × Reply A → Type 0
  Quiet t Q (w, ok a) = Same G t w × Q a
  Quiet t Q (w, err e) = Same G t w

  pub then_ask-elim {ℓ κ} :
      {A : Type ℓ} {B : Type κ} (t : Bytes → Bytes) (Q : A → Type 0)
      (P : G.World × Reply B → Type 0) (m : G.World × Reply A) (f : G.World → A → G.World × Reply B)
      → Quiet t Q m
      → ((e : FenceError) (w : G.World) → Same G t w → P (w, err e))
      → ((w : G.World) (a : A) → Same G t w → Q a → P (f w a))
      → P (then_ask G m f)
  unfolding then_ask
  then_ask-elim t Q P (w, ok a) f q on_err on_ok = on_ok w a q.0 q.1
  then_ask-elim t Q P (w, err e) f q on_err on_ok = on_err e w q

  abbrev pub Anything {ℓ} : {A : Type ℓ} → A → Type 0
  Anything a = Unit

  pub output-Holds :
      (t : Bytes → Bytes) (Q : Bytes → Type 0) (e : FenceError) (x : G.World × Answer)
      → Same G t x.0
      → (x.1.ok ≡ true → Q x.1.out)
      → Quiet t Q (output G e x)
  unfolding output
  output-Holds t Q e (w, a) s n = elim (Bool-cases a.ok) [ inl h ↦ rw h (s, n h) | inr h ↦ rw h s ]

  pub output-Quiet :
      (t : Bytes → Bytes) (e : FenceError) (x : G.World × Answer)
      → Same G t x.0
      → Quiet t Anything (output G e x)
  output-Quiet t e x s = output-Holds t Anything e x s (λ h. tt)

  module _ (encode : Holder → Option Bytes) (L : IsLawful G) (c : Client) where
    pub git-Same :
        (t : Bytes → Bytes) (w : G.World) (stdin : Bytes) (args : List Bytes)
        → is_local args ≡ true
        → Same G t w
        → Same G t (git G c w stdin args).0
    unfolding git
    git-Same t w stdin args l s = λ r. L.local w (environment c) args c.token stdin l r ∙ s r

    made_dir-Quiet :
        (t : Bytes → Bytes) (x : G.World × Bool) → Same G t x.0 → Quiet t Anything (made_dir G c x)
    unfolding same
    made_dir-Quiet t (w, false) s = s
    made_dir-Quiet t (w, true) s =
        output-Quiet t not_prepared _
          (git-Same t w [] (codes "init" ∷ codes "--bare" ∷ codes "--quiet" ∷ c.dir ∷ []) refl s)

    pub init-Quiet : (t : Bytes → Bytes) (w : G.World) → Same G t w → Quiet t Anything (init G c w)
    unfolding init
    init-Quiet t w s = elim (Bool-cases (G.has_head w)) [
      | inl h ↦ rw h (s, tt)
      | inr h ↦ rw h (made_dir-Quiet t (G.make_dir w) (λ r. L.dir_local w r ∙ s r))
    ]

    -- What a commit prints is the name of an object.
    abbrev pub Named : Bytes → Type 0
    Named out = is_oid (trim_space out) ≡ true

    commit_tree-Quiet :
        (t : Bytes → Bytes) (parent : Bytes) (body : Option Bytes) (w : G.World) (tree : Bytes)
        → Same G t w
        → Quiet t Named (commit_tree G c parent body w tree)
    unfolding git same
    commit_tree-Quiet t parent none w tree s = s
    commit_tree-Quiet t parent (some body) w tree s =
        output-Holds t Named record_not_written (git G c w [] (commit_args G tree body parent))
          (git-Same t w [] (commit_args G tree body parent) refl s)
          (L.commit_tree w (environment c) _ c.token [])

    pub commit-Quiet :
        (t : Bytes → Bytes) (w : G.World) (h : Holder) (parent : Bytes)
        → Same G t w
        → Quiet t Named (commit G encode c w h parent)
    unfolding commit same
    commit-Quiet t w h parent s =
        then_ask-elim t Anything (Quiet t Named) _ _
          (output-Quiet t tree_not_written (git G c w [] hash_object_args)
            (git-Same t w [] hash_object_args refl s))
          (λ e w1 s1. s1) (λ w1 tree s1 _. commit_tree-Quiet t parent (encode h) w1 tree s1)

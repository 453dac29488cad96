-- ===== src/Fence/Laws.antt =====
-- Each call is one compare-and-swap of its ref at the server.
use kranq.Base.{
  ℕ, true, false, List, [], ◌∷◌, Option, ◌≡◌, ◌⊎◌, refl, sym, ◌∙◌, Bool-cases, inl, inr, arith, all,
}
use kranq.Base.Text.{Bytes, empty}
use kranq.Base.Strings.{trim_space}
use kranq.Fence.Defs.{
  Holder, Claim, Scope, scope_ref, held, broken, no_atomic, no_fence, push_failed, Client, rejected,
  lacks_atomic,
}
use kranq.Fence.Git.{
  Answer, Git, Same, Moved, Pushed, landed, refused, lost, IsLawful, is_fence_ref, is_object,
  is_oid, is_elsewhere, push_args, atomic_push_args,
}
use kranq.Fence.Ops.{
  Reply, git, then_ask, init, commit, claimed, claim_ref, claim, holder_of, advanced, push_advance,
  advance, removed, release, break_fence, environment,
}
use kranq.Fence.Calls.{
  Call, claims, advances, releases, breaks, judged, perform, ref_of, expected, frees, IsProper,
  swapped, unmoved, unsure, SwapOf,
}
use kranq.Fence.Quiet.{Quiet, then_ask-elim, Anything, init-Quiet, commit-Quiet, Named}

is_oid-nonempty : (o : Bytes) → is_oid o ≡ true → empty o ≡ false
unfolding is_oid
is_oid-nonempty [] h = absurd (ground arith)
is_oid-nonempty (c ∷ o) h = refl

is_oid-is_object : (o : Bytes) → is_oid o ≡ true → is_object o ≡ true
is_oid-is_object o h = rw h (ground arith)

module _ (G : Git) (encode : Holder → Option Bytes) (digest : Bytes → Bytes) (L : IsLawful G) where
  Moved-Same :
      (t : Bytes → Bytes) (v w : G.World) (ref old new : Bytes)
      → Same G t v
      → Moved G (G.tip v) w ref old new
      → Moved G t w ref old new
  Moved-Same t v w ref old new s m = record {
    was = was_before m.was;
    became = m.became;
    others = λ r d. m.others r d ∙ s r;
  }
    where
      was_before :
          (G.tip v ref ≡ old) ⊎ ((empty new ≡ false) × (G.tip v ref ≡ new))
          → (t ref ≡ old) ⊎ ((empty new ≡ false) × (t ref ≡ new))
      was_before (inl h) = inl (sym (s ref) ∙ h)
      was_before (inr h) = inr (h.0, sym (s ref) ∙ h.1)

  Pushed-Same :
      (t : Bytes → Bytes) (v : G.World) (ref old new : Bytes) (x : G.World × Answer)
      → Same G t v
      → Pushed G (G.tip v) ref old new x
      → Pushed G t ref old new x
  Pushed-Same t v ref old new x s (landed w a h m) = landed w a h (Moved-Same t v w ref old new s m)
  Pushed-Same t v ref old new x s (refused w a h m) = refused w a h (λ r. m r ∙ s r)
  Pushed-Same t v ref old new x s (lost w a h j l m) =
      lost w a h j l (Moved-Same t v w ref old new s m)

  module _ (c : Client) (t : Bytes → Bytes) where
    pub git-Pushed :
        (v : G.World) (ref old new : Bytes)
        → is_fence_ref ref ≡ true
        → is_object old ≡ true
        → is_object new ≡ true
        → Same G t v
        → Pushed G t ref old new (git G c v [] (push_args c.url ref old new))
    unfolding git
    git-Pushed v ref old new cr co cn s =
        Pushed-Same t v ref old new _ s
          (L.push v (environment c) c.token c.url ref old new [] cr co cn)

    git-atomic-Pushed :
        (v : G.World) (ref old new : Bytes) (specs : List Bytes)
        → is_fence_ref ref ≡ true
        → is_object old ≡ true
        → is_object new ≡ true
        → all is_elsewhere specs ≡ true
        → Same G t v
        → Pushed G t ref old new (git G c v [] (atomic_push_args c.url ref old new specs))
    unfolding git
    git-atomic-Pushed v ref old new specs cr co cn cs s =
        Pushed-Same t v ref old new _ s
          (L.atomic_push v (environment c) c.token c.url ref old new specs [] cr co cn cs)

    claimed-SwapOf :
        (s : Scope) (task : Bytes) (now : ℕ) (h : Holder) (oid : Bytes) (x : G.World × Answer)
        → empty oid ≡ false
        → Pushed G t (scope_ref digest s) [] oid x
        → SwapOf G encode digest
            (claims c s task now)
            t
            (judged G encode digest (λ p. p.0.oid) (claimed G (scope_ref digest s) oid h x))
    claimed-SwapOf s task now h oid x n (landed w a k m) = rw k (swapped oid m n)
    claimed-SwapOf s task now h oid x n (refused w a k m) = elim (Bool-cases (rejected a.stderr)) [
      | inl j ↦ rw (k, j) (unmoved held m)
      | inr j ↦ rw (k, j) (unmoved push_failed m)
    ]
    claimed-SwapOf s task now h oid x n (lost w a k j l m) =
        rw (k, j) (unsure push_failed oid refl m n)

    advanced-SwapOf :
        (cl : Claim) (h : Holder) (phase : Bytes) (specs : List Bytes) (oid : Bytes)
        (x : G.World × Answer)
        → empty oid ≡ false
        → Pushed G t cl.ref cl.oid oid x
        → SwapOf G encode digest
            (advances c cl h phase specs)
            t
            (judged G encode digest (λ p. p.oid) (advanced G cl oid x))
    advanced-SwapOf cl h phase specs oid x n (landed w a k m) = rw k (swapped oid m n)
    advanced-SwapOf cl h phase specs oid x n (refused w a k m) =
        elim (Bool-cases (lacks_atomic a.stderr)) [
          | inl l ↦ rw (k, l) (unmoved no_atomic m)
          | inr l ↦
              rw (k, l)
                (elim (Bool-cases (rejected a.stderr)) [
                  | inl j ↦ rw j (unmoved broken m)
                  | inr j ↦ rw j (unmoved push_failed m)
                ])
        ]
    advanced-SwapOf cl h phase specs oid x n (lost w a k j l m) =
        rw (k, l, j) (unsure push_failed oid refl m n)

    removed-SwapOf :
        (k : Call) (x : G.World × Answer)
        → frees k ≡ true
        → Pushed G t (ref_of digest k) (expected k) [] x
        → SwapOf G encode digest k t (judged G encode digest (λ p. []) (removed G x))
    removed-SwapOf k x f (landed w a h m) = rw h (swapped [] m (sym f))
    removed-SwapOf k x f (refused w a h m) = elim (Bool-cases (rejected a.stderr)) [
      | inl j ↦ rw (h, j) (unmoved broken m)
      | inr j ↦ rw (h, j) (unmoved push_failed m)
    ]
    removed-SwapOf k x f (lost w a h j l m) = rw (h, j) (unsure push_failed [] refl m (sym f))

  judged-then {ℓ κ} :
      {A : Type ℓ} {B : Type κ} (g : B → Bytes) (k : Call) (t : Bytes → Bytes) (Q : A → Type 0)
      (m : G.World × Reply A) (f : G.World → A → G.World × Reply B)
      → Quiet G t Q m
      → ((w : G.World) (a : A)
          → Same G t w
          → Q a
          → SwapOf G encode digest k t (judged G encode digest g (f w a)))
      → SwapOf G encode digest k t (judged G encode digest g (then_ask G m f))
  judged-then g k t Q m f q on_ok =
      then_ask-elim G t Q (λ y. SwapOf G encode digest k t (judged G encode digest g y)) m f q
        (λ e w s. unmoved e s) on_ok

  -- Every call of the client is one compare-and-swap of its fence at the server: it removes the fence
  -- or points it at some object, or it fails. What it changes is a fence that points at the object
  -- which the call expects; only if the fence points already at the very object that the call would
  -- give it may it succeed whatever was expected. No other fence moves. A call that fails has moved
  -- nothing, unless its error says that the push failed for a reason that is not known; then it may have
  -- swapped. The fence must have a name as the code makes it, the expected object must be none or named
  -- in full, and the refspecs that an advance pushes along must name other refs in full.
  pub perform-Swap :
      (k : Call) (w : G.World)
      → IsProper digest k
      → SwapOf G encode digest k (G.tip w) (perform G encode digest k w)
  unfolding perform claim claim_ref advance release break_fence
  perform-Swap (claims c s task now) w cr =
      judged-then (λ p. p.0.oid) (claims c s task now) (G.tip w) (Anything G) (init G c w) _
        (init-Quiet G encode L c (G.tip w) w (λ r. refl))
        (λ w1 _ s1 _.
          judged-then (λ p. p.0.oid) (claims c s task now) (G.tip w) (Named G encode L c)
            (commit G encode c w1 (holder_of G c s task now) []) _
            (commit-Quiet G encode L c (G.tip w) w1 (holder_of G c s task now) [] s1)
            (λ w2 out s2 n.
              claimed-SwapOf c (G.tip w) s task now (holder_of G c s task now) (trim_space out) _
                (is_oid-nonempty (trim_space out) n)
                (git-Pushed c (G.tip w) w2 (scope_ref digest s) [] (trim_space out) cr.0 refl
                  (is_oid-is_object (trim_space out) n) s2)))
  perform-Swap (advances c cl h phase specs) w cr = elim (Bool-cases (empty cl.oid)) [
    | inl e ↦ rw e (unmoved no_fence (λ r. refl))
    | inr e ↦ rw e (
        judged-then (λ p. p.oid) (advances c cl h phase specs) (G.tip w) (Named G encode L c)
          (commit G encode c w (record h { phase = phase }) cl.oid) (push_advance G c cl specs)
          (commit-Quiet G encode L c (G.tip w) w (record h { phase = phase }) cl.oid (λ r. refl))
          (λ w2 out s2 n.
            advanced-SwapOf c (G.tip w) cl h phase specs (trim_space out) _
              (is_oid-nonempty (trim_space out) n)
              (git-atomic-Pushed c (G.tip w) w2 cl.ref cl.oid (trim_space out) specs cr.0 cr.1
                (is_oid-is_object (trim_space out) n) cr.2 s2)))
  ]
  perform-Swap (releases c cl) w cr = elim (Bool-cases (empty cl.oid)) [
    | inl e ↦ rw e (unmoved no_fence (λ r. refl))
    | inr e ↦ rw e (
        removed-SwapOf c (G.tip w) (releases c cl) _ refl
          (git-Pushed c (G.tip w) w cl.ref cl.oid [] cr.0 cr.1 refl (λ r. refl)))
  ]
  perform-Swap (breaks c ref expect) w cr =
      judged-then (λ p. []) (breaks c ref expect) (G.tip w) (Anything G) (init G c w) _
        (init-Quiet G encode L c (G.tip w) w (λ r. refl))
        (λ w1 _ s1 _.
          removed-SwapOf c (G.tip w) (breaks c ref expect) _ refl
            (git-Pushed c (G.tip w) w1 ref expect [] cr.0 cr.1 refl s1))

-- ===== src/Fence/Settle/Fate.antt =====
-- What a run that is over leaves of its fence.
use kranq.Base.{
  Bool, true, false, not, ◌&&◌, ◌||◌, [], Option, some, ◌≡◌, ◌⊎◌, refl, arith, Bool-cases, inl, inr,
}
use kranq.Base.Text.{Bytes, empty, same}
use kranq.Fence.Defs.{Holder, Claim, rejected}
use kranq.Fence.Git.{
  Answer, Git, Same, Moved, Pushed, landed, refused, lost, IsLawful, is_fence_ref, push_args,
}
use kranq.Fence.Ops.{Reply, ok, err, git, adopt, release, removed}
use kranq.Fence.Quiet.{Quiet}
use kranq.Fence.Laws.{git-Pushed}
use kranq.Fence.Settle.{HeldFence, RunResult, settle_fence, settle_owned, released}
use kranq.Sched.Outcome.{is_code}
use kranq.Fence.Settle.Read.{IsOwn, adopt-Quiet}

-- Whether a fence may be removed: nothing was pushed since it was claimed, or the run succeeded.
abbrev pub may_remove : (Bytes → Bytes) → HeldFence → RunResult → Bool
may_remove t h res = same (t h.claim.ref) h.claim.oid || is_code res.exit_code 0

-- The guard of the code, where the object that was read is the one that the ref points at.
may_remove-guard :
    (t : Bytes → Bytes) (h : HeldFence) (res : RunResult) (oid : Bytes)
    → t h.claim.ref ≡ oid
    → (not (same oid h.claim.oid) && not (is_code res.exit_code 0)) ≡ false
    → may_remove t h res ≡ true
may_remove-guard t h res oid e g = rw e (ground arith)

module _ (G : Git) where
  -- What becomes of a fence: it is gone and the result says so, it is as it was and is reported as
  -- held, or it is reported as held and whether it is gone is not known.
  pub data Fate (t : Bytes → Bytes) (h : HeldFence) (res : RunResult)
      : G.World × RunResult → Type 0 where
    removed_it :
        (w : G.World)
        → may_remove t h res ≡ true
        → Moved G t w h.claim.ref (t h.claim.ref) []
        → Fate t h res (w, record res { fence_ref = h.claim.ref; fence_held = false })
    kept_it :
        (w : G.World)
        → Same G t w
        → Fate t h res (w, record res { fence_ref = h.claim.ref; fence_held = true })
    maybe_removed :
        (w : G.World)
        → may_remove t h res ≡ true
        → Moved G t w h.claim.ref (t h.claim.ref) []
        → Fate t h res (w, record res { fence_ref = h.claim.ref; fence_held = true })

module _ (G : Git) (encode : Holder → Option Bytes) (decode : Bytes → Option Holder)
    (L : IsLawful G) where
  -- A removal that moved the ref was of the object that the ref pointed at.
  removal :
      (t : Bytes → Bytes) (h : HeldFence) (res : RunResult) (oid : Bytes) (w : G.World)
      → (not (same oid h.claim.oid) && not (is_code res.exit_code 0)) ≡ false
      → Moved G t w h.claim.ref oid []
      → (may_remove t h res ≡ true) × Moved G t w h.claim.ref (t h.claim.ref) []
  removal t h res oid w g m = (
    may_remove-guard t h res oid (at_oid m.was) g,
    record { was = inl refl; became = m.became; others = m.others },
  )
    where
      at_oid :
          (t h.claim.ref ≡ oid) ⊎ ((empty [] ≡ false) × (t h.claim.ref ≡ [])) → t h.claim.ref ≡ oid
      at_oid (inl e) = e
      at_oid (inr e) = absurd (ground arith)

  removed-Fate :
      (t : Bytes → Bytes) (h : HeldFence) (res : RunResult) (oid : Bytes) (x : G.World × Answer)
      → res.fence_held ≡ false
      → (not (same oid h.claim.oid) && not (is_code res.exit_code 0)) ≡ false
      → Pushed G t h.claim.ref oid [] x
      → Fate G t h res (released G res h.claim.ref (removed G x))
  removed-Fate t h res oid x f g (landed w a k v) =
      let r = removal t h res oid w g v in rw (k, f) (removed_it w r.0 r.1)
  removed-Fate t h res oid x f g (refused w a k s) = elim (Bool-cases (rejected a.stderr)) [
    | inl j ↦ rw (k, j) (kept_it w s)
    | inr j ↦ rw (k, j) (kept_it w s)
  ]
  removed-Fate t h res oid x f g (lost w a k j l v) =
      let r = removal t h res oid w g v in rw (k, j) (maybe_removed w r.0 r.1)

  release-Fate :
      (t : Bytes → Bytes) (w : G.World) (h : HeldFence) (res : RunResult) (cl : Claim)
      → Same G t w
      → is_fence_ref h.claim.ref ≡ true
      → res.fence_held ≡ false
      → (not (same cl.oid h.claim.oid) && not (is_code res.exit_code 0)) ≡ false
      → IsOwn h.claim.ref (cl, h.holder)
      → Fate G t h res (released G res h.claim.ref (release G h.client w cl))
  unfolding release
  release-Fate t w h res cl s r f g o =
      rw (o.0, o.2)
        (removed-Fate t h res cl.oid
          (git G h.client w [] (push_args h.client.url h.claim.ref cl.oid [])) f g
          (git-Pushed G encode (λ b. b) L h.client t w h.claim.ref cl.oid [] r o.1 refl s))

  owned-Fate :
      (t : Bytes → Bytes) (w : G.World) (h : HeldFence) (res : RunResult) (cl : Claim)
      (holder : Holder)
      → Same G t w
      → is_fence_ref h.claim.ref ≡ true
      → res.fence_held ≡ false
      → IsOwn h.claim.ref (cl, holder)
      → Fate G t h res (settle_owned G h res (w, ok (cl, holder)))
  owned-Fate t w h res cl holder s r f o =
      elim (Bool-cases (not (same cl.oid h.claim.oid) && not (is_code res.exit_code 0))) [
        | inl m ↦ rw m (kept_it w s)
        | inr m ↦ rw m (release-Fate t w h res cl s r f m o)
      ]

  settled-Fate :
      (t : Bytes → Bytes) (h : HeldFence) (res : RunResult) (x : G.World × Reply (Claim × Holder))
      → is_fence_ref h.claim.ref ≡ true
      → res.fence_held ≡ false
      → Quiet G t (IsOwn h.claim.ref) x
      → Fate G t h res (settle_owned G h res x)
  settled-Fate t h res (w, err e) r f q = kept_it w q
  settled-Fate t h res (w, ok (cl, holder)) r f q = owned-Fate t w h res cl holder q.0 r f q.1

  -- When a run is over, its fence is removed only if nothing was pushed since it was claimed or the run
  -- succeeded: the ref still points at the object of the claim, or the exit code is 0. Otherwise the
  -- fence is left as it is, and the result says that it is held. The result says that it is gone only if
  -- it is; if the answer to the removal is lost, it says that it is held. No other fence moves. The
  -- fence must have a name as the code makes it, and the result must not already say that it is held.
  pub settle_fence-Fate :
      (w : G.World) (h : HeldFence) (res : RunResult)
      → is_fence_ref h.claim.ref ≡ true
      → res.fence_held ≡ false
      → Fate G (G.tip w) h res (settle_fence G decode w (some h) res)
  unfolding settle_fence
  settle_fence-Fate w h res r f =
      settled-Fate (G.tip w) h res (adopt G decode h.client w h.claim.ref h.holder.task) r f
        (adopt-Quiet G encode decode L h.client (G.tip w) w h.claim.ref h.holder.task (λ k. refl))

-- ===== src/Fence/Settle.antt =====
-- internal/run/fence.go: how a run takes its fence, and what becomes of it when the run is over. What
-- is printed is left out, and with it the record that is shown of a fence that is held.
pub mod Fate
pub mod Read
use kranq.Base.{ℕ, List, [], ◌∷◌, Bool, true, false, not, ◌&&◌, Option, none, some, if◌then◌else◌}
use kranq.Base.Int.{ℤ, pos}
use kranq.Base.Text.{Bytes, codes, same}
use kranq.Fence.Defs.{Scope, scope_ref, Holder, Claim, FenceError, held, Client}
use kranq.Fence.Git.{Git}
use kranq.Fence.Ops.{Reply, ok, err, claim, show, adopt, release}
use kranq.Sched.Outcome.{is_code}

pub record FencePlan : Type 0 where
  pub dir : Bytes
  pub node : Bytes
  pub scope : Scope

pub record HeldFence : Type 0 where
  pub client : Client
  pub claim : Claim
  pub holder : Holder

pub record RunResult : Type 0 where
  pub exit_code : ℤ
  pub fence_ref : Bytes
  pub fence_held : Bool

abbrev pub env_of : HeldFence → Bytes → Option Bytes → List (Bytes × Bytes)
env_of h task none = []
env_of h task (some body) =
    (codes "KRANQ_FENCE_REF", h.claim.ref)
    ∷ (codes "KRANQ_FENCE_TASK", task)
    ∷ (codes "KRANQ_FENCE_RECORD", body)
    ∷ []

module _ (G : Git) where
  -- Of a fence that is held its record is read, for the message.
  abbrev pub after_claim {ℓ} :
      {A : Type ℓ}
      → Client
      → (G.World → G.World × A)
      → G.World × Reply (Claim × Holder)
      → G.World × Reply (Option HeldFence)
  after_claim c look (w, ok (cl, h)) =
      (w, ok (some (record { client = c; claim = cl; holder = h })))
  after_claim c look (w, err held) = ((look w).0, err held)
  after_claim c look (w, err e) = (w, err e)

  abbrev pub client_of : FencePlan → Bytes → Bytes → Client
  client_of p url token = record { dir = p.dir; url = url; token = token; node = p.node }

  unfoldable pub claim_fence :
      (Holder → Option Bytes)
      → (Bytes → Option Holder)
      → (Bytes → Bytes)
      → G.World
      → Option FencePlan
      → Bytes
      → Bytes
      → Bytes
      → ℕ
      → G.World × Reply (Option HeldFence)
  unfolding claim show scope_ref
  claim_fence encode decode digest w none url token task now = (w, ok none)
  claim_fence encode decode digest w (some p) url token task now =
      after_claim (client_of p url token)
        (λ w1. show G decode (client_of p url token) w1 (scope_ref digest p.scope))
        (claim G encode digest (client_of p url token) w p.scope task now)

  abbrev pub with_fence : RunResult → Bytes → Bool → RunResult
  with_fence res ref is_held = record res { fence_ref = ref; fence_held = is_held }

  abbrev pub released : RunResult → Bytes → G.World × Reply Bytes → G.World × RunResult
  released res ref (w, ok out) = (w, with_fence res ref res.fence_held)
  released res ref (w, err e) = (w, with_fence res ref true)

  -- With the fence that the run owns by now: it is left standing if something was pushed and the run
  -- failed.
  abbrev pub settle_owned :
      HeldFence → RunResult → G.World × Reply (Claim × Holder) → G.World × RunResult
  settle_owned h res (w, err e) = (w, with_fence res h.claim.ref true)
  settle_owned h res (w, ok (current, holder)) =
      if not (same current.oid h.claim.oid) && not (is_code res.exit_code 0)
      then (w, with_fence res h.claim.ref true)
      else released res h.claim.ref (release G h.client w current)

  unfoldable pub settle_fence :
      (Bytes → Option Holder) → G.World → Option HeldFence → RunResult → G.World × RunResult
  unfolding adopt release same
  settle_fence decode w none res = (w, res)
  settle_fence decode w (some h) res =
      settle_owned h res (adopt G decode h.client w h.claim.ref h.holder.task)

-- `heldFence.env`: what a job gets of its fence, with the record that it is to write.
unfoldable pub fence_env : (Holder → Option Bytes) → HeldFence → Bytes → List (Bytes × Bytes)
fence_env encode h task = env_of h task (encode (record h.holder { phase = codes "pushed" }))

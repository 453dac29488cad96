-- ===== src/Fence/Calls.antt =====
-- The calls that change a fence, and what each may do to the refs at the server.
use kranq.Base.{ℕ, Bool, true, false, List, [], Option, ◌≡◌, all}
use kranq.Base.Text.{Bytes, empty}
use kranq.Fence.Defs.{Holder, Claim, Scope, scope_ref, FenceError, push_failed, Client}
use kranq.Fence.Git.{Git, Same, Moved, is_fence_ref, is_object, is_elsewhere}
use kranq.Fence.Ops.{Reply, ok, err, claim, advance, release, break_fence}

-- The error after which a push may still have landed.
abbrev pub sure : FenceError → Bool
sure push_failed = false
sure _ = true

-- A call of the client, as something that happens to the server.
pub data Call : Type 0 where
  claims : Client → Scope → Bytes → ℕ → Call
  advances : Client → Claim → Holder → Bytes → List Bytes → Call
  releases : Client → Claim → Call
  breaks : Client → Bytes → Bytes → Call

-- What a call answers: the object that its ref points at now, or an error.
pub data Verdict : Type 0 where
  done : Bytes → Verdict
  failed : FenceError → Verdict

abbrev pub verdict_of {ℓ} : {A : Type ℓ} → (A → Bytes) → Reply A → Verdict
verdict_of f (ok a) = done (f a)
verdict_of f (err e) = failed e

abbrev pub ref_of : (Bytes → Bytes) → Call → Bytes
ref_of digest (claims c s task now) = scope_ref digest s
ref_of digest (advances c cl h phase specs) = cl.ref
ref_of digest (releases c cl) = cl.ref
ref_of digest (breaks c ref expect) = ref

-- The object that the ref must point at for the call to do anything.
abbrev pub expected : Call → Bytes
expected (claims c s task now) = []
expected (advances c cl h phase specs) = cl.oid
expected (releases c cl) = cl.oid
expected (breaks c ref expect) = expect

-- Whether the call takes the fence or hands it on, or removes it.
abbrev pub frees : Call → Bool
frees (claims c s task now) = false
frees (advances c cl h phase specs) = false
frees (releases c cl) = true
frees (breaks c ref expect) = true

abbrev pub pushed_with : Call → List Bytes
pushed_with (advances c cl h phase specs) = specs
pushed_with _ = []

-- A call on a fence by its name, with an object that is none or named in full.
abbrev pub IsProper : (Bytes → Bytes) → Call → Type 0
IsProper digest k =
    (is_fence_ref (ref_of digest k) ≡ true)
    × (is_object (expected k) ≡ true)
    × (all is_elsewhere (pushed_with k) ≡ true)

module _ (G : Git) (encode : Holder → Option Bytes) (digest : Bytes → Bytes) where
  abbrev pub judged {ℓ} : {A : Type ℓ} → (A → Bytes) → G.World × Reply A → G.World × Verdict
  judged f (w, r) = (w, verdict_of f r)

  unfoldable pub perform : Call → G.World → G.World × Verdict
  unfolding claim advance release break_fence
  perform (claims c s task now) w = judged (λ p. p.0.oid) (claim G encode digest c w s task now)
  perform (advances c cl h phase specs) w =
      judged (λ p. p.oid) (advance G encode c w cl h phase specs)
  perform (releases c cl) w = judged (λ p. []) (release G c w cl)
  perform (breaks c ref expect) w = judged (λ p. []) (break_fence G c w ref expect)

  -- The specification: a call is one compare-and-swap of its fence. It swaps, to none if it removes
  -- the fence and to some object otherwise, or it fails and moves nothing; only after the one error that
  -- is not sure may a failed call have swapped.
  pub data Swap (k : Call) (t : Bytes → Bytes) (w : G.World) : Verdict → Type 0 where
    swapped :
        (new : Bytes)
        → Moved G t w (ref_of digest k) (expected k) new
        → empty new ≡ frees k
        → Swap k t w (done new)
    unmoved : (e : FenceError) → Same G t w → Swap k t w (failed e)
    unsure :
        (e : FenceError) (new : Bytes)
        → sure e ≡ false
        → Moved G t w (ref_of digest k) (expected k) new
        → empty new ≡ frees k
        → Swap k t w (failed e)

  abbrev pub SwapOf : Call → (Bytes → Bytes) → G.World × Verdict → Type 0
  SwapOf k t (w, v) = Swap k t w v

-- ===== src/Tests/Fence.antt =====
-- Claims of one fence in a git that keeps its refs in a list, and a run that leaves its fence.
use kranq.Base.{true, false, if◌then◌else◌, List, [], ◌∷◌, Option, none, some, ◌≡◌, refl, All}
use kranq.Base.Int.{pos}
use kranq.Base.Text.{Bytes, codes, same, has_prefix}
use kranq.Base.Strings.{has_byte, has_text, trim_space, cut}
use kranq.Fence.Defs.{Scope, scope_ref, Holder, Claim, Client, rejected}
use kranq.Fence.Git.{with_token, push_args, is_fence_ref, is_oid, is_elsewhere}
use kranq.Fence.Ops.{
  environment, holder_of, claim, claim_ref, init, commit, git, then_ask, output, show, adopt,
  read_holder, release,
}
use kranq.Fence.Calls.{Call, claims, advances, perform, ref_of, SwapOf, IsProper}
use kranq.Fence.Laws.{perform-Swap}
use kranq.Fence.Exclusion.{claim-OneHolder, NoneClears, OneHolder, is_done}
use kranq.Fence.Memory.{memory_git, memory_git-IsLawful, tip_in, run_git, first_oid}
use kranq.Fence.Settle.{HeldFence, RunResult, settle_fence}
use kranq.Fence.Settle.Fate.{Fate, settle_fence-Fate}

abbrev here : Client
here = record { dir = codes "fence"; url = codes "origin"; token = []; node = codes "n1" }

abbrev there : Client
there = record { dir = codes "fence"; url = codes "origin"; token = []; node = codes "n2" }

abbrev main : Scope
main = record { kind = codes "maintenance"; repo = codes "dx"; branch = codes "main" }

abbrev digest : Bytes → Bytes
digest s = codes "0123456789abcdef"

abbrev encode : Holder → Option Bytes
encode h = some h.task

abbrev claim_here : Call
claim_here = claims here main (codes "t1") 10

abbrev main_ref : Bytes
main_ref = codes "refs/kranq/fence/0123456789abcdef"

abbrev own_claim : Claim
own_claim = record { ref = main_ref; oid = first_oid }

abbrev held : HeldFence
held = record {
  client = here;
  claim = own_claim;
  holder = holder_of memory_git here main (codes "t1") 10;
}

abbrev decode : Bytes → Option Holder
decode b =
    if same b (codes "t1") then some (holder_of memory_git here main (codes "t1") 10) else none

abbrev failed_run : RunResult
failed_run = record { exit_code = pos 1; fence_ref = []; fence_held = false }

claim_here-IsProper : IsProper digest claim_here
unfolding is_fence_ref scope_ref has_prefix is_oid
claim_here-IsProper = (refl, refl, refl)

perform-Swap_example :
    SwapOf memory_git encode digest claim_here
      (memory_git.tip [])
      (perform memory_git encode digest claim_here [])
perform-Swap_example =
    perform-Swap memory_git encode digest memory_git-IsLawful claim_here [] claim_here-IsProper

claim_done : is_done (perform memory_git encode digest claim_here []).1 ≡ true
unfolding perform claim claim_ref init commit git output then_ask run_git with_token environment
    holder_of scope_ref push_args trim_space rejected same cut tip_in is_oid
claim_done = refl

-- A second client asks for the same fence, the first advances it, the second asks again, and the
-- first asks again for what it has.
abbrev later : List Call
later =
    claims there main (codes "t2") 11
    ∷ advances here own_claim (holder_of memory_git here main (codes "t1") 10) (codes "pushed")
        (codes "HEAD:refs/heads/x" ∷ [])
    ∷ claims there main (codes "t2") 12
    ∷ claims here main (codes "t1") 10
    ∷ []

later_clear_nothing : NoneClears memory_git encode digest (ref_of digest claim_here) later
unfolding scope_ref same
later_clear_nothing = (refl, (refl, (refl, (refl, tt))))

later-IsProper : All (IsProper digest) (claim_here ∷ later)
unfolding is_fence_ref scope_ref has_prefix is_oid is_elsewhere cut has_byte has_text
later-IsProper = (
  (refl, refl, refl),
  ((refl, refl, refl), ((refl, refl, refl), ((refl, refl, refl), ((refl, refl, refl), tt)))),
)

claim-OneHolder_example :
    OneHolder memory_git encode digest
      (ref_of digest claim_here)
      (perform memory_git encode digest claim_here []).0
      later
claim-OneHolder_example =
    claim-OneHolder memory_git encode digest memory_git-IsLawful [] claim_here later refl claim_done
      later-IsProper later_clear_nothing

main_is_fence : is_fence_ref main_ref ≡ true
unfolding is_fence_ref has_prefix
main_is_fence = refl

abbrev claimed_world : List (Bytes × Bytes)
claimed_world = (main_ref, first_oid) ∷ []

settle_fence-Fate_example :
    Fate memory_git
      (memory_git.tip claimed_world)
      held
      failed_run
      (settle_fence memory_git decode claimed_world (some held) failed_run)
settle_fence-Fate_example =
    settle_fence-Fate memory_git encode decode memory_git-IsLawful claimed_world held failed_run
      main_is_fence refl

-- The record is read, the fence is the run's own, and it is removed.
settle_removes :
    (settle_fence memory_git decode claimed_world (some held) failed_run).1.fence_held ≡ false
unfolding settle_fence adopt show read_holder then_ask output git init run_git with_token
    environment holder_of release push_args trim_space same cut tip_in is_oid is_fence_ref rejected
settle_removes = refl

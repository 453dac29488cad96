-- ===== src/Fence/Defs.antt =====
-- internal/fence/fence.go: the types of the fence, and how a fence is named.
use kranq.Base.{ℕ, Bool, [], ◌∷◌, ◌++◌, any}
use kranq.Base.Text.{Bytes, codes}
use kranq.Base.Strings.{has_text}

abbrev pub namespace : Bytes
namespace = codes "refs/kranq/fence"

pub record Scope : Type 0 where
  pub kind : Bytes
  pub repo : Bytes
  pub branch : Bytes

-- `Scope.Ref`: `digest` prints the first eight bytes of sha256 in hex.
unfoldable pub scope_ref : (Bytes → Bytes) → Scope → Bytes
scope_ref digest s = namespace ++ b'/' ∷ digest (s.kind ++ 0 ∷ (s.repo ++ 0 ∷ s.branch))

pub record Holder : Type 0 where
  pub task : Bytes
  pub node : Bytes
  pub kind : Bytes
  pub repo : Bytes
  pub branch : Bytes
  pub phase : Bytes
  pub claimed_at : ℕ

-- An oid that is empty is none.
pub record Claim : Type 0 where
  pub ref : Bytes
  pub oid : Bytes

pub record Entry : Type 0 where
  pub ref : Bytes
  pub oid : Bytes
  pub holder : Holder

pub data FenceError : Type 0 where
  held broken no_atomic no_fence : FenceError
  not_prepared tree_not_written record_not_written not_read not_a_record push_failed : FenceError

pub record Client : Type 0 where
  pub dir : Bytes
  pub url : Bytes
  pub token : Bytes
  pub node : Bytes

abbrev pub no_holder : Holder
no_holder = record {
  task = [];
  node = [];
  kind = [];
  repo = [];
  branch = [];
  phase = [];
  claimed_at = 0;
}

-- What git prints when the server refuses a push.
unfoldable pub rejected : Bytes → Bool
unfolding has_text
rejected stderr = any (has_text stderr) (
    codes "(stale info)"
    ∷ codes "[rejected]"
    ∷ codes "[remote rejected]"
    ∷ codes "(atomic push failed)"
    ∷ [])

unfoldable pub lacks_atomic : Bytes → Bool
unfolding has_text
lacks_atomic stderr = has_text stderr (codes "does not support --atomic")

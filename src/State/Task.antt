-- ===== src/State/Task.antt =====
-- internal/state/task.go. A task has the fields that the modelled code reads or writes. Times are
-- nanoseconds since Go's zero time, and a zero time is 0; a nil *time.Time is `none`.
use kranq.Base.{ℕ, Bool, true, false, ◌||◌, List, [], ◌∷◌, Option, if◌then◌else◌}
use kranq.Base.Int.{ℤ}
use kranq.Base.Text.{Bytes, codes, same, empty}

pub data Status : Type 0 where
  queued blocked running succeeded failed cancelled lost : Status

pub data Blocker : Type 0 where
  nothing claude memory slots : Blocker

pub record Task : Type 0 where
  pub id : Bytes
  pub status : Status
  pub blocked_on : Blocker
  pub exit_code : ℤ
  pub error : Bytes
  pub attempts : ℕ
  pub needs_claude : Bool
  pub memory_bytes : ℤ
  pub cpus : ℤ
  pub spec_yaml : Bytes
  pub env : List (Bytes × Bytes)
  pub exec_pgid : ℕ
  pub created_at : ℕ
  pub started_at : Option ℕ
  pub finished_at : Option ℕ
  pub lost_at : Option ℕ
  pub lost_reason : Bytes

-- `Terminal`, as a function of the status.
abbrev pub is_terminal : Status → Bool
is_terminal succeeded = true
is_terminal failed = true
is_terminal cancelled = true
is_terminal lost = true
is_terminal _ = false

abbrev pub terminal : Task → Bool
terminal t = is_terminal t.status

abbrev pub is_queued : Status → Bool
is_queued queued = true
is_queued _ = false

abbrev pub is_blocked : Status → Bool
is_blocked blocked = true
is_blocked _ = false

abbrev pub is_running : Status → Bool
is_running running = true
is_running _ = false

abbrev pub pending : Task → Bool
pending t = is_queued t.status || is_blocked t.status

-- A Go map of strings, read at a key; a missing key reads as the empty string.
unfoldable pub env_get : List (Bytes × Bytes) → Bytes → Bytes
env_get [] k = []
env_get ((j, v) ∷ m) k = if same j k then v else env_get m k

-- The map after m[k] = v.
unfoldable pub env_set : List (Bytes × Bytes) → Bytes → Bytes → List (Bytes × Bytes)
env_set [] k v = (k, v) ∷ []
env_set ((j, w) ∷ m) k v = if same j k then (j, v) ∷ m else (j, w) ∷ env_set m k v

-- svc.ClaudeTokenVar
abbrev pub claude_token_var : Bytes
claude_token_var = codes "CLAUDE_CODE_OAUTH_TOKEN"

-- `ownToken`: the run spends the machine's claude usage, not the caller's.
abbrev pub own_token : Task → Bool
own_token t = empty (env_get t.env claude_token_var)

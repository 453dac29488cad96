-- ===== src/Gitsrv/Options.antt =====
-- internal/gitsrv/options.go: what a push asks for. Unpacking base64 and gzip is a parameter.
pub mod Laws
use kranq.Base.{
  ℕ, zero, suc, ◌+◌, Bool, true, false, not, ◌&&◌, ◌||◌, List, [], ◌∷◌, ◌++◌, Option, none, some,
  if◌then◌else◌, ◌==◌, ltb, length, map,
}
use kranq.Base.Text.{Bytes, codes, empty, same, has_prefix}
use kranq.Base.Strings.{cut, trim_prefix}
use kranq.State.Task.{env_set}

pub record Request : Type 0 where
  pub task : Bytes
  pub spec : Bytes
  pub label : Bytes
  pub repo : Bytes
  pub branch : Bytes
  pub keep : Bytes
  pub detach : Bool
  pub env : List (Bytes × Bytes)
  pub unknown : List Bytes

abbrev pub env_prefix : Bytes
env_prefix = codes "env."

pub data OptionError : Type 0 where
  no_variable no_env_value no_task unknown_options : OptionError
  not_packed too_large empty_spec : OptionError

pub data Parsed {ℓ} (A : Type ℓ) : Type ℓ where
  ok : A → Parsed A
  err : OptionError → Parsed A

abbrev pub max_spec : ℕ
max_spec = 1_048_576

abbrev pub sized : Option Bytes → Parsed Bytes
sized none = err not_packed
sized (some spec) =
    if ltb max_spec (length spec)
    then err too_large
    else if empty spec
    then err empty_spec
    else ok spec

-- `decodeSpec`, given what unpacks a text.
unfoldable pub decode_spec : (Bytes → Option Bytes) → Bytes → Parsed Bytes
decode_spec unpack value = sized (unpack value)

-- The loop of `unescape`; the number says how many bytes to skip.
unfoldable pub unescape_loop : ℕ → Bytes → Bytes
unescape_loop k [] = []
unescape_loop (suc k) (c ∷ s) = unescape_loop k s
unescape_loop zero (c ∷ []) = c ∷ []
unescape_loop zero (c ∷ d ∷ s) = elim (c == b'\\') [
  | false ↦ c ∷ unescape_loop zero (d ∷ s)
  | true ↦ elim (d == b'n') [
    | true ↦ b'\n' ∷ unescape_loop 1 (d ∷ s)
    | false ↦ elim (d == b'\\') [
      | true ↦ b'\\' ∷ unescape_loop 1 (d ∷ s)
      | false ↦ c ∷ unescape_loop zero (d ∷ s)
    ]
  ]
]

unfoldable pub unescape : Bytes → Bytes
unfolding unescape_loop
unescape v = unescape_loop zero v

abbrev pub set_spec : Request → Parsed Bytes → Parsed Request
set_spec req (err e) = err e
set_spec req (ok spec) = ok (record req { spec = spec })

-- req.Env[key] = value
abbrev pub set_env : Request → Bytes → Bytes → Request
set_env req key value = record req { env = env_set req.env key value }

module _ (unpack : Bytes → Option Bytes) where
  -- One turn of the loop of `ParseOptions`, given the option cut at its first "=".
  unfoldable pub option_step : Request → Bytes × Bytes × Bool → Parsed Request
  unfolding decode_spec unescape has_prefix trim_prefix same
  option_step req (name, value, has_value) =
      if has_prefix name env_prefix
      then (if empty (trim_prefix name env_prefix)
          then err no_variable
          else if not has_value
          then err no_env_value
          else ok (set_env req (trim_prefix name env_prefix) value))
      else if same name (codes "task_file")
      then ok (record req { task = value })
      else if same name (codes "task")
      then ok (record req { spec = unescape value })
      else if same name (codes "spec")
      then set_spec req (decode_spec unpack value)
      else if same name (codes "label")
      then ok (record req { label = value })
      else if same name (codes "repo")
      then ok (record req { repo = value })
      else if same name (codes "branch")
      then ok (record req { branch = value })
      else if same name (codes "keep-vm")
      then ok (record req { keep = value })
      else if same name (codes "detach")
      then ok (record req { detach = not has_value || same value (codes "true") })
      else ok (record req { unknown = req.unknown ++ name ∷ [] })

  unfoldable pub options_loop : Request → List Bytes → Parsed Request
  unfolding option_step cut
  options_loop req [] = ok req
  options_loop req (opt ∷ opts) = elim (option_step req (cut b'=' opt)) [
    | ok next ↦ options_loop next opts
    | err e ↦ err e
  ]

abbrev pub no_request : Request
no_request = record {
  task = [];
  spec = [];
  label = [];
  repo = [];
  branch = [];
  keep = [];
  detach = false;
  env = [];
  unknown = [];
}

-- What `ParseOptions` tests after its loop.
unfoldable pub complete : Parsed Request → Parsed Request
complete (err e) = err e
complete (ok req) =
    if empty req.task && empty req.spec
    then err no_task
    else (elim req.unknown [ [] ↦ ok req | _ ∷ _ ↦ err unknown_options ])

unfoldable pub parse_options : (Bytes → Option Bytes) → List Bytes → Parsed Request
unfolding complete options_loop
parse_options unpack options = complete (options_loop unpack no_request options)

abbrev pub redact_cut : Bytes × Bytes × Bool → Bytes
redact_cut (name, value, found) = if not found then name else name ++ codes "=<redacted>"

-- `redact` and `Redact`
unfoldable pub redact : Bytes → Bytes
unfolding cut
redact opt = redact_cut (cut b'=' opt)

unfoldable pub redact_all : List Bytes → List Bytes
unfolding redact
redact_all options = map redact options

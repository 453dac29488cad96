-- ===== src/Gitsrv/Ssh.antt =====
-- internal/gitsrv/ssh.go: the command that a key may run. The loop over flags takes fuel, one more
-- than there are bytes.
pub mod Allowed
pub mod Flags
use kranq.Base.{
  ℕ, zero, suc, ◌+◌, ◌≤◌, ◌<◌, Bool, true, false, not, ◌&&◌, ◌||◌, List, [], ◌∷◌, ◌++◌, Option,
  none, some, if◌then◌else◌, ◌==◌, length, ◌≡◌, ◌≢◌, refl, ap, ◌∙◌, arith, Bool-cases, ◌⊎◌, inl,
  inr,
}
use kranq.Base.Text.{Bytes, codes, empty, same, has_prefix}
use kranq.Base.Strings.{cut, trim, trim_space, has_suffix, has_byte}
use kranq.Gitsrv.Quote.{Unquoted, unquote, QuoteError}
use kranq.Gitsrv.Quote
use kranq.Gitsrv.Repo.{valid_repo, plain_name, is_slash, IsPlain}

pub record SshCommand : Type 0 where
  pub verb : Bytes
  pub repo : Bytes

abbrev pub verb_receive : Bytes
verb_receive = codes "git-receive-pack"

abbrev pub verb_upload : Bytes
verb_upload = codes "git-upload-pack"

abbrev pub writes : SshCommand → Bool
writes c = same c.verb verb_receive

pub data SshError : Type 0 where
  no_shell not_git not_allowed no_value bad_repo more_parts out_of_fuel : SshError
  bad_quotes : QuoteError → SshError

pub data Parsed {ℓ} (A : Type ℓ) : Type ℓ where
  ok : A → Parsed A
  err : SshError → Parsed A

unfoldable pub finish_path : Bytes → Unquoted → Parsed SshCommand
unfolding valid_repo has_byte trim
finish_path verb (Quote.err e) = err (bad_quotes e)
finish_path verb (Quote.ok path) =
    if has_byte b'/' (trim is_slash path)
    then err more_parts
    else if not (valid_repo (trim is_slash path))
    then err bad_repo
    else ok (record { verb = verb; repo = plain_name (trim is_slash path) })

unfoldable pub finish : Bytes → Bytes → Parsed SshCommand
unfolding finish_path unquote trim_space
finish verb rest = finish_path verb (unquote (trim_space rest))

-- What a turn of the loop over flags does with a word and what follows it: it ends with the verb and
-- the rest, goes on with them, or refuses.
pub data Turn : Type 0 where
  done again : Bytes → Bytes → Turn
  refuse : SshError → Turn

abbrev pub after_value : Bytes → Bytes × Bytes × Bool → Turn
after_value verb (value, after, true) = again verb after
after_value verb (value, after, false) = refuse no_value

abbrev pub flag : Bytes → Bytes × Bytes × Bool → Turn
flag verb (word, remainder, found) =
    if same word (codes "--upload")
    then again verb_upload remainder
    else if has_prefix word (codes "--name=")
    then again verb remainder
    else if same word (codes "--name")
    then after_value verb (cut b' ' (trim_space remainder))
    else refuse not_allowed

unfoldable pub turn : Bytes → Bytes → Turn
unfolding cut trim_space has_prefix same
turn verb rest =
    if not (has_prefix (trim_space rest) (codes "-"))
    then done verb (trim_space rest)
    else flag verb (cut b' ' (trim_space rest))

unfoldable pub take_flags : ℕ → Bytes → Bytes → Parsed (Bytes × Bytes)
take_flags zero verb rest = err out_of_fuel
take_flags (suc fuel) verb rest = elim (turn verb rest) [
  | done v r ↦ ok (v, r)
  | again v r ↦ take_flags fuel v r
  | refuse e ↦ err e
]

abbrev pub finish_flags : Parsed (Bytes × Bytes) → Parsed SshCommand
finish_flags (err e) = err e
finish_flags (ok (verb, rest)) = finish verb rest

-- kranq itself as the program: its subcommand, and flags before the path.
unfoldable pub parse_kranq : Bytes × Bytes × Bool → Parsed SshCommand
unfolding finish take_flags same
parse_kranq (sub, remainder, false) = err not_git
parse_kranq (sub, remainder, true) =
    if same sub (codes "git-receive")
    then finish_flags (take_flags (suc (length remainder)) verb_receive remainder)
    else if same sub (codes "git-upload")
    then finish_flags (take_flags (suc (length remainder)) verb_upload remainder)
    else err not_allowed

unfoldable pub parse_verb : Bytes → Bytes → Parsed SshCommand
unfolding finish parse_kranq cut trim_space same has_suffix
parse_verb verb rest =
    if has_suffix verb (codes "/kranq") || same verb (codes "kranq")
    then parse_kranq (cut b' ' (trim_space rest))
    else if not (same verb verb_receive) && not (same verb verb_upload)
    then err not_allowed
    else finish verb rest

-- `git receive-pack`, in two words.
unfoldable pub parse_git : Bytes × Bytes × Bool → Parsed SshCommand
unfolding parse_verb
parse_git (sub, remainder, false) = err not_git
parse_git (sub, remainder, true) = parse_verb (codes "git-" ++ sub) remainder

unfoldable pub parse_words : Bytes × Bytes × Bool → Parsed SshCommand
unfolding parse_git parse_verb cut trim_space same
parse_words (verb, rest, false) = err not_git
parse_words (verb, rest, true) =
    if same verb (codes "git") then parse_git (cut b' ' (trim_space rest)) else parse_verb verb rest

unfoldable pub parse_ssh_command : Bytes → Parsed SshCommand
unfolding parse_words cut trim_space
parse_ssh_command original =
    if empty (trim_space original)
    then err no_shell
    else parse_words (cut b' ' (trim_space original))

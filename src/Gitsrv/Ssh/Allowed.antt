-- ===== src/Gitsrv/Ssh/Allowed.antt =====
-- internal/gitsrv/ssh.go: which commands of a key are accepted.
use kranq.Base.{
  ℕ, zero, suc, Bool, true, false, ◌||◌, ◌++◌, if◌then◌else◌, length, ◌≡◌, refl, Bool-cases, ◌⊎◌,
  inl, inr, none, some, subst,
}
use kranq.Base.Text.{Bytes, codes, empty, same, same_iff, has_prefix}
use kranq.Base.Strings.{cut, trim, trim_space, has_suffix, has_byte}
use kranq.Gitsrv.Quote.{Unquoted, unquote, shell_quote, unquote-shell_quote, escape}
use kranq.Gitsrv.Quote
use kranq.Gitsrv.Repo.{valid_repo, plain_name, is_slash, IsPlain, OnSome, checked-IsPlain}
use kranq.Gitsrv.Ssh.{
  SshCommand, Parsed, ok, err, verb_receive, verb_upload, finish_path, finish, Turn, done, again,
  refuse, turn, flag, after_value, take_flags, finish_flags, parse_kranq, parse_verb, parse_git,
  parse_words, parse_ssh_command,
}

abbrev pub IsGitVerb : Bytes → Type 0
IsGitVerb verb = (verb ≡ verb_receive) ⊎ (verb ≡ verb_upload)

abbrev pub OnOk {ℓ} : {A : Type ℓ} → (A → Type 0) → Parsed A → Type 0
OnOk P (ok a) = P a
OnOk P (err e) = Unit

abbrev pub IsAllowed : SshCommand → Type 0
IsAllowed c = IsGitVerb c.verb × IsPlain c.repo

finish_path-IsAllowed :
    (verb : Bytes) (u : Unquoted) → IsGitVerb verb → OnOk IsAllowed (finish_path verb u)
unfolding finish_path
finish_path-IsAllowed verb (Quote.err e) v = tt
finish_path-IsAllowed verb (Quote.ok path) v =
    elim (Bool-cases (has_byte b'/' (trim is_slash path))) [
      | inl h ↦ rw h tt
      | inr h ↦ rw h (elim (Bool-cases (valid_repo (trim is_slash path))) [
        | inl r ↦ rw r (
          v,
          subst (λ b. OnSome IsPlain (if b then some (plain_name (trim is_slash path)) else none)) r
              (checked-IsPlain (trim is_slash path)),
        )
        | inr r ↦ rw r tt
      ])
    ]

finish-IsAllowed : (verb rest : Bytes) → IsGitVerb verb → OnOk IsAllowed (finish verb rest)
unfolding finish
finish-IsAllowed verb rest v = finish_path-IsAllowed verb (unquote (trim_space rest)) v

-- A turn of the loop over flags keeps the verb or makes it an upload.
abbrev TurnsToGit : Turn → Type 0
TurnsToGit (done v r) = IsGitVerb v
TurnsToGit (again v r) = IsGitVerb v
TurnsToGit (refuse e) = Unit

after_value-TurnsToGit :
    (verb : Bytes) (c : Bytes × Bytes × Bool) → IsGitVerb verb → TurnsToGit (after_value verb c)
after_value-TurnsToGit verb (value, after, true) v = v
after_value-TurnsToGit verb (value, after, false) v = tt

flag-TurnsToGit :
    (verb : Bytes) (c : Bytes × Bytes × Bool) → IsGitVerb verb → TurnsToGit (flag verb c)
flag-TurnsToGit verb (word, remainder, found) v = elim (Bool-cases (same word (codes "--upload"))) [
  | inl h ↦ rw h (inr refl)
  | inr h ↦ rw h (elim (Bool-cases (has_prefix word (codes "--name="))) [
    | inl p ↦ rw p v
    | inr p ↦ rw p (elim (Bool-cases (same word (codes "--name"))) [
      | inl n ↦ rw n (after_value-TurnsToGit verb (cut b' ' (trim_space remainder)) v)
      | inr n ↦ rw n tt
    ])
  ])
]

turn-TurnsToGit : (verb rest : Bytes) → IsGitVerb verb → TurnsToGit (turn verb rest)
unfolding turn
turn-TurnsToGit verb rest v = elim (Bool-cases (has_prefix (trim_space rest) (codes "-"))) [
  | inl h ↦ rw h (flag-TurnsToGit verb (cut b' ' (trim_space rest)) v)
  | inr h ↦ rw h v
]

abbrev GitVerbOf : Bytes × Bytes → Type 0
GitVerbOf p = IsGitVerb p.0

take_flags-GitVerbOf :
    (fuel : ℕ) (verb rest : Bytes) → IsGitVerb verb → OnOk GitVerbOf (take_flags fuel verb rest)
unfolding take_flags
take_flags-GitVerbOf zero verb rest v = tt
take_flags-GitVerbOf (suc fuel) verb rest v =
    go (λ w r g. take_flags-GitVerbOf fuel w r g) (turn verb rest) (turn-TurnsToGit verb rest v)
  where
    go :
        ((w r : Bytes) → IsGitVerb w → OnOk GitVerbOf (take_flags fuel w r))
        → (t : Turn) → TurnsToGit t
        → OnOk GitVerbOf
            (elim t [ done v r ↦ ok (v, r) | again v r ↦ take_flags fuel v r | refuse e ↦ err e ])
    go ih (done w r) g = g
    go ih (again w r) g = ih w r g
    go ih (refuse e) g = tt

finish_flags-IsAllowed :
    (p : Parsed (Bytes × Bytes)) → OnOk GitVerbOf p → OnOk IsAllowed (finish_flags p)
finish_flags-IsAllowed (ok (verb, rest)) v = finish-IsAllowed verb rest v
finish_flags-IsAllowed (err e) v = tt

parse_kranq-IsAllowed : (c : Bytes × Bytes × Bool) → OnOk IsAllowed (parse_kranq c)
unfolding parse_kranq
parse_kranq-IsAllowed (sub, remainder, false) = tt
parse_kranq-IsAllowed (sub, remainder, true) = elim (Bool-cases (same sub (codes "git-receive"))) [
  | inl h ↦ rw h (
      finish_flags-IsAllowed _
        (take_flags-GitVerbOf (suc (length remainder)) verb_receive remainder (inl refl)))
  | inr h ↦ rw h (elim (Bool-cases (same sub (codes "git-upload"))) [
    | inl u ↦ rw u (
        finish_flags-IsAllowed _
          (take_flags-GitVerbOf (suc (length remainder)) verb_upload remainder (inr refl)))
    | inr u ↦ rw u tt
  ])
]

parse_verb-IsAllowed : (verb rest : Bytes) → OnOk IsAllowed (parse_verb verb rest)
unfolding parse_verb
parse_verb-IsAllowed verb rest =
    elim (Bool-cases (has_suffix verb (codes "/kranq") || same verb (codes "kranq"))) [
      | inl h ↦ rw h (parse_kranq-IsAllowed (cut b' ' (trim_space rest)))
      | inr h ↦ rw h (elim (Bool-cases (same verb verb_receive)) [
        | inl r ↦ rw r (finish-IsAllowed verb rest (inl ((same_iff verb verb_receive).0 r)))
        | inr r ↦ rw r (elim (Bool-cases (same verb verb_upload)) [
          | inl u ↦ rw u (finish-IsAllowed verb rest (inr ((same_iff verb verb_upload).0 u)))
          | inr u ↦ rw u tt
        ])
      ])
    ]

parse_git-IsAllowed : (c : Bytes × Bytes × Bool) → OnOk IsAllowed (parse_git c)
unfolding parse_git
parse_git-IsAllowed (sub, remainder, false) = tt
parse_git-IsAllowed (sub, remainder, true) = parse_verb-IsAllowed (codes "git-" ++ sub) remainder

parse_words-IsAllowed : (c : Bytes × Bytes × Bool) → OnOk IsAllowed (parse_words c)
unfolding parse_words
parse_words-IsAllowed (verb, rest, false) = tt
parse_words-IsAllowed (verb, rest, true) = elim (Bool-cases (same verb (codes "git"))) [
  | inl h ↦ rw h (parse_git-IsAllowed (cut b' ' (trim_space rest)))
  | inr h ↦ rw h (parse_verb-IsAllowed verb rest)
]

-- Whatever command a client asks for, one that is accepted is receive-pack or upload-pack, and its
-- repository is one plain segment: not empty, no slash, no "..", at most 64 bytes.
pub parse_ssh_command-IsAllowed : (original : Bytes) → OnOk IsAllowed (parse_ssh_command original)
unfolding parse_ssh_command
parse_ssh_command-IsAllowed original = elim (Bool-cases (empty (trim_space original))) [
  | inl h ↦ rw h tt
  | inr h ↦ rw h (parse_words-IsAllowed (cut b' ' (trim_space original)))
]

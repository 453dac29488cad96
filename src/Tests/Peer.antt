-- ===== src/Tests/Peer.antt =====
-- A registry of two peers, what pushes ask for, and a set of tokens.
use kranq.Base.{
  ℕ, zero, suc, ◌%◌, ◌+◌, ◌≤◌, ◌<◌, ◌-◌, Bool, true, false, not, List, [], ◌∷◌, ◌++◌, Option, none,
  some, ◌≡◌, ◌≢◌, ◌⊎◌, refl, inl, inr, arith, All, length, take, any, map, select, ltb, ==_refl,
}
use kranq.Base.Text.{Bytes, codes}
use kranq.Base.Strings.{before, has_byte}
use kranq.Peer.{Peer, add, remove}
use kranq.Peer.Counts.{IsRegistry, OnOk}
use kranq.Peer.Laws.{add-IsRegistry, remove-IsRegistry}
use kranq.Gitsrv.Quote.{unquote, shell_quote, ok, unquote-shell_quote}
use kranq.Gitsrv.Ssh.{parse_ssh_command, take_flags, verb_receive}
use kranq.Gitsrv.Ssh.Allowed
use kranq.Gitsrv.Ssh.Allowed.{parse_ssh_command-IsAllowed, IsAllowed}
use kranq.Gitsrv.Ssh.Flags.{take_flags-Ends, Ends}
use kranq.Gitsrv.Options.Laws.{Option2}
use kranq.Gitsrv.Retain.{expired, expired-ref_of, ref_of, RunRef}
use kranq.Token.{Token, token_of, verify}
use kranq.Token.Laws.{IsTokenSet, verify-revoke, verify-create_token}

abbrev first : Peer
first = record {
  name = codes "alpha";
  ssh = codes "me@host:22";
  bin = codes "~/kranq";
  default = true;
}

abbrev second : Peer
second = record { name = codes "beta"; ssh = codes "host2"; bin = []; default = true }

no_peers-IsRegistry : IsRegistry []
no_peers-IsRegistry = record { one_name = λ n. omega arith; one_default = refl }

-- The registry that adding the first peer gives.
one_peer-IsRegistry : IsRegistry (first ∷ [])
unfolding add kranq.Base.Text.same
one_peer-IsRegistry = add-IsRegistry (record first { default = false }) [] no_peers-IsRegistry

add-IsRegistry_example : OnOk IsRegistry (add second (first ∷ []))
add-IsRegistry_example = add-IsRegistry second (first ∷ []) one_peer-IsRegistry

remove-IsRegistry_example : OnOk IsRegistry (remove (codes "alpha") (first ∷ []))
remove-IsRegistry_example = remove-IsRegistry (codes "alpha") (first ∷ []) one_peer-IsRegistry

unquote-shell_quote_example : unquote (shell_quote (codes "it's")) ≡ ok (codes "it's")
unquote-shell_quote_example = unquote-shell_quote (codes "it's")

parse_ssh_command-IsAllowed_example :
    Allowed.OnOk IsAllowed (parse_ssh_command (codes "kranq git-receive --upload 'dx.git'"))
parse_ssh_command-IsAllowed_example =
    parse_ssh_command-IsAllowed (codes "kranq git-receive --upload 'dx.git'")

take_flags-Ends_example : Ends (take_flags 20 verb_receive (codes "--name a 'dx.git'"))
take_flags-Ends_example = take_flags-Ends 20 verb_receive (codes "--name a 'dx.git'") (omega arith)

abbrev script : Bytes
script = codes "run: |" ++ (b'\n' ∷ codes "  echo \\n")

abbrev options : List Option2
options =
    (codes "env.TOKEN", codes "s3cret", codes "other") ∷ (codes "label", codes "a", codes "b") ∷ []

-- One decimal digit for a time: enough for ten seconds.
abbrev digit : ℕ → Bytes
digit t = (t % 10 + b'0') ∷ []

abbrev runs : List RunRef
runs =
    record { above = codes "refs/heads/task"; time = 2; rest = codes "-ab" }
    ∷ record { above = codes "refs/heads/ok"; time = 9; rest = codes "-cd" }
    ∷ []

digit_keeps_order : (a b : ℕ) → a < 10 → b < 10 → before (digit a) (digit b) ≡ ltb a b
digit_keeps_order a b h k = rw (one_digit a h, one_digit b k) (ground arith)
  where
    one_digit : (n : ℕ) → n < 10 → n % 10 ≡ n
    one_digit n h = omega arith

expired-ref_of_example :
    expired digit (map (ref_of digit) runs) 9 6
    ≡ map (ref_of digit) (select (λ (r : RunRef). ltb r.time (9 - 6)) runs)
unfolding has_byte
expired-ref_of_example =
    expired-ref_of digit 10 (λ a b h k. refl) digit_keeps_order runs 9 6 (omega arith)
      ((omega arith, refl), ((omega arith, refl), tt))

-- A hash that keeps its text, and a set of one token.
abbrev plain_hash : Bytes → Bytes
plain_hash s = s

abbrev tokens : List Token
tokens = token_of plain_hash (codes "ci") (codes "kranq_00112233") 5 ∷ []

tokens-IsTokenSet : IsTokenSet tokens
tokens-IsTokenSet n = ground arith

verify-revoke_example : verify plain_hash (codes "kranq_00112233") [] ≢ some (codes "ci")
unfolding kranq.Token.revoke kranq.Base.Text.same
verify-revoke_example =
    verify-revoke plain_hash (codes "ci") (codes "kranq_00112233") tokens [] tokens-IsTokenSet refl

abbrev more_tokens : List Token
more_tokens =
    token_of plain_hash (codes "cd") (codes "kranq_44556677") 6
    ∷ token_of plain_hash (codes "ci") (codes "kranq_00112233") 5
    ∷ []

verify-create_token_example :
    IsTokenSet more_tokens
    × (verify plain_hash (codes "kranq_44556677") more_tokens ≡ some (codes "cd"))
unfolding kranq.Token.create_token kranq.Base.Text.same
verify-create_token_example =
    verify-create_token plain_hash (codes "cd") (codes "kranq_44556677") 6 (some (codes "44556677"))
      tokens more_tokens tokens-IsTokenSet refl refl

-- ===== src/Token.antt =====
-- internal/token/token.go: the set of access tokens. sha256 with its rendering in hex (`hash_of`)
-- and the rendering of random bytes are parameters, and a time
-- is a number of whole seconds; the file (Load, Save) is not modelled.
pub mod Laws
use kranq.Base.{
  ℕ, ◌+◌, Bool, true, false, not, List, [], ◌∷◌, ◌++◌, Option, none, some, if◌then◌else◌, length,
  take, any,
}
use kranq.Base.Text.{Bytes, codes, same, has_prefix}
use kranq.Base.Strings.{is_label, before}

abbrev pub prefix : Bytes
prefix = codes "kranq_"

abbrev pub display_len : ℕ
display_len = 8

pub record Token : Type 0 where
  pub name : Bytes
  pub display : Bytes
  pub hash : Bytes
  pub created : ℕ
  pub last_used : Option ℕ

pub data TokenError : Type 0 where
  bad_name exists no_random not_found : TokenError

pub data Outcome {ℓ} (A : Type ℓ) : Type ℓ where
  ok : A → Outcome A
  err : TokenError → Outcome A

abbrev pub has_name : Bytes → Token → Bool
has_name name t = same t.name name

-- sort.Slice by name, for names that differ.
unfoldable pub insert_token : Token → List Token → List Token
insert_token t [] = t ∷ []
insert_token t (u ∷ us) =
    let rest = insert_token t us in if before u.name t.name then u ∷ rest else t ∷ u ∷ us

unfoldable pub sort_tokens : List Token → List Token
unfolding insert_token
sort_tokens [] = []
sort_tokens (t ∷ ts) = insert_token t (sort_tokens ts)

-- The set without the first token of that name.
unfoldable pub drop_token : Bytes → List Token → List Token
drop_token name [] = []
drop_token name (t ∷ ts) =
    let rest = drop_token name ts in if same t.name name then ts else t ∷ rest

unfoldable pub revoke : Bytes → List Token → Outcome (List Token)
unfolding drop_token
revoke name ts = if any (has_name name) ts then ok (drop_token name ts) else err not_found

-- `Touch`: the first token of that name was used now.
unfoldable pub touch : Bytes → ℕ → List Token → List Token
touch name at [] = []
touch name at (t ∷ ts) =
    let rest = touch name at ts in
    if same t.name name then record t { last_used = some at } ∷ ts else t ∷ rest

module _ (hash_of : Bytes → Bytes) where
  abbrev pub token_of : Bytes → Bytes → ℕ → Token
  token_of name secret at = record {
    name = name;
    display = take (length prefix + display_len) secret;
    hash = hash_of secret;
    created = at;
    last_used = none;
  }

  -- `Create`, given what the source of random bytes answers, in hex: the set and the secret.
  abbrev pub created_with : Bytes → ℕ → List Token → Option Bytes → Outcome (List Token × Bytes)
  created_with name at ts none = err no_random
  created_with name at ts (some raw) =
      ok (sort_tokens (ts ++ token_of name (prefix ++ raw) at ∷ []), prefix ++ raw)

  unfoldable pub create_token : Bytes → ℕ → Option Bytes → List Token → Outcome (List Token × Bytes)
  unfolding is_label sort_tokens
  create_token name at random ts =
      if not (is_label name)
      then err bad_name
      else if any (has_name name) ts
      then err exists
      else created_with name at ts random

  -- The loop of `Verify`: the last token of that hash wins.
  unfoldable pub verify_loop : Bytes → Option Bytes → List Token → Option Bytes
  verify_loop want found [] = found
  verify_loop want found (t ∷ ts) =
      verify_loop want (if same t.hash want then some t.name else found) ts

  unfoldable pub verify : Bytes → List Token → Option Bytes
  unfolding verify_loop has_prefix
  verify secret ts =
      let found = verify_loop (hash_of secret) none ts in
      if not (has_prefix secret prefix) then none else found

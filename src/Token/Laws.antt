-- ===== src/Token/Laws.antt =====
-- internal/token/token.go: who a secret stands for, after tokens are created and revoked.
use kranq.Base.{
  ℕ, suc, ◌+◌, ◌≤◌, Bool, true, false, ◌&&◌, List, [], ◌∷◌, ◌++◌, Option, none, some, if◌then◌else◌,
  any, ◌≡◌, ◌≢◌, refl, sym, ap, ◌∙◌, arith, Option-cases, Bool-cases, ◌⊎◌, inl, inr, subst,
}
use kranq.Base.Text.{Bytes, same, same_iff, same_refl}
use kranq.Base.Strings.{is_label}
use kranq.Token.{
  Token, not_found, Outcome, ok, err, prefix, has_name, insert_token, sort_tokens, drop_token,
  revoke, token_of, created_with, create_token, verify_loop, verify,
}

abbrev count_tokens : (Token → Bool) → List Token → ℕ
count_tokens p [] = 0
count_tokens p (t ∷ ts) = if p t then suc (count_tokens p ts) else count_tokens p ts

-- No two tokens have the same name.
abbrev pub IsTokenSet : List Token → Type 0
IsTokenSet ts = (name : Bytes) → count_tokens (has_name name) ts ≤ 1

count-insert_token :
    (f : Token → Bool) (t : Token) (ts : List Token)
    → count_tokens f (insert_token t ts) ≡ count_tokens f (t ∷ ts)
unfolding insert_token
count-insert_token f t [] = refl
count-insert_token f t (u ∷ us) = ground (arith, count-insert_token f t us)

count-sort_tokens :
    (f : Token → Bool) (ts : List Token) → count_tokens f (sort_tokens ts) ≡ count_tokens f ts
unfolding sort_tokens
count-sort_tokens f [] = refl
count-sort_tokens f (t ∷ ts) =
    count-insert_token f t (sort_tokens ts)
    ∙ ap (λ n. if f t then suc n else n) (count-sort_tokens f ts)

count_tokens-append :
    (f : Token → Bool) (ts us : List Token)
    → count_tokens f (ts ++ us) ≡ count_tokens f ts + count_tokens f us
count_tokens-append f [] us = omega arith
count_tokens-append f (t ∷ ts) us = ground (arith, count_tokens-append f ts us)

any-count : (f : Token → Bool) (ts : List Token) → any f ts ≡ false → count_tokens f ts ≡ 0
any-count f [] h = refl
any-count f (t ∷ ts) h = ground (arith, any-count f ts)

-- A token with a hash and a name, as a test.
abbrev stands_for : Bytes → Bytes → Token → Bool
stands_for want name t = same t.hash want && same t.name name

count_stands_for-le :
    (want name : Bytes) (ts : List Token)
    → count_tokens (stands_for want name) ts ≤ count_tokens (has_name name) ts
count_stands_for-le want name [] = omega arith
count_stands_for-le want name (t ∷ ts) = ground (arith, count_stands_for-le want name ts)

count_hash-le :
    (want name : Bytes) (ts : List Token)
    → count_tokens (stands_for want name) ts ≤ count_tokens (λ t. same t.hash want) ts
count_hash-le want name [] = omega arith
count_hash-le want name (t ∷ ts) = ground (arith, count_hash-le want name ts)

count_named-drop_token :
    (name : Bytes) (ts : List Token)
    → count_tokens (has_name name) ts ≤ 1
    → count_tokens (has_name name) (drop_token name ts) ≡ 0
unfolding drop_token
count_named-drop_token name [] h = refl
count_named-drop_token name (t ∷ ts) h = ground (arith, count_named-drop_token name ts)

tokens_or : List Token → Outcome (List Token) → List Token
tokens_or ts (ok us) = us
tokens_or ts (err e) = ts

-- What a revoke that works leaves.
revoke-drop_token :
    (name : Bytes) (ts us : List Token) → revoke name ts ≡ ok us → us ≡ drop_token name ts
unfolding revoke tokens_or
revoke-drop_token name ts us r = elim (Bool-cases (any (has_name name) ts)) [
  | inl h ↦ sym (
      ap (tokens_or ts)
        (subst (λ b. (if b then ok (drop_token name ts) else err not_found) ≡ ok us) h r))
  | inr h ↦
      absurd
        (not_ok (subst (λ b. (if b then ok (drop_token name ts) else err not_found) ≡ ok us) h r))
]
  where
    not_ok : ◌≢◌ {A = Outcome (List Token)} (err not_found) (ok us)
    not_ok e = cc

module _ (hash_of : Bytes → Bytes) where
  -- The loop answers with a token that stands there, or with what it began with.
  verify_loop-found :
      (want name : Bytes) (found : Option Bytes) (ts : List Token)
      → verify_loop hash_of want found ts ≡ some name
      → (found ≡ some name) ⊎ (1 ≤ count_tokens (stands_for want name) ts)
  unfolding verify_loop
  verify_loop-found want name found [] h = inl h
  verify_loop-found want name found (t ∷ ts) h = ground (
    arith,
    same_iff t.name name,
    verify_loop-found want name (if same t.hash want then some t.name else found) ts h,
  )

  -- It answers if it began with an answer, or if a token has the hash.
  verify_loop-none :
      (want : Bytes) (found : Option Bytes) (ts : List Token)
      → verify_loop hash_of want found ts ≡ none
      → (found ≡ none) × (count_tokens (λ t. same t.hash want) ts ≡ 0)
  unfolding verify_loop
  verify_loop-none want found [] h = (h, refl)
  verify_loop-none want found (t ∷ ts) h =
      ground (arith, verify_loop-none want (if same t.hash want then some t.name else found) ts h)

  verify-found :
      (secret name : Bytes) (ts : List Token)
      → verify hash_of secret ts ≡ some name
      → verify_loop hash_of (hash_of secret) none ts ≡ some name
  unfolding verify
  verify-found secret name ts h = ground arith

  -- After a token is revoked, in a set of tokens with different names, no secret stands for its name.
  pub verify-revoke :
      (name secret : Bytes) (ts us : List Token)
      → IsTokenSet ts
      → revoke name ts ≡ ok us
      → verify hash_of secret us ≢ some name
  verify-revoke name secret ts us u r e = ground (
    arith,
    verify_loop-found (hash_of secret) name none (drop_token name ts) (
        verify-found secret name (drop_token name ts)
          (subst (λ vs. verify hash_of secret vs ≡ some name) (revoke-drop_token name ts us r) e)),
    count_named-drop_token name ts (u name),
    count_stands_for-le (hash_of secret) name (drop_token name ts),
  )

  module _ (name secret : Bytes) (at : ℕ) (ts : List Token) where
    abbrev added : List Token
    added = sort_tokens (ts ++ token_of hash_of name secret at ∷ [])

    count-added :
        (f : Token → Bool)
        → count_tokens f added
          ≡ count_tokens f ts + count_tokens f (token_of hash_of name secret at ∷ [])
    count-added f =
        count-sort_tokens f (ts ++ token_of hash_of name secret at ∷ [])
        ∙ count_tokens-append f ts (token_of hash_of name secret at ∷ [])

    verify_loop-added :
        any (λ t. same t.hash (hash_of secret)) ts ≡ false
        → verify_loop hash_of (hash_of secret) none added ≡ some name
    verify_loop-added h = elim (Option-cases (verify_loop hash_of (hash_of secret) none added)) [
      | inl n ↦ absurd (
          omega (
            arith,
            (verify_loop-none (hash_of secret) none added n).1,
            count-added (λ t. same t.hash (hash_of secret)),
            own_hash,
          ))
      | inr (m, e) ↦
          e
          ∙ ap some (
              sym (
                (same_iff name m).0
                  (own_name m (verify_loop-found (hash_of secret) m none added e))))
    ]
      where
        own_hash :
            count_tokens (λ t. same t.hash (hash_of secret)) (token_of hash_of name secret at ∷ [])
            ≡ 1
        own_hash = rw (same_refl (hash_of secret)) refl

        own_name :
            (m : Bytes)
            → ((none ≡ some m) ⊎ (1 ≤ count_tokens (stands_for (hash_of secret) m) added))
            → same name m ≡ true
        own_name m f = ground (
          arith,
          f,
          count-added (stands_for (hash_of secret) m),
          count_hash-le (hash_of secret) m ts,
          any-count (λ t. same t.hash (hash_of secret)) ts h,
          same_refl (hash_of secret),
        )

    added-IsTokenSet : IsTokenSet ts → any (has_name name) ts ≡ false → IsTokenSet added
    added-IsTokenSet u h n = elim (Bool-cases (same name n)) [
      | inl s ↦ ground (
        arith,
        count-added (has_name n),
        any-count (has_name n) ts
            (subst (λ m. any (has_name m) ts ≡ false) ((same_iff name n).0 s) h),
      )
      | inr s ↦ ground (arith, count-added (has_name n), u n)
    ]

  -- What is shown of a set and a secret that `create_token` gives.
  abbrev CreatedWell : Bytes → List Token → Outcome (List Token × Bytes) → Type 0
  CreatedWell name ts (err e) = Unit
  CreatedWell name ts (ok (us, secret)) =
      IsTokenSet us
      × (any (λ t. same t.hash (hash_of secret)) ts ≡ false → verify hash_of secret us ≡ some name)

  created_with-CreatedWell :
      (name : Bytes) (at : ℕ) (ts : List Token) (random : Option Bytes)
      → IsTokenSet ts
      → any (has_name name) ts ≡ false
      → CreatedWell name ts (created_with hash_of name at ts random)
  unfolding verify
  created_with-CreatedWell name at ts none u h = tt
  created_with-CreatedWell name at ts (some raw) u h = (
    added-IsTokenSet name (prefix ++ raw) at ts u h,
    λ f. verify_loop-added name (prefix ++ raw) at ts f,
  )

  create_token-CreatedWell :
      (name : Bytes) (at : ℕ) (random : Option Bytes) (ts : List Token)
      → IsTokenSet ts
      → CreatedWell name ts (create_token hash_of name at random ts)
  unfolding create_token
  create_token-CreatedWell name at random ts u = elim (Bool-cases (is_label name)) [
    | inr l ↦ rw l tt
    | inl l ↦ rw l (elim (Bool-cases (any (has_name name) ts)) [
      | inl h ↦ rw h tt
      | inr h ↦ rw h (created_with-CreatedWell name at ts random u h)
    ])
  ]

  -- A token that is created leaves a set of tokens with different names, and if no token before it has
  -- the hash of its secret, the secret stands for its name.
  pub verify-create_token :
      (name secret : Bytes) (at : ℕ) (random : Option Bytes) (ts us : List Token)
      → IsTokenSet ts
      → create_token hash_of name at random ts ≡ ok (us, secret)
      → any (λ t. same t.hash (hash_of secret)) ts ≡ false
      → IsTokenSet us × (verify hash_of secret us ≡ some name)
  verify-create_token name secret at random ts us u e f =
      let well = subst (CreatedWell name ts) e (create_token-CreatedWell name at random ts u) in
      (well.0, well.1 f)

-- ===== src/Gitsrv/Ssh/Flags.antt =====
-- The loop of `takeFlags` in internal/gitsrv/ssh.go, and its fuel.
use kranq.Base.{
  ℕ, zero, suc, ◌≤◌, ◌<◌, Bool, true, false, [], ◌∷◌, length, ◌≡◌, ◌≢◌, arith, Bool-cases, inl, inr,
}
use kranq.Base.Text.{Bytes, codes, same, has_prefix}
use kranq.Base.Strings.{trim_space-le, cut, trim_space}
use kranq.Gitsrv.Ssh.{
  out_of_fuel, Parsed, ok, err, Turn, done, again, refuse, turn, flag, after_value, take_flags,
}

cut-le : (sep : ℕ) (s : Bytes) → length (cut sep s).1 ≤ length s
unfolding cut
cut-le sep [] = omega arith
cut-le sep (c ∷ s) = ground (arith, cut-le sep s)

-- The rest of a word that is not blank at its start is shorter than the text.
cut-lt : (s : Bytes) → has_prefix s (codes "-") ≡ true → length (cut b' ' s).1 < length s
unfolding cut has_prefix
cut-lt [] h = absurd (ground arith)
cut-lt (c ∷ s) h = ground (arith, cut-le b' ' s)

abbrev Shortens : ℕ → Turn → Type 0
Shortens n (done v r) = Unit
Shortens n (again v r) = length r < n
Shortens n (refuse e) = e ≢ out_of_fuel

after_value-Shortens :
    (n : ℕ) (verb : Bytes) (c : Bytes × Bytes × Bool)
    → length c.1 < n
    → Shortens n (after_value verb c)
after_value-Shortens n verb (value, after, true) h = h
after_value-Shortens n verb (value, after, false) h = λ x. cc

flag-Shortens :
    (n : ℕ) (verb : Bytes) (c : Bytes × Bytes × Bool) → length c.1 < n → Shortens n (flag verb c)
flag-Shortens n verb (word, remainder, found) l = elim (Bool-cases (same word (codes "--upload"))) [
  | inl h ↦ rw h l
  | inr h ↦ rw h (elim (Bool-cases (has_prefix word (codes "--name="))) [
    | inl p ↦ rw p l
    | inr p ↦ rw p (elim (Bool-cases (same word (codes "--name"))) [
      | inl m ↦ rw m (
          after_value-Shortens n verb (cut b' ' (trim_space remainder))
            (omega (arith, l, cut-le b' ' (trim_space remainder), trim_space-le remainder)))
      | inr m ↦ rw m (λ x. cc)
    ])
  ])
]

turn-Shortens : (verb rest : Bytes) → Shortens (length rest) (turn verb rest)
unfolding turn
turn-Shortens verb rest = elim (Bool-cases (has_prefix (trim_space rest) (codes "-"))) [
  | inl h ↦ rw h (
      flag-Shortens (length rest) verb (cut b' ' (trim_space rest))
        (omega (arith, cut-lt (trim_space rest) h, trim_space-le rest)))
  | inr h ↦ rw h tt
]

-- A result that did not run out of fuel.
abbrev pub Ends : Parsed (Bytes × Bytes) → Type 0
Ends p = p ≢ err out_of_fuel

-- The loop over the flags ends, with a verb and what follows the flags or with a refusal: fuel of
-- more than the bytes of the command is never used up.
pub take_flags-Ends :
    (fuel : ℕ) (verb rest : Bytes) → length rest < fuel → Ends (take_flags fuel verb rest)
unfolding take_flags
take_flags-Ends zero verb rest l = absurd (omega arith)
take_flags-Ends (suc fuel) verb rest l =
    go (λ w r m. take_flags-Ends fuel w r m) (turn verb rest) (turn-Shortens verb rest)
  where
    go :
        ((w r : Bytes) → length r < fuel → Ends (take_flags fuel w r))
        → (t : Turn) → Shortens (length rest) t
        → Ends
            (elim t [ done v r ↦ ok (v, r) | again v r ↦ take_flags fuel v r | refuse e ↦ err e ])
    go ih (done w r) s = λ e. cc
    go ih (again w r) s = ih w r (omega arith)
    go ih (refuse e) s = λ x. s cc

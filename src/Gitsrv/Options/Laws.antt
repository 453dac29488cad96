-- ===== src/Gitsrv/Options/Laws.antt =====
-- internal/gitsrv/options.go: how a spec is spelled in an option, and what of an option is shown.
use kranq.Base.{
  ℕ, zero, false, List, [], ◌∷◌, ◌++◌, if◌then◌else◌, ◌==◌, ◌≡◌, refl, ap, ◌∙◌, Bool-cases, inl,
  inr, ==_iff, All,
}
use kranq.Base.Text.{Bytes, codes}
use kranq.Base.Strings.{cut-append, has_byte}
use kranq.Gitsrv.Options.{redact, redact_all, unescape, unescape_loop}

-- How a spec is spelled in an option: a line break as \n, a backslash as two.
unfoldable pub escape : Bytes → Bytes
escape [] = []
escape (c ∷ s) =
    let rest = escape s in
    if c == b'\n'
    then b'\\' ∷ b'n' ∷ rest
    else if c == b'\\'
    then b'\\' ∷ b'\\' ∷ rest
    else c ∷ rest

unescape_other :
    (c : ℕ) (s : Bytes)
    → (c == b'\\') ≡ false
    → unescape_loop zero (c ∷ s) ≡ c ∷ unescape_loop zero s
unfolding unescape_loop
unescape_other c [] h = refl
unescape_other c (d ∷ s) h = rw (unescape_loop, h) refl

unescape_loop-escape : (s : Bytes) → unescape_loop zero (escape s) ≡ s
unfolding unescape_loop escape
unescape_loop-escape [] = refl
unescape_loop-escape (c ∷ s) = elim (Bool-cases (c == b'\n')) [
  | inl h ↦
      rw (h, (==_iff c b'\n').0 h, unescape_loop) (ap (λ t. b'\n' ∷ t) (unescape_loop-escape s))
  | inr h ↦ rw h (elim (Bool-cases (c == b'\\')) [
    | inl b ↦
        rw (b, (==_iff c b'\\').0 b, unescape_loop) (ap (λ t. b'\\' ∷ t) (unescape_loop-escape s))
    | inr b ↦ rw b (unescape_other c (escape s) b ∙ ap (λ t. c ∷ t) (unescape_loop-escape s))
  ])
]

-- A spec of any bytes, with its line breaks and backslashes escaped, comes back unchanged.
pub unescape-escape : (s : Bytes) → unescape (escape s) ≡ s
unfolding unescape
unescape-escape s = unescape_loop-escape s

-- Options that differ in values only, with names that hold no "=".
abbrev pub Option2 : Type 0
Option2 = Bytes × Bytes × Bytes

abbrev pub with_first : List Option2 → List Bytes
with_first [] = []
with_first ((name, v, w) ∷ os) = (name ++ b'=' ∷ v) ∷ with_first os

abbrev pub with_second : List Option2 → List Bytes
with_second [] = []
with_second ((name, v, w) ∷ os) = (name ++ b'=' ∷ w) ∷ with_second os

abbrev pub NameOnly : Option2 → Type 0
NameOnly (name, v, w) = has_byte b'=' name ≡ false

-- What is shown of options that have values does not depend on them: two lists of options with the
-- same names, which hold no "=", are redacted alike.
pub redact_all-with_first :
    (os : List Option2) → All NameOnly os → redact_all (with_first os) ≡ redact_all (with_second os)
unfolding redact_all redact
redact_all-with_first [] h = refl
redact_all-with_first ((name, v, w) ∷ os) h =
    rw (cut-append b'=' name v h.0, cut-append b'=' name w h.0)
      (ap (λ t. (name ++ codes "=<redacted>") ∷ t) (redact_all-with_first os h.1))

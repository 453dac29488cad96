-- ===== src/Gitsrv/Quote.antt =====
-- internal/gitsrv/repo.go and ssh.go: quoting for the shell, as kranq and as git write it.
use kranq.Base.{
  ℕ, zero, suc, true, false, not, ◌||◌, [], ◌∷◌, ◌++◌, if◌then◌else◌, ◌==◌, ltb, length,
  length-append, ==_iff, any, ◌≡◌, refl, ap, arith, Bool-cases, inl, inr,
}
use kranq.Base.Text.{Bytes, codes, empty, has_prefix, same_refl}
use kranq.Base.Strings.{has_byte, has_suffix}

-- The quote, a backslash, a quote, a quote.
abbrev pub escaped_quote : Bytes
escaped_quote = b'\'' ∷ b'\\' ∷ b'\'' ∷ b'\'' ∷ []

-- strings.ReplaceAll of the quote
unfoldable pub escape : Bytes → Bytes
escape [] = []
escape (c ∷ s) = let rest = escape s in if c == b'\'' then escaped_quote ++ rest else c ∷ rest

unfoldable pub shell_quote : Bytes → Bytes
unfolding escape
shell_quote v = b'\'' ∷ (escape v ++ b'\'' ∷ [])

pub data QuoteError : Type 0 where
  no_repository not_quoted not_closed foreign_quote : QuoteError

pub data Unquoted : Type 0 where
  ok : Bytes → Unquoted
  err : QuoteError → Unquoted

abbrev pub cons_byte : ℕ → Unquoted → Unquoted
cons_byte c (ok s) = ok (c ∷ s)
cons_byte c (err e) = err e

-- The loop over the text between the quotes; the number says how many bytes to skip.
unfoldable pub unquote_loop : ℕ → Bytes → Unquoted
unfolding has_prefix
unquote_loop k [] = ok []
unquote_loop (suc k) (c ∷ s) = unquote_loop k s
unquote_loop zero (c ∷ s) = elim (c == b'\'') [
  | false ↦ cons_byte c (unquote_loop zero s)
  | true ↦ elim (has_prefix (c ∷ s) escaped_quote) [
    | true ↦ cons_byte b'\'' (unquote_loop 3 s)
    | false ↦ err foreign_quote
  ]
]

-- v[:len(v)-1]
unfoldable pub without_last : Bytes → Bytes
without_last [] = []
without_last (c ∷ []) = []
without_last (c ∷ d ∷ s) = c ∷ without_last (d ∷ s)

abbrev pub tail : Bytes → Bytes
tail [] = []
tail (c ∷ s) = s

-- The bytes that need quotes: blanks, what a shell reads, quotes, the backslash.
abbrev pub shell_bytes : Bytes
shell_bytes = 32 ∷ 9 ∷ codes ";|&$`<>()" ++ (b'\\' ∷ b'"' ∷ b'\'' ∷ b'\n' ∷ [])

unfoldable pub unquote : Bytes → Unquoted
unfolding unquote_loop without_last has_prefix has_suffix has_byte
unquote v =
    if empty v
    then err no_repository
    else if not (has_prefix v (codes "'"))
    then (if any (λ c. has_byte c shell_bytes) v then err not_quoted else ok v)
    else if not (has_suffix v (codes "'")) || ltb (length v) 2
    then err not_closed
    else unquote_loop zero (without_last (tail v))

unquote_loop-escape : (v : Bytes) → unquote_loop zero (escape v) ≡ ok v
unfolding unquote_loop escape has_prefix
unquote_loop-escape [] = refl
unquote_loop-escape (c ∷ s) = elim (Bool-cases (c == b'\'')) [
  | inl h ↦
      rw (h, (==_iff c b'\'').0 h, unquote_loop) (ap (cons_byte b'\'') (unquote_loop-escape s))
  | inr h ↦ rw (h, unquote_loop, h) (ap (cons_byte c) (unquote_loop-escape s))
]

has_suffix-append : (s : Bytes) (b : ℕ) → has_suffix (s ++ b ∷ []) (b ∷ []) ≡ true
unfolding has_suffix
has_suffix-append [] b = ground (arith, same_refl (b ∷ []))
has_suffix-append (c ∷ s) b = ground (arith, has_suffix-append s b)

without_last-append : (s : Bytes) (b : ℕ) → without_last (s ++ b ∷ []) ≡ s
unfolding without_last
without_last-append [] b = refl
without_last-append (c ∷ []) b = refl
without_last-append (c ∷ d ∷ s) b = ap (λ t. c ∷ t) (without_last-append (d ∷ s) b)

-- What kranq writes in quotes for a shell, the reader of quoted paths takes back to the same text,
-- whatever bytes it holds.
pub unquote-shell_quote : (v : Bytes) → unquote (shell_quote v) ≡ ok v
unfolding unquote shell_quote has_prefix
unquote-shell_quote v =
    rw (has_suffix-append (b'\'' ∷ escape v) b'\'', without_last-append (escape v) b'\'')
      (ground (arith, unquote_loop-escape v, length-append (escape v) (b'\'' ∷ [])))

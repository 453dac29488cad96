-- ===== src/Project/Fields/Quoting.antt =====
-- internal/project/lex.go: words in quotes, as `fields` and COPY read them.
use kranq.Base.{
  ℕ, true, false, List, [], ◌∷◌, ◌++◌, ◌==◌, ◌≡◌, refl, ◌∙◌, ap, sym, arith, All, append_assoc,
  append-nil,
}
use kranq.Base.Text.{Bytes}
use kranq.Base.Strings.{has_byte}
use kranq.Base.Utf8.{rewritten, rest_of_rune, tests_after, is_runes, rewritten-append}
use kranq.Project.Fields.{Splitter, fields_step, fields_loop, fields, splitter}

-- Words in single quotes, with a space after each.
abbrev pub quote_all : List Bytes → Bytes
quote_all [] = []
quote_all (w ∷ ws) = b'\'' ∷ (w ++ b'\'' ∷ b' ' ∷ quote_all ws)

abbrev pub NoQuote : Bytes → Type 0
NoQuote w = has_byte b'\'' w ≡ false

abbrev between : List Bytes → Splitter
between out = record { out = out; cur = []; quote = 0; held = false }

abbrev inside : List Bytes → Bytes → Splitter
inside out cur = record { out = out; cur = cur; quote = b'\''; held = true }

step_inside :
    (out : List Bytes) (cur : Bytes) (c : ℕ)
    → (c == b'\'') ≡ false
    → fields_step (inside out cur) c ≡ inside out (cur ++ c ∷ [])
unfolding fields_step
step_inside out cur c h = ground arith

loop_inside :
    (w rest : Bytes) (out : List Bytes) (cur : Bytes)
    → NoQuote w
    → fields_loop (inside out cur) (w ++ rest) ≡ fields_loop (inside out (cur ++ w)) rest
unfolding fields_loop has_byte
loop_inside [] rest out cur n = rw append-nil
loop_inside (c ∷ w) rest out cur n =
    ap (λ p. fields_loop p (w ++ rest)) (step_inside out cur c (ground arith))
    ∙ loop_inside w rest out (cur ++ c ∷ []) (ground arith)
    ∙ ap (λ s. fields_loop (inside out s) rest) (append_assoc cur (c ∷ []) w)

loop_words :
    (ws : List Bytes) (out : List Bytes)
    → All NoQuote ws
    → fields_loop (between out) (quote_all ws) ≡ out ++ ws
unfolding fields_loop fields_step
loop_words [] out n = sym (append-nil out)
loop_words (w ∷ ws) out n =
    loop_inside w (b'\'' ∷ b' ' ∷ quote_all ws) out [] n.0
    ∙ ap (λ p. fields_loop p (quote_all ws)) (ground arith)
    ∙ loop_words ws (out ++ w ∷ []) n.1
    ∙ append_assoc out (w ∷ []) ws

-- Words that are sequences of whole runes are, so quoted, written again as they are.
rewritten-quote_all :
    (ws : List Bytes)
    → All (λ w. is_runes 0 w ≡ true) ws
    → rewritten 0 (quote_all ws) ≡ quote_all ws
unfolding rewritten rest_of_rune tests_after
rewritten-quote_all [] u = refl
rewritten-quote_all (w ∷ ws) u =
    ap (λ s. b'\'' ∷ s)
      (rewritten-append 0 w (b'\'' ∷ b' ' ∷ quote_all ws) u.0
        ∙ ap (λ s. w ++ b'\'' ∷ b' ' ∷ s) (rewritten-quote_all ws u.1))

-- Words in single quotes that hold none themselves and are valid UTF-8, whatever else they hold, spaces,
-- tabs and double quotes included, and also the empty word, are split back into exactly those words.
pub fields-quote_all :
    (ws : List Bytes)
    → All NoQuote ws
    → All (λ w. is_runes 0 w ≡ true) ws
    → fields (quote_all ws) ≡ ws
unfolding fields
fields-quote_all ws n u = ap (fields_loop splitter) (rewritten-quote_all ws u) ∙ loop_words ws [] n

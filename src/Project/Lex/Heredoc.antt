-- ===== src/Project/Lex/Heredoc.antt =====
-- internal/project/lex.go: an instruction with a heredoc, as the loop of `lex` reads it.
use kranq.Base.{
  ℕ, suc, ◌+◌, true, false, List, [], ◌∷◌, ◌++◌, some, length, ◌≡◌, refl, ap, ◌∙◌, arith, All,
}
use kranq.Base.Text.{Bytes, codes, same}
use kranq.Base.Strings.{has_suffix, trim_space}
use kranq.Project.Lex.{
  Lexed, continued, heredoc, heredoc_tag, after_tag, instruction_with, instruction_at, lex_loop,
  is_skipped, cons_instruction, body_text, verb_and_args,
}

abbrev pub NotTag : Bytes → Bytes → Type 0
NotTag tag l = same (trim_space l) tag ≡ false

heredoc-append :
    (tag last : Bytes) (n : ℕ) (body rest : List Bytes)
    → All (NotTag tag) body
    → same (trim_space last) tag ≡ true
    → heredoc tag n (body ++ last ∷ rest) ≡ some (body, n + length body + 1, rest)
unfolding heredoc
heredoc-append tag last n [] rest a h = rw h (ground arith)
heredoc-append tag last n (l ∷ body) rest a h =
    rw (a.0, heredoc-append tag last (n + 1) body rest a.1 h) (ground arith)

continued-stop :
    (text : Bytes) (n : ℕ) (ls : List Bytes)
    → has_suffix text (codes "\\") ≡ false
    → continued text n ls ≡ (text, n, ls)
unfolding continued
continued-stop text n [] h = refl
continued-stop text n (l ∷ ls) h = rw h

instruction_at-heredoc :
    (go : ℕ → List Bytes → Lexed) (n m : ℕ) (l verb args tag : Bytes) (ls left body : List Bytes)
    (k : ℕ)
    → verb_and_args l ≡ (verb, args)
    → heredoc_tag args ≡ some tag
    → heredoc tag m ls ≡ some (body, k, left)
    → instruction_at go n (l, m, ls)
      ≡ cons_instruction
          (record { verb = verb; args = []; body = body_text body; line = n })
          (go k left)
unfolding instruction_at instruction_with after_tag
instruction_at-heredoc go n m l verb args tag ls left body k v t h =
    rw (v, t, instruction_with, h, after_tag) (rw v)

-- An instruction line that opens a heredoc, the lines of its body, none of them the tag, and a line
-- with the tag are read as one instruction, with the line's verb and number and with the body's
-- lines as they stand, comments, blank lines and backslashes included; the lines behind the tag are
-- read on as before. The opening line must not end in a backslash.
pub lex_loop-heredoc :
    (fuel n : ℕ) (l tag last verb args : Bytes) (body rest : List Bytes)
    → is_skipped l ≡ false
    → has_suffix l (codes "\\") ≡ false
    → verb_and_args l ≡ (verb, args)
    → heredoc_tag args ≡ some tag
    → All (NotTag tag) body
    → same (trim_space last) tag ≡ true
    → lex_loop (suc fuel) n (l ∷ (body ++ last ∷ rest))
      ≡ cons_instruction
          (record { verb = verb; args = []; body = body_text body; line = n })
          (lex_loop fuel (n + 1 + length body + 1) rest)
unfolding lex_loop
lex_loop-heredoc fuel n l tag last verb args body rest s b v t a h =
    rw (s, lex_loop)
      (ap (instruction_at (lex_loop fuel) n) (continued-stop l (n + 1) (body ++ last ∷ rest) b)
        ∙ instruction_at-heredoc (lex_loop fuel) n (n + 1) l verb args tag _ rest body _ v t
            (heredoc-append tag last (n + 1) body rest a h))

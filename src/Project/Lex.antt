-- ===== src/Project/Lex.antt =====
-- internal/project/lex.go: from the lines of a Kranqfile to instructions. The lines are those of
-- bufio.Scanner; its limit on the length of a line is not modelled. The loop takes fuel, one for
-- each line that is left.
pub mod Fuel
pub mod Heredoc
use kranq.Base.{
  ℕ, zero, suc, ◌+◌, Bool, true, false, not, ◌&&◌, ◌||◌, List, [], ◌∷◌, ◌++◌, Option, none, some,
  if◌then◌else◌, ◌==◌, length, map,
}
use kranq.Base.Text.{Bytes, codes, empty, same, has_prefix}
use kranq.Base.Strings.{
  cut, trim, trim_right, trim_space, to_upper, has_suffix, trim_suffix, trim_prefix, join, split,
}

pub record Instruction : Type 0 where
  pub verb : Bytes
  pub args : Bytes
  pub body : Bytes
  pub line : ℕ

pub data LexError : Type 0 where
  never_closed : ℕ → Bytes → LexError
  out_of_fuel : LexError

pub data Lexed : Type 0 where
  ok : List Instruction → Lexed
  err : LexError → Lexed

-- strings.TrimSpace(text) == "" or a comment
abbrev pub is_skipped : Bytes → Bool
is_skipped text = empty (trim_space text) || has_prefix (trim_space text) (codes "#")

-- The loop over continuations: the joined text, the number of the next line, and the lines left.
unfoldable pub continued : Bytes → ℕ → List Bytes → Bytes × ℕ × List Bytes
unfolding has_suffix trim_suffix trim_space
continued text n [] = (text, n, [])
continued text n (l ∷ ls) =
    let rest = continued (trim_suffix text (codes "\\") ++ trim_space l) (n + 1) ls in
    if has_suffix text (codes "\\") then rest else (text, n, l ∷ ls)

abbrev pub is_quote : ℕ → Bool
is_quote c = c == b'"' || c == b'\''

abbrev pub nonempty_tag : Bytes → Option Bytes
nonempty_tag tag = if empty tag then none else some tag

unfoldable pub heredoc_tag : Bytes → Option Bytes
unfolding has_prefix trim_prefix trim_space trim
heredoc_tag args =
    if not (has_prefix args (codes "<<"))
    then none
    else nonempty_tag (trim is_quote (trim_space (trim_prefix args (codes "<<"))))

-- `heredoc`: the body's lines, the number of the line after the tag, and the lines left.
unfoldable pub heredoc : Bytes → ℕ → List Bytes → Option (List Bytes × ℕ × List Bytes)
unfolding trim_space
heredoc tag n [] = none
heredoc tag n (l ∷ ls) =
    let rest : Option (List Bytes × ℕ × List Bytes) = elim (heredoc tag (n + 1) ls) [
      | none ↦ none
      | some (body, m, left) ↦ some (l ∷ body, m, left)
    ] in
    if same (trim_space l) tag then some ([], n + 1, ls) else rest

-- strings.Join(body, "\n") + "\n"
abbrev pub body_text : List Bytes → Bytes
body_text body = join (codes "\n") body ++ codes "\n"

abbrev pub cons_instruction : Instruction → Lexed → Lexed
cons_instruction i (ok is) = ok (i ∷ is)
cons_instruction i (err e) = err e

abbrev pub verb_of_cut : Bytes × Bytes × Bool → Bytes × Bytes
verb_of_cut (verb, args, found) = (to_upper verb, trim_space args)

unfoldable pub verb_and_args : Bytes → Bytes × Bytes
unfolding cut trim_space
verb_and_args text = verb_of_cut (cut b' ' (trim_space text))

-- What follows the joined text of one instruction; `go` lexes the lines that are left.
unfoldable pub after_tag :
    (ℕ → List Bytes → Lexed) → ℕ → Bytes → Bytes → Option (List Bytes × ℕ × List Bytes) → Lexed
after_tag go start verb tag none = err (never_closed start tag)
after_tag go start verb tag (some (body, n, ls)) =
    cons_instruction (record { verb = verb; args = []; body = body_text body; line = start })
      (go n ls)

unfoldable pub instruction_with :
    (ℕ → List Bytes → Lexed) → ℕ → Bytes × Bytes → ℕ → List Bytes → Option Bytes → Lexed
instruction_with go start (verb, args) n ls (some tag) =
    after_tag go start verb tag (heredoc tag n ls)
instruction_with go start (verb, args) n ls none =
    cons_instruction (record { verb = verb; args = args; body = []; line = start }) (go n ls)

unfoldable pub instruction_at : (ℕ → List Bytes → Lexed) → ℕ → Bytes × ℕ × List Bytes → Lexed
instruction_at go start (text, n, ls) =
    let (verb, args) = verb_and_args text in
    instruction_with go start (verb, args) n ls (heredoc_tag args)

-- The loop of `lex`: `n` is the number of the first line of the list.
unfoldable pub lex_loop : ℕ → ℕ → List Bytes → Lexed
lex_loop zero n [] = ok []
lex_loop zero n (l ∷ ls) = err out_of_fuel
lex_loop (suc fuel) n [] = ok []
lex_loop (suc fuel) n (l ∷ ls) = elim (is_skipped l) [
  | true ↦ lex_loop fuel (n + 1) ls
  | false ↦ instruction_at (lex_loop fuel) n (continued l (n + 1) ls)
]

abbrev pub carriage_return : ℕ → Bool
carriage_return c = c == b'\r'

unfoldable pub lex : List Bytes → Lexed
lex scanned =
    let lines = map (trim_right carriage_return) scanned in lex_loop (length lines) 1 lines

-- The lines that bufio.Scanner finds: a last line that is empty is none.
abbrev pub drop_empty_last : List Bytes → List Bytes
drop_empty_last [] = []
drop_empty_last (l ∷ []) = if empty l then [] else l ∷ []
drop_empty_last (l ∷ m ∷ ls) = l ∷ drop_empty_last (m ∷ ls)

unfoldable pub scan_lines : Bytes → List Bytes
unfolding split
scan_lines src = drop_empty_last (split b'\n' src)

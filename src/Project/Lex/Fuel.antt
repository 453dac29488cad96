-- ===== src/Project/Lex/Fuel.antt =====
-- The loop of `lex` in internal/project/lex.go, and its fuel.
use kranq.Base.{
  ℕ, zero, suc, ◌+◌, ◌≤◌, List, [], ◌∷◌, ◌++◌, Option, none, some, length, map, ◌≢◌, arith,
  Bool-cases, inl, inr,
}
use kranq.Base.Text.{Bytes, codes, same}
use kranq.Base.Strings.{trim_suffix, trim_space, trim_right}
use kranq.Project.Lex.{
  Lexed, ok, err, out_of_fuel, continued, heredoc, after_tag, instruction_with, instruction_at,
  lex_loop, lex, is_skipped, Instruction, cons_instruction, carriage_return,
}

-- A result that did not run out of fuel.
abbrev pub Ends : Lexed → Type 0
Ends r = r ≢ err out_of_fuel

cons-Ends : (i : Instruction) (r : Lexed) → Ends r → Ends (cons_instruction i r)
cons-Ends i (ok is) h e = cc
cons-Ends i (err x) h e = h e

continued-le : (text : Bytes) (n : ℕ) (ls : List Bytes) → length (continued text n ls).2 ≤ length ls
unfolding continued
continued-le text n [] = omega arith
continued-le text n (l ∷ ls) =
    ground (arith, continued-le (trim_suffix text (codes "\\") ++ trim_space l) (n + 1) ls)

-- A closed heredoc leaves at most `k` lines.
abbrev LeavesAtMost : ℕ → Option (List Bytes × ℕ × List Bytes) → Type 0
LeavesAtMost k none = Unit {0}
LeavesAtMost k (some (body, m, left)) = length left ≤ k

cons_body : Bytes → Option (List Bytes × ℕ × List Bytes) → Option (List Bytes × ℕ × List Bytes)
cons_body l o = elim o [ none ↦ none | some (body, m, left) ↦ some (l ∷ body, m, left) ]

cons_body-LeavesAtMost :
    (l : Bytes) (k : ℕ) (o : Option (List Bytes × ℕ × List Bytes))
    → LeavesAtMost k o
    → LeavesAtMost (suc k) (cons_body l o)
unfolding cons_body
cons_body-LeavesAtMost l k none h = tt
cons_body-LeavesAtMost l k (some (body, m, left)) h = omega arith

heredoc-LeavesAtMost :
    (tag : Bytes) (n : ℕ) (ls : List Bytes) → LeavesAtMost (length ls) (heredoc tag n ls)
unfolding heredoc cons_body
heredoc-LeavesAtMost tag n [] = tt
heredoc-LeavesAtMost tag n (l ∷ ls) = elim (Bool-cases (same (trim_space l) tag)) [
  | inl h ↦ rw h (omega arith)
  | inr h ↦ rw h (cons_body-LeavesAtMost l (length ls) _ (heredoc-LeavesAtMost tag (n + 1) ls))
]

module _ (fuel : ℕ)
    (ih : (n : ℕ) (ls : List Bytes) → length ls ≤ fuel → Ends (lex_loop fuel n ls)) where
  after_tag-Ends :
      (start : ℕ) (verb tag : Bytes) (n : ℕ) (ls : List Bytes)
      (h : Option (List Bytes × ℕ × List Bytes))
      → LeavesAtMost (length ls) h
      → length ls ≤ fuel
      → Ends (after_tag (lex_loop fuel) start verb tag h)
  unfolding after_tag
  after_tag-Ends start verb tag n ls none e le = λ x. cc
  after_tag-Ends start verb tag n ls (some (body, m, left)) e le =
      cons-Ends _ _ (ih m left (omega arith))

  instruction_with-Ends :
      (start : ℕ) (p : Bytes × Bytes) (n : ℕ) (ls : List Bytes) (t : Option Bytes)
      → length ls ≤ fuel
      → Ends (instruction_with (lex_loop fuel) start p n ls t)
  unfolding instruction_with
  instruction_with-Ends start (verb, args) n ls (some tag) le =
      after_tag-Ends start verb tag n ls (heredoc tag n ls) (heredoc-LeavesAtMost tag n ls) le
  instruction_with-Ends start (verb, args) n ls none le = cons-Ends _ _ (ih n ls le)

lex_loop-Ends : (fuel n : ℕ) (ls : List Bytes) → length ls ≤ fuel → Ends (lex_loop fuel n ls)
unfolding lex_loop instruction_at
lex_loop-Ends zero n [] h = λ e. cc
lex_loop-Ends zero n (l ∷ ls) h = absurd (omega arith)
lex_loop-Ends (suc fuel) n [] h = λ e. cc
lex_loop-Ends (suc fuel) n (l ∷ ls) h = elim (Bool-cases (is_skipped l)) [
  | inl s ↦ rw (s, lex_loop) (lex_loop-Ends fuel (n + 1) ls (omega arith))
  | inr s ↦
      rw (s, lex_loop)
        (instruction_with-Ends fuel (lex_loop-Ends fuel) n _ _ _ _
          (omega (arith, continued-le l (n + 1) ls)))
]

-- On every input `lex` ends with instructions or with an unclosed heredoc: the fuel of one for each
-- line is always enough.
pub lex-Ends : (scanned : List Bytes) → Ends (lex scanned)
unfolding lex
lex-Ends scanned = lex_loop-Ends _ 1 (map (trim_right carriage_return) scanned) (omega arith)

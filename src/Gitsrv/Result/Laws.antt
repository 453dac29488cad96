-- ===== src/Gitsrv/Result/Laws.antt =====
-- What a push exits with, from what its hook printed.
use kranq.Base.{
  ℕ, Bool, true, false, not, ◌&&◌, ◌||◌, List, [], ◌∷◌, ◌++◌, none, some, if◌then◌else◌, ◌≡◌, refl,
  ap, ◌∙◌, arith, all, inl, inr, Bool-cases, append-nil, ◌==◌, ==_refl,
}
use kranq.Base.Int.{ℤ, pos, leb_ℤ}
use kranq.Base.Text.{Bytes, codes, empty, same, has_prefix}
use kranq.Base.Strings.{is_space, split, cons_head, cut, atoi, has_text, has_byte, drop_bytes}
use kranq.Gitsrv.Result.{
  result_marker, status_refused, words, from_text, Result, no_result, empty_result, set_field,
  set_fields, read_fields, parse_line, parse_lines, parse_result, result_field, with_exit,
  result_line, from_task, exit_with, push_exit,
}
use kranq.Gitsrv.Result.Words.{is_word, words-append, words_one}

abbrev pub plain : Bytes → Bool
plain = all (λ c. not (is_space c))

-- What git puts before what a hook prints.
abbrev pub remote : Bytes
remote = codes "remote: "

cons_head_twice :
    (c d : ℕ) (xs ys : List Bytes)
    → cons_head c (cons_head d xs ++ ys) ≡ cons_head c (cons_head d xs) ++ ys
cons_head_twice c d [] ys = refl
cons_head_twice c d (x ∷ xs) ys = refl

cons_head-append :
    (c : ℕ) (s : Bytes) (sep : ℕ) (ys : List Bytes)
    → cons_head c (split sep s ++ ys) ≡ cons_head c (split sep s) ++ ys
unfolding split
cons_head-append c [] sep ys = refl
cons_head-append c (d ∷ s) sep ys = elim (Bool-cases (d == sep)) [
  | inl e ↦ rw e refl
  | inr e ↦ rw e (cons_head_twice c d (split sep s) ys)
]

split-append : (sep : ℕ) (a b : Bytes) → split sep (a ++ sep ∷ b) ≡ split sep a ++ split sep b
unfolding split
split-append sep [] b = rw (==_refl sep) refl
split-append sep (c ∷ a) b = elim (Bool-cases (c == sep)) [
  | inl e ↦ rw e (ap (λ x. [] ∷ x) (split-append sep a b))
  | inr e ↦ rw e (ap (cons_head c) (split-append sep a b) ∙ cons_head-append c a sep (split sep b))
]

split_one : (sep : ℕ) (s : Bytes) → has_byte sep s ≡ false → split sep s ≡ s ∷ []
unfolding split has_byte
split_one sep [] h = refl
split_one sep (c ∷ s) h = elim (Bool-cases (c == sep)) [
  | inl e ↦ absurd (ground arith)
  | inr e ↦ rw e (ap (cons_head c) (split_one sep s (ground arith)))
]

parse_lines-append :
    (res : Result) (xs ys : List Bytes)
    → parse_lines res (xs ++ ys) ≡ parse_lines (parse_lines res xs) ys
unfolding parse_lines
parse_lines-append res [] ys = refl
parse_lines-append res (x ∷ xs) ys = parse_lines-append (parse_line res x) xs ys

from_text-none : (p s : Bytes) → has_text s p ≡ false → from_text p s ≡ none
unfolding from_text has_text
from_text-none p [] h = rw h refl
from_text-none p (c ∷ s) h = elim (Bool-cases (has_prefix (c ∷ s) p)) [
  | inl e ↦ absurd (ground arith)
  | inr e ↦ rw e (from_text-none p s (ground arith))
]

parse_lines_other :
    (res : Result) (ls : List Bytes)
    → all (λ l. not (has_text l (result_marker ++ codes " "))) ls ≡ true
    → parse_lines res ls ≡ res
unfolding parse_lines
parse_lines_other res [] h = refl
parse_lines_other res (l ∷ ls) h =
    ap (λ o. parse_lines (read_fields res o) ls)
      (from_text-none (result_marker ++ codes " ") l (ground arith))
    ∙ parse_lines_other res ls (ground arith)

abbrev ref_fields : Bytes → List Bytes
ref_fields ref = if empty ref then [] else (codes "result=" ++ ref) ∷ []

abbrev pub told : Bytes → Bytes → ℤ → Bytes → Result
told id status code ref = record {
  id = id;
  status = status;
  exit_code = code;
  result_ref = ref;
  found = true;
}

set_fields-ref_fields :
    (id status : Bytes) (code : ℤ) (ref : Bytes)
    → set_fields (told id status code []) (ref_fields ref) ≡ told id status code ref
unfolding set_fields set_field cut same
set_fields-ref_fields id status code [] = refl
set_fields-ref_fields id status code (c ∷ ref) = refl

words_blank : (s : Bytes) → words (b' ' ∷ s) ≡ words s
unfolding words
words_blank s = refl

words-ref_fields :
    (w ref : Bytes)
    → is_word w ≡ true
    → plain ref ≡ true
    → words (w ++ result_field ref) ≡ w ∷ ref_fields ref
words-ref_fields w [] h p = ap words (append-nil w) ∙ words_one w h
words-ref_fields w (c ∷ ref) h p =
    words-append w (codes "result=" ++ (c ∷ ref)) h
    ∙ ap (λ x. w ∷ x) (words_one (codes "result=" ++ (c ∷ ref)) p)

no_break : (w : Bytes) → plain w ≡ true → has_byte b'\n' w ≡ false
unfolding has_byte
no_break [] h = refl
no_break (c ∷ w) h = ground (arith, no_break w)

has_byte-append : (b : ℕ) (s t : Bytes) → has_byte b (s ++ t) ≡ (has_byte b s || has_byte b t)
unfolding has_byte
has_byte-append b [] t = refl
has_byte-append b (c ∷ s) t = ground (arith, has_byte-append b s t)

-- A text with no line break before another.
no_break-append :
    (s t : Bytes) → plain s ≡ true → has_byte b'\n' t ≡ false → has_byte b'\n' (s ++ t) ≡ false
no_break-append s t h n = has_byte-append b'\n' s t ∙ ground (arith, no_break s)

no_break_ref : (ref : Bytes) → plain ref ≡ true → has_byte b'\n' (result_field ref) ≡ false
unfolding has_byte
no_break_ref [] h = refl
no_break_ref (c ∷ ref) h = no_break (c ∷ ref) h

module _ (print : ℤ → Bytes) (id status ref : Bytes) (code : ℤ) where
  abbrev fields : List Bytes
  fields =
      (codes "id=" ++ id)
      ∷ (codes "status=" ++ status)
      ∷ (codes "exit=" ++ print code)
      ∷ ref_fields ref

  set_fields-fields :
      atoi (print code) ≡ some code → set_fields empty_result fields ≡ told id status code ref
  unfolding set_fields set_field cut same
  set_fields-fields a =
      ap (λ o. set_fields (with_exit (told id status (pos 0) []) o) (ref_fields ref)) a
      ∙ set_fields-ref_fields id status code ref

  words-fields :
      plain id ≡ true
      → plain status ≡ true
      → plain (print code) ≡ true
      → plain ref ≡ true
      → words (drop_bytes (result_line print id status code ref) result_marker) ≡ fields
  unfolding result_line
  words-fields pi ps pc pr =
      words_blank (
        codes "id="
        ++ (id
            ++ (codes " status="
                ++ (status ++ (codes " exit=" ++ (print code ++ result_field ref))))))
      ∙ words-append (codes "id=" ++ id)
          (codes "status=" ++ (status ++ (codes " exit=" ++ (print code ++ result_field ref)))) pi
      ∙ ap (λ x. (codes "id=" ++ id) ∷ x)
          (words-append (codes "status=" ++ status)
              (codes "exit=" ++ (print code ++ result_field ref)) ps
            ∙ ap (λ x. (codes "status=" ++ status) ∷ x)
                (words-ref_fields (codes "exit=" ++ print code) ref pc pr))

  from_text-line :
      from_text (result_marker ++ codes " ") (remote ++ result_line print id status code ref)
      ≡ some (result_line print id status code ref)
  unfolding from_text result_line has_prefix
  from_text-line = refl

  no_break_line :
      plain id ≡ true
      → plain status ≡ true
      → plain (print code) ≡ true
      → plain ref ≡ true
      → has_byte b'\n' (remote ++ result_line print id status code ref) ≡ false
  unfolding has_byte result_line
  no_break_line pi ps pc pr =
      no_break-append id
        (codes " status=" ++ (status ++ (codes " exit=" ++ (print code ++ result_field ref)))) pi
        (no_break-append status (codes " exit=" ++ (print code ++ result_field ref)) ps
          (no_break-append (print code) (result_field ref) pc (no_break_ref ref pr)))

  module _ (before after : Bytes) where
    abbrev line : Bytes
    line = remote ++ result_line print id status code ref

    -- What git prints: the line among others.
    abbrev pub printed : Bytes
    printed = before ++ b'\n' ∷ (line ++ b'\n' ∷ after)

    -- The line is read back from what git prints.
    parse_result-printed :
        plain id ≡ true
        → plain status ≡ true
        → plain (print code) ≡ true
        → plain ref ≡ true
        → atoi (print code) ≡ some code
        → all (λ l. not (has_text l (result_marker ++ codes " "))) (split b'\n' after) ≡ true
        → parse_result printed ≡ told id status code ref
    unfolding parse_result
    parse_result-printed pi ps pc pr a n =
        ap (parse_lines no_result) (
          split-append b'\n' before (line ++ b'\n' ∷ after)
          ∙ ap (λ x. split b'\n' before ++ x)
              (split-append b'\n' line after
                ∙ ap (λ x. x ++ split b'\n' after)
                    (split_one b'\n' line (no_break_line pi ps pc pr))))
        ∙ parse_lines-append no_result (split b'\n' before) (line ∷ split b'\n' after)
        ∙ line_read (parse_lines no_result (split b'\n' before))
        ∙ parse_lines_other (told id status code ref) (split b'\n' after) n
      where
        line_told :
            read_fields (told id status code ref) (some (result_line print id status code ref))
            ≡ told id status code ref
        line_told = ap (set_fields empty_result) (words-fields pi ps pc pr) ∙ set_fields-fields a

        line_read :
            (res : Result)
            → parse_lines res (line ∷ split b'\n' after)
              ≡ parse_lines (told id status code ref) (split b'\n' after)
        line_read res =
            ap (λ o. parse_lines (read_fields res o) (split b'\n' after)) from_text-line
            ∙ ap (λ r. parse_lines r (split b'\n' after)) line_told

    -- The round trip from the hook to the exit code of the push: if the hook prints the line of a run
    -- that was not refused, git passes it on behind "remote: ", with whatever lines before it, the
    -- run's own results among them, and with no further line that holds the marker and a blank, then
    -- the push exits with the code of the run, or with 1 if that code lies in the range that kranq
    -- keeps for itself. The fields have no blank, and strconv.Atoi reads the code that was printed.
    pub push_exit-printed :
        (git_failed detach : Bool)
        → plain id ≡ true
        → plain status ≡ true
        → same status status_refused ≡ false
        → plain (print code) ≡ true
        → plain ref ≡ true
        → atoi (print code) ≡ some code
        → all (λ l. not (has_text l (result_marker ++ codes " "))) (split b'\n' after) ≡ true
        → push_exit printed git_failed detach
          ≡ (if leb_ℤ (pos 64) code && leb_ℤ code (pos 127) then pos 1 else code)
    unfolding push_exit from_task
    push_exit-printed git_failed detach pi ps u pc pr a n =
        ap (λ r. exit_with r printed git_failed detach) (parse_result-printed pi ps pc pr a n)
        ∙ rw u refl

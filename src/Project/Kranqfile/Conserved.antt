-- ===== src/Project/Kranqfile/Conserved.antt =====
-- internal/project/kranqfile.go: where the COPYs and RUNs of a file stand in its layers.
use kranq.Base.{
  ℕ, List, [], ◌∷◌, ◌++◌, Option, none, some, ◌≡◌, inl, inr, refl, sym, ap, ◌∙◌, subst, All, map,
  append_assoc, append-nil, Bool-cases,
}
use mathlib.Core.List.{map-append}
use kranq.Base.Int.{ℤ}
use kranq.Base.Text.{Bytes, codes, empty, contains, has_prefix}
use kranq.Base.Strings.{trim_space, atoi}
use kranq.Project.Fields.{EnvVar, Arg, Copy, Read, parse_copy, parse_env, parse_arg}
use kranq.Project.Fields
use kranq.Project.Lex.{Instruction, Lexed}
use kranq.Project.Lex
use kranq.Project.Kranqfile.Layers.{OnOk}
use kranq.Project.Kranqfile.{
  Layer, Build, Result, ok, err, Verb, run, copy, workdir, env, arg, secret, memory, disk, cpus,
  other, verb_of, Progress, script_of, apply_run, apply_copy, apply_workdir, apply_env, apply_arg,
  apply_secret, size, apply_verb, apply, apply_allowed, apply_all, at_start, all_layers,
  with_layers, close, parse_lexed, refused, set_cpus,
}

-- What a COPY names, and what a RUN runs on which line.
abbrev pub plain : Copy → List Bytes × Bytes
plain c = (c.sources, c.dest)

abbrev pub script : Layer → Bytes × ℕ
script l = (l.run, l.line)

abbrev pub layer_copies : List Layer → List Copy
layer_copies [] = []
layer_copies (l ∷ ls) = l.copies ++ layer_copies ls

abbrev pub copies_read : Read Copy → List (List Bytes × Bytes)
copies_read (Fields.ok c) = plain c ∷ []
copies_read (Fields.err e) = []

abbrev pub copies_by : Verb → Instruction → List (List Bytes × Bytes)
copies_by copy i = copies_read (parse_copy i.args)
copies_by _ i = []

abbrev pub runs_by : Verb → Instruction → List (Bytes × ℕ)
runs_by run i = (script_of i, i.line) ∷ []
runs_by _ i = []

-- The COPYs and the RUNs of the instructions, in their order.
abbrev pub copies_said : List Instruction → List (List Bytes × Bytes)
copies_said [] = []
copies_said (i ∷ is) = copies_by (verb_of i.verb) i ++ copies_said is

abbrev pub runs_said : List Instruction → List (Bytes × ℕ)
runs_said [] = []
runs_said (i ∷ is) = runs_by (verb_of i.verb) i ++ runs_said is

layer_copies-append :
    (ls ms : List Layer) → layer_copies (ls ++ ms) ≡ layer_copies ls ++ layer_copies ms
layer_copies-append [] ms = refl
layer_copies-append (l ∷ ls) ms =
    ap (λ x. l.copies ++ x) (layer_copies-append ls ms) ∙ sym (append_assoc l.copies _ _)

abbrev copies_in : Progress → List (List Bytes × Bytes)
copies_in p = map plain (layer_copies p.build.layers ++ p.pending.copies)

abbrev runs_in : Progress → List (Bytes × ℕ)
runs_in p = map script p.build.layers

-- `q` has what `p` has and, behind it, what one instruction says. A pending layer runs nothing.
abbrev Adds : Progress → Verb → Instruction → Progress → Type 0
Adds p v i q =
    (copies_in q ≡ copies_in p ++ copies_by v i)
    × (runs_in q ≡ runs_in p ++ runs_by v i)
    × (q.pending.run ≡ p.pending.run)

abbrev Same : Progress → Progress → Type 0
Same p q =
    (copies_in q ≡ copies_in p ++ [])
    × (runs_in q ≡ runs_in p ++ [])
    × (q.pending.run ≡ p.pending.run)

Same-refl : (p : Progress) → Same p p
Same-refl p = (sym (append-nil _), sym (append-nil _), refl)

apply_run-Adds : (p : Progress) (i : Instruction) → OnOk (Adds p run i) (apply_run p i)
unfolding apply_run
apply_run-Adds p i = elim (Bool-cases (empty (trim_space (script_of i)))) [
  | inl h ↦ rw h tt
  | inr h ↦ rw h (simp (layer_copies-append, append-nil), map-append _ p.build.layers _, refl)
]

apply_copy-Adds :
    (p : Progress) (i : Instruction) (r : Read Copy)
    → OnOk
        (λ q.
          (copies_in q ≡ copies_in p ++ copies_read r)
          × (runs_in q ≡ runs_in p ++ [])
          × (q.pending.run ≡ p.pending.run))
        (apply_copy p i r)
unfolding apply_copy
apply_copy-Adds p i (Fields.err e) = tt
apply_copy-Adds p i (Fields.ok c) = (simp (map-append, append_assoc), sym (append-nil _), refl)

apply_workdir-Same : (p : Progress) (i : Instruction) → OnOk (Same p) (apply_workdir p i)
unfolding apply_workdir
apply_workdir-Same p i = elim (Bool-cases (has_prefix (trim_space i.args) (codes "/"))) [
  | inl h ↦ rw h (Same-refl p)
  | inr h ↦ rw h tt
]

apply_env-Same :
    (p : Progress) (i : Instruction) (r : Read (List EnvVar)) → OnOk (Same p) (apply_env p i r)
unfolding apply_env
apply_env-Same p i (Fields.err e) = tt
apply_env-Same p i (Fields.ok vars) = Same-refl p

apply_arg-Same : (p : Progress) (i : Instruction) (r : Read Arg) → OnOk (Same p) (apply_arg p i r)
unfolding apply_arg
apply_arg-Same p i (Fields.err e) = tt
apply_arg-Same p i (Fields.ok a) = Same-refl p

apply_secret-Same :
    (p : Progress) (i : Instruction) (r : Read Arg) → OnOk (Same p) (apply_secret p i r)
unfolding apply_secret
apply_secret-Same p i (Fields.err e) = tt
apply_secret-Same p i (Fields.ok a) = elim (Bool-cases (empty a.default)) [
  | inl h ↦ rw h (Same-refl p)
  | inr h ↦ rw h tt
]

set_cpus-Same : (p : Progress) (i : Instruction) (o : Option ℤ) → OnOk (Same p) (set_cpus p i o)
set_cpus-Same p i none = tt
set_cpus-Same p i (some n) = Same-refl p

size-Same : (p : Progress) (i : Instruction) (v : Verb) → OnOk (Same p) (size p i v)
unfolding size
size-Same p i v = elim (Bool-cases (empty (trim_space i.args))) [
  | inl h ↦ rw h tt
  | inr h ↦ rw h (by_verb v)
]
  where
    by_verb :
        (w : Verb)
        → OnOk (Same p) (elim w [
          | memory ↦ ok (record p { build = record p.build { memory = trim_space i.args } })
          | disk ↦ ok (record p { build = record p.build { disk = trim_space i.args } })
          | cpus ↦ set_cpus p i (atoi (trim_space i.args))
          | _ ↦ ok p
        ])
    by_verb memory = Same-refl p
    by_verb disk = Same-refl p
    by_verb cpus = set_cpus-Same p i (atoi (trim_space i.args))
    by_verb _ = Same-refl p

apply_verb-Adds : (p : Progress) (i : Instruction) (v : Verb) → OnOk (Adds p v i) (apply_verb p i v)
unfolding apply_verb
apply_verb-Adds p i run = apply_run-Adds p i
apply_verb-Adds p i copy = apply_copy-Adds p i (parse_copy i.args)
apply_verb-Adds p i workdir = apply_workdir-Same p i
apply_verb-Adds p i env = apply_env-Same p i (parse_env i.args)
apply_verb-Adds p i arg = apply_arg-Same p i (parse_arg i.args)
apply_verb-Adds p i secret = apply_secret-Same p i (parse_arg i.args)
apply_verb-Adds p i memory = size-Same p i memory
apply_verb-Adds p i disk = size-Same p i disk
apply_verb-Adds p i cpus = size-Same p i cpus
apply_verb-Adds p i other = tt

apply_allowed-Adds :
    (p : Progress) (i : Instruction) → OnOk (Adds p (verb_of i.verb) i) (apply_allowed p i)
unfolding apply_allowed apply
apply_allowed-Adds p i = elim (Bool-cases (contains refused i.verb)) [
  | inl h ↦ rw h tt
  | inr h ↦ rw h (apply_verb-Adds p i (verb_of i.verb))
]

abbrev AddsAll : Progress → List Instruction → Progress → Type 0
AddsAll p is q =
    (copies_in q ≡ copies_in p ++ copies_said is)
    × (runs_in q ≡ runs_in p ++ runs_said is)
    × (q.pending.run ≡ p.pending.run)

AddsAll-cons :
    (p q r : Progress) (i : Instruction) (is : List Instruction)
    → Adds p (verb_of i.verb) i q
    → AddsAll q is r
    → AddsAll p (i ∷ is) r
AddsAll-cons p q r i is a b = (
  b.0 ∙ ap (λ x. x ++ copies_said is) a.0 ∙ append_assoc (copies_in p) _ _,
  b.1 ∙ ap (λ x. x ++ runs_said is) a.1 ∙ append_assoc (runs_in p) _ _,
  b.2 ∙ a.2,
)

apply_all-AddsAll : (is : List Instruction) (p : Progress) → OnOk (AddsAll p is) (apply_all p is)
unfolding apply_all
apply_all-AddsAll [] p = Same-refl p
apply_all-AddsAll (i ∷ is) p =
    go (apply_allowed p i) (apply_allowed-Adds p i) (λ q. apply_all-AddsAll is q)
  where
    next_step :
        (q : Progress) (r : Result Progress)
        → Adds p (verb_of i.verb) i q
        → OnOk (AddsAll q is) r
        → OnOk (AddsAll p (i ∷ is)) r
    next_step q (err e) a b = tt
    next_step q (ok r) a b = AddsAll-cons p q r i is a b

    go :
        (r : Result Progress)
        → OnOk (Adds p (verb_of i.verb) i) r
        → ((q : Progress) → OnOk (AddsAll q is) (apply_all q is))
        → OnOk (AddsAll p (i ∷ is)) (elim r [ err e ↦ err e | ok q ↦ apply_all q is ])
    go (err e) k rest = tt
    go (ok q) k rest = next_step q (apply_all q is) k (rest q)

-- The layers of a build say what the instructions said, with at most a last layer that runs nothing.
pub record Conserves (is : List Instruction) (ls : List Layer) : Type 0 where
  pub copies : map plain (layer_copies ls) ≡ copies_said is
  pub tail : List Layer
  pub runs : map script ls ≡ runs_said is ++ map script tail
  pub tail_runs_nothing : All (λ l. l.run ≡ []) tail

all_layers-Conserves :
    (is : List Instruction) (p : Progress) → AddsAll at_start is p → Conserves is (all_layers p)
all_layers-Conserves is p a = go p.pending.copies refl
  where
    go :
        (cs : List Copy)
        → p.pending.copies ≡ cs
        → Conserves is (elim cs [ [] ↦ p.build.layers | _ ∷ _ ↦ p.build.layers ++ p.pending ∷ [] ])
    go [] e = record {
      copies =
          ap (map plain) (sym (append-nil (layer_copies p.build.layers)))
          ∙ ap (λ cs. map plain (layer_copies p.build.layers ++ cs)) (sym e)
          ∙ a.0;
      tail = [];
      runs = a.1 ∙ sym (append-nil _);
      tail_runs_nothing = tt;
    }
    go (c ∷ cs) e = record {
      copies =
          ap (map plain) (layer_copies-append p.build.layers (p.pending ∷ []))
          ∙ ap (λ x. map plain (layer_copies p.build.layers ++ x)) (append-nil p.pending.copies)
          ∙ a.0;
      tail = p.pending ∷ [];
      runs = map-append script p.build.layers _ ∙ ap (λ x. x ++ script p.pending ∷ []) a.1;
      tail_runs_nothing = (a.2, tt);
    }

abbrev ConservedBy : List Instruction → Result Build → Type 0
ConservedBy is (ok b) = Conserves is b.layers
ConservedBy is (err e) = Unit

with_layers-ConservedBy :
    (is : List Instruction) (b : Build) (ls : List Layer)
    → Conserves is ls
    → ConservedBy is (with_layers b ls)
with_layers-ConservedBy is b [] c = tt
with_layers-ConservedBy is b (l ∷ ls) c = c

close-ConservedBy :
    (is : List Instruction) (r : Result Progress)
    → OnOk (AddsAll at_start is) r
    → ConservedBy is (close r)
unfolding close
close-ConservedBy is (err e) h = tt
close-ConservedBy is (ok p) h =
    with_layers-ConservedBy is p.build (all_layers p) (all_layers-Conserves is p h)

-- If the instructions of a file parse, every COPY of theirs stands in exactly one place of the
-- layers and in the same order, with its sources and its destination, and the layers run the
-- commands of their RUNs, one layer for each, in order and under their line numbers, with no more
-- behind them than layers that run nothing.
pub parse_lexed-Conserves :
    (is : List Instruction) (b : Build) → parse_lexed (Lex.ok is) ≡ ok b → Conserves is b.layers
unfolding parse_lexed
parse_lexed-Conserves is b e =
    subst (ConservedBy is) e
      (close-ConservedBy is (apply_all at_start is) (apply_all-AddsAll is at_start))

-- ===== src/Project/Kranqfile/Layers.antt =====
-- internal/project/kranqfile.go: what every layer of a build has.
use kranq.Base.{
  Bool, true, false, List, [], ◌∷◌, ◌++◌, Option, none, some, ◌≡◌, ◌≢◌, ◌⊎◌, inl, inr, refl, subst,
  All, All-append, Bool-cases,
}
use kranq.Base.Int.{ℤ}
use kranq.Base.Text.{Bytes, codes, empty, has_prefix, contains}
use kranq.Base.Strings.{trim_space, atoi, cut}
use kranq.Project.Fields.{
  EnvVar, Arg, Copy, FieldError, Read, parse_copy, parse_env, parse_arg, parse_arg_parts,
  is_arg_name, named_arg, fields,
}
use kranq.Project.Fields
use kranq.Project.Lex.{Instruction, Lexed, lex, scan_lines}
use kranq.Project.Lex
use kranq.Project.Kranqfile.{
  Layer, Build, Result, ok, err, Verb, run, copy, workdir, env, arg, secret, memory, disk, cpus,
  other, verb_of, Progress, script_of, apply_run, apply_copy, apply_workdir, apply_env, apply_arg,
  apply_secret, size, apply_verb, apply, apply_allowed, apply_all, at_start, all_layers,
  with_layers, close, parse_lexed, parse, refused, set_cpus,
}

-- What holds of a layer that can be built: its directory is absolute or the default one, its args and
-- secrets have usable names, and it runs something or copies something.
pub record Collected (l : Layer) : Type 0 where
  pub absolute : (l.workdir ≡ []) ⊎ (has_prefix l.workdir (codes "/") ≡ true)
  pub arg_names : All (λ a. is_arg_name a.name ≡ true) l.args
  pub secret_names : All (λ s. is_arg_name s ≡ true) l.secrets

abbrev pub Works : Layer → Type 0
Works l = (empty (trim_space l.run) ≡ false) ⊎ ((l.run ≡ []) × (l.copies ≢ []))

abbrev pub IsBuildable : Layer → Type 0
IsBuildable l = Collected l × Works l

record Sound (p : Progress) : Type 0 where
  built : All IsBuildable p.build.layers
  collected : Collected p.pending
  no_run : p.pending.run ≡ []

-- What a result satisfies if it is no error.
abbrev pub OnOk : (Progress → Type 0) → Result Progress → Type 0
OnOk P (ok p) = P p
OnOk P (err e) = Unit

abbrev NamedArg : Read Arg → Type 0
NamedArg (Fields.ok a) = is_arg_name a.name ≡ true
NamedArg (Fields.err e) = Unit

named_arg-NamedArg : (c : Bytes × Bytes × Bool) → NamedArg (named_arg c)
named_arg-NamedArg (name, value, found) = elim (Bool-cases (is_arg_name name)) [
  | inl h ↦ rw h h
  | inr h ↦ rw h tt
]

parse_arg_parts-NamedArg : (parts : List Bytes) → NamedArg (parse_arg_parts parts)
unfolding parse_arg_parts
parse_arg_parts-NamedArg [] = tt
parse_arg_parts-NamedArg (part ∷ []) = named_arg-NamedArg (cut b'=' part)
parse_arg_parts-NamedArg (part ∷ x ∷ parts) = tt

apply_run-Sound : (p : Progress) (i : Instruction) → Sound p → OnOk Sound (apply_run p i)
unfolding apply_run
apply_run-Sound p i s = elim (Bool-cases (empty (trim_space (script_of i)))) [
  | inl h ↦ rw h tt
  | inr h ↦ rw h (record {
    built = All-append IsBuildable p.build.layers _ s.built (
      (
        record {
          absolute = s.collected.absolute;
          arg_names = s.collected.arg_names;
          secret_names = s.collected.secret_names;
        },
        inl h,
      ),
      tt,
    );
    collected = record {
      absolute = s.collected.absolute;
      arg_names = s.collected.arg_names;
      secret_names = s.collected.secret_names;
    };
    no_run = s.no_run;
  })
]

apply_copy-Sound :
    (p : Progress) (i : Instruction) (r : Read Copy) → Sound p → OnOk Sound (apply_copy p i r)
unfolding apply_copy
apply_copy-Sound p i (Fields.err e) s = tt
apply_copy-Sound p i (Fields.ok c) s = record {
  built = s.built;
  collected = record {
    absolute = s.collected.absolute;
    arg_names = s.collected.arg_names;
    secret_names = s.collected.secret_names;
  };
  no_run = s.no_run;
}

apply_workdir-Sound : (p : Progress) (i : Instruction) → Sound p → OnOk Sound (apply_workdir p i)
unfolding apply_workdir
apply_workdir-Sound p i s = elim (Bool-cases (has_prefix (trim_space i.args) (codes "/"))) [
  | inl h ↦ rw h (record {
    built = s.built;
    collected = record {
      absolute = inr h;
      arg_names = s.collected.arg_names;
      secret_names = s.collected.secret_names;
    };
    no_run = s.no_run;
  })
  | inr h ↦ rw h tt
]

apply_env-Sound :
    (p : Progress) (i : Instruction) (r : Read (List EnvVar))
    → Sound p
    → OnOk Sound (apply_env p i r)
unfolding apply_env
apply_env-Sound p i (Fields.err e) s = tt
apply_env-Sound p i (Fields.ok c) s = record {
  built = s.built;
  collected = record {
    absolute = s.collected.absolute;
    arg_names = s.collected.arg_names;
    secret_names = s.collected.secret_names;
  };
  no_run = s.no_run;
}

apply_arg-Sound :
    (p : Progress) (i : Instruction) (r : Read Arg)
    → NamedArg r
    → Sound p
    → OnOk Sound (apply_arg p i r)
unfolding apply_arg
apply_arg-Sound p i (Fields.err e) n s = tt
apply_arg-Sound p i (Fields.ok a) n s = record {
  built = s.built;
  collected = record {
    absolute = s.collected.absolute;
    arg_names = All-append _ p.pending.args (a ∷ []) s.collected.arg_names (n, tt);
    secret_names = s.collected.secret_names;
  };
  no_run = s.no_run;
}

apply_secret-Sound :
    (p : Progress) (i : Instruction) (r : Read Arg)
    → NamedArg r
    → Sound p
    → OnOk Sound (apply_secret p i r)
unfolding apply_secret
apply_secret-Sound p i (Fields.err e) n s = tt
apply_secret-Sound p i (Fields.ok a) n s = elim (Bool-cases (empty a.default)) [
  | inl h ↦ rw h (record {
    built = s.built;
    collected = record {
      absolute = s.collected.absolute;
      arg_names = s.collected.arg_names;
      secret_names = All-append _ p.pending.secrets (a.name ∷ []) s.collected.secret_names (n, tt);
    };
    no_run = s.no_run;
  })
  | inr h ↦ rw h tt
]

set_cpus-Sound :
    (p : Progress) (i : Instruction) (o : Option ℤ) → Sound p → OnOk Sound (set_cpus p i o)
set_cpus-Sound p i none s = tt
set_cpus-Sound p i (some n) s = record {
  built = s.built;
  collected = s.collected;
  no_run = s.no_run;
}

size-Sound : (p : Progress) (i : Instruction) (v : Verb) → Sound p → OnOk Sound (size p i v)
unfolding size
size-Sound p i v s = elim (Bool-cases (empty (trim_space i.args))) [
  | inl h ↦ rw h tt
  | inr h ↦ rw h (by_verb v)
]
  where
    by_verb :
        (w : Verb)
        → OnOk Sound (elim w [
          | memory ↦ ok (record p { build = record p.build { memory = trim_space i.args } })
          | disk ↦ ok (record p { build = record p.build { disk = trim_space i.args } })
          | cpus ↦ set_cpus p i (atoi (trim_space i.args))
          | _ ↦ ok p
        ])
    by_verb memory = record { built = s.built; collected = s.collected; no_run = s.no_run }
    by_verb disk = record { built = s.built; collected = s.collected; no_run = s.no_run }
    by_verb cpus = set_cpus-Sound p i (atoi (trim_space i.args)) s
    by_verb _ = s

apply_verb-Sound :
    (p : Progress) (i : Instruction) (v : Verb) → Sound p → OnOk Sound (apply_verb p i v)
unfolding apply_verb parse_arg
apply_verb-Sound p i run s = apply_run-Sound p i s
apply_verb-Sound p i copy s = apply_copy-Sound p i (parse_copy i.args) s
apply_verb-Sound p i workdir s = apply_workdir-Sound p i s
apply_verb-Sound p i env s = apply_env-Sound p i (parse_env i.args) s
apply_verb-Sound p i arg s =
    apply_arg-Sound p i (parse_arg i.args) (parse_arg_parts-NamedArg (fields i.args)) s
apply_verb-Sound p i secret s =
    apply_secret-Sound p i (parse_arg i.args) (parse_arg_parts-NamedArg (fields i.args)) s
apply_verb-Sound p i memory s = size-Sound p i memory s
apply_verb-Sound p i disk s = size-Sound p i disk s
apply_verb-Sound p i cpus s = size-Sound p i cpus s
apply_verb-Sound p i other s = tt

apply_allowed-Sound : (p : Progress) (i : Instruction) → Sound p → OnOk Sound (apply_allowed p i)
unfolding apply_allowed apply
apply_allowed-Sound p i s = elim (Bool-cases (contains refused i.verb)) [
  | inl h ↦ rw h tt
  | inr h ↦ rw h (apply_verb-Sound p i (verb_of i.verb) s)
]

apply_all-Sound : (is : List Instruction) (p : Progress) → Sound p → OnOk Sound (apply_all p is)
unfolding apply_all
apply_all-Sound [] p h = h
apply_all-Sound (i ∷ is) p h =
    go (apply_allowed p i) (apply_allowed-Sound p i h) (λ q k. apply_all-Sound is q k)
  where
    go :
        (r : Result Progress)
        → OnOk Sound r
        → ((q : Progress) → Sound q → OnOk Sound (apply_all q is))
        → OnOk Sound (elim r [ err e ↦ err e | ok q ↦ apply_all q is ])
    go (err e) k rest = tt
    go (ok q) k rest = rest q k

abbrev GoodBuild : Result Build → Type 0
GoodBuild (ok b) = (b.layers ≢ []) × All IsBuildable b.layers
GoodBuild (err e) = Unit

with_layers-GoodBuild :
    (b : Build) (ls : List Layer) → All IsBuildable ls → GoodBuild (with_layers b ls)
with_layers-GoodBuild b [] a = tt
with_layers-GoodBuild b (l ∷ ls) a = (λ e. cc, a)

all_layers-buildable : (p : Progress) → Sound p → All IsBuildable (all_layers p)
all_layers-buildable p s = go p.pending.copies refl
  where
    go :
        (cs : List Copy)
        → p.pending.copies ≡ cs
        → All IsBuildable
            (elim cs [ [] ↦ p.build.layers | _ ∷ _ ↦ p.build.layers ++ p.pending ∷ [] ])
    go [] e = s.built
    go (c ∷ cs) e =
        All-append IsBuildable p.build.layers _ s.built ((s.collected, inr (s.no_run, λ h. cc)), tt)

close-GoodBuild : (r : Result Progress) → OnOk Sound r → GoodBuild (close r)
unfolding close
close-GoodBuild (err e) h = tt
close-GoodBuild (ok p) s = with_layers-GoodBuild p.build (all_layers p) (all_layers-buildable p s)

-- A text that parses gives at least one layer, and every layer can be built: it runs a command that
-- is not blank, or it copies something; its directory is absolute or left to the default; and the
-- names of its args and secrets are usable as variables.
pub parse-GoodBuild :
    (src : Bytes) (b : Build) → parse src ≡ ok b → (b.layers ≢ []) × All IsBuildable b.layers
unfolding parse
parse-GoodBuild src b e = subst GoodBuild e (lexed (lex (scan_lines src)))
  where
    start : Sound at_start
    start = record {
      built = tt;
      collected = record { absolute = inl refl; arg_names = tt; secret_names = tt };
      no_run = refl;
    }

    lexed : (l : Lexed) → GoodBuild (parse_lexed l)
    lexed (Lex.err x) = tt
    lexed (Lex.ok is) = close-GoodBuild (apply_all at_start is) (apply_all-Sound is at_start start)

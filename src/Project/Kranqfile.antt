-- ===== src/Project/Kranqfile.antt =====
-- internal/project/kranqfile.go: what each instruction of a Kranqfile does to the build. Texts of
-- errors are data: which rule was broken, and on which line.
pub mod Layers
pub mod Conserved
use kranq.Base.{
  ℕ, Bool, true, false, not, ◌&&◌, ◌||◌, List, [], ◌∷◌, ◌++◌, Option, none, some, if◌then◌else◌,
  ◌==◌,
}
use kranq.Base.Int.{ℤ, pos}
use kranq.Base.Text.{Bytes, codes, empty, same, has_prefix, contains}
use kranq.Base.Strings.{trim_space, atoi}
use kranq.Project.Fields.{EnvVar, Arg, Copy, FieldError, Read, parse_copy, parse_env, parse_arg}
use kranq.Project.Fields
use kranq.Project.Lex.{Instruction, LexError, Lexed, lex, scan_lines}
use kranq.Project.Lex

pub record Layer : Type 0 where
  pub copies : List Copy
  pub workdir : Bytes
  pub env : List EnvVar
  pub args : List Arg
  pub secrets : List Bytes
  pub run : Bytes
  pub line : ℕ

pub record Build : Type 0 where
  pub memory : Bytes
  pub cpus : ℤ
  pub disk : Bytes
  pub layers : List Layer

pub data ParseError : Type 0 where
  bad_lines : LexError → ParseError
  refused_verb unknown_verb no_command not_absolute secret_has_default no_value not_a_number :
      ℕ → ParseError
  bad_fields : ℕ → FieldError → ParseError
  builds_nothing : ParseError

pub data Result {ℓ} (A : Type ℓ) : Type ℓ where
  ok : A → Result A
  err : ParseError → Result A

-- The keys of `refused`; the reasons that it gives are texts.
abbrev pub refused : List Bytes
refused =
    codes "FROM"
    ∷ codes "CMD"
    ∷ codes "ENTRYPOINT"
    ∷ codes "EXPOSE"
    ∷ codes "VOLUME"
    ∷ codes "USER"
    ∷ codes "ADD"
    ∷ codes "LABEL"
    ∷ codes "HEALTHCHECK"
    ∷ codes "ONBUILD"
    ∷ codes "SHELL"
    ∷ codes "STOPSIGNAL"
    ∷ []

-- The cases of the switches in `apply` and `size`.
pub data Verb : Type 0 where
  run copy workdir env arg secret memory disk cpus other : Verb

unfoldable pub verb_of : Bytes → Verb
unfolding same
verb_of v =
    if same v (codes "RUN")
    then run
    else if same v (codes "COPY")
    then copy
    else if same v (codes "WORKDIR")
    then workdir
    else if same v (codes "ENV")
    then env
    else if same v (codes "ARG")
    then arg
    else if same v (codes "SECRET")
    then secret
    else if same v (codes "MEMORY")
    then memory
    else if same v (codes "DISK")
    then disk
    else if same v (codes "CPUS")
    then cpus
    else other

-- The build so far, and the layer that is being collected.
pub record Progress : Type 0 where
  pub build : Build
  pub pending : Layer

unfoldable pub script_of : Instruction → Bytes
script_of i = if not (empty i.body) then i.body else i.args

abbrev pub layer_of : Layer → Bytes → ℕ → Layer
layer_of p script line = record p { run = script; line = line }

unfoldable pub apply_run : Progress → Instruction → Result Progress
unfolding script_of
apply_run p i =
    if empty (trim_space (script_of i))
    then err (no_command i.line)
    else ok (record {
      build = record p.build {
        layers = p.build.layers ++ layer_of p.pending (script_of i) i.line ∷ [];
      };
      pending = record p.pending { copies = []; line = 0 };
    })

unfoldable pub apply_copy : Progress → Instruction → Read Copy → Result Progress
apply_copy p i (Fields.err e) = err (bad_fields i.line e)
apply_copy p i (Fields.ok c) = ok (record p {
  pending = record p.pending {
    copies = p.pending.copies ++ record c { workdir = p.pending.workdir } ∷ [];
    line = if p.pending.line == 0 then i.line else p.pending.line;
  };
})

unfoldable pub apply_workdir : Progress → Instruction → Result Progress
apply_workdir p i =
    let dir = trim_space i.args in
    if not (has_prefix dir (codes "/"))
    then err (not_absolute i.line)
    else ok (record p { pending = record p.pending { workdir = dir } })

unfoldable pub apply_env : Progress → Instruction → Read (List EnvVar) → Result Progress
apply_env p i (Fields.err e) = err (bad_fields i.line e)
apply_env p i (Fields.ok vars) =
    ok (record p { pending = record p.pending { env = p.pending.env ++ vars } })

unfoldable pub apply_arg : Progress → Instruction → Read Arg → Result Progress
apply_arg p i (Fields.err e) = err (bad_fields i.line e)
apply_arg p i (Fields.ok a) =
    ok (record p { pending = record p.pending { args = p.pending.args ++ a ∷ [] } })

unfoldable pub apply_secret : Progress → Instruction → Read Arg → Result Progress
apply_secret p i (Fields.err e) = err (bad_fields i.line e)
apply_secret p i (Fields.ok a) =
    if not (empty a.default)
    then err (secret_has_default i.line)
    else ok (record p { pending = record p.pending { secrets = p.pending.secrets ++ a.name ∷ [] } })

abbrev pub set_cpus : Progress → Instruction → Option ℤ → Result Progress
set_cpus p i none = err (not_a_number i.line)
set_cpus p i (some n) = ok (record p { build = record p.build { cpus = n } })

-- `size`, given which of the three it sets.
unfoldable pub size : Progress → Instruction → Verb → Result Progress
size p i v =
    let value = trim_space i.args in
    if empty value then err (no_value i.line) else (elim v [
      | memory ↦ ok (record p { build = record p.build { memory = value } })
      | disk ↦ ok (record p { build = record p.build { disk = value } })
      | cpus ↦ set_cpus p i (atoi value)
      | _ ↦ ok p
    ])

unfoldable pub apply_verb : Progress → Instruction → Verb → Result Progress
unfolding apply_run apply_copy apply_workdir apply_env apply_arg apply_secret size
apply_verb p i run = apply_run p i
apply_verb p i copy = apply_copy p i (parse_copy i.args)
apply_verb p i workdir = apply_workdir p i
apply_verb p i env = apply_env p i (parse_env i.args)
apply_verb p i arg = apply_arg p i (parse_arg i.args)
apply_verb p i secret = apply_secret p i (parse_arg i.args)
apply_verb p i memory = size p i memory
apply_verb p i disk = size p i disk
apply_verb p i cpus = size p i cpus
apply_verb p i other = err (unknown_verb i.line)

unfoldable pub apply : Progress → Instruction → Result Progress
unfolding apply_verb verb_of
apply p i = apply_verb p i (verb_of i.verb)

-- One instruction of the loop in `parse`: a refused verb is an error before `apply` sees it.
unfoldable pub apply_allowed : Progress → Instruction → Result Progress
apply_allowed p i = if contains refused i.verb then err (refused_verb i.line) else apply p i

unfoldable pub apply_all : Progress → List Instruction → Result Progress
apply_all p [] = ok p
apply_all p (i ∷ is) = elim (apply_allowed p i) [ err e ↦ err e | ok q ↦ apply_all q is ]

abbrev pub no_layer : Layer
no_layer = record {
  copies = [];
  workdir = [];
  env = [];
  args = [];
  secrets = [];
  run = [];
  line = 0;
}

abbrev pub at_start : Progress
at_start = record {
  build = record { memory = []; cpus = pos 0; disk = []; layers = [] };
  pending = no_layer;
}

-- What is left after the last RUN gets a layer of its own.
abbrev pub all_layers : Progress → List Layer
all_layers p = elim p.pending.copies [
  | [] ↦ p.build.layers
  | _ ∷ _ ↦ p.build.layers ++ p.pending ∷ []
]

abbrev pub with_layers : Build → List Layer → Result Build
with_layers b [] = err builds_nothing
with_layers b (l ∷ ls) = ok (record b { layers = l ∷ ls })

unfoldable pub close : Result Progress → Result Build
close (err e) = err e
close (ok p) = with_layers p.build (all_layers p)

unfoldable pub parse_lexed : Lexed → Result Build
unfolding close apply_all
parse_lexed (Lex.err e) = err (bad_lines e)
parse_lexed (Lex.ok is) = close (apply_all at_start is)

unfoldable pub parse : Bytes → Result Build
unfolding parse_lexed
parse src = parse_lexed (lex (scan_lines src))

-- ===== src/Tests/Project.antt =====
-- A Kranqfile, and the names of its images.
use kranq.Base.{
  ℕ, zero, suc, ◌+◌, ◌≤◌, ◌-◌, Bool, true, false, not, List, [], ◌∷◌, ◌++◌, Option, none, some, ◌≡◌,
  ◌≢◌, ◌⊎◌, refl, inl, inr, arith, All, length, take, any, map, select, ltb, ==_refl, if◌then◌else◌,
}
use kranq.Base.Int.{pos}
use kranq.Base.Text.{Bytes, codes}
use kranq.Base.Strings.{has_byte, before}
use kranq.Base.Utf8.{is_runes}
use kranq.Project.Fields.{fields, parse_copy, ok, EnvVar, Arg, Copy}
use kranq.Project.Fields
use kranq.Project.Fields.Quoting.{quote_all, fields-quote_all}
use kranq.Project.Lex.{lex, lex_loop, cons_instruction, body_text, Instruction}
use kranq.Project.Lex
use kranq.Project.Lex.Fuel.{lex-Ends, Ends}
use kranq.Project.Lex.Heredoc.{lex_loop-heredoc}
use kranq.Project.Kranqfile.{parse, parse_lexed, Build, Layer}
use kranq.Project.Kranqfile
use kranq.Project.Kranqfile.Layers.{parse-GoodBuild, IsBuildable}
use kranq.Project.Kranqfile.Conserved.{parse_lexed-Conserves, Conserves}
use kranq.Project.Bind.{bind, bind-AgreeOn, Resolved}
use kranq.Image.Name.{chain, run_name, max_run_name}
use kranq.Image.Name.Chain.{take-chain}
use kranq.Image.Name.RunName.{run_name_le}

abbrev two_words : List Bytes
two_words = codes "a b" ∷ codes "" ∷ (b'c' ∷ b'"' ∷ 195 ∷ 169 ∷ []) ∷ []

fields-quote_all_example : fields (quote_all two_words) ≡ two_words
unfolding has_byte is_runes
fields-quote_all_example =
    fields-quote_all two_words (refl, (refl, (refl, tt))) (refl, (refl, (refl, tt)))

abbrev heredoc_lines : List Bytes
heredoc_lines =
    codes "RUN <<EOF" ∷ codes "# kept" ∷ codes "make \\" ∷ codes "EOF" ∷ codes "COPY a /b" ∷ []

lex-Ends_example : Ends (lex heredoc_lines)
lex-Ends_example = lex-Ends heredoc_lines

lex_loop-heredoc_example :
    lex_loop 5 1 heredoc_lines
    ≡ cons_instruction
        (record {
          verb = codes "RUN";
          args = [];
          body = body_text (codes "# kept" ∷ codes "make \\" ∷ []);
          line = 1;
        })
        (lex_loop 4 5 (codes "COPY a /b" ∷ []))
unfolding kranq.Base.Strings.trim_space kranq.Base.Text.has_prefix kranq.Base.Strings.has_suffix
    kranq.Base.Text.same Lex.verb_and_args Lex.heredoc_tag
lex_loop-heredoc_example =
    lex_loop-heredoc 4 1 (codes "RUN <<EOF") (codes "EOF") (codes "EOF") (codes "RUN")
      (codes "<<EOF") (codes "# kept" ∷ codes "make \\" ∷ []) (codes "COPY a /b" ∷ []) refl refl
      refl refl (refl, (refl, tt)) refl

abbrev layer : Layer
layer = record {
  copies = record { sources = codes "a" ∷ []; dest = codes "b"; workdir = codes "/w" } ∷ [];
  workdir = codes "/w";
  env = [];
  args = record { name = codes "V"; default = [] } ∷ [];
  secrets = codes "KEY" ∷ [];
  run = codes "make";
  line = 5;
}

abbrev build : Build
build = record { memory = []; cpus = pos 4; disk = []; layers = layer ∷ [] }

abbrev newline : Bytes
newline = b'\n' ∷ []

abbrev source : Bytes
source =
    codes "CPUS 4"
    ++ (newline
        ++ (codes "workdir /w"
            ++ (newline
                ++ (codes "COPY a b"
                    ++ (newline
                        ++ (codes "ARG V" ++ (newline ++ (codes "RUN make" ++ newline))))))))

abbrev instruction : Bytes → Bytes → ℕ → Instruction
instruction verb args line = record { verb = verb; args = args; body = []; line = line }

abbrev instructions : List Instruction
instructions =
    instruction (codes "CPUS") (codes "4") 1
    ∷ instruction (codes "WORKDIR") (codes "/w") 2
    ∷ instruction (codes "COPY") (codes "a b") 3
    ∷ instruction (codes "ARG") (codes "V") 4
    ∷ instruction (codes "RUN") (codes "make") 5
    ∷ []

abbrev built : Build
built = record build { layers = record layer { secrets = [] } ∷ [] }

parse-GoodBuild_example : (built.layers ≢ []) × All IsBuildable built.layers
unfolding parse lex lex_loop Lex.scan_lines kranq.Base.Strings.trim_space kranq.Base.Text.has_prefix
    Lex.instruction_at Lex.instruction_with Lex.heredoc_tag Lex.verb_and_args Lex.continued
    kranq.Base.Text.same Kranqfile.apply_allowed kranq.Base.Text.contains Kranqfile.apply
    kranq.Base.Strings.atoi parse_copy fields Fields.parse_arg
parse-GoodBuild_example = parse-GoodBuild source built refl

parse_lexed-Conserves_example : Conserves instructions built.layers
unfolding parse_lexed Kranqfile.apply_allowed kranq.Base.Text.contains kranq.Base.Text.same
    Kranqfile.apply kranq.Base.Strings.trim_space kranq.Base.Strings.atoi kranq.Base.Text.has_prefix
    parse_copy Fields.parse_arg
parse_lexed-Conserves_example = parse_lexed-Conserves instructions built refl

abbrev narrow : List (Bytes × Bytes)
narrow = (codes "V", codes "1") ∷ []

abbrev wide : List (Bytes × Bytes)
wide = (codes "HOME", codes "/root") ∷ (codes "V", codes "1") ∷ []

bind-AgreeOn_example : bind narrow (layer ∷ []) ≡ bind wide (layer ∷ [])
unfolding kranq.State.Task.env_get kranq.Base.Text.same
bind-AgreeOn_example = bind-AgreeOn narrow wide (layer ∷ []) ((refl, tt), (refl, tt), tt)

abbrev hex8 : ℕ → Bytes → Bytes
hex8 k b = codes "0123abcd"

abbrev digits : ℕ → Bytes
digits n = codes "01"

abbrev resolved_with : Bytes → Resolved
resolved_with secret = record {
  layer = layer;
  files = record { dest = codes "/app"; source = secret; mode = 420; digest = codes "ab12" } ∷ [];
  roots = [];
  values = record { name = codes "V"; value = codes "1" } ∷ [];
  private = record { name = codes "KEY"; value = secret } ∷ [];
}

abbrev one_layer : Bytes → List Resolved
one_layer secret = resolved_with secret ∷ []

take-chain_example :
    take 2
      (chain hex8 digits digits (codes "kranq-base-x") [] (one_layer (codes "old") ++ one_layer []))
    ≡ take 2 (chain hex8 digits digits (codes "kranq-base-x") [] (one_layer (codes "new") ++ []))
take-chain_example =
    take-chain hex8 digits digits (codes "kranq-base-x") [] (one_layer (codes "old"))
      (one_layer (codes "new")) (one_layer []) []
      (
        record {
          same_dir = refl;
          same_env = refl;
          same_values = refl;
          same_secrets = refl;
          same_run = refl;
          same_files = (refl, refl, refl, tt);
        },
        tt,
      )

run_name_le_example :
    length
      (run_name hex8 (codes "My/Very.Long_Repository-Name-Indeed") (codes "nightly") (codes "t1"))
    ≤ max_run_name
run_name_le_example =
    run_name_le hex8 (codes "My/Very.Long_Repository-Name-Indeed") (codes "nightly") (codes "t1")
      refl

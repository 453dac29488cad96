-- ===== src/Tests/Task.antt =====
-- A task that is accepted.
use kranq.Base.{ℕ, true, [], ◌∷◌, Option, some, ◌≡◌, refl, arith, if◌then◌else◌}
use kranq.Base.Int.{ℤ, pos}
use kranq.Base.Text.{Bytes, codes, empty, same}
use kranq.Base.Strings.{has_text}
use kranq.Task.Spec.{Step, Spec, parse_spec, is_octal, parse_memory}
use kranq.Task.Spec.Laws.{parse_spec-IsSpec, AllAccepted}
use kranq.Task.Spec.Accepts.{parse_spec-some, IsValid}

abbrev decode : Bytes → Option Bytes
decode s = some s

abbrev parse_float : Bytes → Option ℕ
parse_float s = some 2

abbrev scale : ℕ → ℕ → ℤ
scale n k = pos k

abbrev build_step : Step
build_step = record {
  name = [];
  run = codes "make";
  claude = [];
  permission_mode = [];
  servers = [];
}

abbrev ask_step : Step
ask_step = record {
  name = [];
  run = [];
  claude = codes "fix it";
  permission_mode = codes "plan";
  servers = record { name = codes "docs"; command = codes "serve" } ∷ [];
}

abbrev nightly : Spec
nightly = record {
  name = codes "nightly";
  label = [];
  artifacts = [];
  memory = codes "2 GiB";
  files = record { path = codes "a/b"; content = codes "x"; mode = codes "755" } ∷ [];
  effects = record { push = true; key = []; scope = codes "repo" };
  steps = build_step ∷ ask_step ∷ [];
}

nightly-IsValid : IsValid decode parse_float scale nightly
unfolding same has_text is_octal parse_memory
nightly-IsValid = record {
  has_name = refl;
  has_steps = refl;
  steps = (record { one_thing = refl }, (record { one_thing = refl }, tt));
  options = (
    record { known_mode = refl; servers = tt },
    (record { known_mode = refl; servers = ((refl, refl), tt) }, tt),
  );
  memory = refl;
  files = (record { has_path = refl; no_dots = refl; known_mode = refl; small = omega arith }, tt);
  known_scope = refl;
  only_pushes = refl;
}

parse_spec-some_example :
    parse_spec decode parse_float scale nightly
    ≡ some (record nightly {
      label = if empty nightly.label then nightly.name else nightly.label;
      artifacts = if empty nightly.artifacts then codes "ci-artifacts" else nightly.artifacts;
    })
parse_spec-some_example = parse_spec-some decode parse_float scale nightly nightly-IsValid

parse_spec-IsSpec_example :
    AllAccepted decode parse_float scale (parse_spec decode parse_float scale nightly)
parse_spec-IsSpec_example = parse_spec-IsSpec decode parse_float scale nightly

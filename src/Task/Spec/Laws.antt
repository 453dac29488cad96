-- ===== src/Task/Spec/Laws.antt =====
-- What is true of a task that is accepted.
use kranq.Base.{
  ℕ, Bool, true, false, not, ◌&&◌, ◌||◌, List, [], ◌∷◌, Option, none, some, if◌then◌else◌, ◌≡◌, ◌⊎◌,
  inl, inr, refl, arith, any, All, length, ltb, ◌≤◌, Bool-cases,
}
use kranq.Base.Int.{ℤ}
use kranq.Base.Text.{Bytes, codes, empty, same}
use kranq.Base.Strings.{has_text}
use kranq.Task.Spec.{
  Server, Step, TaskFile, Spec, SpecError, Check, refuse, and_then, each, permission_modes,
  check_work, check_server, check_options, check_effects, is_octal, parse_memory, is_none,
  check_content, check_file, no_steps_in, validate, with_defaults, accepted, parse_spec, fence_kind,
  fence_branch,
}

and_then-none : (c d : Check) → and_then c d ≡ none → (c ≡ none) × (d ≡ none)
and_then-none none d h = (refl, h)
and_then-none (some e) d h = absurd (cc h)

refuse-none : (b : Bool) (e : SpecError) → refuse b e ≡ none → b ≡ false
refuse-none false e h = refl
refuse-none true e h = absurd (cc h)

each-none {ℓ} :
    {A : Type ℓ} (f : A → Check) (P : A → Type 0) (xs : List A)
    → ((x : A) → f x ≡ none → P x)
    → each f xs ≡ none
    → All P xs
unfolding each
each-none f P [] g h = tt
each-none f P (x ∷ xs) g h =
    let n = and_then-none (f x) (each f xs) h in (g x n.0, each-none f P xs g n.1)

-- A step does one thing, and only a step for claude has servers.
pub record IsStep (st : Step) : Type 0 where
  pub one_thing : empty st.run ≡ not (empty st.claude)

pub record HasOptions (st : Step) : Type 0 where
  pub known_mode :
      (empty st.permission_mode || any (same st.permission_mode) permission_modes) ≡ true
  pub servers : All (λ s. (empty s.command ≡ false) × (empty st.claude ≡ false)) st.servers

check_work-IsStep : (st : Step) → check_work st ≡ none → IsStep st
check_work-IsStep st h =
    let n = and_then-none _ _ h in
    record { one_thing = one (refuse-none _ _ n.0) (refuse-none _ _ n.1) }
  where
    one :
        (empty st.run && empty st.claude) ≡ false
        → (not (empty st.run) && not (empty st.claude)) ≡ false
        → empty st.run ≡ not (empty st.claude)
    one a b = ground arith

check_server-none :
    (st : Step) (s : Server)
    → check_server st s ≡ none
    → (empty s.command ≡ false) × (empty st.claude ≡ false)
check_server-none st s h =
    let n = and_then-none (refuse (empty s.command) _) (refuse (empty st.claude) _) h in
    (refuse-none _ _ n.0, refuse-none _ _ n.1)

check_options-HasOptions : (st : Step) → check_options st ≡ none → HasOptions st
check_options-HasOptions st h =
    let n = and_then-none _ (each (check_server st) st.servers) h in
    record {
      known_mode = known (refuse-none _ _ n.0);
      servers = each-none (check_server st) _ st.servers (check_server-none st) n.1;
    }
  where
    known :
        (not (empty st.permission_mode) && not (any (same st.permission_mode) permission_modes))
          ≡ false
        → (empty st.permission_mode || any (same st.permission_mode) permission_modes) ≡ true
    known a = ground arith

-- A task pushes under a fence, or its fence would be its own name on the branch that it is given.
abbrev pub IsFenceOf : Spec → Type 0
IsFenceOf s =
    (s.effects.push ≡ true) ⊎ ((fence_kind s ≡ s.name) × ((b : Bytes) → fence_branch s b ≡ b))

empty-same : (s : Bytes) → empty s ≡ true → same s (codes "repo") ≡ false
unfolding same
empty-same [] h = refl
empty-same (c ∷ s) h = absurd (ground arith)

unpushed :
    (s : Spec)
    → empty s.effects.key ≡ true
    → empty s.effects.scope ≡ true
    → (fence_kind s ≡ s.name) × ((b : Bytes) → fence_branch s b ≡ b)
unfolding fence_kind fence_branch
unpushed s k c = (rw k refl, λ b. rw (fence_branch, empty-same s.effects.scope c) refl)

no_effects :
    (p k c : Bool) → p ≡ false → (not p && (not k || not c)) ≡ false → (k ≡ true) × (c ≡ true)
no_effects p k c f h = (ground arith, ground arith)

check_effects-IsFenceOf : (s : Spec) → check_effects s.effects ≡ none → IsFenceOf s
check_effects-IsFenceOf s h = elim (Bool-cases s.effects.push) [
  | inl p ↦ inl p
  | inr p ↦ inr (
      let n =
        and_then-none _
          (refuse (not s.effects.push && (not (empty s.effects.key) || not (empty s.effects.scope)))
            _)
          h in
      let q =
        no_effects s.effects.push (empty s.effects.key) (empty s.effects.scope) p
          (refuse-none _ _ n.1) in
      unpushed s q.0 q.1)
]

module _ (decode : Bytes → Option Bytes) {F : Type 0} (parse_float : Bytes → Option F)
    (scale : F → ℕ → ℤ) where
  -- A file stays below its directory, and its content can be decoded and is not too large.
  abbrev pub IsSmall : Option Bytes → Type 0
  IsSmall none = ⊥
  IsSmall (some body) = length body ≤ 1048576

  pub record IsFile (f : TaskFile) : Type 0 where
    pub has_path : empty f.path ≡ false
    pub no_dots : has_text f.path (codes "..") ≡ false
    pub known_mode : (empty f.mode || is_octal f.mode) ≡ true
    pub small : IsSmall (decode f.content)

  check_content-IsSmall : (o : Option Bytes) → check_content o ≡ none → IsSmall o
  check_content-IsSmall none h = absurd (cc h)
  check_content-IsSmall (some body) h = ground (arith, refuse-none (ltb 1048576 (length body)) _ h)

  check_file-IsFile : (f : TaskFile) → check_file decode parse_float scale f ≡ none → IsFile f
  check_file-IsFile f h =
      let n = and_then-none (refuse (empty f.path) _) _ h in
      let m = and_then-none (refuse (has_text f.path (codes "..")) _) _ n.1 in
      let o = and_then-none (refuse (not (empty f.mode) && not (is_octal f.mode)) _) _ m.1 in
      record {
        has_path = refuse-none _ _ n.0;
        no_dots = refuse-none _ _ m.0;
        known_mode = mode (refuse-none _ _ o.0);
        small = check_content-IsSmall (decode f.content) o.1;
      }
    where
      mode :
          (not (empty f.mode) && not (is_octal f.mode)) ≡ false
          → (empty f.mode || is_octal f.mode) ≡ true
      mode a = ground arith

  pub record IsSpec (s : Spec) : Type 0 where
    pub has_name : empty s.name ≡ false
    pub has_label : empty s.label ≡ false
    pub has_artifacts : empty s.artifacts ≡ false
    pub has_steps : no_steps_in s.steps ≡ false
    pub steps : All IsStep s.steps
    pub options : All HasOptions s.steps
    pub memory :
        (empty s.memory || not (is_none (parse_memory decode parse_float scale s.memory))) ≡ true
    pub files : All IsFile s.files
    pub fence : IsFenceOf s

  with_defaults-label :
      (s : Spec) → empty s.name ≡ false → empty (if empty s.label then s.name else s.label) ≡ false
  with_defaults-label s h = ground arith

  with_defaults-artifacts :
      (s : Spec) → empty (if empty s.artifacts then codes "ci-artifacts" else s.artifacts) ≡ false
  with_defaults-artifacts s = elim (Bool-cases (empty s.artifacts)) [
    | inl h ↦ rw h refl
    | inr h ↦ rw h h
  ]

  with_defaults-IsFenceOf :
      (s : Spec) → IsFenceOf s → IsFenceOf (with_defaults decode parse_float scale s)
  unfolding fence_kind fence_branch
  with_defaults-IsFenceOf s f = f

  validate-IsSpec :
      (s : Spec)
      → validate decode parse_float scale s ≡ none
      → IsSpec (with_defaults decode parse_float scale s)
  unfolding validate
  validate-IsSpec s h =
      let n1 = and_then-none (refuse (empty s.name) _) _ h in
      let n2 = and_then-none (refuse (no_steps_in s.steps) _) _ n1.1 in
      let n3 = and_then-none (each check_work s.steps) _ n2.1 in
      let n4 = and_then-none (each check_options s.steps) _ n3.1 in
      let n5 =
        and_then-none
          (refuse (not (empty s.memory) && is_none (parse_memory decode parse_float scale s.memory))
            _)
          _ n4.1 in
      let n6 =
        and_then-none (each (check_file decode parse_float scale) s.files) (check_effects s.effects)
          n5.1 in
      record {
        has_name = refuse-none _ _ n1.0;
        has_label = with_defaults-label s (refuse-none _ _ n1.0);
        has_artifacts = with_defaults-artifacts s;
        has_steps = refuse-none _ _ n2.0;
        steps = each-none check_work IsStep s.steps check_work-IsStep n3.0;
        options = each-none check_options HasOptions s.steps check_options-HasOptions n4.0;
        memory = known (refuse-none _ _ n5.0);
        files =
            each-none (check_file decode parse_float scale) IsFile s.files check_file-IsFile n6.0;
        fence = with_defaults-IsFenceOf s (check_effects-IsFenceOf s n6.1);
      }
    where
      known :
          (not (empty s.memory) && is_none (parse_memory decode parse_float scale s.memory)) ≡ false
          → (empty s.memory || not (is_none (parse_memory decode parse_float scale s.memory)))
            ≡ true
      known a = ground arith

  -- What holds of an accepted task, if one is.
  abbrev pub AllAccepted : Option Spec → Type 0
  AllAccepted none = Unit
  AllAccepted (some s) = IsSpec s

  accepted-AllAccepted :
      (s : Spec) (c : Check)
      → (c ≡ none → IsSpec (with_defaults decode parse_float scale s))
      → AllAccepted (accepted decode parse_float scale s c)
  accepted-AllAccepted s none h = h refl
  accepted-AllAccepted s (some e) h = tt

  -- A task that is accepted has a name, a label, a name for its artifacts and at least one step. Each
  -- step either runs a command or asks claude, never both; its permission mode is a known one; and
  -- only a step for claude has servers, each with a command. Its memory can be read as a number. Each
  -- of its files has a path with no "..", a mode in octal and content of at most 2^20 bytes. And if it
  -- does not push, its fence is named for the task itself, on the branch that it is given.
  pub parse_spec-IsSpec : (s : Spec) → AllAccepted (parse_spec decode parse_float scale s)
  unfolding parse_spec
  parse_spec-IsSpec s =
      accepted-AllAccepted s (validate decode parse_float scale s) (validate-IsSpec s)

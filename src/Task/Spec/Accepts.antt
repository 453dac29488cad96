-- ===== src/Task/Spec/Accepts.antt =====
-- Which tasks are accepted.
use kranq.Base.{
  ℕ, Bool, true, false, not, ◌&&◌, ◌||◌, List, [], ◌∷◌, Option, none, some, ◌≡◌, refl, ap, ◌∙◌,
  arith, any, All, length, ltb, if◌then◌else◌,
}
use kranq.Base.Int.{ℤ}
use kranq.Base.Text.{Bytes, codes, empty, same}
use kranq.Base.Strings.{has_text}
use kranq.Task.Spec.{
  Step, TaskFile, Spec, SpecError, Check, refuse, and_then, each, permission_modes, check_work,
  check_server, check_options, is_octal, parse_memory, is_none, check_content, check_file,
  no_steps_in, validate, accepted, parse_spec,
}
use kranq.Task.Spec.Laws.{IsStep, HasOptions, IsSmall, IsFile}

none-and_then : (c d : Check) → c ≡ none → d ≡ none → and_then c d ≡ none
none-and_then c d h k = ap (λ x. and_then x d) h ∙ k

none-refuse : (b : Bool) (e : SpecError) → b ≡ false → refuse b e ≡ none
none-refuse b e h = rw h refl

none-each {ℓ} :
    {A : Type ℓ} (f : A → Check) (P : A → Type 0) (xs : List A)
    → ((x : A) → P x → f x ≡ none)
    → All P xs
    → each f xs ≡ none
unfolding each
none-each f P [] g h = refl
none-each f P (x ∷ xs) g h = none-and_then (f x) (each f xs) (g x h.0) (none-each f P xs g h.1)

unknown : (a b : Bool) → (a || b) ≡ true → (not a && not b) ≡ false
unknown a b h = ground arith

readable : (a b : Bool) → (a || not b) ≡ true → (not a && b) ≡ false
readable a b h = ground arith

pushes : (p k c : Bool) → (p || (k && c)) ≡ true → (not p && (not k || not c)) ≡ false
pushes p k c h = ground arith

one_of : (a b : Bool) → a ≡ not b → ((a && b) ≡ false) × ((not a && not b) ≡ false)
one_of a b h = (ground arith, ground arith)

none-check_work : (st : Step) → IsStep st → check_work st ≡ none
none-check_work st v =
    let o = one_of (empty st.run) (empty st.claude) v.one_thing in
    none-and_then _ _ (none-refuse (empty st.run && empty st.claude) _ o.0)
      (none-refuse (not (empty st.run) && not (empty st.claude)) _ o.1)

none-check_options : (st : Step) → HasOptions st → check_options st ≡ none
none-check_options st v =
    none-and_then _ _
      (none-refuse
        (not (empty st.permission_mode) && not (any (same st.permission_mode) permission_modes)) _
        (unknown (empty st.permission_mode) (any (same st.permission_mode) permission_modes)
          v.known_mode))
      (none-each (check_server st) (λ s. (empty s.command ≡ false) × (empty st.claude ≡ false))
        st.servers
        (λ s h.
          none-and_then _ _ (none-refuse (empty s.command) _ h.0)
            (none-refuse (empty st.claude) _ h.1))
        v.servers)

module _ (decode : Bytes → Option Bytes) {F : Type 0} (parse_float : Bytes → Option F)
    (scale : F → ℕ → ℤ) where
  -- A task that asks for nothing that is refused.
  pub record IsValid (s : Spec) : Type 0 where
    pub has_name : empty s.name ≡ false
    pub has_steps : no_steps_in s.steps ≡ false
    pub steps : All IsStep s.steps
    pub options : All HasOptions s.steps
    pub memory :
        (empty s.memory || not (is_none (parse_memory decode parse_float scale s.memory))) ≡ true
    pub files : All (IsFile decode parse_float scale) s.files
    pub known_scope : any (same s.effects.scope) ([] ∷ codes "branch" ∷ codes "repo" ∷ []) ≡ true
    pub only_pushes : (s.effects.push || (empty s.effects.key && empty s.effects.scope)) ≡ true

  none-check_content :
      (o : Option Bytes) → IsSmall decode parse_float scale o → check_content o ≡ none
  none-check_content none h = absurd h
  none-check_content (some body) h = none-refuse (ltb 1048576 (length body)) _ (ground arith)

  none-check_file :
      (f : TaskFile)
      → (IsFile decode parse_float scale) f
      → check_file decode parse_float scale f ≡ none
  none-check_file f v = none-and_then _ _ (none-refuse (empty f.path) _ v.has_path) (
      none-and_then _ _ (none-refuse (has_text f.path (codes "..")) _ v.no_dots) (
        none-and_then _ _
          (none-refuse (not (empty f.mode) && not (is_octal f.mode)) _
            (unknown (empty f.mode) (is_octal f.mode) v.known_mode))
          (none-check_content (decode f.content) v.small)))

  none-validate : (s : Spec) → IsValid s → validate decode parse_float scale s ≡ none
  unfolding validate
  none-validate s v = none-and_then _ _ (none-refuse (empty s.name) _ v.has_name) (
      none-and_then _ _ (none-refuse (no_steps_in s.steps) _ v.has_steps) (
        none-and_then _ _ (none-each check_work IsStep s.steps none-check_work v.steps) (
          none-and_then _ _
            (none-each check_options HasOptions s.steps none-check_options v.options)
            (none-and_then _ _
              (none-refuse
                (not (empty s.memory) && is_none (parse_memory decode parse_float scale s.memory)) _
                (readable (empty s.memory)
                  (is_none (parse_memory decode parse_float scale s.memory)) v.memory))
              (none-and_then _ _
                (none-each (check_file decode parse_float scale) (IsFile decode parse_float scale)
                  s.files none-check_file v.files)
                (none-and_then _ _
                  (none-refuse
                    (not (any (same s.effects.scope) ([] ∷ codes "branch" ∷ codes "repo" ∷ []))) _
                    (ap not v.known_scope))
                  (none-refuse
                    (not s.effects.push
                      && (not (empty s.effects.key) || not (empty s.effects.scope)))
                    _
                    (pushes s.effects.push (empty s.effects.key) (empty s.effects.scope)
                      v.only_pushes))))))))

  -- A task that asks for nothing that is refused is accepted, with its name as the label if it has
  -- none and "ci-artifacts" as the name of its artifacts if it has none.
  pub parse_spec-some :
      (s : Spec)
      → IsValid s
      → parse_spec decode parse_float scale s
        ≡ some (record s {
          label = if empty s.label then s.name else s.label;
          artifacts = if empty s.artifacts then codes "ci-artifacts" else s.artifacts;
        })
  unfolding parse_spec
  parse_spec-some s v = ap (accepted decode parse_float scale s) (none-validate s v)

-- ===== src/Project/Bind.antt =====
-- internal/project/project.go: the values of a layer's args and secrets.
use kranq.Base.{
  ℕ, Bool, true, false, not, ◌||◌, List, [], ◌∷◌, Option, none, some, if◌then◌else◌, ◌≡◌, refl,
  arith, map, any,
}
use kranq.Base.Text.{Bytes, codes, empty}
use kranq.Project.Fields.{EnvVar, Arg}
use kranq.Project.Kranqfile.{Layer}
use kranq.State.Task.{env_get}

pub record Bound : Type 0 where
  pub values : List EnvVar
  pub private : List EnvVar

-- `none` is the error for an arg with neither a value nor a default.
abbrev pub arg_value : List (Bytes × Bytes) → Arg → Option Bytes
arg_value env a =
    if not (empty (env_get env a.name))
    then some (env_get env a.name)
    else if not (empty a.default)
    then some a.default
    else none

abbrev pub cons_value : Bytes → Option Bytes → Option (List EnvVar) → Option (List EnvVar)
cons_value n none vs = none
cons_value n (some v) none = none
cons_value n (some v) (some vs) = some (record { name = n; value = v } ∷ vs)

unfoldable pub bind_args : List (Bytes × Bytes) → List Arg → Option (List EnvVar)
bind_args env [] = some []
bind_args env (a ∷ as') = cons_value a.name (arg_value env a) (bind_args env as')

unfoldable pub bind_secrets : List (Bytes × Bytes) → List Bytes → List EnvVar
bind_secrets env [] = []
bind_secrets env (name ∷ names) =
    if not (empty (env_get env name))
    then record { name = name; value = env_get env name } ∷ bind_secrets env names
    else bind_secrets env names

abbrev pub bound_with : Option (List EnvVar) → List EnvVar → Option Bound
bound_with none private = none
bound_with (some values) private = some (record { values = values; private = private })

-- `bind` for one layer.
unfoldable pub bind_layer : List (Bytes × Bytes) → Layer → Option Bound
unfolding bind_args bind_secrets
bind_layer env l = bound_with (bind_args env l.args) (bind_secrets env l.secrets)

abbrev pub cons_bound : Option Bound → Option (List Bound) → Option (List Bound)
cons_bound none bs = none
cons_bound (some b) none = none
cons_bound (some b) (some bs) = some (b ∷ bs)

unfoldable pub bind : List (Bytes × Bytes) → List Layer → Option (List Bound)
unfolding bind_layer
bind env [] = some []
bind env (l ∷ ls) = cons_bound (bind_layer env l) (bind env ls)

-- A file that a COPY puts into a layer: its place in the guest, its mode, and the digest of its
-- contents.
pub record File : Type 0 where
  pub dest : Bytes
  pub source : Bytes
  pub mode : ℕ
  pub digest : Bytes

pub record Resolved : Type 0 where
  pub layer : Layer
  pub files : List File
  pub roots : List Bytes
  pub values : List EnvVar
  pub private : List EnvVar

abbrev pub default_workdir : Bytes
default_workdir = codes "/kranq/build"

-- `Dir`
abbrev pub dir : Layer → Bytes
dir l = if not (empty l.workdir) then l.workdir else default_workdir

-- A layer as `Load` hands it on, from what `resolve` found for its COPYs and what `bind` gave it.
abbrev pub resolved : Layer → List File × List Bytes → Bound → Resolved
resolved l (files, roots) b = record {
  layer = l;
  files = files;
  roots = roots;
  values = b.values;
  private = b.private;
}

-- Two environments that say the same of a list of names.
abbrev pub Agree : List (Bytes × Bytes) → List (Bytes × Bytes) → List Bytes → Type 0
Agree e f [] = Unit
Agree e f (n ∷ ns) = (env_get e n ≡ env_get f n) × Agree e f ns

abbrev pub AgreeOn : List (Bytes × Bytes) → List (Bytes × Bytes) → List Layer → Type 0
AgreeOn e f [] = Unit
AgreeOn e f (l ∷ ls) =
    Agree e f (map (λ (a : Arg). a.name) l.args) × Agree e f l.secrets × AgreeOn e f ls

bind_args-Agree :
    (e f : List (Bytes × Bytes)) (xs : List Arg)
    → Agree e f (map (λ (a : Arg). a.name) xs)
    → bind_args e xs ≡ bind_args f xs
unfolding bind_args
bind_args-Agree e f [] h = refl
bind_args-Agree e f (a ∷ xs) h = rw (h.0, bind_args-Agree e f xs h.1)

bind_secrets-Agree :
    (e f : List (Bytes × Bytes)) (ns : List Bytes)
    → Agree e f ns
    → bind_secrets e ns ≡ bind_secrets f ns
unfolding bind_secrets
bind_secrets-Agree e f [] h = refl
bind_secrets-Agree e f (n ∷ ns) h = rw (h.0, bind_secrets-Agree e f ns h.1)

-- A build sees what its layers declare and nothing else: two environments that give the declared
-- args and secrets the same values bind every layer alike, or both fail.
pub bind-AgreeOn :
    (e f : List (Bytes × Bytes)) (ls : List Layer) → AgreeOn e f ls → bind e ls ≡ bind f ls
unfolding bind bind_layer
bind-AgreeOn e f [] h = refl
bind-AgreeOn e f (l ∷ ls) h =
    rw (
      bind_args-Agree e f l.args h.0,
      bind_secrets-Agree e f l.secrets h.1,
      bind-AgreeOn e f ls h.2,
    )

-- Binding fails exactly where an arg has neither a value nor a default; secrets never make it fail.
abbrev pub has_value : List (Bytes × Bytes) → Arg → Bool
has_value env a = not (empty (env_get env a.name)) || not (empty a.default)

abbrev pub is_some {ℓ} : {A : Type ℓ} → Option A → Bool
is_some none = false
is_some (some a) = true

bind_args-is_some :
    (env : List (Bytes × Bytes)) (xs : List Arg)
    → is_some (bind_args env xs) ≡ not (any (λ a. not (has_value env a)) xs)
unfolding bind_args
bind_args-is_some env [] = refl
bind_args-is_some env (a ∷ xs) = ground (arith, bind_args-is_some env xs)

pub bind-is_some :
    (env : List (Bytes × Bytes)) (ls : List Layer)
    → is_some (bind env ls) ≡ not (any (λ l. any (λ a. not (has_value env a)) l.args) ls)
unfolding bind bind_layer
bind-is_some env [] = refl
bind-is_some env (l ∷ ls) = ground (arith, bind-is_some env ls, bind_args-is_some env l.args)

-- ===== src/Image/Name.antt =====
-- internal/image/name.go. `hex k b` is the lower-case hex of the first k bytes of sha256 of b.
pub mod Chain
pub mod RunName
use kranq.Base.{
  ℕ, suc, ◌+◌, ◌-◌, ◌/◌, Bool, true, false, not, ◌&&◌, ◌||◌, List, [], ◌∷◌, ◌++◌, if◌then◌else◌,
  ◌==◌, ltb, length, take, map, any,
}
use kranq.Base.Text.{Bytes, codes, empty, has_prefix}
use kranq.Base.Strings.{trim, to_lower, is_lower, is_digit, join}
use kranq.Project.Bind.{Resolved, File, dir}
use kranq.Project.Fields.{EnvVar}

abbrev pub base_prefix : Bytes
base_prefix = codes "kranq-base"

abbrev pub layer_prefix : Bytes
layer_prefix = codes "kranq-layer"

abbrev pub run_prefix : Bytes
run_prefix = codes "kranq-run"

abbrev pub legacy_prefixes : List Bytes
legacy_prefixes =
    codes "kranq-proj-"
    ∷ codes "forge-base-"
    ∷ codes "forge-layer-"
    ∷ codes "forge-run-"
    ∷ codes "forge-proj-"
    ∷ []

unfoldable pub legacy : Bytes → Bool
unfolding has_prefix
legacy name = any (has_prefix name) legacy_prefixes

unfoldable pub managed : Bytes → Bool
unfolding has_prefix legacy
managed name =
    any (has_prefix name)
      ((base_prefix ++ codes "-") ∷ (layer_prefix ++ codes "-") ∷ (run_prefix ++ codes "-") ∷ [])
    || legacy name

unfoldable pub is_layer : Bytes → Bool
unfolding has_prefix
is_layer name = has_prefix name (layer_prefix ++ codes "-")

unfoldable pub is_base : Bytes → Bool
unfolding has_prefix
is_base name = has_prefix name (base_prefix ++ codes "-")

abbrev pub is_dash : ℕ → Bool
is_dash c = c == b'-'

-- A byte outside the pattern [^a-z0-9].
abbrev pub is_slug : ℕ → Bool
is_slug c = is_lower c || is_digit c

-- ReplaceAllString by "-": `gap` says that the byte before was replaced.
unfoldable pub dashed : Bool → Bytes → Bytes
dashed gap [] = []
dashed gap (c ∷ s) =
    let rest = dashed (not (is_slug c)) s in
    if is_slug c then c ∷ rest else if gap then rest else b'-' ∷ rest

unfoldable pub shorten : ℕ → Bytes → Bytes
unfolding trim
shorten room s = if ltb room (length s) then trim is_dash (take room s) else s

unfoldable pub slugify : Bytes → Bytes
unfolding dashed trim shorten
slugify s = shorten 40 (trim is_dash (dashed false (to_lower s)))

-- fmt's "%s\x00"
abbrev pub field : Bytes → Bytes
field s = s ++ 0 ∷ []

unfoldable pub hash_vars : Bytes → List EnvVar → Bytes
hash_vars tag [] = []
hash_vars tag (v ∷ vs) = field tag ++ (field v.name ++ (field v.value ++ hash_vars tag vs))

unfoldable pub hash_names : List Bytes → Bytes
hash_names [] = []
hash_names (n ∷ ns) = field (codes "secret") ++ (field n ++ hash_names ns)

-- `octal` prints a file's mode.
unfoldable pub hash_files : (ℕ → Bytes) → List File → Bytes
hash_files octal [] = []
hash_files octal (f ∷ fs) =
    field (codes "file")
    ++ (field f.dest ++ (field (octal f.mode) ++ (field f.digest ++ hash_files octal fs)))

-- What `LayerName` writes into the hash.
unfoldable pub hash_input : (ℕ → Bytes) → Bytes → Resolved → Bytes
unfolding hash_vars hash_names hash_files
hash_input octal parent l =
    field (codes "parent")
    ++ (field parent
        ++ (field (codes "workdir")
            ++ (field (dir l.layer)
                ++ (hash_vars (codes "env") l.layer.env
                    ++ (hash_vars (codes "arg") l.values
                        ++ (hash_names l.layer.secrets
                            ++ (field (codes "run")
                                ++ (field l.layer.run ++ hash_files octal l.files))))))))

module _ (hex : ℕ → Bytes → Bytes) (octal padded : ℕ → Bytes) where
  -- `padded` prints a depth as "%02d" does.
  unfoldable pub layer_name : Bytes → Resolved → ℕ → Bytes
  unfolding hash_input
  layer_name parent l depth =
      join (codes "-") (layer_prefix ∷ padded depth ∷ hex 6 (hash_input octal parent l) ∷ [])

  -- The loop of `Chain`: layer i+1 is named after the layer i, or after the root.
  unfoldable pub chain_loop : Bytes → ℕ → List Resolved → List Bytes
  unfolding layer_name
  chain_loop parent i [] = []
  chain_loop parent i (l ∷ ls) =
      let name = layer_name parent l (i + 1) in name ∷ chain_loop name (i + 1) ls

unfoldable pub root : Bytes → Bytes → Bytes
root base disk = if empty disk then base else base ++ (0 ∷ codes "disk=" ++ disk)

module _ (hex : ℕ → Bytes → Bytes) (octal padded : ℕ → Bytes) where
  unfoldable pub chain : Bytes → Bytes → List Resolved → List Bytes
  unfolding chain_loop root
  chain base disk ls = base ∷ chain_loop hex octal padded (root base disk) 0 ls

abbrev pub max_run_name : ℕ
max_run_name = 40

abbrev pub keep_nonempty : List Bytes → List Bytes
keep_nonempty [] = []
keep_nonempty (s ∷ ss) = if empty s then keep_nonempty ss else s ∷ keep_nonempty ss

unfoldable pub run_name : (ℕ → Bytes → Bytes) → Bytes → Bytes → Bytes → Bytes
unfolding shorten slugify
run_name hex repo label task_id =
    let suffix = b'-' ∷ hex 4 task_id in
    let parts = run_prefix ∷ keep_nonempty (slugify repo ∷ slugify label ∷ []) in
    shorten (max_run_name - length suffix) (join (codes "-") parts) ++ suffix

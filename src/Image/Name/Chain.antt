-- ===== src/Image/Name/Chain.antt =====
-- internal/image/name.go: what the names of a chain depend on.
use kranq.Base.{ℕ, suc, ◌+◌, List, [], ◌∷◌, ◌++◌, length, take, ◌≡◌, refl, ap}
use kranq.Base.Text.{Bytes}
use kranq.Project.Bind.{Resolved, File, dir}
use kranq.Image.Name.{layer_name, chain_loop, chain, root, hash_input, hash_files}

-- Files that stand at the same places with the same modes and contents. Where on the host each of
-- them comes from may differ.
abbrev pub SameFiles : List File → List File → Type 0
SameFiles [] [] = Unit
SameFiles [] (g ∷ gs) = ⊥
SameFiles (f ∷ fs) [] = ⊥
SameFiles (f ∷ fs) (g ∷ gs) =
    (f.dest ≡ g.dest) × (f.mode ≡ g.mode) × (f.digest ≡ g.digest) × SameFiles fs gs

-- Two layers that do the same work. Their line in the Kranqfile, where on the host their files come
-- from and the values of their secrets may differ.
pub record SameWork (l m : Resolved) : Type 0 where
  pub same_dir : dir l.layer ≡ dir m.layer
  pub same_env : l.layer.env ≡ m.layer.env
  pub same_values : l.values ≡ m.values
  pub same_secrets : l.layer.secrets ≡ m.layer.secrets
  pub same_run : l.layer.run ≡ m.layer.run
  pub same_files : SameFiles l.files m.files

abbrev pub AllSame : List Resolved → List Resolved → Type 0
AllSame [] [] = Unit
AllSame [] (m ∷ ms) = ⊥
AllSame (l ∷ ls) [] = ⊥
AllSame (l ∷ ls) (m ∷ ms) = SameWork l m × AllSame ls ms

module _ (hex : ℕ → Bytes → Bytes) (octal padded : ℕ → Bytes) where
  hash_files-SameFiles :
      (fs gs : List File) → SameFiles fs gs → hash_files octal fs ≡ hash_files octal gs
  unfolding hash_files
  hash_files-SameFiles [] [] s = refl
  hash_files-SameFiles [] (g ∷ gs) s = absurd s
  hash_files-SameFiles (f ∷ fs) [] s = absurd s
  hash_files-SameFiles (f ∷ fs) (g ∷ gs) s = rw (s.0, s.1, s.2, hash_files-SameFiles fs gs s.3)

  layer_name-SameWork :
      (parent : Bytes) (l m : Resolved) (depth : ℕ)
      → SameWork l m
      → layer_name hex octal padded parent l depth ≡ layer_name hex octal padded parent m depth
  unfolding layer_name hash_input
  layer_name-SameWork parent l m depth s = rw (
    s.same_dir,
    s.same_env,
    s.same_values,
    s.same_secrets,
    s.same_run,
    hash_files-SameFiles l.files m.files s.same_files,
  )

  take-chain_loop :
      (parent : Bytes) (i : ℕ) (ls ms xs ys : List Resolved)
      → AllSame ls ms
      → take (length ls) (chain_loop hex octal padded parent i (ls ++ xs))
        ≡ take (length ls) (chain_loop hex octal padded parent i (ms ++ ys))
  unfolding chain_loop
  take-chain_loop parent i [] [] xs ys a = refl
  take-chain_loop parent i [] (m ∷ ms) xs ys a = absurd a
  take-chain_loop parent i (l ∷ ls) [] xs ys a = absurd a
  take-chain_loop parent i (l ∷ ls) (m ∷ ms) xs ys a =
      rw (layer_name-SameWork parent l m (i + 1) a.0) (
        rw (take-chain_loop (layer_name hex octal padded parent m (i + 1)) (i + 1) ls ms xs ys a.1))

  -- Two builds on the same base and disk that begin with layers that do the same work have the same
  -- names for the base and for these layers, whatever layers come after them.
  pub take-chain :
      (base disk : Bytes) (ls ms xs ys : List Resolved)
      → AllSame ls ms
      → take (suc (length ls)) (chain hex octal padded base disk (ls ++ xs))
        ≡ take (suc (length ls)) (chain hex octal padded base disk (ms ++ ys))
  unfolding chain
  take-chain base disk ls ms xs ys a =
      ap (λ ns. base ∷ ns) (take-chain_loop (root base disk) 0 ls ms xs ys a)

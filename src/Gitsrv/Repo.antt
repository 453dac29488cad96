-- ===== src/Gitsrv/Repo.antt =====
-- internal/gitsrv/repo.go and ssh.go: which names a repository may have.
use kranq.Base.{
  ℕ, Bool, true, false, not, ◌&&◌, ◌||◌, [], ◌∷◌, Option, none, some, if◌then◌else◌, ◌==◌, leb,
  length, ◌≤◌, refl, Bool-cases, inl, inr, all, ◌≡◌, arith,
}
use kranq.Base.Text.{Bytes, codes, empty, same, contains}
use kranq.Base.Strings.{
  is_lower, is_upper, is_digit, trim_suffix, has_text, trim, trim_space, cut, split, has_byte,
}

abbrev is_alphanumeric : ℕ → Bool
is_alphanumeric c = is_lower c || (is_upper c || is_digit c)

-- The pattern ^[a-zA-Z0-9][a-zA-Z0-9._-]{0,63}$
abbrev pub is_repo_byte : ℕ → Bool
is_repo_byte c = is_alphanumeric c || (c == b'.' || (c == b'_' || c == b'-'))

unfoldable pub matches : Bytes → Bool
matches [] = false
matches (c ∷ s) = is_alphanumeric c && (leb (length s) 63 && all is_repo_byte s)

abbrev pub plain_name : Bytes → Bytes
plain_name name = trim_suffix name (codes ".git")

-- `ValidRepo`, as a test: both errors say the same.
unfoldable pub valid_repo : Bytes → Bool
unfolding matches trim_suffix has_text same
valid_repo name =
    matches (plain_name name)
    && not (
        same (plain_name name) (codes ".")
        || (same (plain_name name) (codes "..") || has_text (plain_name name) (codes "..")))

abbrev pub is_slash : ℕ → Bool
is_slash c = c == b'/'

abbrev pub checked : Bytes → Option Bytes
checked name = if valid_repo name then some (plain_name name) else none

abbrev pub before_sep : Bytes × Bytes × Bool → Bytes
before_sep (before, after, found) = before

-- `RepoName`
unfoldable pub repo_name : Bytes → Option Bytes
unfolding valid_repo cut trim
repo_name url_path = checked (before_sep (cut b'/' (trim is_slash url_path)))

-- What follows the last separator, and whether there is one (strings.LastIndex).
unfoldable pub after_last : ℕ → Bytes → Bytes × Bool
after_last sep [] = ([], false)
after_last sep (c ∷ s) =
    let (segment, found) = after_last sep s in
    if found then (segment, true) else if c == sep then (s, true) else (c ∷ s, false)

abbrev pub last_segment : Bytes → Bytes
last_segment s = (after_last b'/' s).0

unfoldable pub repo_of_trimmed : Bytes → Option Bytes
unfolding valid_repo split after_last
repo_of_trimmed trimmed =
    if empty trimmed
    then none
    else if contains (split b'/' trimmed) (codes "..")
    then none
    else checked (last_segment trimmed)

-- `RepoFromPath`
unfoldable pub repo_from_path : Bytes → Option Bytes
unfolding repo_of_trimmed trim trim_space
repo_from_path path = repo_of_trimmed (trim is_slash (trim_space path))

-- A name that is a single plain segment of a path.
abbrev pub IsPlain : Bytes → Type 0
IsPlain n =
    (empty n ≡ false)
    × (has_byte b'/' n ≡ false)
    × (has_text n (codes "..") ≡ false)
    × (length n ≤ 64)

all-has_byte : (s : Bytes) → all is_repo_byte s ≡ true → has_byte b'/' s ≡ false
unfolding has_byte
all-has_byte [] h = refl
all-has_byte (c ∷ s) h = ground (arith, all-has_byte s)

matches_plain :
    (s : Bytes) → matches s ≡ true → (empty s ≡ false) × (has_byte b'/' s ≡ false) × (length s ≤ 64)
unfolding matches has_byte
matches_plain [] h = absurd (ground arith)
matches_plain (c ∷ s) h = ground (arith, all-has_byte s)

abbrev pub OnSome {ℓ} : {A : Type ℓ} → (A → Type 0) → Option A → Type 0
OnSome P none = Unit
OnSome P (some a) = P a

pub checked-IsPlain : (name : Bytes) → OnSome IsPlain (checked name)
unfolding valid_repo
checked-IsPlain name = elim (Bool-cases (valid_repo name)) [
  | inl h ↦ rw h (plain h)
  | inr h ↦ rw h tt
]
  where
    plain : valid_repo name ≡ true → IsPlain (plain_name name)
    plain h = ground (arith, matches_plain (plain_name name))

-- A repository that a path over http names is one plain segment, of at most 64 bytes.
pub repo_name-IsPlain : (url_path : Bytes) → OnSome IsPlain (repo_name url_path)
unfolding repo_name
repo_name-IsPlain url_path = checked-IsPlain (before_sep (cut b'/' (trim is_slash url_path)))

repo_of_trimmed-IsPlain : (trimmed : Bytes) → OnSome IsPlain (repo_of_trimmed trimmed)
unfolding repo_of_trimmed
repo_of_trimmed-IsPlain trimmed = elim (Bool-cases (empty trimmed)) [
  | inl e ↦ rw e tt
  | inr e ↦ rw e (elim (Bool-cases (contains (split b'/' trimmed) (codes ".."))) [
    | inl h ↦ rw h tt
    | inr h ↦ rw h (checked-IsPlain (last_segment trimmed))
  ])
]

-- A repository that an argument of kranq names is one plain segment, of at most 64 bytes.
pub repo_from_path-IsPlain : (path : Bytes) → OnSome IsPlain (repo_from_path path)
unfolding repo_from_path
repo_from_path-IsPlain path = repo_of_trimmed-IsPlain (trim is_slash (trim_space path))

-- ===== src/Image/Meta.antt =====
-- internal/image/meta.go: the records of images, a directory with one file for each name, as a list.
-- Whether the operating system takes a write or a removal is a flag.
use kranq.Base.{
  ℕ, Bool, true, false, not, ◌||◌, List, [], ◌∷◌, ◌++◌, Option, none, some, if◌then◌else◌, any, ltb,
  length, take, select,
}
use kranq.Base.Text.{Bytes, empty, same}
use kranq.Base.Strings.{before}

pub record Meta : Type 0 where
  pub name : Bytes
  pub parent : Bytes
  pub depth : ℕ
  pub step : Bytes
  pub copies : List Bytes
  pub repos : List Bytes
  pub created_at : ℕ
  pub last_used_at : ℕ

abbrev pub max_recorded_repos : ℕ
max_recorded_repos = 10

unfoldable pub load : List Meta → Bytes → Option Meta
load [] name = none
load (m ∷ ms) name = if same m.name name then some m else load ms name

unfoldable pub put : Meta → List Meta → List Meta
put m [] = m ∷ []
put m (u ∷ us) = if same u.name m.name then m ∷ us else u ∷ put m us

unfoldable pub save : Bool → List Meta → Meta → List Meta × Bool
unfolding put
save wrote ms m = if wrote then (put m ms, true) else (ms, false)

unfoldable pub remove : Bool → Bytes → List Meta → List Meta
remove unlinked name ms = if unlinked then select (λ m. not (same m.name name)) ms else ms

abbrev pub insert_name : Bytes → List Bytes → List Bytes
insert_name a [] = a ∷ []
insert_name a (b ∷ bs) = let rest = insert_name a bs in if before b a then b ∷ rest else a ∷ b ∷ bs

-- sort.Strings
unfoldable pub sort_names : List Bytes → List Bytes
sort_names [] = []
sort_names (a ∷ bs) = insert_name a (sort_names bs)

abbrev pub shorten_repos : List Bytes → List Bytes
shorten_repos repos =
    if ltb max_recorded_repos (length repos) then take max_recorded_repos repos else repos

unfoldable pub with_repo : List Bytes → Bytes → List Bytes
unfolding sort_names
with_repo repos repo =
    if empty repo || any (same repo) repos
    then repos
    else shorten_repos (sort_names (repos ++ repo ∷ []))

abbrev pub touched : Bytes → ℕ → Meta → Meta
touched repo now m = record m { last_used_at = now; repos = with_repo m.repos repo }

unfoldable pub touch : Bool → List Meta → Bytes → Bytes → ℕ → List Meta
unfolding load save with_repo
touch wrote ms name repo now = elim (load ms name) [
  | none ↦ ms
  | some m ↦ (save wrote ms (touched repo now m)).0
]

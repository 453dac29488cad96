-- ===== src/Image/Prune.antt =====
-- internal/image/manager.go: Destroy, Prune and heads.
pub mod Walk
pub mod Laws
pub mod Effects
pub mod Collects
use kranq.Base.{
  ℕ, ◌+◌, zero, suc, Bool, true, false, not, ◌&&◌, ◌||◌, List, [], ◌∷◌, ◌++◌, Option, none, some,
  if◌then◌else◌, ◌≡◌, any, ltb, ◌==◌, length, take, select, map,
}
use kranq.Base.Int.{ℤ, pos, negsuc}
use kranq.Base.Text.{Bytes, codes, empty, same}
use kranq.Base.Strings.{before}
use kranq.Image.Name.{managed, is_layer, is_base, legacy}
use kranq.Image.Machine.{Instance, running, Driver, IsLawful, Host, deleted, destroy}
use kranq.Image.Meta.{Meta, load, remove, sort_names}

abbrev pub has : Bytes → List Bytes → Bool
has name names = any (same name) names

-- metas[name].Parent
unfoldable pub parent_of : List Meta → Bytes → Bytes
unfolding load
parent_of ms name = elim (load ms name) [ none ↦ [] | some m ↦ m.parent ]

unfoldable pub last_used : List Meta → Bytes → ℕ
unfolding load
last_used ms name = elim (load ms name) [ none ↦ 0 | some m ↦ m.last_used_at ]

-- `keep`
unfoldable pub keep_limit : ℤ → ℕ
keep_limit (pos k) = if ltb 0 k then k else 3
keep_limit (negsuc k) = 3

-- `heads`
abbrev pub is_parent : List Meta → List Bytes → Bytes → Bytes → Bool
is_parent ms exists name child =
    let parent = parent_of ms child in not (empty parent) && (has parent exists && same parent name)

-- The order of heads: the one used last comes first.
abbrev pub head_before : List Meta → Bytes → Bytes → Bool
head_before ms a b =
    if last_used ms a == last_used ms b then before a b else ltb (last_used ms b) (last_used ms a)

abbrev pub insert_head : List Meta → Bytes → List Bytes → List Bytes
insert_head ms a [] = a ∷ []
insert_head ms a (b ∷ bs) =
    let rest = insert_head ms a bs in if head_before ms b a then b ∷ rest else a ∷ b ∷ bs

unfoldable pub sort_heads : List Meta → List Bytes → List Bytes
unfolding parent_of last_used
sort_heads ms [] = []
sort_heads ms (a ∷ bs) = insert_head ms a (sort_heads ms bs)

unfoldable pub heads : List Bytes → List Meta → List Bytes → List Bytes
unfolding parent_of sort_heads
heads layers ms exists =
    sort_heads ms (select (λ n. not (any (is_parent ms exists n) layers)) layers)

-- The loop from a head to its ancestors.
unfoldable pub keep_chain : ℕ → (Bytes → Bytes) → Bytes → List Bytes → List Bytes
keep_chain zero parent name keep = keep
keep_chain (suc fuel) parent name keep =
    if empty name || has name keep then keep else keep_chain fuel parent (parent name) (name ∷ keep)

unfoldable pub keep_chains : ℕ → (Bytes → Bytes) → List Bytes → List Bytes → List Bytes
unfolding keep_chain
keep_chains fuel parent [] keep = keep
keep_chains fuel parent (h ∷ hs) keep = keep_chains fuel parent hs (keep_chain fuel parent h keep)

abbrev pub names : List Instance → List Bytes
names = map (λ i. i.name)

abbrev pub layers_of : List Instance → List Bytes
layers_of is = select is_layer (names is)

abbrev pub bases_of : List Instance → List Bytes
bases_of is = select (λ n. not (is_layer n) && is_base n) (names is)

abbrev pub legacies_of : List Instance → List Bytes
legacies_of is = select (λ n. not (is_layer n) && (not (is_base n) && legacy n)) (names is)

-- Newest first, by name.
abbrev pub insert_base : Bytes → List Bytes → List Bytes
insert_base a [] = a ∷ []
insert_base a (b ∷ bs) = let rest = insert_base a bs in if before a b then b ∷ rest else a ∷ b ∷ bs

unfoldable pub sort_bases : List Bytes → List Bytes
sort_bases [] = []
sort_bases (a ∷ bs) = insert_base a (sort_bases bs)

abbrev pub groups : List Instance → List Bytes
groups is = layers_of is ++ (sort_bases (bases_of is) ++ legacies_of is)

-- What is kept from the start: protected or running.
abbrev pub kept_first : List Bytes → List Instance → List Bytes
kept_first protect is = protect ++ names (select running is)

abbrev pub ranked : List Meta → List Instance → List Bytes
ranked ms is = heads (layers_of is) ms (names is)

unfoldable pub kept : ℕ → List Bytes → List Meta → List Instance → List Bytes
unfolding heads is_layer is_base legacy sort_bases keep_chains parent_of
kept limit protect ms is =
    take limit (sort_bases (bases_of is))
    ++ keep_chains (length ms + 2) (parent_of ms) (take limit (ranked ms is))
        (kept_first protect is)

module _ (D : Driver) (unlinks : Bytes → Bool) where
  abbrev pub cons_name : Bytes → Host D × List Bytes → Host D × List Bytes
  cons_name name (h, ns) = (h, name ∷ ns)

  abbrev pub after_destroy :
      Bytes → (Host D → Host D × List Bytes) → Host D × Bool → Host D × List Bytes
  after_destroy name next (h, true) = cons_name name (next h)
  after_destroy name next (h, false) = next h

  abbrev pub prune_one :
      List Bytes → Bytes → (Host D → Host D × List Bytes) → Host D → Host D × List Bytes
  prune_one keep name next h =
      if has name keep then next h else after_destroy name next (destroy D unlinks h name)

  unfoldable pub prune_names : List Bytes → List Bytes → Host D → Host D × List Bytes
  unfolding destroy
  prune_names keep [] h = (h, [])
  prune_names keep (n ∷ ns) h = prune_one keep n (prune_names keep ns) h

  -- The records of images that are not there go too.
  abbrev pub drop_stale : List Bytes → Host D × List Bytes → Host D × Option (List Bytes)
  drop_stale exists (h, pruned) = (
    record h { metas = select (λ m. has m.name exists || not (unlinks m.name)) h.metas },
    some (sort_names pruned),
  )

  abbrev pub prune_listed : ℕ → List Bytes → Host D → List Instance → Host D × Option (List Bytes)
  prune_listed limit protect h is =
      drop_stale (names is) (prune_names (kept limit protect h.metas is) (groups is) h)

  unfoldable pub prune : ℤ → List Bytes → Host D → Host D × Option (List Bytes)
  unfolding kept sort_bases prune_names keep_limit is_layer is_base legacy sort_names
  prune limit protect h = elim (D.list h.vm) [
    | none ↦ (h, none)
    | some is ↦ prune_listed (keep_limit limit) protect h is
  ]

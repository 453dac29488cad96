-- ===== src/Image/Prune/Laws.antt =====
-- What Prune leaves alone, and what it reports.
use kranq.Base.{
  ℕ, ◌+◌, true, false, not, ◌&&◌, ◌||◌, List, ◌++◌, ◌≡◌, inl, inr, ◌∙◌, subst, arith, any-append,
  length, take, select,
}
use kranq.Base.Text.{Bytes, empty, same}
use kranq.Image.Name.{managed}
use kranq.Image.Machine.{Instance, running}
use kranq.Image.Meta.{Meta}
use kranq.Image.Prune.{
  has, parent_of, keep_chains, names, bases_of, sort_bases, kept_first, ranked, kept,
}
use kranq.Image.Prune.Walk.{IsClosed, keep_chains-keeps, keep_chains-heads, keep_chains-IsClosed}

-- The images that `top` is built on, up to one that is kept anyway.
pub data Ancestor (parent : Bytes → Bytes) (start : List Bytes) (top : Bytes) : Bytes → Type 0 where
  itself : Ancestor parent start top top
  above :
      (n : Bytes)
      → Ancestor parent start top n
      → has n start ≡ false
      → empty (parent n) ≡ false
      → Ancestor parent start top (parent n)

-- What a prune must leave alone.
pub data Spared (limit : ℕ) (protect : List Bytes) (ms : List Meta) (is : List Instance)
    : Bytes → Type 0 where
  foreign : (n : Bytes) → managed n ≡ false → Spared limit protect ms is n
  protected : (n : Bytes) → has n protect ≡ true → Spared limit protect ms is n
  busy : (n : Bytes) → has n (names (select running is)) ≡ true → Spared limit protect ms is n
  newest :
      (n : Bytes)
      → has n (take limit (sort_bases (bases_of is))) ≡ true
      → Spared limit protect ms is n
  needed :
      (top n : Bytes)
      → empty top ≡ false
      → has top (take limit (ranked ms is)) ≡ true
      → Ancestor (parent_of ms) (kept_first protect is) top n
      → Spared limit protect ms is n

has-append : (n : Bytes) (xs ys : List Bytes) → has n (xs ++ ys) ≡ (has n xs || has n ys)
has-append n xs ys = any-append (same n) xs ys

Ancestor-kept :
    (parent : Bytes → Bytes) (start keep : List Bytes) (top n : Bytes)
    → IsClosed parent start keep
    → has top keep ≡ true
    → Ancestor parent start top n
    → has n keep ≡ true
Ancestor-kept parent start keep top n c h itself = h
Ancestor-kept parent start keep top _ c h (above n a s e) =
    elim (c n (Ancestor-kept parent start keep top n c h a)) [
      | inl t ↦ absurd (ground arith)
      | inr (inl t) ↦ absurd (ground arith)
      | inr (inr t) ↦ t
    ]

module _ (limit : ℕ) (protect : List Bytes) (ms : List Meta) (is : List Instance) where
  abbrev chains : List Bytes
  chains =
      keep_chains (length ms + 2) (parent_of ms) (take limit (ranked ms is)) (kept_first protect is)

  chains-IsClosed : IsClosed (parent_of ms) (kept_first protect is) chains
  chains-IsClosed =
      keep_chains-IsClosed ms (kept_first protect is) (take limit (ranked ms is))
        (kept_first protect is) (λ n h. inl h)

  chains_heads :
      (top : Bytes)
      → empty top ≡ false
      → has top (take limit (ranked ms is)) ≡ true
      → has top chains ≡ true
  chains_heads top e h =
      subst
        (λ k.
          has top (keep_chains k (parent_of ms) (take limit (ranked ms is)) (kept_first protect is))
          ≡ true)
        (omega arith)
        (keep_chains-heads (length ms + 1) (parent_of ms) (take limit (ranked ms is))
          (kept_first protect is) top e h)

  chains_first : (n : Bytes) → has n (kept_first protect is) ≡ true → has n chains ≡ true
  chains_first n h =
      keep_chains-keeps (length ms + 2) (parent_of ms) (take limit (ranked ms is))
        (kept_first protect is) n h

  kept-chains : (n : Bytes) → has n chains ≡ true → has n (kept limit protect ms is) ≡ true
  unfolding kept
  kept-chains n h = ground (arith, has-append n (take limit (sort_bases (bases_of is))) chains)

  pub spared_kept :
      (n : Bytes)
      → Spared limit protect ms is n
      → (managed n && not (has n (kept limit protect ms is))) ≡ false
  unfolding kept
  spared_kept n (foreign _ h) = ground arith
  spared_kept n (protected _ h) = ground (
    arith,
    kept-chains n
        (chains_first n (has-append n protect (names (select running is)) ∙ ground arith)),
  )
  spared_kept n (busy _ h) = ground (
    arith,
    kept-chains n
        (chains_first n (has-append n protect (names (select running is)) ∙ ground arith)),
  )
  spared_kept n (newest _ h) =
      ground (arith, has-append n (take limit (sort_bases (bases_of is))) chains)
  spared_kept n (needed top _ e h a) = ground (
    arith,
    kept-chains n (
        Ancestor-kept (parent_of ms) (kept_first protect is) chains top n chains-IsClosed
          (chains_heads top e h) a),
  )

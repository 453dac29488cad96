-- ===== src/Fence/Exclusion.antt =====
-- Who may own a fence, when clients call the server in any order.
use kranq.Base.{
  All, Bool, true, false, ◌&&◌, List, [], ◌∷◌, Option, ◌≡◌, ◌⊎◌, ◌≢◌, sym, ◌∙◌, ap, arith,
  Bool-cases, inl, inr,
}
use kranq.Base.Text.{Bytes, empty, same, same_iff}
use kranq.Fence.Defs.{Holder, scope_ref}
use kranq.Fence.Git.{Git, Moved, IsLawful}
use kranq.Fence.Calls.{
  Call, claims, advances, releases, breaks, Verdict, done, failed, perform, ref_of, expected, frees,
  Swap, swapped, unmoved, unsure, IsProper,
}
use kranq.Fence.Laws.{perform-Swap}

-- A call that may remove a fence.
abbrev pub clears : (Bytes → Bytes) → Bytes → Call → Bool
clears digest ref k = frees k && same ref (ref_of digest k)

abbrev pub is_claim : Call → Bool
is_claim (claims c s task now) = true
is_claim _ = false

abbrev pub is_done : Verdict → Bool
is_done (done oid) = true
is_done (failed e) = false

module _ (G : Git) (encode : Holder → Option Bytes) (digest : Bytes → Bytes) where
  -- A call that is no claim of the fence which is granted, unless it is granted with the very object
  -- that the fence points at.
  abbrev pub OnlyAgain : Bytes → G.World → Call → Verdict → Type 0
  OnlyAgain ref w (claims c s task now) (done oid) =
      (same ref (scope_ref digest s) ≡ false) ⊎ (oid ≡ G.tip w ref)
  OnlyAgain ref w _ _ = Unit {0}

  -- The calls reach the server in this order, and each of them is so.
  abbrev pub OneHolder : Bytes → G.World → List Call → Type 0
  OneHolder ref w [] = Unit {0}
  OneHolder ref w (k ∷ ks) =
      OnlyAgain ref w k (perform G encode digest k w).1
      × OneHolder ref (perform G encode digest k w).0 ks

  abbrev pub NoneClears : Bytes → List Call → Type 0
  NoneClears ref [] = Unit
  NoneClears ref (k ∷ ks) = (clears digest ref k ≡ false) × NoneClears ref ks

  Moved-held :
      (ref : Bytes) (k : Call) (t : Bytes → Bytes) (w : G.World) (new : Bytes)
      → Moved G t w (ref_of digest k) (expected k) new
      → empty new ≡ frees k
      → empty (t ref) ≡ false
      → clears digest ref k ≡ false
      → empty (G.tip w ref) ≡ false
  Moved-held ref k t w new m f h n = elim (Bool-cases (same ref (ref_of digest k))) [
    | inl s ↦
        ap (λ r. empty (G.tip w r)) ((same_iff ref (ref_of digest k)).0 s)
        ∙ ap empty m.became
        ∙ f
        ∙ ground arith
    | inr s ↦ ap empty (m.others ref s) ∙ h
  ]

  Swap-held :
      (ref : Bytes) (k : Call) (t : Bytes → Bytes) (w : G.World) (v : Verdict)
      → Swap G encode digest k t w v
      → empty (t ref) ≡ false
      → clears digest ref k ≡ false
      → empty (G.tip w ref) ≡ false
  Swap-held ref k t w v (swapped new m f) h n = Moved-held ref k t w new m f h n
  Swap-held ref k t w v (unmoved e s) h n = ap empty (s ref) ∙ h
  Swap-held ref k t w v (unsure e new u m f) h n = Moved-held ref k t w new m f h n

  -- A claim that was granted of a fence that is held was granted the object that it had.
  again :
      (t : Bytes → Bytes) (ref mine new : Bytes)
      → empty (t ref) ≡ false
      → (t mine ≡ []) ⊎ ((empty new ≡ false) × (t mine ≡ new))
      → (same ref mine ≡ false) ⊎ (new ≡ t ref)
  again t ref mine new h was = elim (Bool-cases (same ref mine)) [
    | inr s ↦ inl s
    | inl s ↦ inr (at_ref ((same_iff ref mine).0 s) was)
  ]
    where
      at_ref : ref ≡ mine → (t mine ≡ []) ⊎ ((empty new ≡ false) × (t mine ≡ new)) → new ≡ t ref
      at_ref e (inl x) = absurd (not_empty (ap empty (ap t e ∙ x)))
        where
          not_empty : empty (t ref) ≢ true
          not_empty y = ground arith
      at_ref e (inr x) = sym (ap t e ∙ x.1)

  Swap-OnlyAgain :
      (ref : Bytes) (k : Call) (w u : G.World) (v : Verdict)
      → Swap G encode digest k (G.tip w) u v
      → empty (G.tip w ref) ≡ false
      → OnlyAgain ref w k v
  Swap-OnlyAgain ref (claims c s task now) w u v (swapped new m f) h =
      again (G.tip w) ref (scope_ref digest s) new h m.was
  Swap-OnlyAgain ref (claims c s task now) w u v (unmoved e m) h = tt
  Swap-OnlyAgain ref (claims c s task now) w u v (unsure e new x m f) h = tt
  Swap-OnlyAgain ref (advances c cl g phase specs) w u v x h = tt
  Swap-OnlyAgain ref (releases c cl) w u v x h = tt
  Swap-OnlyAgain ref (breaks c r expect) w u v x h = tt

  module _ (L : IsLawful G) where
    held-OneHolder :
        (ref : Bytes) (w : G.World) (ks : List Call)
        → empty (G.tip w ref) ≡ false
        → All (IsProper digest) ks
        → NoneClears ref ks
        → OneHolder ref w ks
    held-OneHolder ref w [] h c n = tt
    held-OneHolder ref w (k ∷ ks) h c n = (
      Swap-OnlyAgain ref k w _ _ (perform-Swap G encode digest L k w c.0) h,
      held-OneHolder ref (perform G encode digest k w).0 ks
          (Swap-held ref k (G.tip w) _ _ (perform-Swap G encode digest L k w c.0) h n.0) c.1 n.1,
    )

    granted :
        (k : Call) (t : Bytes → Bytes) (w : G.World) (v : Verdict)
        → Swap G encode digest k t w v
        → is_claim k ≡ true
        → is_done v ≡ true
        → empty (G.tip w (ref_of digest k)) ≡ false
    granted (claims c s task now) t w v (swapped new m f) i d = ap empty m.became ∙ f
    granted (advances c cl h phase specs) t w v (swapped new m f) i d = absurd (ground arith)
    granted (releases c cl) t w v (swapped new m f) i d = absurd (ground arith)
    granted (breaks c r expect) t w v (swapped new m f) i d = absurd (ground arith)
    granted k t w v (unmoved e s) i d = absurd (ground arith)
    granted k t w v (unsure e new u m f) i d = absurd (ground arith)

    -- One owner at a time: once a claim of a fence is granted, and in whatever order calls of any
    -- clients reach the server, no later claim of the same fence is granted, until one of them releases
    -- or breaks that fence, unless it made the very same commit as the fence points at by then. Advances,
    -- their failures and answers that are lost do not open the fence. The calls name fences as the code
    -- does, expect none or an object named in full, and push along refspecs that name other refs in full.
    pub claim-OneHolder :
        (w : G.World) (k : Call) (ks : List Call)
        → is_claim k ≡ true
        → is_done (perform G encode digest k w).1 ≡ true
        → All (IsProper digest) (k ∷ ks)
        → NoneClears (ref_of digest k) ks
        → OneHolder (ref_of digest k) (perform G encode digest k w).0 ks
    claim-OneHolder w k ks i d c n =
        held-OneHolder (ref_of digest k) (perform G encode digest k w).0 ks
          (granted k (G.tip w) _ _ (perform-Swap G encode digest L k w c.0) i d) c.1 n

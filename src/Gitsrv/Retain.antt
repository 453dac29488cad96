-- ===== src/Gitsrv/Retain.antt =====
-- internal/gitsrv/retain.go: the names of a run's refs, and which refs are dropped.
use kranq.Base.{
  ℕ, ◌-◌, ◌<◌, Bool, true, false, not, ◌&&◌, List, [], ◌∷◌, ◌++◌, if◌then◌else◌, ltb, length, take,
  select, ◌≡◌, refl, ap, ◌∙◌, arith, All, length-append, ==_refl, map,
}
use kranq.Base.Text.{Bytes, codes}
use kranq.Base.Strings.{trim_prefix, before, has_byte}
use kranq.Gitsrv.Repo.{after_last, last_segment}

abbrev pub task_ref_prefix : Bytes
task_ref_prefix = codes "refs/heads/task/"

abbrev pub ok_ref_prefix : Bytes
ok_ref_prefix = codes "refs/heads/ok/"

abbrev pub task_ref : Bytes → Bytes
task_ref run = task_ref_prefix ++ run

abbrev pub ok_ref : Bytes → Bytes
ok_ref run = ok_ref_prefix ++ run

unfoldable pub short_ref : Bytes → Bytes
unfolding trim_prefix
short_ref ref = trim_prefix ref (codes "refs/heads/")

abbrev pub run_name_of : Bytes × Bool → Bytes
run_name_of (segment, found) = if found then segment else []

unfoldable pub run_name : Bytes → Bytes
unfolding after_last
run_name ref = run_name_of (after_last b'/' ref)

abbrev pub is_old_id : Bytes → Bytes → Bool
is_old_id cutoff id =
    not (ltb (length id) (length cutoff)) && before (take (length cutoff) id) cutoff

-- The test of `Expired` on one ref.
unfoldable pub is_expired : Bytes → Bytes → Bool
unfolding after_last
is_expired cutoff ref = is_old_id cutoff (last_segment ref)

-- Times are counted in seconds; `stamp` formats one as 20060102T150405.
unfoldable pub expired : (ℕ → Bytes) → List Bytes → ℕ → ℕ → List Bytes
unfolding is_expired
expired stamp refs now ttl = select (is_expired (stamp (now - ttl))) refs

after_last-none : (sep : ℕ) (t : Bytes) → has_byte sep t ≡ false → after_last sep t ≡ (t, false)
unfolding after_last has_byte
after_last-none sep [] h = refl
after_last-none sep (c ∷ t) h = rw (after_last-none sep t (ground arith)) (ground arith)

after_last-append :
    (sep : ℕ) (s t : Bytes) → has_byte sep t ≡ false → after_last sep (s ++ sep ∷ t) ≡ (t, true)
unfolding after_last
after_last-append sep [] t h = rw (after_last-none sep t h) (ground (arith, ==_refl sep))
after_last-append sep (c ∷ s) t h = rw (after_last-append sep s t h) refl

-- A run's ref: what stands before the last slash, the time of the run, and the rest of its id.
pub record RunRef : Type 0 where
  pub above : Bytes
  pub time : ℕ
  pub rest : Bytes

take-append : (s t : Bytes) → take (length s) (s ++ t) ≡ s
take-append [] t = refl
take-append (c ∷ s) t = ap (λ u. c ∷ u) (take-append s t)

module _ (stamp : ℕ → Bytes) where
  abbrev pub ref_of : RunRef → Bytes
  ref_of r = r.above ++ b'/' ∷ (stamp r.time ++ r.rest)

  abbrev pub NoSlash : RunRef → Type 0
  NoSlash r = has_byte b'/' (stamp r.time ++ r.rest) ≡ false

  module _ (limit : ℕ)
      (same_length : (a b : ℕ) → a < limit → b < limit → length (stamp a) ≡ length (stamp b))
      (keeps_order : (a b : ℕ) → a < limit → b < limit → before (stamp a) (stamp b) ≡ ltb a b) where
    -- A run before the limit, whose id has no slash.
    abbrev pub IsRun : RunRef → Type 0
    IsRun r = (r.time < limit) × NoSlash r

    is_old_id-stamp :
        (cutoff t : ℕ) (rest : Bytes)
        → cutoff < limit
        → t < limit
        → is_old_id (stamp cutoff) (stamp t ++ rest) ≡ ltb t cutoff
    is_old_id-stamp cutoff t rest c b =
        rw (same_length cutoff t c b, take-append (stamp t) rest, keeps_order t cutoff b c)
          (ground (arith, length-append (stamp t) rest))

    is_expired-ref_of :
        (cutoff : ℕ) (r : RunRef)
        → cutoff < limit
        → IsRun r
        → is_expired (stamp cutoff) (ref_of r) ≡ ltb r.time cutoff
    unfolding is_expired
    is_expired-ref_of cutoff r c h =
        ap (λ p. is_old_id (stamp cutoff) p.0)
          (after_last-append b'/' r.above (stamp r.time ++ r.rest) h.1)
        ∙ is_old_id-stamp cutoff r.time r.rest c h.0

    -- If the format of times has one length and keeps their order for all times below some limit, a
    -- sweep before that limit, of refs whose ids begin with the time of their run, also before it,
    -- drops in order the refs of the runs before the cutoff and no other.
    pub expired-ref_of :
        (rs : List RunRef) (now ttl : ℕ)
        → now < limit
        → All IsRun rs
        → expired stamp (map ref_of rs) now ttl
          ≡ map ref_of (select (λ (r : RunRef). ltb r.time (now - ttl)) rs)
    unfolding expired
    expired-ref_of [] now ttl b h = refl
    expired-ref_of (r ∷ rs) now ttl b h =
        rw (is_expired-ref_of (now - ttl) r (omega arith) h.0, expired-ref_of rs now ttl b h.1)
          (ground arith)

-- The refs made for a run have the run's name, if the name holds no slash.
pub run_name-task_ref :
    (run : Bytes)
    → has_byte b'/' run ≡ false
    → (run_name (task_ref run) ≡ run) × (run_name (ok_ref run) ≡ run)
unfolding run_name
run_name-task_ref run h = (
  ap run_name_of (after_last-append b'/' (codes "refs/heads/task") run h),
  ap run_name_of (after_last-append b'/' (codes "refs/heads/ok") run h),
)

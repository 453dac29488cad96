-- ===== src/Fence/Memory.antt =====
-- A git that keeps the refs of its server in a list, and meets what is documented of git.
use kranq.Base.{
  Bool, true, false, not, ◌&&◌, List, [], ◌∷◌, ◌++◌, if◌then◌else◌, ◌≡◌, refl, sym, ◌∙◌, ap, ap₂,
  ◌≢◌, subst, arith, Bool-cases, inl, inr, all, any, &&-eq-true,
}
use kranq.Base.Text.{Bytes, codes, empty, same, same_iff, same_refl, has_prefix}
use kranq.Base.Strings.{cut, cut-append, drop_bytes, has_byte, trim_space}
use kranq.Fence.Git.{
  Answer, Git, Same, Pushed, landed, refused, IsLawful, with_token, push_args, atomic_push_args,
  refspec, is_local, local_verbs, ls_remote_args, is_object, is_oid, is_hex, is_fence_ref,
  fence_prefix, StartsWithObject,
}

abbrev pub Refs : Type 0
Refs = List (Bytes × Bytes)

unfoldable pub tip_in : Refs → Bytes → Bytes
unfolding same
tip_in [] r = []
tip_in ((s, v) ∷ w) r = if same s r then (if is_object v then v else []) else tip_in w r

abbrev last_of : List Bytes → Bytes
last_of [] = []
last_of (s ∷ []) = s
last_of (s ∷ t ∷ ss) = last_of (t ∷ ss)

abbrev fine : Bytes → Answer
fine out = record { out = out; stderr = []; ok = true }

abbrev stale : Answer
stale = record { out = []; stderr = codes "(stale info)"; ok = false }

-- A push of what is there already is fine; any other is checked against its lease.
unfoldable swap : Refs → Bytes × Bytes × Bool → Bytes × Bytes × Bool → Refs × Answer
unfolding tip_in same
swap w (ref, old, f) (new, rest, g) =
    if not (empty new) && same (tip_in w ref) new
    then (w, fine [])
    else if same (tip_in w ref) old && is_object new
    then ((ref, new) ∷ w, fine [])
    else (w, stale)

abbrev push_on : Refs → List Bytes → Refs × Answer
push_on w [] = (w, stale)
push_on w (l ∷ []) = (w, stale)
push_on w (l ∷ url ∷ specs) =
    swap w (cut b':' (drop_bytes l (codes "--force-with-lease="))) (cut b':' (last_of specs))

abbrev push_flags : Refs → List Bytes → Refs × Answer
push_flags w [] = (w, stale)
push_flags w (a ∷ args) = if same a (codes "--atomic") then push_on w args else push_on w (a ∷ args)

abbrev checked : Bytes → Answer
checked out = fine (if is_object (cut b'\t' (trim_space out)).0 then out else [])

abbrev list_ref : Refs → List Bytes → Answer
list_ref w (url ∷ ref ∷ []) =
    checked (if empty (tip_in w ref) then [] else tip_in w ref ++ b'\t' ∷ (ref ++ b'\n' ∷ []))
list_ref w _ = fine []

-- The commits of the task t1, and those of all others.
abbrev pub first_oid : Bytes
first_oid = codes "1111111111111111111111111111111111111111"

abbrev pub second_oid : Bytes
second_oid = codes "2222222222222222222222222222222222222222"

abbrev commit_oid : List Bytes → Bytes
commit_oid args = if any (same (codes "t1")) args then first_oid else second_oid

unfoldable pub run_git : Refs → List Bytes → Refs × Answer
unfolding swap same cut tip_in is_oid trim_space
run_git w [] = (w, fine [])
run_git w (verb ∷ args) =
    if same verb (codes "push")
    then push_flags w args
    else if same verb (codes "commit-tree")
    then (w, fine (commit_oid args))
    else if same verb (codes "ls-remote")
    then (w, list_ref w args)
    else if same verb (codes "log")
    then (w, fine (codes "t1"))
    else (w, fine [])

abbrev pub without_token : List Bytes → List Bytes
without_token (a ∷ b ∷ c ∷ d ∷ args) = if same a (codes "-c") then args else a ∷ b ∷ c ∷ d ∷ args
without_token args = args

abbrev pub memory_git : Git
memory_git = record {
  World = Refs;
  exec = λ w env args stdin. run_git w (without_token args);
  has_head = λ w. true;
  make_dir = λ w. (w, true);
  tip = tip_in;
}

tip_in-new : (w : Refs) (ref new : Bytes) → is_object new ≡ true → tip_in ((ref, new) ∷ w) ref ≡ new
unfolding tip_in
tip_in-new w ref new h = rw (same_refl ref, h) refl

tip_in-other :
    (w : Refs) (ref new r : Bytes) → same r ref ≡ false → tip_in ((ref, new) ∷ w) r ≡ tip_in w r
unfolding tip_in
tip_in-other w ref new r h = ground (arith, same_iff r ref, same_iff ref r, same_refl r)

-- A swap lands, finds its object there already, or is refused.
swap-Pushed :
    (w : Refs) (ref old new : Bytes) (f g : Bool) (rest : Bytes)
    → Pushed memory_git (tip_in w) ref old new (swap w (ref, old, f) (new, rest, g))
unfolding swap
swap-Pushed w ref old new f g rest =
    elim (Bool-cases (not (empty new) && same (tip_in w ref) new)) [
      | inl u ↦
          let at : tip_in w ref ≡ new = (same_iff (tip_in w ref) new).0 (&&-eq-true _ _ u).1 in
          rw u (
            landed w (fine []) refl
              (record { was = inr (ground arith, at); became = at; others = λ r d. refl }))
      | inr u ↦ rw u (elim (Bool-cases (same (tip_in w ref) old && is_object new)) [
        | inl h ↦ rw h (
            landed ((ref, new) ∷ w) (fine []) refl (record {
              was = inl ((same_iff (tip_in w ref) old).0 (&&-eq-true _ _ h).0);
              became = tip_in-new w ref new (&&-eq-true _ _ h).1;
              others = λ r d. tip_in-other w ref new r d;
            }))
        | inr h ↦ rw h (refused w stale refl (λ r. refl))
      ])
    ]

without_token-plain :
    (verb : Bytes) (args : List Bytes)
    → same verb (codes "-c") ≡ false
    → without_token (verb ∷ args) ≡ verb ∷ args
without_token-plain verb [] h = refl
without_token-plain verb (a ∷ []) h = refl
without_token-plain verb (a ∷ b ∷ []) h = refl
without_token-plain verb (a ∷ b ∷ c ∷ args) h = rw h refl

strip :
    (token : Bytes) (verb : Bytes) (args : List Bytes)
    → same verb (codes "-c") ≡ false
    → without_token (with_token token (verb ∷ args)) ≡ verb ∷ args
unfolding with_token same
strip token verb args h = elim (Bool-cases (empty token)) [
  | inl e ↦ rw e (without_token-plain verb args h)
  | inr e ↦ rw e refl
]

last_of-append : (specs : List Bytes) (s : Bytes) → last_of (specs ++ s ∷ []) ≡ s
last_of-append [] s = refl
last_of-append (t ∷ []) s = refl
last_of-append (t ∷ u ∷ specs) s = last_of-append (u ∷ specs) s

run-push :
    (w : Refs) (url ref old new : Bytes)
    → has_byte b':' ref ≡ false
    → has_byte b':' new ≡ false
    → run_git w (push_args url ref old new) ≡ swap w (ref, old, true) (new, ref, true)
unfolding run_git same push_args
run-push w url ref old new cr cn =
    ap₂ (swap w) (cut-append b':' ref old cr) (cut-append b':' new ref cn)

run-atomic_push :
    (w : Refs) (url ref old new : Bytes) (specs : List Bytes)
    → has_byte b':' ref ≡ false
    → has_byte b':' new ≡ false
    → run_git w (atomic_push_args url ref old new specs) ≡ swap w (ref, old, true) (new, ref, true)
unfolding run_git same atomic_push_args
run-atomic_push w url ref old new specs cr cn =
    ap₂ (swap w) (cut-append b':' ref old cr)
      (ap (cut b':') (last_of-append specs (refspec new ref)) ∙ cut-append b':' new ref cn)

push_not_local : (args : List Bytes) → is_local (codes "push" ∷ args) ≢ true
unfolding same
push_not_local args h = cc

no_option : any (same (codes "-c")) local_verbs ≢ true
unfolding same
no_option e = cc

local_first : (verb : Bytes) → any (same verb) local_verbs ≡ true → same verb (codes "-c") ≡ false
local_first verb h = elim (Bool-cases (same verb (codes "-c"))) [
  | inr n ↦ n
  | inl y ↦ absurd (
      no_option (subst (λ v. any (same v) local_verbs ≡ true) ((same_iff verb (codes "-c")).0 y) h))
]

strip_local :
    (token : Bytes) (args : List Bytes)
    → is_local args ≡ true
    → without_token (with_token token args) ≡ args
strip_local token [] h = absurd (ground arith)
strip_local token (verb ∷ args) h = strip token verb args (local_first verb h)

checked-StartsWithObject : (out : Bytes) → StartsWithObject (checked out).out
unfolding trim_space cut
checked-StartsWithObject out = elim (Bool-cases (is_object (cut b'\t' (trim_space out)).0)) [
  | inl h ↦ rw h h
  | inr h ↦ rw h refl
]

run-ls_remote :
    (w : Refs) (url ref : Bytes) → StartsWithObject (run_git w (ls_remote_args url ref)).1.out
unfolding run_git same
run-ls_remote w url ref =
    checked-StartsWithObject
      (if empty (tip_in w ref) then [] else tip_in w ref ++ b'\t' ∷ (ref ++ b'\n' ∷ []))

run-commit_tree :
    (w : Refs) (args : List Bytes)
    → is_oid (trim_space (run_git w (codes "commit-tree" ∷ args)).1.out) ≡ true
unfolding run_git same trim_space is_oid
run-commit_tree w args = elim (Bool-cases (any (same (codes "t1")) args)) [
  | inl h ↦ rw h refl
  | inr h ↦ rw h refl
]

-- Names of fences and of objects have no colon, which is all that reading a push needs.
no_colon : (s : Bytes) → all is_hex s ≡ true → has_byte b':' s ≡ false
unfolding has_byte
no_colon [] h = refl
no_colon (c ∷ s) h = ground (arith, no_colon s)

object_no_colon : (o : Bytes) → is_object o ≡ true → has_byte b':' o ≡ false
unfolding is_oid has_byte
object_no_colon [] h = refl
object_no_colon (c ∷ o) h = no_colon (c ∷ o) (&&-eq-true _ _ h).0

local-Same :
    (w : Refs) (args : List Bytes)
    → is_local args ≡ true
    → Same memory_git (tip_in w) (run_git w args).0
unfolding run_git
local-Same w [] l = λ r. refl
local-Same w (verb ∷ args) l = elim (Bool-cases (same verb (codes "push"))) [
  | inl p ↦ absurd (not_local ((same_iff verb (codes "push")).0 p))
  | inr p ↦ rw p (elim (Bool-cases (same verb (codes "commit-tree"))) [
    | inl q ↦ rw q (λ r. refl)
    | inr q ↦ rw q (elim (Bool-cases (same verb (codes "ls-remote"))) [
      | inl x ↦ rw x (λ r. refl)
      | inr x ↦ rw x (elim (Bool-cases (same verb (codes "log"))) [
        | inl y ↦ rw y (λ r. refl)
        | inr y ↦ rw y (λ r. refl)
      ])
    ])
  ])
]
  where
    not_local : verb ≢ codes "push"
    not_local e = push_not_local args (subst (λ v. is_local (v ∷ args) ≡ true) e l)

fence_no_colon : (r : Bytes) → is_fence_ref r ≡ true → has_byte b':' r ≡ false
unfolding is_fence_ref has_byte has_prefix
fence_no_colon r h = prefixed r fence_prefix refl (ground arith) (ground arith)
  where
    prefixed :
        (r p : Bytes)
        → has_byte b':' p ≡ false
        → has_prefix r p ≡ true
        → all is_hex (drop_bytes r p) ≡ true
        → has_byte b':' r ≡ false
    prefixed r [] n h k = no_colon r k
    prefixed [] (d ∷ p) n h k = refl
    prefixed (c ∷ r) (d ∷ p) n h k = ground (arith, prefixed r p)

pub memory_git-IsLawful : IsLawful memory_git
unfolding same push_args atomic_push_args
memory_git-IsLawful = record {
  push = λ w env token url ref old new stdin cr co cn.
      subst (Pushed memory_git (tip_in w) ref old new)
        (sym (
          ap (run_git w) (strip token (codes "push") _ refl)
          ∙ run-push w url ref old new (fence_no_colon ref cr) (object_no_colon new cn)))
        (swap-Pushed w ref old new true true ref);
  atomic_push = λ w env token url ref old new specs stdin cr co cn cs.
      subst (Pushed memory_git (tip_in w) ref old new)
        (sym (
          ap (run_git w) (strip token (codes "push") _ refl)
          ∙ run-atomic_push w url ref old new specs (fence_no_colon ref cr)
              (object_no_colon new cn)))
        (swap-Pushed w ref old new true true ref);
  local = λ w env args token stdin l r.
      ap (λ a. tip_in (run_git w a).0 r) (strip_local token args l) ∙ local-Same w args l r;
  dir_local = λ w r. refl;
  ls_remote = λ w env token url ref stdin h.
      subst (λ a. StartsWithObject (run_git w a).1.out)
        (sym (strip token (codes "ls-remote") _ refl)) (run-ls_remote w url ref);
  commit_tree = λ w env args token stdin h.
      subst (λ a. is_oid (trim_space (run_git w a).1.out) ≡ true)
        (sym (strip token (codes "commit-tree") args refl)) (run-commit_tree w args);
}

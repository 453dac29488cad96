-- ===== src/Fence/Ops.antt =====
-- internal/fence/fence.go and ops.go: the operations of the client. JSON is two functions, `encode`
-- and `decode`.
use kranq.Base.{
  ℕ, Bool, true, false, not, ◌||◌, List, [], ◌∷◌, ◌++◌, Option, none, some, if◌then◌else◌,
}
use kranq.Base.Text.{Bytes, codes, empty, same}
use kranq.Base.Strings.{trim_space, cut, split}
use kranq.Fence.Defs.{
  namespace, Scope, scope_ref, Holder, Claim, Entry, FenceError, held, broken, no_atomic, no_fence,
  not_prepared, tree_not_written, record_not_written, not_read, not_a_record, push_failed, Client,
  no_holder, rejected, lacks_atomic,
}
use kranq.Fence.Git.{Answer, Git, with_token, push_args, atomic_push_args, ls_remote_args}

pub data Reply {ℓ} (A : Type ℓ) : Type ℓ where
  ok : A → Reply A
  err : FenceError → Reply A

-- What the environment of git gets.
unfoldable pub environment : Client → List Bytes
environment c =
    let env =
      codes "GIT_AUTHOR_NAME=kranq"
      ∷ codes "GIT_AUTHOR_EMAIL=kranq@localhost"
      ∷ codes "GIT_COMMITTER_NAME=kranq"
      ∷ codes "GIT_COMMITTER_EMAIL=kranq@localhost"
      ∷ codes "GIT_TERMINAL_PROMPT=0"
      ∷ [] in
    if not (empty c.token) then env ++ (codes "KRANQ_GIT_TOKEN=" ++ c.token) ∷ [] else env

abbrev pub hash_object_args : List Bytes
hash_object_args =
    codes "hash-object" ∷ codes "-t" ∷ codes "tree" ∷ codes "-w" ∷ codes "--stdin" ∷ []

module _ (G : Git) where
  unfoldable pub git : Client → G.World → Bytes → List Bytes → G.World × Answer
  unfolding environment
  git c w stdin args = G.exec w (environment c) (with_token c.token args) stdin

  -- Go's `if err != nil { return … }` between two calls.
  unfoldable pub then_ask {ℓ κ} :
      {A : Type ℓ} {B : Type κ}
      → G.World × Reply A
      → (G.World → A → G.World × Reply B)
      → G.World × Reply B
  then_ask (w, err e) next = (w, err e)
  then_ask (w, ok a) next = next w a

  -- The output of a command, or an error.
  unfoldable pub output : FenceError → G.World × Answer → G.World × Reply Bytes
  output e (w, a) = (w, if a.ok then ok a.out else err e)

  abbrev pub made_dir : Client → G.World × Bool → G.World × Reply Bytes
  made_dir c (w, false) = (w, err not_prepared)
  made_dir c (w, true) =
      output not_prepared
        (git c w [] (codes "init" ∷ codes "--bare" ∷ codes "--quiet" ∷ c.dir ∷ []))

  -- `Init`
  unfoldable pub init : Client → G.World → G.World × Reply Bytes
  unfolding git output
  init c w = if G.has_head w then (w, ok []) else made_dir c (G.make_dir w)

  abbrev pub commit_args : Bytes → Bytes → Bytes → List Bytes
  commit_args tree body parent =
      codes "commit-tree"
      ∷ trim_space tree
      ∷ codes "-m"
      ∷ body
      ∷ (if not (empty parent) then codes "-p" ∷ parent ∷ [] else [])

  abbrev pub commit_tree : Client → Bytes → Option Bytes → G.World → Bytes → G.World × Reply Bytes
  commit_tree c parent none w tree = (w, err record_not_written)
  commit_tree c parent (some body) w tree =
      output record_not_written (git c w [] (commit_args tree body parent))

  -- `commit`; its result is still to be trimmed.
  unfoldable pub commit :
      (Holder → Option Bytes) → Client → G.World → Holder → Bytes → G.World × Reply Bytes
  unfolding git output then_ask
  commit encode c w h parent =
      then_ask (output tree_not_written (git c w [] hash_object_args))
        (commit_tree c parent (encode h))

  abbrev pub claimed : Bytes → Bytes → Holder → G.World × Answer → G.World × Reply (Claim × Holder)
  claimed ref oid h (w, a) = (
    w,
    if a.ok
        then ok (record { ref = ref; oid = oid }, h)
        else if rejected a.stderr
        then err held
        else err push_failed,
  )

  abbrev pub push_claim :
      Client → Bytes → Holder → G.World → Bytes → G.World × Reply (Claim × Holder)
  push_claim c ref h w out =
      claimed ref (trim_space out) h (git c w [] (push_args c.url ref [] (trim_space out)))

  unfoldable pub holder_of : Client → Scope → Bytes → ℕ → Holder
  holder_of c s task now = record {
    task = task;
    node = c.node;
    kind = s.kind;
    repo = s.repo;
    branch = s.branch;
    phase = codes "claimed";
    claimed_at = now;
  }

  -- `Claim`, on the ref of the scope and with the record of its holder.
  unfoldable pub claim_ref :
      (Holder → Option Bytes) → Client → G.World → Bytes → Holder → G.World × Reply (Claim × Holder)
  unfolding init commit git then_ask rejected
  claim_ref encode c w ref h =
      then_ask (init c w) (λ w1 _. then_ask (commit encode c w1 h []) (push_claim c ref h))

  unfoldable pub claim :
      (Holder → Option Bytes)
      → (Bytes → Bytes)
      → Client
      → G.World
      → Scope
      → Bytes
      → ℕ
      → G.World × Reply (Claim × Holder)
  unfolding claim_ref holder_of scope_ref
  claim encode digest c w s task now =
      claim_ref encode c w (scope_ref digest s) (holder_of c s task now)

  abbrev pub advanced : Claim → Bytes → G.World × Answer → G.World × Reply Claim
  advanced cl oid (w, a) = (
    w,
    if a.ok
        then ok (record { ref = cl.ref; oid = oid })
        else if lacks_atomic a.stderr
        then err no_atomic
        else if rejected a.stderr
        then err broken
        else err push_failed,
  )

  abbrev pub push_advance : Client → Claim → List Bytes → G.World → Bytes → G.World × Reply Claim
  push_advance c cl specs w out =
      advanced cl (trim_space out)
        (git c w [] (atomic_push_args c.url cl.ref cl.oid (trim_space out) specs))

  unfoldable pub advance :
      (Holder → Option Bytes)
      → Client
      → G.World
      → Claim
      → Holder
      → Bytes
      → List Bytes
      → G.World × Reply Claim
  unfolding commit git then_ask rejected lacks_atomic
  advance encode c w cl h phase specs =
      if empty cl.oid
      then (w, err no_fence)
      else then_ask (commit encode c w (record h { phase = phase }) cl.oid)
          (push_advance c cl specs)

  abbrev pub removed : G.World × Answer → G.World × Reply Bytes
  removed (w, a) =
      (w, if a.ok then ok [] else if rejected a.stderr then err broken else err push_failed)

  unfoldable pub release : Client → G.World → Claim → G.World × Reply Bytes
  unfolding git rejected
  release c w cl =
      if empty cl.oid
      then (w, err no_fence)
      else removed (git c w [] (push_args c.url cl.ref cl.oid []))

  -- `Break`: an empty `expect` is a lease on no object.
  unfoldable pub break_fence : Client → G.World → Bytes → Bytes → G.World × Reply Bytes
  unfolding init git then_ask rejected
  break_fence c w ref expect =
      then_ask (init c w) (λ w1 _. removed (git c w1 [] (push_args c.url ref expect [])))

  abbrev pub local_ref : Bytes → Bytes
  local_ref oid = codes "refs/kranq/read/" ++ oid

  abbrev pub decoded : G.World → Option Holder → G.World × Reply Holder
  decoded w none = (w, err not_a_record)
  decoded w (some h) = (w, ok h)

  abbrev pub fetch_args : Client → Bytes → Bytes → List Bytes
  fetch_args c ref oid =
      codes "fetch" ∷ codes "--quiet" ∷ codes "--force" ∷ c.url ∷ (ref ++ b':' ∷ local_ref oid) ∷ []

  abbrev pub log_args : Bytes → List Bytes
  log_args oid = codes "log" ∷ codes "-1" ∷ codes "--format=%B" ∷ local_ref oid ∷ []

  abbrev pub decode_body : (Bytes → Option Holder) → G.World → Bytes → G.World × Reply Holder
  decode_body decode w body = decoded w (decode (trim_space body))

  abbrev pub read_log :
      (Bytes → Option Holder) → Client → Bytes → G.World → Bytes → G.World × Reply Holder
  read_log decode c oid w fetched =
      then_ask (output not_read (git c w [] (log_args oid))) (decode_body decode)

  -- `readHolder`
  unfoldable pub read_holder :
      (Bytes → Option Holder) → Client → G.World → Bytes → Bytes → G.World × Reply Holder
  unfolding git output then_ask
  read_holder decode c w ref oid =
      then_ask (output not_read (git c w [] (fetch_args c ref oid))) (read_log decode c oid)

  -- The record at an object that a ref points at.
  abbrev pub entry_of : Bytes → Bytes → G.World → Holder → G.World × Reply Entry
  entry_of ref oid w h = (w, ok (record { ref = ref; oid = oid; holder = h }))

  abbrev pub read_entry :
      (Bytes → Option Holder)
      → Client
      → Bytes
      → G.World
      → Bytes × Bytes × Bool
      → G.World × Reply Entry
  read_entry decode c ref w (oid, rest, found) =
      if not found || empty oid
      then (w, err no_fence)
      else then_ask (read_holder decode c w ref oid) (entry_of ref oid)

  abbrev pub read_line :
      (Bytes → Option Holder) → Client → Bytes → G.World → Bytes → G.World × Reply Entry
  read_line decode c ref w out = read_entry decode c ref w (cut b'\t' (trim_space out))

  abbrev pub ask_ref :
      (Bytes → Option Holder) → Client → Bytes → G.World → Bytes → G.World × Reply Entry
  ask_ref decode c ref w made =
      then_ask (output not_read (git c w [] (ls_remote_args c.url ref))) (read_line decode c ref)

  unfoldable pub show : (Bytes → Option Holder) → Client → G.World → Bytes → G.World × Reply Entry
  unfolding init git output then_ask read_holder
  show decode c w ref = then_ask (init c w) (ask_ref decode c ref)

  abbrev pub own : Bytes → Bytes → G.World → Entry → G.World × Reply (Claim × Holder)
  own ref task w e =
      if not (same e.holder.task task)
      then (w, err broken)
      else (w, ok (record { ref = ref; oid = e.oid }, e.holder))

  unfoldable pub adopt :
      (Bytes → Option Holder) → Client → G.World → Bytes → Bytes → G.World × Reply (Claim × Holder)
  unfolding show then_ask
  adopt decode c w ref task = then_ask (show decode c w ref) (own ref task)

  -- `List`: a ref whose record cannot be read is listed without its holder.
  abbrev pub with_holder : Bytes → Bytes → G.World × Reply Holder → G.World × Entry
  with_holder ref oid (w, ok h) = (w, record { ref = ref; oid = oid; holder = h })
  with_holder ref oid (w, err e) = (w, record { ref = ref; oid = oid; holder = no_holder })

  abbrev pub cons_entry : Entry → G.World × List Entry → G.World × List Entry
  cons_entry e (w, es) = (w, e ∷ es)

  abbrev pub list_next : (G.World → G.World × List Entry) → G.World × Entry → G.World × List Entry
  list_next next (w, e) = cons_entry e (next w)

  abbrev pub list_line :
      (Bytes → Option Holder)
      → Client
      → G.World
      → Bytes × Bytes × Bool
      → (G.World → G.World × List Entry)
      → G.World × List Entry
  list_line decode c w (oid, ref, found) next =
      if not found || empty oid
      then next w
      else list_next next (with_holder ref oid (read_holder decode c w ref oid))

  unfoldable pub list_lines :
      (Bytes → Option Holder) → Client → G.World → List Bytes → G.World × List Entry
  unfolding read_holder
  list_lines decode c w [] = (w, [])
  list_lines decode c w (l ∷ ls) =
      list_line decode c w (cut b'\t' (trim_space l)) (λ w1. list_lines decode c w1 ls)

  abbrev pub listed : G.World × List Entry → G.World × Reply (List Entry)
  listed (w, es) = (w, ok es)

  unfoldable pub list : (Bytes → Option Holder) → Client → G.World → G.World × Reply (List Entry)
  unfolding init git output then_ask list_lines
  list decode c w = then_ask (init c w) (λ w1 _.
      then_ask (output not_read (git c w1 [] (ls_remote_args c.url (namespace ++ codes "/*"))))
        (λ w2 out. listed (list_lines decode c w2 (split b'\n' (trim_space out)))))

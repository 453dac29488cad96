-- ===== src/Fence/Git.antt =====
-- git as the fence uses it: commands on an unknown world, which holds the local repository and the
-- server, and what is documented of them.
use kranq.Base.{
  ℕ, Bool, true, false, not, ◌&&◌, ◌||◌, List, [], ◌∷◌, ◌++◌, if◌then◌else◌, ◌≡◌, ◌⊎◌, ◌==◌, any,
  all, leb, length,
}
use kranq.Base.Text.{Bytes, codes, empty, same, has_prefix}
use kranq.Base.Strings.{has_text, has_byte, is_digit, trim_space, cut, drop_bytes}
use kranq.Fence.Defs.{namespace, rejected, lacks_atomic}

pub record Answer : Type 0 where
  pub out : Bytes
  pub stderr : Bytes
  pub ok : Bool

-- `exec` runs git with an environment, arguments and standard input. `has_head` says whether the
-- local repository is there, and `make_dir` makes its directory. `tip` is what a fence at the server,
-- a ref that `is_fence_ref` accepts, points at; it is empty where there is no such ref and for every
-- other name. A world is a state of a server at which no branch or tag has the whole name of a fence
-- as the end of its own (refs/heads/refs/kranq/fence/…): git takes a push to a fence that is not there
-- for one to such a branch. The `url` of a client is an address, and no option.
pub record Git : Type 1 where
  pub World : Type 0
  pub exec : World → List Bytes → List Bytes → Bytes → World × Answer
  pub has_head : World → Bool
  pub make_dir : World → World × Bool
  pub tip : World → Bytes → Bytes

-- The arguments that `git` puts before a command if the client has a token.
abbrev pub helper : Bytes
helper =
    codes "credential.helper=!f() { echo username=x-token-auth; echo "
    ++ (b'"' ∷ codes "password=$KRANQ_GIT_TOKEN" ++ (b'"' ∷ codes "; }; f"))

unfoldable pub with_token : Bytes → List Bytes → List Bytes
with_token token args =
    if not (empty token)
    then codes "-c" ∷ codes "credential.helper=" ∷ codes "-c" ∷ helper ∷ args
    else args

-- `--force-with-lease`: the push is refused unless the ref points at the old object; no object
-- means that the ref must not exist.
abbrev pub lease : Bytes → Bytes → Bytes
lease ref old = codes "--force-with-lease=" ++ (ref ++ b':' ∷ old)

-- A refspec that points a ref at an object; no object deletes the ref.
abbrev pub refspec : Bytes → Bytes → Bytes
refspec new ref = new ++ b':' ∷ ref

unfoldable pub push_args : Bytes → Bytes → Bytes → Bytes → List Bytes
push_args url ref old new = codes "push" ∷ lease ref old ∷ url ∷ refspec new ref ∷ []

unfoldable pub atomic_push_args : Bytes → Bytes → Bytes → Bytes → List Bytes → List Bytes
atomic_push_args url ref old new specs =
    codes "push" ∷ codes "--atomic" ∷ lease ref old ∷ url ∷ (specs ++ refspec new ref ∷ [])

abbrev pub ls_remote_args : Bytes → Bytes → List Bytes
ls_remote_args url ref = codes "ls-remote" ∷ url ∷ ref ∷ []

abbrev pub local_verbs : List Bytes
local_verbs =
    codes "init"
    ∷ codes "hash-object"
    ∷ codes "commit-tree"
    ∷ codes "ls-remote"
    ∷ codes "fetch"
    ∷ codes "log"
    ∷ []

-- The commands that write nothing at the server.
abbrev pub is_local : List Bytes → Bool
is_local [] = false
is_local (verb ∷ args) = any (same verb) local_verbs

abbrev pub is_hex : ℕ → Bool
is_hex c = is_digit c || (leb b'a' c && leb c b'f')

-- The name of an object in full, and an object or none.
unfoldable pub is_oid : Bytes → Bool
is_oid o = all is_hex o && (length o == 40 || length o == 64)

abbrev pub is_object : Bytes → Bool
is_object o = empty o || is_oid o

abbrev pub fence_prefix : Bytes
fence_prefix = namespace ++ b'/' ∷ []

-- The name of a fence, as `Scope.Ref` makes it.
unfoldable pub is_fence_ref : Bytes → Bool
unfolding has_prefix
is_fence_ref r =
    let rest = drop_bytes r fence_prefix in
    has_prefix r fence_prefix && not (empty rest) && all is_hex rest

-- A refspec whose destination is one ref, named in full, that is no fence and has no fence's name
-- in its own.
abbrev pub is_full : Bytes × Bytes × Bool → Bool
is_full (src, dst, found) =
    found
    && has_prefix dst (codes "refs/")
    && not (has_byte b':' dst)
    && not (has_byte b'*' dst)
    && not (has_text dst namespace)

unfoldable pub is_elsewhere : Bytes → Bool
unfolding has_prefix cut has_byte has_text
is_elsewhere spec = not (has_prefix spec (codes "-")) && is_full (cut b':' spec)

-- Output that is blank, or has the name of an object before its first tab.
abbrev pub StartsWithObject : Bytes → Type 0
StartsWithObject out = is_object (cut b'\t' (trim_space out)).0 ≡ true

module _ (G : Git) where
  -- The fences are as `t` says.
  abbrev pub Same : (Bytes → Bytes) → G.World → Type 0
  Same t w = (r : Bytes) → G.tip w r ≡ t r

  -- One fence went from an old object to a new one, or was at the new one already, and no other
  -- fence moved.
  pub record Moved (t : Bytes → Bytes) (w : G.World) (ref old new : Bytes) : Type 0 where
    pub was : (t ref ≡ old) ⊎ ((empty new ≡ false) × (t ref ≡ new))
    pub became : G.tip w ref ≡ new
    pub others : (r : Bytes) → same r ref ≡ false → G.tip w r ≡ t r

  -- What a push does: it lands, it is refused and nothing moves, or the answer is lost on its way and
  -- it may have landed.
  pub data Pushed (t : Bytes → Bytes) (ref old new : Bytes) : G.World × Answer → Type 0 where
    landed :
        (w : G.World) (a : Answer)
        → a.ok ≡ true
        → Moved t w ref old new
        → Pushed t ref old new (w, a)
    refused : (w : G.World) (a : Answer) → a.ok ≡ false → Same t w → Pushed t ref old new (w, a)
    lost :
        (w : G.World) (a : Answer)
        → a.ok ≡ false
        → rejected a.stderr ≡ false
        → lacks_atomic a.stderr ≡ false
        → Moved t w ref old new
        → Pushed t ref old new (w, a)

  -- A lease is checked only of a ref that the push would change: a push of the object that the ref
  -- points at already succeeds whatever the lease says. A deletion is always a change.
  pub record IsLawful : Type 0 where
    pub push :
        (w : G.World) (env : List Bytes) (token url ref old new stdin : Bytes)
        → is_fence_ref ref ≡ true
        → is_object old ≡ true
        → is_object new ≡ true
        → Pushed
            (G.tip w)
            ref
            old
            new
            (G.exec w env (with_token token (push_args url ref old new)) stdin)
    pub atomic_push :
        (w : G.World) (env : List Bytes) (token url ref old new : Bytes) (specs : List Bytes)
        (stdin : Bytes)
        → is_fence_ref ref ≡ true
        → is_object old ≡ true
        → is_object new ≡ true
        → all is_elsewhere specs ≡ true
        → Pushed
            (G.tip w)
            ref
            old
            new
            (G.exec w env (with_token token (atomic_push_args url ref old new specs)) stdin)
    pub local :
        (w : G.World) (env args : List Bytes) (token stdin : Bytes)
        → is_local args ≡ true
        → Same (G.tip w) (G.exec w env (with_token token args) stdin).0
    pub dir_local : (w : G.World) → Same (G.tip w) (G.make_dir w).0
    -- Every line of ls-remote begins with the name of an object and a tab. Which refs are listed for
    -- a pattern is not said: any ref that ends in it is, too.
    pub ls_remote :
        (w : G.World) (env : List Bytes) (token url ref stdin : Bytes)
        → (G.exec w env (with_token token (ls_remote_args url ref)) stdin).1.ok ≡ true
        → StartsWithObject (G.exec w env (with_token token (ls_remote_args url ref)) stdin).1.out
    pub commit_tree :
        (w : G.World) (env args : List Bytes) (token stdin : Bytes)
        → (G.exec w env (with_token token (codes "commit-tree" ∷ args)) stdin).1.ok ≡ true
        → is_oid
            (trim_space (G.exec w env (with_token token (codes "commit-tree" ∷ args)) stdin).1.out)
          ≡ true

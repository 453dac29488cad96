-- ===== src/Peer.antt =====
-- internal/peer/registry.go: the registry of peers. The file (Load, Save) is not modelled.
pub mod Counts
pub mod Laws
use kranq.Base.{
  ℕ, Bool, true, false, not, ◌&&◌, ◌||◌, List, [], ◌∷◌, ◌++◌, Option, none, some, if◌then◌else◌,
  ◌==◌, leb, ltb, length, all, find, map,
}
use kranq.Base.Int.{ℤ, pos, negsuc}
use kranq.Base.Text.{Bytes, codes, empty, same, has_prefix}
use kranq.Base.Strings.{is_label, cut, trim_space, atoi, is_lower, is_digit, before}

abbrev pub default_bin : Bytes
default_bin = codes "~/.local/bin/kranq"

pub record Peer : Type 0 where
  pub name : Bytes
  pub ssh : Bytes
  pub bin : Bytes
  pub default : Bool

pub data PeerError : Type 0 where
  bad_name empty_target empty_user bad_port no_host empty_bin relative_bin refused_bin not_found
        no_peers :
      PeerError

pub data Answer {ℓ} (A : Type ℓ) : Type ℓ where
  ok : A → Answer A
  err : PeerError → Answer A

pub record Target : Type 0 where
  pub user : Bytes
  pub host : Bytes
  pub port : ℕ

abbrev pub with_host : Bytes → Bytes → ℕ → Answer Target
with_host user host port =
    if empty host then err no_host else ok (record { user = user; host = host; port = port })

-- `n < 1 || n > 65535` after strconv.Atoi
abbrev pub valid_port : Option ℤ → Option ℕ
valid_port none = none
valid_port (some (negsuc n)) = none
valid_port (some (pos n)) = if ltb n 1 || ltb 65535 n then none else some n

abbrev pub with_port : Bytes → Bytes → Option ℕ → Answer Target
with_port user host none = err bad_port
with_port user host (some n) = with_host user host n

unfoldable pub host_and_port : Bytes → Bytes × Bytes × Bool → Answer Target
unfolding atoi
host_and_port user (host, port, true) = with_port user host (valid_port (atoi port))
host_and_port user (host, port, false) = with_host user host 0

unfoldable pub user_and_rest : Bytes → Bytes × Bytes × Bool → Answer Target
unfolding host_and_port cut
user_and_rest rest (user, host, true) =
    if empty user then err empty_user else host_and_port user (cut b':' host)
user_and_rest rest (user, host, false) = host_and_port [] (cut b':' rest)

unfoldable pub parse_target : Bytes → Answer Target
unfolding user_and_rest cut trim_space
parse_target v =
    let rest = trim_space v in
    if empty rest then err empty_target else user_and_rest rest (cut b'@' rest)

unfoldable pub address : Target → Bytes
address t = if empty t.user then t.host else t.user ++ b'@' ∷ t.host

-- strings.IndexAny(v, "\"$`\\\n") >= 0
abbrev pub is_refused : ℕ → Bool
is_refused c = c == b'"' || (c == b'$' || (c == b'`' || (c == b'\\' || c == b'\n')))

unfoldable pub valid_bin : Bytes → Option PeerError
unfolding has_prefix
valid_bin v =
    if empty v
    then some empty_bin
    else if not (has_prefix v (codes "/")) && not (has_prefix v (codes "~/"))
    then some relative_bin
    else if not (all (λ c. not (is_refused c)) v)
    then some refused_bin
    else none

-- `ValidBin` and `ParseTarget` as tests of `Add`.
abbrev pub target_error : Answer Target → Option PeerError
target_error (ok t) = none
target_error (err e) = some e

abbrev pub first_error : Option PeerError → Option PeerError → Option PeerError
first_error (some e) f = some e
first_error none f = f

-- The peer that `Add` stores: with a path, and without a default that it did not ask for.
abbrev pub with_bin : Peer → Peer
with_bin p = if empty p.bin then record p { bin = default_bin } else p

unfoldable pub refusal : Peer → Option PeerError
unfolding is_label parse_target valid_bin
refusal p =
    if not (is_label p.name)
    then some bad_name
    else first_error (target_error (parse_target p.ssh)) (valid_bin (with_bin p).bin)

abbrev pub named : Bytes → Peer → Bool
named name p = same p.name name

unfoldable pub set_default : Bytes → List Peer → List Peer
set_default name [] = []
set_default name (q ∷ qs) = record q { default = same q.name name } ∷ set_default name qs

unfoldable pub apply_default : Peer → List Peer → List Peer
unfolding set_default
apply_default p ps = if p.default then set_default p.name ps else ps

-- r.Peers[i] = p for the first peer of that name.
unfoldable pub replace : Peer → List Peer → List Peer
replace p [] = []
replace p (q ∷ qs) = if same q.name p.name then p ∷ qs else q ∷ replace p qs

-- sort.Slice by name, for names that differ.
unfoldable pub insert : Peer → List Peer → List Peer
insert p [] = p ∷ []
insert p (q ∷ qs) = let rest = insert p qs in if before q.name p.name then q ∷ rest else p ∷ q ∷ qs

unfoldable pub sort_by_name : List Peer → List Peer
unfolding insert
sort_by_name [] = []
sort_by_name (p ∷ ps) = insert p (sort_by_name ps)

abbrev pub is_empty : List Peer → Bool
is_empty [] = true
is_empty (p ∷ ps) = false

abbrev pub edited : Peer → Peer → Peer
edited p existing = record p { default = p.default || existing.default }

abbrev pub edit : Peer → List Peer → List Peer
edit p ps = apply_default p (replace p ps)

abbrev pub append_new : Peer → List Peer → List Peer
append_new p ps = sort_by_name (apply_default p (ps ++ p ∷ []))

-- The loop of `Add`, given the first peer of that name, and what follows it.
unfoldable pub add_checked : Peer → List Peer → Option Peer → List Peer
unfolding apply_default replace sort_by_name
add_checked p ps (some existing) = edit (edited p existing) ps
add_checked p ps none = append_new (if is_empty ps then record p { default = true } else p) ps

unfoldable pub add : Peer → List Peer → Answer (List Peer)
unfolding refusal add_checked
add p ps = elim (refusal p) [
  | some e ↦ err e
  | none ↦ ok (add_checked (with_bin p) ps (find (named p.name) ps))
]

-- The list without the first peer of that name.
unfoldable pub without : Bytes → List Peer → List Peer
without name [] = []
without name (p ∷ ps) = if same p.name name then ps else p ∷ without name ps

abbrev pub default_first : List Peer → List Peer
default_first [] = []
default_first (p ∷ ps) = record p { default = true } ∷ ps

unfoldable pub remove_found : Bytes → List Peer → Option Peer → Answer (List Peer)
unfolding without
remove_found name ps none = err not_found
remove_found name ps (some p) =
    ok (if p.default then default_first (without name ps) else without name ps)

unfoldable pub remove : Bytes → List Peer → Answer (List Peer)
unfolding remove_found
remove name ps = remove_found name ps (find (named name) ps)

abbrev pub is_default : Peer → Bool
is_default p = p.default

abbrev pub default_or : Peer → Option Peer → Peer
default_or first none = first
default_or first (some p) = p

unfoldable pub default_peer : List Peer → Answer Peer
default_peer [] = err no_peers
default_peer (p ∷ ps) = ok (default_or p (find is_default (p ∷ ps)))

abbrev pub found_or : Option Peer → Answer Peer
found_or none = err not_found
found_or (some p) = ok p

unfoldable pub get : Bytes → List Peer → Answer Peer
unfolding default_peer
get name ps = if empty name then default_peer ps else found_or (find (named name) ps)

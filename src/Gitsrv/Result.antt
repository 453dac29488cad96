-- ===== src/Gitsrv/Result.antt =====
-- The line that tells a push what its run did: internal/cli/githook.go prints it, ParseResult of
-- internal/gitsrv/options.go reads it, and internal/cli/push.go exits with it
-- (internal/exitcode/exitcode.go). `print` is fmt's %d.
pub mod Words
pub mod Laws
use kranq.Base.{
  ℕ, Bool, true, false, not, ◌&&◌, ◌||◌, List, [], ◌∷◌, ◌++◌, Option, none, some, if◌then◌else◌,
  any,
}
use kranq.Base.Int.{ℤ, pos, leb_ℤ}
use kranq.Base.Text.{Bytes, codes, empty, same, has_prefix}
use kranq.Base.Strings.{is_space, cut, split, join, cons_head, drop_bytes, atoi, has_text, to_lower}

abbrev pub result_marker : Bytes
result_marker = codes "KRANQ-RESULT"

abbrev pub status_refused : Bytes
status_refused = codes "refused"

abbrev pub starts_blank : Bytes → Bool
starts_blank [] = true
starts_blank (c ∷ s) = is_space c

-- strings.Fields
unfoldable pub words : Bytes → List Bytes
words [] = []
words (c ∷ s) =
    let rest = words s in
    if is_space c then rest else if starts_blank s then (c ∷ []) ∷ rest else cons_head c rest

-- s[strings.Index(s, p):], if p occurs
unfoldable pub from_text : Bytes → Bytes → Option Bytes
unfolding has_prefix
from_text p [] = if empty p then some [] else none
from_text p (c ∷ s) = if has_prefix (c ∷ s) p then some (c ∷ s) else from_text p s

pub record Result : Type 0 where
  pub id : Bytes
  pub status : Bytes
  pub exit_code : ℤ
  pub result_ref : Bytes
  pub found : Bool

abbrev pub no_result : Result
no_result = record { id = []; status = []; exit_code = pos 0; result_ref = []; found = false }

abbrev pub empty_result : Result
empty_result = record no_result { found = true }

abbrev pub with_exit : Result → Option ℤ → Result
with_exit res none = res
with_exit res (some n) = record res { exit_code = n }

-- A field of the line.
unfoldable pub set_field : Result → Bytes × Bytes × Bool → Result
unfolding same atoi
set_field res (key, value, found) =
    if not found
    then res
    else if same key (codes "id")
    then record res { id = value }
    else if same key (codes "status")
    then record res { status = value }
    else if same key (codes "result")
    then record res { result_ref = value }
    else if same key (codes "exit")
    then with_exit res (atoi value)
    else res

unfoldable pub set_fields : Result → List Bytes → Result
unfolding set_field cut
set_fields res [] = res
set_fields res (f ∷ fs) = set_fields (set_field res (cut b'=' f)) fs

abbrev pub read_fields : Result → Option Bytes → Result
read_fields res none = res
read_fields res (some s) = set_fields empty_result (words (drop_bytes s result_marker))

abbrev pub parse_line : Result → Bytes → Result
parse_line res line = read_fields res (from_text (result_marker ++ codes " ") line)

unfoldable pub parse_lines : Result → List Bytes → Result
unfolding from_text set_fields words
parse_lines res [] = res
parse_lines res (l ∷ ls) = parse_lines (parse_line res l) ls

unfoldable pub parse_result : Bytes → Result
unfolding parse_lines split
parse_result output = parse_lines no_result (split b'\n' output)

abbrev pub result_field : Bytes → Bytes
result_field ref = if empty ref then [] else codes " result=" ++ ref

-- The last line of `hookRun`, without its line break.
unfoldable pub result_line : (ℤ → Bytes) → Bytes → Bytes → ℤ → Bytes → Bytes
result_line print id status code ref =
    result_marker
    ++ (codes " id="
        ++ (id
            ++ (codes " status="
                ++ (status ++ (codes " exit=" ++ (print code ++ result_field ref))))))

abbrev pub invalid_spec : ℤ
invalid_spec = pos 65

-- `refused` of the hook, whose reason is made one line.
unfoldable pub refused_line : (ℤ → Bytes) → Bytes → Bytes
unfolding words join
refused_line print reason =
    result_marker
    ++ (codes " id= status="
        ++ (status_refused
            ++ (codes " exit="
                ++ (print invalid_spec ++ (codes " reason=" ++ join (codes " ") (words reason))))))

-- `FromTask`
unfoldable pub from_task : ℤ → ℤ
from_task code = if leb_ℤ (pos 64) code && leb_ℤ code (pos 127) then pos 1 else code

unfoldable pub refusal_code : Bytes → ℤ
unfolding has_text
refusal_code output =
    if any (has_text (to_lower output)) (
      codes "authentication failed"
      ∷ codes "a kranq token is required"
      ∷ codes "401"
      ∷ codes "permission denied (publickey)"
      ∷ codes "could not read from remote repository"
      ∷ codes "this key may only push and fetch"
      ∷ codes "it has no shell"
      ∷ [])
    then pos 77
    else if has_text (to_lower output) (codes "could not resolve host")
        || has_text (to_lower output) (codes "failed to connect")
    then pos 69
    else pos 65

-- What `runPush` exits with after git: `failed` says that git failed.
abbrev pub exit_with : Result → Bytes → Bool → Bool → ℤ
exit_with result output failed detach =
    if result.found && same result.status status_refused
    then result.exit_code
    else if result.found
    then from_task result.exit_code
    else if failed
    then refusal_code output
    else if detach
    then pos 0
    else pos 69

unfoldable pub push_exit : Bytes → Bool → Bool → ℤ
unfolding parse_result from_task refusal_code same
push_exit output failed detach = exit_with (parse_result output) output failed detach

-- ===== src/Task/Spec.antt =====
-- internal/task/spec.go: what a task asks for, and what is refused of it. `decode` is base64, and
-- `parse_float` and `scale` are strconv.ParseFloat and the product with a number of bytes. A Go map
-- is a list of its entries, and a map of what is allowed the list of its keys.
pub mod Laws
pub mod Accepts
use kranq.Base.{
  ℕ, ◌+◌, ◌-◌, ◌*◌, Bool, true, false, not, ◌&&◌, ◌||◌, List, [], ◌∷◌, ◌++◌, Option, none, some,
  if◌then◌else◌, any, all, ltb, length, ◌==◌, find,
}
use kranq.Base.Int.{ℤ}
use kranq.Base.Text.{Bytes, codes, empty, same}
use kranq.Base.Strings.{is_digit, is_space, trim_space, trim_left, has_text, to_lower}

pub record Server : Type 0 where
  pub name : Bytes
  pub command : Bytes

pub record Step : Type 0 where
  pub name : Bytes
  pub run : Bytes
  pub claude : Bytes
  pub permission_mode : Bytes
  pub servers : List Server

pub record TaskFile : Type 0 where
  pub path : Bytes
  pub content : Bytes
  pub mode : Bytes

pub record Effects : Type 0 where
  pub push : Bool
  pub key : Bytes
  pub scope : Bytes

pub record Spec : Type 0 where
  pub name : Bytes
  pub label : Bytes
  pub artifacts : Bytes
  pub memory : Bytes
  pub files : List TaskFile
  pub effects : Effects
  pub steps : List Step

pub data SpecError : Type 0 where
  no_name no_steps neither both bad_mode no_command not_claude bad_memory : SpecError
  no_path dotted_path bad_file_mode not_base64 too_large bad_scope no_push : SpecError

-- A check: none is accepted.
abbrev pub Check : Type 0
Check = Option SpecError

abbrev pub refuse : Bool → SpecError → Check
refuse true e = some e
refuse false e = none

-- Go's `if err != nil { return err }` between two checks.
abbrev pub and_then : Check → Check → Check
and_then none next = next
and_then (some e) next = some e

unfoldable pub each {ℓ} : {A : Type ℓ} → (A → Check) → List A → Check
each f [] = none
each f (x ∷ xs) = and_then (f x) (each f xs)

abbrev pub permission_modes : List Bytes
permission_modes =
    codes "acceptEdits"
    ∷ codes "auto"
    ∷ codes "bypassPermissions"
    ∷ codes "manual"
    ∷ codes "dontAsk"
    ∷ codes "plan"
    ∷ []

abbrev pub check_work : Step → Check
check_work st =
    and_then (refuse (empty st.run && empty st.claude) neither)
      (refuse (not (empty st.run) && not (empty st.claude)) both)

abbrev pub check_server : Step → Server → Check
check_server st server =
    and_then (refuse (empty server.command) no_command) (refuse (empty st.claude) not_claude)

abbrev pub check_options : Step → Check
check_options st =
    and_then
      (refuse
        (not (empty st.permission_mode) && not (any (same st.permission_mode) permission_modes))
        bad_mode)
      (each (check_server st) st.servers)

abbrev pub check_effects : Effects → Check
check_effects e =
    and_then (refuse (not (any (same e.scope) ([] ∷ codes "branch" ∷ codes "repo" ∷ []))) bad_scope)
      (refuse (not e.push && (not (empty e.key) || not (empty e.scope))) no_push)

-- strconv.ParseUint in base 8 and with 32 bits
unfoldable pub octal_onto : ℕ → Bytes → Option ℕ
octal_onto n [] = some n
octal_onto n (c ∷ s) =
    let rest = octal_onto (n * 8 + (c - b'0')) s in if is_digit c && ltb c b'8' then rest else none

abbrev pub fits_32 : Option ℕ → Bool
fits_32 none = false
fits_32 (some n) = ltb n 4294967296

unfoldable pub is_octal : Bytes → Bool
unfolding octal_onto
is_octal s = not (empty s) && fits_32 (octal_onto 0 s)

-- The pattern of a memory value: a number and what follows it.
unfoldable pub span_digits : Bytes → Bytes × Bytes
span_digits [] = ([], [])
span_digits (c ∷ s) = let (a, b) = span_digits s in if is_digit c then (c ∷ a, b) else ([], c ∷ s)

abbrev pub with_fraction : Bytes → Bytes → Bytes × Bytes → Bytes × Bytes
with_fraction digits rest (fraction, after) =
    if empty fraction then (digits, rest) else (digits ++ b'.' ∷ fraction, after)

unfoldable pub number_of : Bytes × Bytes → Bytes × Bytes
unfolding span_digits
number_of (digits, []) = (digits, [])
number_of (digits, c ∷ rest) =
    if c == b'.' then with_fraction digits (c ∷ rest) (span_digits rest) else (digits, c ∷ rest)

abbrev pub units : List Bytes
units = [] ∷ codes "GiB" ∷ codes "GB" ∷ codes "G" ∷ codes "MiB" ∷ codes "MB" ∷ codes "M" ∷ []

-- What `\s` of a regular expression stands for: not the vertical tab.
abbrev pub is_blank : ℕ → Bool
is_blank c = is_space c && not (c == 11)

abbrev pub with_unit : Bytes × Bytes → Option (Bytes × Bytes)
with_unit (number, rest) =
    let unit = trim_left is_blank rest in
    if not (empty number) && any (same unit) units then some (number, unit) else none

abbrev pub is_none {ℓ} : {A : Type ℓ} → Option A → Bool
is_none none = true
is_none (some a) = false

abbrev pub no_steps_in : List Step → Bool
no_steps_in [] = true
no_steps_in (st ∷ sts) = false

abbrev pub max_file_size : ℕ
max_file_size = 1048576

abbrev pub check_content : Option Bytes → Check
check_content none = some not_base64
check_content (some body) = refuse (ltb max_file_size (length body)) too_large

module _ (decode : Bytes → Option Bytes) {F : Type 0} (parse_float : Bytes → Option F)
    (scale : F → ℕ → ℤ) where
  abbrev pub scaled : Bytes → Option F → Option ℤ
  scaled unit none = none
  scaled unit (some n) = some (
      scale n (
        if any (same (to_lower unit)) (codes "mib" ∷ codes "mb" ∷ codes "m" ∷ [])
        then 1048576
        else 1073741824))

  abbrev pub value_of : Option (Bytes × Bytes) → Option ℤ
  value_of none = none
  value_of (some (number, unit)) = scaled unit (parse_float number)

  unfoldable pub parse_memory : Bytes → Option ℤ
  unfolding number_of span_digits trim_space trim_left same
  parse_memory v = value_of (with_unit (number_of (span_digits (trim_space v))))

  abbrev pub check_file : TaskFile → Check
  check_file f = and_then (refuse (empty f.path) no_path) (
      and_then (refuse (has_text f.path (codes "..")) dotted_path) (
        and_then (refuse (not (empty f.mode) && not (is_octal f.mode)) bad_file_mode)
          (check_content (decode f.content))))

  unfoldable pub validate : Spec → Check
  unfolding each is_octal parse_memory has_text same
  validate s = and_then (refuse (empty s.name) no_name) (
      and_then (refuse (no_steps_in s.steps) no_steps) (
        and_then (each check_work s.steps) (
          and_then (each check_options s.steps) (
            and_then (refuse (not (empty s.memory) && is_none (parse_memory s.memory)) bad_memory)
              (and_then (each check_file s.files) (check_effects s.effects))))))

  -- `Parse` behind the decoding of yaml.
  abbrev pub with_defaults : Spec → Spec
  with_defaults s = record s {
    label = if empty s.label then s.name else s.label;
    artifacts = if empty s.artifacts then codes "ci-artifacts" else s.artifacts;
  }

  abbrev pub accepted : Spec → Check → Option Spec
  accepted s none = some (with_defaults s)
  accepted s (some e) = none

  unfoldable pub parse_spec : Spec → Option Spec
  unfolding validate
  parse_spec s = accepted s (validate s)

unfoldable pub fence_kind : Spec → Bytes
fence_kind s = if not (empty s.effects.key) then s.effects.key else s.name

unfoldable pub fence_branch : Spec → Bytes → Bytes
unfolding same
fence_branch s branch = if same s.effects.scope (codes "repo") then [] else branch

unfoldable pub needs_claude : Spec → Bool
needs_claude s = any (λ st. not (empty st.claude)) s.steps

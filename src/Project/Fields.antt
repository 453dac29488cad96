-- ===== src/Project/Fields.antt =====
-- internal/project/lex.go: the words of an instruction, and what COPY, ENV, ARG and SECRET read
-- from them.
pub mod Quoting
use kranq.Base.{
  ℕ, Bool, true, false, not, ◌&&◌, ◌||◌, List, [], ◌∷◌, ◌++◌, Option, none, some, if◌then◌else◌,
  ◌==◌, length, ltb, all,
}
use kranq.Base.Text.{Bytes, codes, empty}
use kranq.Base.Utf8.{rewritten}
use kranq.Base.Strings.{cut, trim_space, has_byte, is_digit, is_lower, is_upper}

-- The variables of the loop in `fields`; a quote of 0 is none.
pub record Splitter : Type 0 where
  pub out : List Bytes
  pub cur : Bytes
  pub quote : ℕ
  pub held : Bool

abbrev pub flush : Splitter → Splitter
flush p =
    if not (empty p.cur) || p.held
    then record p { out = p.out ++ p.cur ∷ []; cur = []; held = false }
    else p

unfoldable pub fields_step : Splitter → ℕ → Splitter
fields_step p r =
    if not (p.quote == 0) && r == p.quote
    then record p { quote = 0 }
    else if p.quote == 0 && (r == b'\'' || r == b'"')
    then record p { quote = r; held = true }
    else if p.quote == 0 && (r == b' ' || r == b'\t')
    then flush p
    else record p { cur = p.cur ++ r ∷ [] }

unfoldable pub fields_loop : Splitter → Bytes → List Bytes
unfolding fields_step
fields_loop p [] = (flush p).out
fields_loop p (r ∷ s) = fields_loop (fields_step p r) s

abbrev pub splitter : Splitter
splitter = record { out = []; cur = []; quote = 0; held = false }

-- The loop ranges over runes. Quotes and blanks are single bytes and part of no other rune, so it goes
-- over the bytes of the runes written again.
unfoldable pub fields : Bytes → List Bytes
unfolding fields_loop rewritten
fields s = fields_loop splitter (rewritten 0 s)

pub record EnvVar : Type 0 where
  pub name : Bytes
  pub value : Bytes

pub record Arg : Type 0 where
  pub name : Bytes
  pub default : Bytes

pub record Copy : Type 0 where
  pub sources : List Bytes
  pub dest : Bytes
  pub workdir : Bytes

pub data FieldError : Type 0 where
  copy_needs_two env_needs_name env_no_value env_not_pair arg_needs_name arg_many arg_bad_name :
      FieldError

pub data Read {ℓ} (A : Type ℓ) : Type ℓ where
  ok : A → Read A
  err : FieldError → Read A

-- parts[:len(parts)-1] and parts[len(parts)-1], from the first part on.
unfoldable pub split_last : Bytes → List Bytes → List Bytes × Bytes
split_last w [] = ([], w)
split_last w (v ∷ ws) = let (init, last) = split_last v ws in (w ∷ init, last)

abbrev pub copy_of : List Bytes × Bytes → Copy
copy_of (sources, dest) = record { sources = sources; dest = dest; workdir = [] }

unfoldable pub parse_copy_parts : List Bytes → Read Copy
unfolding split_last
parse_copy_parts [] = err copy_needs_two
parse_copy_parts (w ∷ []) = err copy_needs_two
parse_copy_parts (w ∷ v ∷ ws) = ok (copy_of (split_last w (v ∷ ws)))

unfoldable pub parse_copy : Bytes → Read Copy
unfolding parse_copy_parts fields
parse_copy args = parse_copy_parts (fields args)

abbrev pub one_var : Bytes × Bytes × Bool → Read EnvVar
one_var (name, value, found) =
    if not found || empty name then err env_not_pair else ok (record { name = name; value = value })

abbrev pub cons_var : Read EnvVar → Read (List EnvVar) → Read (List EnvVar)
cons_var (err e) vs = err e
cons_var (ok v) (err e) = err e
cons_var (ok v) (ok vs) = ok (v ∷ vs)

unfoldable pub parse_pairs : List Bytes → Read (List EnvVar)
unfolding cut
parse_pairs [] = ok []
parse_pairs (part ∷ parts) = cons_var (one_var (cut b'=' part)) (parse_pairs parts)

-- `ENV K the rest of the line`
abbrev pub old_form : Bytes × Bytes × Bool → List EnvVar
old_form (name, value, found) = record { name = name; value = trim_space value } ∷ []

unfoldable pub parse_env_parts : Bytes → List Bytes → Read (List EnvVar)
unfolding parse_pairs cut trim_space has_byte
parse_env_parts args [] = err env_needs_name
parse_env_parts args (part ∷ parts) =
    if not (has_byte b'=' part)
    then (if ltb (length (part ∷ parts)) 2
        then err env_no_value
        else ok (old_form (cut b' ' (trim_space args))))
    else parse_pairs (part ∷ parts)

unfoldable pub parse_env : Bytes → Read (List EnvVar)
unfolding parse_env_parts fields
parse_env args = parse_env_parts args (fields args)

-- The pattern ^[A-Za-z_][A-Za-z0-9_]*$
abbrev pub is_name_start : ℕ → Bool
is_name_start c = is_upper c || is_lower c || c == b'_'

abbrev pub is_name_byte : ℕ → Bool
is_name_byte c = is_name_start c || is_digit c

abbrev pub is_arg_name : Bytes → Bool
is_arg_name [] = false
is_arg_name (c ∷ s) = is_name_start c && all is_name_byte s

abbrev pub named_arg : Bytes × Bytes × Bool → Read Arg
named_arg (name, value, found) =
    if not (is_arg_name name)
    then err arg_bad_name
    else ok (record { name = name; default = value })

unfoldable pub parse_arg_parts : List Bytes → Read Arg
unfolding cut
parse_arg_parts [] = err arg_needs_name
parse_arg_parts (part ∷ []) = named_arg (cut b'=' part)
parse_arg_parts (part ∷ other ∷ parts) = err arg_many

unfoldable pub parse_arg : Bytes → Read Arg
unfolding parse_arg_parts fields
parse_arg args = parse_arg_parts (fields args)

-- ===== src/Base/Strings.antt =====
-- More of package strings and strconv over bytes. White space and letter case are those of ASCII.
use kranq.Base.Tests.{ltb, leb, ◌==◌, if◌then◌else◌, ==_refl}
use kranq.Base.Text.{Bytes, same, empty, has_prefix}
use kranq.Base.Int.{ℤ, pos, negsuc}
use Prim.Native.Nat.{ℕ, ◌+◌, ◌-◌, ◌*◌, ◌≤◌}
use mathlib.Core.Path.{◌≡◌, refl}
use mathlib.Core.Bool.{Bool, true, false, ◌&&◌, ◌||◌}
use kranq.Base.Lists.{length, all}
use mathlib.Core.List.{List, [], ◌∷◌, ◌++◌, map}
use mathlib.Core.Option.{Option, none, some}
use native.Mathlib.Omega.{arith}

-- unicode.IsSpace on ASCII.
abbrev pub is_space : ℕ → Bool
is_space c = c == b' ' || (leb 9 c && leb c 13)

abbrev pub is_digit : ℕ → Bool
is_digit c = leb b'0' c && leb c b'9'

abbrev pub is_lower : ℕ → Bool
is_lower c = leb b'a' c && leb c b'z'

abbrev pub is_upper : ℕ → Bool
is_upper c = leb b'A' c && leb c b'Z'

abbrev pub is_label_byte : ℕ → Bool
is_label_byte c = is_lower c || is_digit c

-- The pattern ^[a-z0-9][a-z0-9-]{0,31}$ of the names that people give.
unfoldable pub is_label : Bytes → Bool
is_label [] = false
is_label (c ∷ s) =
    is_label_byte c && (leb (length s) 31 && all (λ d. is_label_byte d || d == b'-') s)

-- strings.TrimLeftFunc, TrimRightFunc and TrimFunc
unfoldable pub trim_left : (ℕ → Bool) → Bytes → Bytes
trim_left p [] = []
trim_left p (c ∷ s) = if p c then trim_left p s else c ∷ s

unfoldable pub trim_right : (ℕ → Bool) → Bytes → Bytes
trim_right p [] = []
trim_right p (c ∷ s) = let r = trim_right p s in if empty r && p c then [] else c ∷ r

unfoldable pub trim : (ℕ → Bool) → Bytes → Bytes
unfolding trim_left trim_right
trim p s = trim_right p (trim_left p s)

unfoldable pub trim_space : Bytes → Bytes
unfolding trim
trim_space = trim is_space

-- strings.Cut at a single byte: what stands before it, what stands after it, and whether it occurs.
unfoldable pub cut : ℕ → Bytes → Bytes × Bytes × Bool
cut sep [] = ([], [], false)
cut sep (c ∷ s) =
    let (before, after, found) = cut sep s in
    if c == sep then ([], s, true) else (c ∷ before, after, found)

abbrev pub lower : ℕ → ℕ
lower c = if is_upper c then c + 32 else c

abbrev pub upper : ℕ → ℕ
upper c = if is_lower c then c - 32 else c

abbrev pub to_lower : Bytes → Bytes
to_lower = map lower

abbrev pub to_upper : Bytes → Bytes
to_upper = map upper

-- strings.HasSuffix and strings.TrimSuffix
unfoldable pub has_suffix : Bytes → Bytes → Bool
has_suffix [] p = empty p
has_suffix (c ∷ s) p = same (c ∷ s) p || has_suffix s p

unfoldable pub trim_suffix : Bytes → Bytes → Bytes
trim_suffix [] p = []
trim_suffix (c ∷ s) p = if same (c ∷ s) p then [] else c ∷ trim_suffix s p

-- s[n:], and strings.TrimPrefix
abbrev pub drop_bytes : Bytes → Bytes → Bytes
drop_bytes s [] = s
drop_bytes [] (y ∷ p) = []
drop_bytes (x ∷ s) (y ∷ p) = drop_bytes s p

unfoldable pub trim_prefix : Bytes → Bytes → Bytes
unfolding has_prefix
trim_prefix s p = if has_prefix s p then drop_bytes s p else s

-- strings.Contains for a text, and strings.ContainsRune for a byte.
unfoldable pub has_text : Bytes → Bytes → Bool
unfolding has_prefix
has_text [] p = empty p
has_text (c ∷ s) p = has_prefix (c ∷ s) p || has_text s p

unfoldable pub has_byte : ℕ → Bytes → Bool
has_byte b [] = false
has_byte b (c ∷ s) = c == b || has_byte b s

-- strings.Split at a single byte.
abbrev pub cons_head : ℕ → List Bytes → List Bytes
cons_head c [] = (c ∷ []) ∷ []
cons_head c (w ∷ ws) = (c ∷ w) ∷ ws

unfoldable pub split : ℕ → Bytes → List Bytes
split sep [] = [] ∷ []
split sep (c ∷ s) = let rest = split sep s in if c == sep then [] ∷ rest else cons_head c rest

-- strings.Join
unfoldable pub join : Bytes → List Bytes → Bytes
join sep [] = []
join sep (w ∷ []) = w
join sep (w ∷ v ∷ ws) = w ++ (sep ++ join sep (v ∷ ws))

-- `a < b` on strings
abbrev pub before : Bytes → Bytes → Bool
before a [] = false
before [] (y ∷ b) = true
before (x ∷ a) (y ∷ b) = ltb x y || (x == y && before a b)

-- strconv.Atoi: an optional sign and decimal digits, within 64 bits.
unfoldable pub digits_onto : ℕ → Bytes → Option ℕ
digits_onto n [] = some n
digits_onto n (c ∷ s) =
    let rest = digits_onto (n * 10 + (c - b'0')) s in if is_digit c then rest else none

abbrev pub max_int64 : ℕ
max_int64 = 9_223_372_036_854_775_807

abbrev natural : Bytes → Option ℕ
natural [] = none
natural (c ∷ s) = digits_onto 0 (c ∷ s)

abbrev positive : Option ℕ → Option ℤ
positive none = none
positive (some n) = if leb n max_int64 then some (pos n) else none

abbrev negative : Option ℕ → Option ℤ
negative none = none
negative (some n) =
    if n == 0 then some (pos 0) else if leb n (max_int64 + 1) then some (negsuc (n - 1)) else none

unfoldable pub atoi : Bytes → Option ℤ
unfolding digits_onto
atoi [] = none
atoi (c ∷ s) =
    if c == b'-'
    then negative (natural s)
    else if c == b'+'
    then positive (natural s)
    else positive (natural (c ∷ s))

-- A byte at which `cut` stops splits the text there, and it is the first one.
pub cut-append :
    (sep : ℕ) (s rest : Bytes)
    → has_byte sep s ≡ false
    → cut sep (s ++ sep ∷ rest) ≡ (s, rest, true)
unfolding cut has_byte
cut-append sep [] rest h = ground (arith, ==_refl sep)
cut-append sep (c ∷ s) rest h = ground (arith, cut-append sep s rest)

pub cut-none : (sep : ℕ) (s : Bytes) → has_byte sep s ≡ false → cut sep s ≡ (s, [], false)
unfolding cut has_byte
cut-none sep [] h = refl
cut-none sep (c ∷ s) h = ground (arith, cut-none sep s)

pub trim_left-le : (p : ℕ → Bool) (s : Bytes) → length (trim_left p s) ≤ length s
unfolding trim_left
trim_left-le p [] = omega arith
trim_left-le p (c ∷ s) = ground (arith, trim_left-le p s)

pub trim_right-le : (p : ℕ → Bool) (s : Bytes) → length (trim_right p s) ≤ length s
unfolding trim_right
trim_right-le p [] = omega arith
trim_right-le p (c ∷ s) = ground (arith, trim_right-le p s)

pub trim-le : (p : ℕ → Bool) (s : Bytes) → length (trim p s) ≤ length s
unfolding trim
trim-le p s = omega (arith, trim_right-le p (trim_left p s), trim_left-le p s)

pub trim_space-le : (s : Bytes) → length (trim_space s) ≤ length s
unfolding trim_space
trim_space-le s = trim-le is_space s

-- ===== src/Base/Utf8.antt =====
-- What `range` over a Go string does to it: the text is taken apart into runes, and a byte that begins
-- no rune becomes U+FFFD when it is written again.
use kranq.Base.{
  ℕ, zero, suc, Bool, true, false, ◌&&◌, List, [], ◌∷◌, ◌++◌, if◌then◌else◌, ◌==◌, ltb, leb, length,
  Option, none, some, ◌≡◌, refl, arith, ap, Bool-cases, inl, inr,
}
use kranq.Base.Text.{Bytes}

abbrev within : ℕ → ℕ → ℕ → Bool
within lo hi c = leb lo c && leb c hi

-- The bytes from a first one on, tested for the second, third and fourth byte of a rune.
abbrev starts_with : List (ℕ → Bool) → Bytes → Bool
starts_with [] s = true
starts_with (p ∷ ps) [] = false
starts_with (p ∷ ps) (c ∷ s) = p c && starts_with ps s

abbrev follows : ℕ → Bool
follows = within 128 191

-- The tests of the bytes that follow the first byte of a rune, as utf8.DecodeRune reads it; no rune
-- begins with any other byte.
unfoldable pub tests_after : ℕ → Option (List (ℕ → Bool))
tests_after c =
    if ltb c 128
    then some []
    else if within 194 223 c
    then some (follows ∷ [])
    else if within 224 239 c
    then some
        (within (if c == 224 then 160 else 128) (if c == 237 then 159 else 191) ∷ follows ∷ [])
    else if within 240 244 c
    then some (
        within (if c == 240 then 144 else 128) (if c == 244 then 143 else 191)
        ∷ follows
        ∷ follows
        ∷ [])
    else none

abbrev tested : Option (List (ℕ → Bool)) → Bytes → ℕ × Bool
tested none s = (0, false)
tested (some ps) s = (length ps, starts_with ps s)

-- How many bytes follow the first byte of a rune, and whether they are there.
unfoldable pub rest_of_rune : ℕ → Bytes → ℕ × Bool
unfolding tests_after
rest_of_rune c s = tested (tests_after c) s

abbrev replacement : Bytes
replacement = 239 ∷ 191 ∷ 189 ∷ []

-- The runes of a text, written again. The number is how many bytes of a rune are still to come.
unfoldable pub rewritten : ℕ → Bytes → Bytes
unfolding rest_of_rune
rewritten k [] = []
rewritten (suc k) (c ∷ s) = c ∷ rewritten k s
rewritten zero (c ∷ s) =
    let after = rewritten (rest_of_rune c s).0 s in
    let skipped = rewritten 0 s in
    if (rest_of_rune c s).1 then c ∷ after else replacement ++ skipped

-- A text that is a sequence of whole runes.
unfoldable pub is_runes : ℕ → Bytes → Bool
unfolding rest_of_rune
is_runes zero [] = true
is_runes (suc k) [] = false
is_runes (suc k) (c ∷ s) = is_runes k s
is_runes zero (c ∷ s) = let after = is_runes (rest_of_rune c s).0 s in (rest_of_rune c s).1 && after

starts_with-append :
    (ps : List (ℕ → Bool)) (s t : Bytes) → starts_with ps s ≡ true → starts_with ps (s ++ t) ≡ true
starts_with-append [] s t h = refl
starts_with-append (p ∷ ps) [] t h = absurd (ground arith)
starts_with-append (p ∷ ps) (c ∷ s) t h = ground (arith, starts_with-append ps s t)

tested-append :
    (o : Option (List (ℕ → Bool))) (s t : Bytes)
    → (tested o s).1 ≡ true
    → tested o (s ++ t) ≡ ((tested o s).0, true)
tested-append none s t h = absurd (ground arith)
tested-append (some ps) s t h = ap (λ b. (length ps, b)) (starts_with-append ps s t h)

rest_of_rune-append :
    (c : ℕ) (s t : Bytes)
    → (rest_of_rune c s).1 ≡ true
    → rest_of_rune c (s ++ t) ≡ ((rest_of_rune c s).0, true)
unfolding rest_of_rune
rest_of_rune-append c s t h = tested-append (tests_after c) s t h

-- Whole runes are written again as they are, whatever comes after them.
pub rewritten-append :
    (k : ℕ) (s t : Bytes) → is_runes k s ≡ true → rewritten k (s ++ t) ≡ s ++ rewritten 0 t
unfolding rewritten is_runes
rewritten-append zero [] t h = refl
rewritten-append (suc k) [] t h = absurd (ground arith)
rewritten-append (suc k) (c ∷ s) t h = ap (λ u. c ∷ u) (rewritten-append k s t h)
rewritten-append zero (c ∷ s) t h = elim (Bool-cases (rest_of_rune c s).1) [
  | inr n ↦ absurd (ground arith)
  | inl y ↦
      rw (rest_of_rune-append c s t y)
        (ap (λ u. c ∷ u) (rewritten-append (rest_of_rune c s).0 s t (ground arith)))
]

-- ===== src/Gitsrv/Result/Words.antt =====
-- The words of a text, and the lines of one.
use kranq.Base.{ℕ, Bool, true, false, not, ◌&&◌, [], ◌∷◌, ◌++◌, ◌≡◌, refl, arith, all}
use kranq.Base.Text.{Bytes, empty}
use kranq.Base.Strings.{is_space}
use kranq.Gitsrv.Result.{words}

-- Not empty, and no blank in it.
abbrev pub is_word : Bytes → Bool
is_word w = not (empty w) && all (λ c. not (is_space c)) w

words-tail :
    (c d : ℕ) (w : Bytes)
    → is_word (c ∷ d ∷ w) ≡ true
    → (is_space c ≡ false) × (is_space d ≡ false) × (is_word (d ∷ w) ≡ true)
words-tail c d w h = (ground arith, ground arith, ground arith)

pub words-append : (w s : Bytes) → is_word w ≡ true → words (w ++ b' ' ∷ s) ≡ w ∷ words s
unfolding words
words-append [] s h = absurd (ground arith)
words-append (c ∷ []) s h = ground arith
words-append (c ∷ d ∷ w) s h =
    rw (words-append (d ∷ w) s (words-tail c d w h).2)
      (rw ((words-tail c d w h).0, (words-tail c d w h).1) refl)

pub words_one : (w : Bytes) → is_word w ≡ true → words w ≡ w ∷ []
unfolding words
words_one [] h = absurd (ground arith)
words_one (c ∷ []) h = ground arith
words_one (c ∷ d ∷ w) h =
    rw (words_one (d ∷ w) (words-tail c d w h).2)
      (rw ((words-tail c d w h).0, (words-tail c d w h).1) refl)

-- ===== src/Tests/Result.antt =====
-- What a push exits with, at concrete lines.
use kranq.Base.{false, [], ◌≡◌, refl}
use kranq.Base.Int.{ℤ, pos}
use kranq.Base.Text.{Bytes, codes, same}
use kranq.Base.Strings.{split, has_text, atoi}
use kranq.Gitsrv.Result.{push_exit, refused_line}
use kranq.Gitsrv.Result.Laws.{printed, push_exit-printed}

abbrev print_seven : ℤ → Bytes
print_seven n = codes "7"

abbrev print_65 : ℤ → Bytes
print_65 n = codes "65"

abbrev before : Bytes
before = codes "remote: KRANQ-RESULT id=x status=failed exit=0"

push_exit-printed_example :
    push_exit
      (printed print_seven (codes "t1") (codes "failed") (codes "refs/r") (pos 7) before [])
      false
      false
    ≡ pos 7
unfolding same atoi split has_text
push_exit-printed_example =
    push_exit-printed print_seven (codes "t1") (codes "failed") (codes "refs/r") (pos 7) before []
      false false refl refl refl refl refl refl refl

-- A refusal whose reason quotes a word with an "=" changes the code.
push_refused : push_exit (refused_line print_65 (codes "no such task")) false false ≡ pos 65
unfolding push_exit refused_line
push_refused = refl

push_refused_with_exit :
    push_exit (refused_line print_65 (codes "bad line: exit=0")) false false ≡ pos 0
unfolding push_exit refused_line
push_refused_with_exit = refl

-- ===== src/Image/Name/RunName.antt =====
-- internal/image/name.go: the length of the name of a run's machine.
use kranq.Base.{ℕ, ◌-◌, ◌≤◌, [], ◌∷◌, length, take, ◌≡◌, arith, length-append, length-take-le}
use kranq.Base.Text.{Bytes, codes}
use kranq.Base.Strings.{trim-le, join}
use kranq.Image.Name.{run_name, shorten, slugify, is_dash, run_prefix, keep_nonempty, max_run_name}

shorten_le : (room : ℕ) (s : Bytes) → length (shorten room s) ≤ room
unfolding shorten
shorten_le room s = ground (arith, trim-le is_dash (take room s), length-take-le room s)

-- If the four bytes of the hash are printed with eight digits, the name of a run's machine has at
-- most 40 bytes, however long the names of the repository and the task are.
pub run_name_le :
    (hex : ℕ → Bytes → Bytes) (repo label task_id : Bytes)
    → length (hex 4 task_id) ≡ 8
    → length (run_name hex repo label task_id) ≤ max_run_name
unfolding run_name
run_name_le hex repo label task_id h = omega (
  arith,
  h,
  length-append
      (shorten (max_run_name - length (b'-' ∷ hex 4 task_id))
        (join (codes "-") (run_prefix ∷ keep_nonempty (slugify repo ∷ slugify label ∷ []))))
      (b'-' ∷ hex 4 task_id),
  shorten_le (max_run_name - length (b'-' ∷ hex 4 task_id))
      (join (codes "-") (run_prefix ∷ keep_nonempty (slugify repo ∷ slugify label ∷ []))),
)

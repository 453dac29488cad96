-- ===== src/Hostres.antt =====
-- internal/hostres/hostres.go: what fits on the machine. The probe itself runs sysctl and vm_stat
-- and is a parameter of the scheduler: a Snapshot.
use kranq.Base.{Bool, true, false, not, if◌then◌else◌, ◌≡◌, ◌⊎◌, arith}
use kranq.Base.Int.{ℤ, pos, add64, sub64, ◌≤ℤ◌, leb_ℤ}

pub record Snapshot : Type 0 where
  pub total_bytes : ℤ
  pub available_bytes : ℤ
  pub cpus : ℤ
  pub ok : Bool

unfoldable pub fits : Snapshot → ℤ → ℤ → Bool
unfolding sub64
fits s need headroom =
    if leb_ℤ need (pos 0)
    then true
    else if not s.ok
    then false
    else leb_ℤ headroom (sub64 s.available_bytes need)

unfoldable pub fits_cpu : Snapshot → ℤ → ℤ → Bool
unfolding add64
fits_cpu s need in_use =
    if leb_ℤ need (pos 0)
    then true
    else if not s.ok
    then false
    else leb_ℤ (add64 in_use need) s.cpus

-- What a yes means: nothing is asked for, or the probe worked and the rest keeps the headroom.
pub fits_sound :
    (s : Snapshot) (need headroom : ℤ)
    → fits s need headroom ≡ true
    → (need ≤ℤ pos 0) ⊎ ((s.ok ≡ true) × (headroom ≤ℤ sub64 s.available_bytes need))
unfolding fits
fits_sound s need headroom h = ground arith

pub fits_cpu_sound :
    (s : Snapshot) (need in_use : ℤ)
    → fits_cpu s need in_use ≡ true
    → (need ≤ℤ pos 0) ⊎ ((s.ok ≡ true) × (add64 in_use need ≤ℤ s.cpus))
unfolding fits_cpu
fits_cpu_sound s need in_use h = ground arith

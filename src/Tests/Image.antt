-- ===== src/Tests/Image.antt =====
-- Machines in a list, and images that a prune keeps and destroys.
use kranq.Base.{
  ℕ, Option, none, subst, Bool, true, false, not, ◌||◌, List, [], ◌∷◌, some, ◌≡◌, refl, arith,
  select, Bool-cases, inl, inr, ap,
}
use kranq.Base.Int.{pos}
use kranq.Base.Text.{same_refl, same_sym, Bytes, codes, same, same_iff, has_prefix}
use kranq.Image.Name.{managed, is_layer}
use kranq.Image.Machine.{Instance, Driver, IsLawful, Host}
use kranq.Project.Bind.{Resolved}
use kranq.Image.Build.{is_made, is_complete, ensure_layer, ensure}
use kranq.Image.Build.Fresh.{CanDestroy}
use kranq.Image.Build.Decides.{ensure_layer-decides}
use kranq.Image.Build.Others.{WaitKeeps}
use kranq.Image.Build.Chain.{ensure-AllComplete, AllComplete, IsDistinct}
use kranq.Image.Meta.{Meta}
use kranq.Image.Prune.{has, names, prune, kept, keep_limit}
use kranq.Image.Prune.Effects.{reports}
use kranq.Image.Prune.Collects.{prune-collects}

abbrev machine : Bytes → Bytes → Instance
machine name status = record { name = name; status = status }

abbrev without : Bytes → List Instance → List Instance
without name = select (λ i. not (same i.name name))

abbrev listing : Driver
listing = record {
  World = List Instance;
  list = λ w. some w;
  exists = λ w n. has n (names w);
  stop = λ w n f. (w, true);
  delete = λ w n. (without n w, true);
  create = λ w n. (machine n (codes "Running") ∷ w, true);
  clone = λ w p n. (machine n (codes "Stopped") ∷ w, true);
  start = λ w n. (w, true);
  copy_in = λ w n. (w, true);
  shell = λ w n script. (w, some (pos 0));
}

has-cons_other :
    (w : List Instance) (n m status : Bytes)
    → same m n ≡ false
    → has m (names (machine n status ∷ w)) ≡ has m (names w)
has-cons_other w n m status h = rw h refl

has-cons_self : (w : List Instance) (n status : Bytes) → has n (names (machine n status ∷ w)) ≡ true
has-cons_self w n status = rw (same_refl n) refl

has-without_other :
    (w : List Instance) (n m : Bytes)
    → same m n ≡ false
    → has m (names (without n w)) ≡ has m (names w)
has-without_other [] n m h = refl
has-without_other (i ∷ w) n m h = elim (Bool-cases (same i.name n)) [
  | inr e ↦ rw e (ap (λ b. same m i.name || b) (has-without_other w n m h))
  | inl e ↦ rw (e, (same_iff i.name n).0 e, h) (has-without_other w n m h)
]

has-without_self : (w : List Instance) (n : Bytes) → has n (names (without n w)) ≡ false
has-without_self [] n = refl
has-without_self (i ∷ w) n = elim (Bool-cases (same i.name n)) [
  | inl e ↦ rw e (has-without_self w n)
  | inr e ↦ rw (e, same_sym n i.name) (rw e (has-without_self w n))
]

has-without_gone :
    (w : List Instance) (n m : Bytes)
    → has m (names w) ≡ false
    → has m (names (without n w)) ≡ false
has-without_gone [] n m h = refl
has-without_gone (i ∷ w) n m h = ground (arith, has-without_gone w n m)

listing-IsLawful : IsLawful listing
listing-IsLawful = record {
  stop_exists = λ w n m f. refl;
  delete_other = has-without_other;
  delete_ok = λ w n h. has-without_self w n;
  delete_gone = has-without_gone;
  create_other = λ w n m h. has-cons_other w n m (codes "Running") h;
  create_ok = λ w n h. has-cons_self w n (codes "Running");
  clone_other = λ w p n m h. has-cons_other w n m (codes "Stopped") h;
  clone_ok = λ w p n h. has-cons_self w n (codes "Stopped");
  start_exists = λ w n m. refl;
  copy_in_exists = λ w n m. refl;
  shell_exists = λ w n script m. refl;
}

abbrev layer : Bytes → Bytes → ℕ → Meta
layer name parent used = record {
  name = name;
  parent = parent;
  depth = 1;
  step = [];
  copies = [];
  repos = [];
  created_at = 0;
  last_used_at = used;
}

abbrev low : Bytes
low = codes "kranq-layer-01-a"

abbrev mid : Bytes
mid = codes "kranq-layer-02-b"

abbrev top : Bytes
top = codes "kranq-layer-03-c"

abbrev other : Bytes
other = codes "kranq-layer-01-z"

abbrev metas : List Meta
metas = layer low [] 5 ∷ layer mid low 5 ∷ layer top mid 9 ∷ layer other [] 1 ∷ []

-- The middle layer stopped, and running.
abbrev machines : Bytes → List Instance
machines status =
    machine low (codes "Stopped")
    ∷ machine mid status
    ∷ machine top (codes "Stopped")
    ∷ machine other (codes "Stopped")
    ∷ []

abbrev unlinks : Bytes → Bool
unlinks n = true

abbrev host : Bytes → Host listing
host status = record { vm = machines status; metas = metas }

-- With room for one head, the chain of the newest head stays and the other layer goes.
prune_stopped : (prune listing unlinks (pos 1) [] (host (codes "Stopped"))).1 ≡ some (other ∷ [])
unfolding prune same
prune_stopped = refl

-- With the middle of the chain running, the layer below it goes too.
prune_running :
    (prune listing unlinks (pos 1) [] (host (codes "Running"))).1 ≡ some (low ∷ other ∷ [])
unfolding prune same
prune_running = refl

not_kept : has other (kept 1 [] metas (machines (codes "Stopped"))) ≡ false
unfolding kept same
not_kept = refl

prune-collects_example :
    (reports other (prune listing unlinks (pos 1) [] (host (codes "Stopped"))).1 ≡ true)
    × (has other (names (prune listing unlinks (pos 1) [] (host (codes "Stopped"))).0.vm) ≡ false)
unfolding same is_layer has_prefix keep_limit
prune-collects_example =
    prune-collects listing unlinks (pos 1) [] (host (codes "Stopped")) (machines (codes "Stopped"))
      other listing-IsLawful refl refl refl not_kept (λ w. refl)

-- One layer on a base, on a host with nothing, and a lock that is got at once.
abbrev one_layer : Resolved
one_layer = record {
  layer = record {
    copies = [];
    workdir = [];
    env = [];
    args = [];
    secrets = [];
    run = codes "make";
    line = 1;
  };
  files = [];
  roots = [];
  values = [];
  private = [];
}

abbrev base : Bytes
base = codes "kranq-base-x-1"

abbrev empty_host : Host listing
empty_host = record { vm = []; metas = [] }

abbrev wait : Bytes → Host listing → Option (Host listing)
wait n h = some h

abbrev always {ℓ} : {A : Type ℓ} → A → Bool
always a = true

low_destroyable : CanDestroy listing unlinks low
unfolding managed has_prefix
low_destroyable = record { is_managed = refl; unlinked = refl; deletes = λ w. refl }

base_destroyable : CanDestroy listing unlinks base
unfolding managed has_prefix
base_destroyable = record { is_managed = refl; unlinked = refl; deletes = λ w. refl }

abbrev host_of : Host listing → Option (Host listing) → Host listing
host_of h none = h
host_of h (some k) = k

wait-WaitKeeps : WaitKeeps listing wait
wait-WaitKeeps n m h k e c = subst (λ x. is_complete listing x m ≡ true) (ap (host_of h) e) c

ensure_layer-decides_example :
    is_complete listing
      (ensure_layer listing unlinks wait always always empty_host
        (codes "dx")
        base
        low
        1
        one_layer
        7).0
      low
    ≡ is_made
        (ensure_layer listing unlinks wait always always empty_host
          (codes "dx")
          base
          low
          1
          one_layer
          7).1
ensure_layer-decides_example =
    ensure_layer-decides listing unlinks wait always always listing-IsLawful empty_host (codes "dx")
      base low 1 one_layer 7 low_destroyable

ensured :
    (ensure listing unlinks wait always always true
      (codes "dx")
      7
      base
      (low ∷ [])
      (one_layer ∷ [])
      empty_host).1
    ≡ true
unfolding ensure same
ensured = refl

distinct : IsDistinct (base ∷ low ∷ [])
unfolding same
distinct = (refl, (refl, tt))

ensure-AllComplete_example :
    AllComplete listing
      (ensure listing unlinks wait always always true
        (codes "dx")
        7
        base
        (low ∷ [])
        (one_layer ∷ [])
        empty_host).0
      (base ∷ low ∷ [])
ensure-AllComplete_example =
    ensure-AllComplete listing unlinks listing-IsLawful wait always always true (codes "dx") 7 base
      (low ∷ []) (one_layer ∷ []) empty_host wait-WaitKeeps refl distinct
      (base_destroyable, (low_destroyable, tt)) ensured

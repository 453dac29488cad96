-- ===== src/Image/Machine.antt =====
-- internal/vm/vm.go: the machines; and of internal/image/manager.go Destroy.
pub mod Laws
use kranq.Base.{ℕ, Bool, true, false, not, List, [], ◌∷◌, Option, none, some, if◌then◌else◌, ◌≡◌}
use kranq.Base.Int.{ℤ}
use kranq.Base.Text.{Bytes, codes, same}
use kranq.Image.Name.{managed}
use kranq.Image.Meta.{Meta, remove}

pub record Instance : Type 0 where
  pub name : Bytes
  pub status : Bytes

abbrev pub running : Instance → Bool
running i = same i.status (codes "Running")

-- The part of vm.Driver that the manager calls, over an unknown world of machines. The template, the
-- size of a clone and the paths of a copy are left out.
pub record Driver : Type 1 where
  pub World : Type 0
  pub list : World → Option (List Instance)
  pub exists : World → Bytes → Bool
  pub stop : World → Bytes → Bool → World × Bool
  pub delete : World → Bytes → World × Bool
  pub create : World → Bytes → World × Bool
  pub clone : World → Bytes → Bytes → World × Bool
  pub start : World → Bytes → World × Bool
  pub copy_in : World → Bytes → World × Bool
  pub shell : World → Bytes → Bytes → World × Option ℤ

-- What is documented of a driver: a machine that was created or cloned is there, one that was deleted
-- is gone, and nothing else changes which machines there are.
pub record IsLawful (D : Driver) : Type 0 where
  pub stop_exists :
      (w : D.World) (n m : Bytes) (f : Bool) → D.exists (D.stop w n f).0 m ≡ D.exists w m
  pub delete_other :
      (w : D.World) (n m : Bytes) → same m n ≡ false → D.exists (D.delete w n).0 m ≡ D.exists w m
  pub delete_ok :
      (w : D.World) (n : Bytes) → (D.delete w n).1 ≡ true → D.exists (D.delete w n).0 n ≡ false
  pub delete_gone :
      (w : D.World) (n m : Bytes) → D.exists w m ≡ false → D.exists (D.delete w n).0 m ≡ false
  pub create_other :
      (w : D.World) (n m : Bytes) → same m n ≡ false → D.exists (D.create w n).0 m ≡ D.exists w m
  pub create_ok :
      (w : D.World) (n : Bytes) → (D.create w n).1 ≡ true → D.exists (D.create w n).0 n ≡ true
  pub clone_other :
      (w : D.World) (p n m : Bytes) → same m n ≡ false → D.exists (D.clone w p n).0 m ≡ D.exists w m
  pub clone_ok :
      (w : D.World) (p n : Bytes) → (D.clone w p n).1 ≡ true → D.exists (D.clone w p n).0 n ≡ true
  pub start_exists : (w : D.World) (n m : Bytes) → D.exists (D.start w n).0 m ≡ D.exists w m
  pub copy_in_exists : (w : D.World) (n m : Bytes) → D.exists (D.copy_in w n).0 m ≡ D.exists w m
  pub shell_exists :
      (w : D.World) (n script m : Bytes) → D.exists (D.shell w n script).0 m ≡ D.exists w m

module _ (D : Driver) where
  pub record Host : Type 0 where
    pub vm : D.World
    pub metas : List Meta

module _ (D : Driver) (unlinks : Bytes → Bool) where
  abbrev pub deleted : List Meta → Bytes → D.World × Bool → Host D × Bool
  deleted ms name (w, true) = (record { vm = w; metas = remove (unlinks name) name ms }, true)
  deleted ms name (w, false) = (record { vm = w; metas = ms }, false)

  -- `Destroy`
  unfoldable pub destroy : Host D → Bytes → Host D × Bool
  unfolding managed remove
  destroy h name =
      if not (managed name)
      then (h, false)
      else deleted h.metas name (D.delete (D.stop h.vm name true).0 name)

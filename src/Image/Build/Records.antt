-- ===== src/Image/Build/Records.antt =====
-- The records of images by their names.
use kranq.Base.{
  ℕ, Bool, true, false, not, List, [], ◌∷◌, ◌≡◌, refl, ap, ◌∙◌, arith, inl, inr, Bool-cases, select,
  Option-cases,
}
use kranq.Base.Text.{same_sym, Bytes, same, same_iff, same_refl}
use kranq.Image.Meta.{Meta, load, put, remove, touch, touched, save}
use kranq.Image.Build.{is_there}

load-none_tail :
    (m : Meta) (ms : List Meta) (n : Bytes)
    → is_there (load (m ∷ ms) n) ≡ false
    → is_there (load ms n) ≡ false
unfolding load
load-none_tail m ms n h = ground arith

load-select_self :
    (ms : List Meta) (n : Bytes) → is_there (load (select (λ m. not (same m.name n)) ms) n) ≡ false
unfolding load
load-select_self [] n = refl
load-select_self (m ∷ ms) n = elim (Bool-cases (same m.name n)) [
  | inl e ↦ rw e (load-select_self ms n)
  | inr e ↦ rw (e, load, e) (load-select_self ms n)
]

pub load-remove_self : (ms : List Meta) (n : Bytes) → is_there (load (remove true n ms) n) ≡ false
unfolding remove
load-remove_self ms n = load-select_self ms n

load-select-keeps :
    (ms : List Meta) (n x : Bytes)
    → is_there (load ms x) ≡ false
    → is_there (load (select (λ m. not (same m.name n)) ms) x) ≡ false
unfolding load
load-select-keeps [] n x h = refl
load-select-keeps (m ∷ ms) n x h = elim (Bool-cases (same m.name n)) [
  | inl e ↦ rw e (load-select-keeps ms n x (load-none_tail m ms x h))
  | inr e ↦ elim (Bool-cases (same m.name x)) [
    | inl d ↦ absurd (found d)
    | inr d ↦ rw (e, load, d) (load-select-keeps ms n x (load-none_tail m ms x h))
  ]
]
  where
    found : same m.name x ≡ true → ⊥
    found d = ground arith

pub load-remove-keeps :
    (b : Bool) (ms : List Meta) (n x : Bytes)
    → is_there (load ms x) ≡ false
    → is_there (load (remove b n ms) x) ≡ false
unfolding remove
load-remove-keeps true ms n x h = load-select-keeps ms n x h
load-remove-keeps false ms n x h = h

pub load-put_self : (m : Meta) (ms : List Meta) → is_there (load (put m ms) m.name) ≡ true
unfolding load put
load-put_self m [] = rw (load, same_refl m.name) refl
load-put_self m (u ∷ us) = elim (Bool-cases (same u.name m.name)) [
  | inl e ↦ rw (e, load, same_refl m.name) refl
  | inr e ↦ rw (e, load, e) (load-put_self m us)
]

load-select-other :
    (ms : List Meta) (n x : Bytes)
    → same x n ≡ false
    → is_there (load (select (λ m. not (same m.name n)) ms) x) ≡ is_there (load ms x)
unfolding load
load-select-other [] n x h = refl
load-select-other (m ∷ ms) n x h = elim (Bool-cases (same m.name n)) [
  | inl e ↦ rw (e, load, (same_iff m.name n).0 e, same_sym n x ∙ h) (load-select-other ms n x h)
  | inr e ↦ elim (Bool-cases (same m.name x)) [
    | inl d ↦ rw (e, load, d) refl
    | inr d ↦ rw (e, load, d) (load-select-other ms n x h)
  ]
]

pub load-remove-other :
    (b : Bool) (ms : List Meta) (n x : Bytes)
    → same x n ≡ false
    → is_there (load (remove b n ms) x) ≡ is_there (load ms x)
unfolding remove
load-remove-other true ms n x h = load-select-other ms n x h
load-remove-other false ms n x h = refl

pub load-put-other :
    (m : Meta) (ms : List Meta) (x : Bytes)
    → same x m.name ≡ false
    → is_there (load (put m ms) x) ≡ is_there (load ms x)
unfolding load put
load-put-other m [] x h = rw (load, same_sym m.name x ∙ h) refl
load-put-other m (u ∷ us) x h = elim (Bool-cases (same u.name m.name)) [
  | inl e ↦
      rw (e, load, same_sym m.name x ∙ h, (same_iff u.name m.name).0 e, same_sym m.name x ∙ h) refl
  | inr e ↦ elim (Bool-cases (same u.name x)) [
    | inl d ↦ rw (e, load, d) refl
    | inr d ↦ rw (e, load, d) (load-put-other m us x h)
  ]
]

load-put-keeps :
    (m : Meta) (ms : List Meta) (x : Bytes)
    → is_there (load ms x) ≡ true
    → is_there (load (put m ms) x) ≡ true
load-put-keeps m ms x h = elim (Bool-cases (same x m.name)) [
  | inl e ↦ ap (λ k. is_there (load (put m ms) k)) ((same_iff x m.name).0 e) ∙ load-put_self m ms
  | inr e ↦ load-put-other m ms x e ∙ h
]

load-save-keeps :
    (b : Bool) (m : Meta) (ms : List Meta) (x : Bytes)
    → is_there (load ms x) ≡ true
    → is_there (load (save b ms m).0 x) ≡ true
unfolding save
load-save-keeps true m ms x h = load-put-keeps m ms x h
load-save-keeps false m ms x h = h

pub load-touch :
    (b : Bool) (ms : List Meta) (name repo x : Bytes) (now : ℕ)
    → is_there (load ms x) ≡ true
    → is_there (load (touch b ms name repo now) x) ≡ true
unfolding touch
load-touch b ms name repo x now h = elim (Option-cases (load ms name)) [
  | inl e ↦ rw (touch, e) h
  | inr (m, e) ↦ rw (touch, e) (load-save-keeps b (touched repo now m) ms x h)
]

pub load-save-other :
    (b : Bool) (m : Meta) (ms : List Meta) (x : Bytes)
    → same x m.name ≡ false
    → is_there (load (save b ms m).0 x) ≡ is_there (load ms x)
unfolding save
load-save-other true m ms x h = load-put-other m ms x h
load-save-other false m ms x h = refl

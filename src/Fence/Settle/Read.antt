-- ===== src/Fence/Settle/Read.antt =====
-- How a fence is read back for the task that owns it.
use kranq.Base.{Bool, true, false, List, [], Option, none, some, ◌≡◌, refl, Bool-cases, inl, inr}
use kranq.Base.Text.{Bytes, empty, same}
use kranq.Base.Strings.{trim_space, cut}
use kranq.Fence.Defs.{Holder, Claim, Entry, FenceError, not_read, Client}
use kranq.Fence.Git.{Git, Same, IsLawful, StartsWithObject, is_object, ls_remote_args, is_local}
use kranq.Fence.Ops.{
  Reply, err, git, then_ask, output, init, show, adopt, read_entry, read_line, ask_ref, entry_of,
  fetch_args, log_args, decode_body, read_log, read_holder, own, decoded, environment,
}
use kranq.Fence.Quiet.{
  Quiet, then_ask-elim, Anything, git-Same, init-Quiet, output-Quiet, output-Holds,
}

-- A fence that was read for a task: it has the ref that was asked for, and an object.
abbrev pub IsOwn : Bytes → Claim × Holder → Type 0
IsOwn ref (cl, h) = (cl.ref ≡ ref) × (is_object cl.oid ≡ true) × (empty cl.oid ≡ false)

module _ (G : Git) (encode : Holder → Option Bytes) (decode : Bytes → Option Holder)
    (L : IsLawful G) (c : Client) (t : Bytes → Bytes) where
  ask-elim {ℓ} :
      {B : Type ℓ} (P : G.World × Reply B → Type 0) (x : FenceError) (w : G.World)
      (args : List Bytes) (f : G.World → Bytes → G.World × Reply B)
      → is_local args ≡ true
      → Same G t w
      → ((e : FenceError) (v : G.World) → Same G t v → P (v, err e))
      → ((v : G.World) (out : Bytes) → Same G t v → P (f v out))
      → P (then_ask G (output G x (git G c w [] args)) f)
  ask-elim P x w args f l s on_err on_ok =
      then_ask-elim G t (Anything G) P (output G x (git G c w [] args)) f
        (output-Quiet G t x (git G c w [] args) (git-Same G encode L c t w [] args l s)) on_err
        (λ v out q _. on_ok v out q)

  decoded-Quiet :
      (v : G.World) (o : Option Holder) → Same G t v → Quiet G t (Anything G) (decoded G v o)
  decoded-Quiet v none s = s
  decoded-Quiet v (some h) s = (s, tt)

  read_holder-Quiet :
      (w : G.World) (ref oid : Bytes)
      → Same G t w
      → Quiet G t (Anything G) (read_holder G decode c w ref oid)
  unfolding read_holder same
  read_holder-Quiet w ref oid s =
      ask-elim (Quiet G t (Anything G)) not_read w (fetch_args G c ref oid)
        (read_log G decode c oid) refl s (λ e v q. q)
        (λ v x q.
          ask-elim (Quiet G t (Anything G)) not_read v (log_args G oid) (decode_body G decode) refl
            q (λ e u r. r) (λ u body r. decoded-Quiet u (decode (trim_space body)) r))

  -- An entry that was read has an object.
  abbrev IsCurrent : Entry → Type 0
  IsCurrent e = (is_object e.oid ≡ true) × (empty e.oid ≡ false)

  read_entry-Quiet :
      (w : G.World) (ref oid rest : Bytes) (found : Bool)
      → is_object oid ≡ true
      → Same G t w
      → Quiet G t IsCurrent (read_entry G decode c ref w (oid, rest, found))
  read_entry-Quiet w ref oid rest false o s = s
  read_entry-Quiet w ref oid rest true o s = elim (Bool-cases (empty oid)) [
    | inl n ↦ rw n s
    | inr n ↦ rw n (
        then_ask-elim G t (Anything G) (Quiet G t IsCurrent) (read_holder G decode c w ref oid)
          (entry_of G ref oid) (read_holder-Quiet w ref oid s) (λ e v q. q)
          (λ v h q _. (q, (o, n))))
  ]

  ask_ref-Quiet :
      (w : G.World) (ref : Bytes) → Same G t w → Quiet G t IsCurrent (ask_ref G decode c ref w [])
  unfolding git same
  ask_ref-Quiet w ref s =
      then_ask-elim G t StartsWithObject (Quiet G t IsCurrent)
        (output G not_read (git G c w [] (ls_remote_args c.url ref))) (read_line G decode c ref)
        (output-Holds G t StartsWithObject not_read (git G c w [] (ls_remote_args c.url ref))
          (git-Same G encode L c t w [] (ls_remote_args c.url ref) refl s)
          (L.ls_remote w (environment c) c.token c.url ref []))
        (λ e v q. q)
        (λ v out q l.
          let line = cut b'\t' (trim_space out) in read_entry-Quiet v ref line.0 line.1 line.2 l q)

  show-Quiet :
      (w : G.World) (ref : Bytes) → Same G t w → Quiet G t IsCurrent (show G decode c w ref)
  unfolding show
  show-Quiet w ref s =
      then_ask-elim G t (Anything G) (Quiet G t IsCurrent) (init G c w) (ask_ref G decode c ref)
        (init-Quiet G encode L c t w s) (λ e v q. q) (λ v x q _. ask_ref-Quiet v ref q)

  own-Quiet :
      (w : G.World) (ref task : Bytes) (e : Entry)
      → Same G t w
      → IsCurrent e
      → Quiet G t (IsOwn ref) (own G ref task w e)
  own-Quiet w ref task e s q = elim (Bool-cases (same e.holder.task task)) [
    | inl h ↦ rw h (s, (refl, q.0, q.1))
    | inr h ↦ rw h s
  ]

  pub adopt-Quiet :
      (w : G.World) (ref task : Bytes)
      → Same G t w
      → Quiet G t (IsOwn ref) (adopt G decode c w ref task)
  unfolding adopt
  adopt-Quiet w ref task s =
      then_ask-elim G t IsCurrent (Quiet G t (IsOwn ref)) (show G decode c w ref) (own G ref task)
        (show-Quiet w ref s) (λ e v q. q) (λ v e q k. own-Quiet v ref task e q k)

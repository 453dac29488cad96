-- ===== src/Gate/Laws.antt =====
-- What each operation of the gate means for the question that the scheduler asks of it.
use kranq.Base.{
  ℕ, ◌+◌, ◌≤◌, Bool, true, false, not, [], Option, none, some, Option-cases, Bool-cases, inl, inr,
  refl, ap, sym, ◌∙◌, ltb, ◌==◌, if◌then◌else◌, ◌≡◌, ◌↔◌, arith,
}
use kranq.Base.Text.{Bytes, same, empty, same_refl}
use kranq.Gate.{
  Gate, Codec, Persisted, record_of, taken, next_check, available, mark_exhausted_until,
  mark_healthy, reset, state, new, load, save, token_id, default_retry,
}

-- The gate opens exactly when the clock has reached `until`, and the reported state agrees: it says
-- available then, and otherwise gives the time that is left.
pub state-available :
    (g : Gate) (now : ℕ)
    → ((available g now ≡ true) ↔ (g.until ≤ now))
      × ((state g now).available ≡ available g now)
      × (now + (state g now).remaining ≡ (if ltb now g.until then g.until else now))
unfolding available state
state-available g now = (ground arith, ground arith, ground arith)

-- A write changes nothing but the file.
save_keeps :
    (saved : Bool) (g : Gate)
    → ((save saved g).until ≡ g.until)
      × ((save saved g).exhaustions ≡ g.exhaustions)
      × ((save saved g).reason ≡ g.reason)
unfolding save
save_keeps saved g = elim (Option-cases (g.codec.encode (record_of g))) [
  | inl e ↦ rw (e, save) (ground arith)
  | inr (text, e) ↦ rw (e, save) (ground arith)
]

-- Marking the usage exhausted closes the gate for at least the retry interval. It opens at the
-- reset time where that is later, and at the end of the interval otherwise; one more exhaustion is
-- counted, and the time returned is the one that the gate waits for.
pub mark_exhausted_until-closes :
    (saved : Bool) (g : Gate) (now resets_at : ℕ) (reason : Bytes) (later : ℕ)
    → let (g', until) = mark_exhausted_until saved g now resets_at reason in
      (until ≡ (if ltb (now + g.retry) resets_at then resets_at else now + g.retry))
      × ((available g' later ≡ true) ↔ (until ≤ later))
      × (now + g.retry ≤ until)
      × (g'.exhaustions ≡ g.exhaustions + 1)
unfolding mark_exhausted_until available next_check
mark_exhausted_until-closes saved g now resets_at reason later =
    let kept = save_keeps saved (record g {
      exhaustions = g.exhaustions + 1;
      reason = reason;
      until = next_check g now resets_at;
    }) in
    (ground arith, ground arith, ground arith, ground arith)

-- Loading changes only what a record of the same token says.
load_keeps :
    (g : Gate)
    → load g ≡ record g {
      until = (load g).until;
      exhaustions = (load g).exhaustions;
      reason = (load g).reason;
    }
unfolding load
load_keeps g = at_file g.file
  where
    of :
        (o : Option Persisted)
        → taken g o ≡ record g {
          until = (taken g o).until;
          exhaustions = (taken g o).exhaustions;
          reason = (taken g o).reason;
        }
    of none = refl
    of (some p) = elim (Bool-cases (same p.token_id g.token_id)) [
      | inl h ↦ rw h refl
      | inr h ↦ rw h refl
    ]

    at_file :
        (o : Option Bytes)
        → (let h : Gate = elim o [ none ↦ g | some text ↦ taken g (g.codec.decode text) ] in
            h ≡ record g { until = h.until; exhaustions = h.exhaustions; reason = h.reason })
    at_file none = refl
    at_file (some text) = of (g.codec.decode text)

load-same :
    (g : Gate) (text : Bytes) (p : Persisted)
    → g.file ≡ some text
    → g.codec.decode text ≡ some p
    → same p.token_id g.token_id ≡ true
    → load g ≡ record g { until = p.until; exhaustions = p.exhaustions; reason = p.last_reason }
unfolding load
load-same g text p e d h = rw (e, d, h)

save-file :
    (g : Gate) (text : Bytes)
    → empty g.path ≡ false
    → g.codec.encode (record_of g) ≡ some text
    → save true g ≡ record g { file = some text }
unfolding save
save-file g text n e = rw (n, e)

module _ (codec : Codec) (digest : Bytes → Bytes) (path token : Bytes) (retry now resets_at : ℕ)
    (reason : Bytes) (file : Option Bytes) where
  abbrev start : Option Bytes → Gate
  start f = record {
    codec = codec;
    path = path;
    token_id = token_id digest token;
    present = not (empty token);
    retry = if retry == 0 then default_retry else retry;
    until = 0;
    exhaustions = 0;
    reason = [];
    file = f;
  }

  -- A gate as it is closed, before it is written.
  abbrev pub closed : Gate → Gate
  closed g = record g {
    exhaustions = g.exhaustions + 1;
    reason = reason;
    until = next_check g now resets_at;
  }

  reopened :
      (g : Gate) (text : Bytes)
      → g ≡ record (start file) { until = g.until; exhaustions = g.exhaustions; reason = g.reason }
      → empty path ≡ false
      → codec.encode (record_of (closed g)) ≡ some text
      → codec.decode text ≡ some (record_of (closed g))
      → load (start (save true (closed g)).file) ≡ save true (closed g)
  reopened g text q n e d = rw is_saved (
      load-same (start (some text)) text (record_of (closed g)) refl d
        (ap (λ h. same h.token_id (token_id digest token)) q ∙ same_refl (token_id digest token))
      ∙ ap {A = Gate}
          (λ h. record h {
            until = (closed g).until;
            exhaustions = (closed g).exhaustions;
            reason = reason;
            file = some text;
          })
          (sym q))
    where
      is_saved : save true (closed g) ≡ record (closed g) { file = some text }
      is_saved =
          save-file (closed g) text (ap (λ h. empty h.path) q ∙ n)
            (ap (λ h. h.codec.encode (record_of (closed g))) q ∙ e)

  -- A daemon that starts again with the same token, after a write that the disk took, waits for the
  -- same time, for the same reason, with the same count of exhaustions, if the gate has a file and the
  -- record that was written is read back from its JSON as it was.
  pub new-mark_exhausted_until :
      (text : Bytes)
      → empty path ≡ false
      → codec.encode (record_of (closed (new codec digest path token retry file))) ≡ some text
      → codec.decode text ≡ some (record_of (closed (new codec digest path token retry file)))
      → let g =
          (mark_exhausted_until true
            (new codec digest path token retry file)
            now
            resets_at
            reason).0 in
        new codec digest path token retry g.file ≡ g
  unfolding new mark_exhausted_until
  new-mark_exhausted_until text n e d =
      reopened (load (start file)) text (load_keeps (start file)) n e d

-- After a healthy run the gate is open at every time and gives no reason; the count of exhaustions
-- stays. After a reset it is open too, and the count is zero.
pub mark_healthy-opens :
    (saved : Bool) (g : Gate) (now : ℕ)
    → (available (mark_healthy saved g) now ≡ true)
      × ((mark_healthy saved g).reason ≡ [])
      × ((mark_healthy saved g).exhaustions ≡ g.exhaustions)
      × (available (reset saved g) now ≡ true)
      × ((reset saved g).exhaustions ≡ 0)
unfolding mark_healthy reset save available
mark_healthy-opens saved g now =
    (ground arith, ground arith, ground arith, ground arith, ground arith)

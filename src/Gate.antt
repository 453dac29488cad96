-- ===== src/Gate.antt =====
-- internal/gate/gate.go: until when the machine's claude usage is exhausted. A time is a number of
-- nanoseconds, 0 for Go's zero time. `file` is what the gate's file holds, `none` where it cannot
-- be read; `saved` says whether the write of it succeeds. JSON is a codec that the gate is made with. The mutex is not modelled:
-- each method runs under it from start to end.
pub mod Laws
use kranq.Base.{
  ℕ, ◌+◌, ◌-◌, Bool, true, false, not, ◌&&◌, List, [], ◌∷◌, Option, none, some, ltb, ◌==◌,
  if◌then◌else◌,
}
use kranq.Base.Text.{Bytes, same, empty}

pub record Persisted : Type 0 where
  pub token_id : Bytes
  pub until : ℕ
  pub exhaustions : ℕ
  pub last_reason : Bytes

-- json.Marshal and json.Unmarshal of a record.
pub record Codec : Type 0 where
  pub encode : Persisted → Option Bytes
  pub decode : Bytes → Option Persisted

pub record Gate : Type 0 where
  pub codec : Codec
  pub path : Bytes
  pub token_id : Bytes
  pub present : Bool
  pub retry : ℕ
  pub until : ℕ
  pub exhaustions : ℕ
  pub reason : Bytes
  pub file : Option Bytes

pub record GateState : Type 0 where
  pub token_id : Bytes
  pub present : Bool
  pub available : Bool
  pub remaining : ℕ
  pub exhaustions : ℕ
  pub last_reason : Bytes

-- time.Minute
abbrev pub minute : ℕ
minute = 60_000_000_000

abbrev pub default_retry : ℕ
default_retry = minute

-- `digest` is the hex of the first eight bytes of sha256.
unfoldable pub token_id : (Bytes → Bytes) → Bytes → Bytes
token_id digest token = if empty token then [] else digest token

-- A record that another token left says nothing about this one.
abbrev pub taken : Gate → Option Persisted → Gate
taken g none = g
taken g (some p) =
    if not (same p.token_id g.token_id)
    then g
    else record g { until = p.until; exhaustions = p.exhaustions; reason = p.last_reason }

unfoldable pub load : Gate → Gate
load g = elim g.file [ none ↦ g | some text ↦ taken g (g.codec.decode text) ]

unfoldable pub new : Codec → (Bytes → Bytes) → Bytes → Bytes → ℕ → Option Bytes → Gate
unfolding load token_id
new codec digest path token retry file = load (record {
  codec = codec;
  path = path;
  token_id = token_id digest token;
  present = not (empty token);
  retry = if retry == 0 then default_retry else retry;
  until = 0;
  exhaustions = 0;
  reason = [];
  file = file;
})

abbrev pub record_of : Gate → Persisted
record_of g = record {
  token_id = g.token_id;
  until = g.until;
  exhaustions = g.exhaustions;
  last_reason = g.reason;
}

abbrev pub written : Bool → Gate → Option Bytes → Gate
written saved g none = g
written saved g (some text) = if saved then record g { file = some text } else g

unfoldable pub save : Bool → Gate → Gate
save saved g = if empty g.path then g else written saved g (g.codec.encode (record_of g))

unfoldable pub available : Gate → ℕ → Bool
available g now = not (ltb now g.until)

unfoldable pub next_check : Gate → ℕ → ℕ → ℕ
next_check g now resets_at =
    let next = now + g.retry in
    if not (resets_at == 0) && ltb next resets_at then resets_at else next

unfoldable pub mark_exhausted_until : Bool → Gate → ℕ → ℕ → Bytes → Gate × ℕ
unfolding save next_check
mark_exhausted_until saved g now resets_at reason =
    let g' = save saved (record g {
      exhaustions = g.exhaustions + 1;
      reason = reason;
      until = next_check g now resets_at;
    }) in
    (g', g'.until)

unfoldable pub mark_exhausted : Bool → Gate → ℕ → Gate × ℕ
unfolding mark_exhausted_until
mark_exhausted saved g now = mark_exhausted_until saved g now 0 []

unfoldable pub mark_healthy : Bool → Gate → Gate
unfolding save
mark_healthy saved g =
    if g.until == 0 && empty g.reason then g else save saved (record g { until = 0; reason = [] })

unfoldable pub reset : Bool → Gate → Gate
unfolding save
reset saved g = save saved (record g { until = 0; exhaustions = 0; reason = [] })

-- `State`. The remaining time is until - now where that is positive.
unfoldable pub state : Gate → ℕ → GateState
state g now =
    let remaining = if ltb now g.until then g.until - now else 0 in
    record {
      token_id = g.token_id;
      present = g.present;
      available = remaining == 0;
      remaining = remaining;
      exhaustions = g.exhaustions;
      last_reason = g.reason;
    }

-- ===== src/Plugin/Buffer/Transparent.antt =====
-- A response that no hook changes, through bufferedResponseWriter (internal/plugin/hook.go).
use mango_hub.Base.{
  ℕ, ◌≤◌, ◌≡◌, ◌⊎◌, inl, inr, subst, Bool, true, false, some, List, [], ◌∷◌, Bytes, arith, ltb,
  length, ◌+◌, Bool-cases, if◌then◌else◌,
}
use mango_hub.Plugin.Client.{
  Client, new_client, bodiless, is_invalid, is_interim, is_some, put_status, put_body, put_flush,
  Action, edit_header, status_call, write_call, flush_call, hijack_call, act, run_actions, wire,
}
use mango_hub.Plugin.Buffer.{
  Buffered, new_buffered, write_through, write_header, with_status, append_body, write, flush,
  flush_to, buffered_act, buffered_serve,
}

-- A status that stands for the whole response.
abbrev pub IsFinal : ℕ → Type 0
IsFinal code = (200 ≤ code) × (code ≤ 999)

-- A handler that edits the header first, then writes a status or a part of the body, and only then
-- flushes; the Boolean says whether something is written already.
abbrev pub IsOrderly : Bool → List Action → Type 0
IsOrderly w [] = w ≡ true
IsOrderly w (edit_header f ∷ actions) = (w ≡ false) × IsOrderly w actions
IsOrderly w (status_call code ∷ actions) = IsFinal code × IsOrderly true actions
IsOrderly w (write_call p ∷ actions) = IsOrderly true actions
IsOrderly w (flush_call ∷ actions) = (w ≡ true) × IsOrderly w actions
IsOrderly w (hijack_call ∷ actions) = false ≡ true

-- The client of the buffer, against the one that the handler would write to itself.
abbrev IsEarly : Buffered → Client → Type 0
IsEarly b d =
    (b.streaming ≡ false)
    × (b.wrote_header ≡ false)
    × (b.hijacked ≡ false)
    × (b.underlying ≡ new_client)
    × (b.body ≡ [])
    × (d ≡ record new_client { header = b.header })

abbrev IsHeld : Buffered → Client → Type 0
IsHeld b d =
    (b.streaming ≡ false)
    × (b.wrote_header ≡ true)
    × (b.hijacked ≡ false)
    × (b.underlying ≡ new_client)
    × IsFinal b.status_code
    × (wire d ≡ record {
      status = some b.status_code;
      header = b.header;
      interim = [];
      body = if bodiless (some b.status_code) then [] else b.body;
      panicked = false;
      hijacked = false;
    })

abbrev IsSent : Buffered → Client → Type 0
IsSent b d =
    (b.streaming ≡ true)
    × (wire b.underlying ≡ wire d)
    × (d.panicked ≡ false)
    × (d.hijacked ≡ false)
    × (is_some d.status ≡ true)

abbrev IsUnder : Bool → Buffered → Client → Type 0
IsUnder false b d = IsEarly b d
IsUnder true b d = IsHeld b d ⊎ IsSent b d

pub IsFinal-is_invalid : (code : ℕ) → IsFinal code → is_invalid code ≡ false
unfolding is_invalid
IsFinal-is_invalid code h = ground arith

pub IsFinal-is_interim : (code : ℕ) → IsFinal code → is_interim code ≡ false
unfolding is_interim
IsFinal-is_interim code h = ground arith

IsEarly-status :
    (code : ℕ) (b : Buffered) (d : Client)
    → IsFinal code
    → IsEarly b d
    → IsHeld (write_header code b) (put_status code d)
unfolding write_header put_status
IsEarly-status code b d final h = ground (arith, IsFinal-is_invalid code, IsFinal-is_interim code)

-- Until the limit, a part of the body is held back; the part that exceeds it sends everything.
IsHeld-append :
    (p : Bytes) (b : Buffered) (d : Client)
    → IsHeld b d
    → IsUnder true (append_body p b) (put_body p d)
unfolding append_body put_body put_status write_through
IsHeld-append p b d h = elim (Bool-cases (ltb b.limit (length b.body + length p))) [
  | inl over ↦
      inr (ground (arith, IsFinal-is_invalid b.status_code, IsFinal-is_interim b.status_code))
  | inr fits ↦ inl (ground arith)
]

IsHeld-flush : (b : Buffered) (d : Client) → IsHeld b d → IsSent (flush b) (put_flush d)
unfolding flush put_body put_status write_through put_flush
IsHeld-flush b d h =
    ground (arith, IsFinal-is_invalid b.status_code, IsFinal-is_interim b.status_code)

write-append_body :
    (p : Bytes) (b : Buffered) → b.streaming ≡ false → write p b ≡ append_body p (with_status b)
unfolding write
write-append_body p b h = ground arith

put_body-put_status : (p : Bytes) (d : Client) → put_body p (put_status 200 d) ≡ put_body p d
unfolding put_body put_status is_invalid is_interim
put_body-put_status p d = ground arith

IsEarly-with_status :
    (b : Buffered) (d : Client) → IsEarly b d → IsHeld (with_status b) (put_status 200 d)
unfolding put_status is_invalid is_interim
IsEarly-with_status b d h = ground arith

IsEarly-write :
    (p : Bytes) (b : Buffered) (d : Client) → IsEarly b d → IsUnder true (write p b) (put_body p d)
IsEarly-write p b d h =
    rw (write-append_body p b h.0, ← put_body-put_status p d)
      (IsHeld-append p (with_status b) (put_status 200 d) (IsEarly-with_status b d h))

IsHeld-write :
    (p : Bytes) (b : Buffered) (d : Client) → IsHeld b d → IsUnder true (write p b) (put_body p d)
IsHeld-write p b d h =
    let same : with_status b ≡ b = ground arith in
    rw (write-append_body p b h.0, same) (IsHeld-append p b d h)

IsHeld-act :
    (a : Action) (more : List Action) (b : Buffered) (d : Client)
    → IsOrderly true (a ∷ more)
    → IsHeld b d
    → IsUnder true (buffered_act a b) (act a d)
unfolding buffered_act act
IsHeld-act (edit_header f) more b d o h = ground arith
IsHeld-act (status_call code) more b d o h = inl (unfold write_header put_status in ground arith)
IsHeld-act (write_call p) more b d o h = IsHeld-write p b d h
IsHeld-act flush_call more b d o h = inr (IsHeld-flush b d h)
IsHeld-act hijack_call more b d o h = ground arith

IsSent-act :
    (a : Action) (more : List Action) (b : Buffered) (d : Client)
    → IsOrderly true (a ∷ more)
    → IsSent b d
    → IsSent (buffered_act a b) (act a d)
unfolding buffered_act act write_header write flush put_status put_body put_flush write_through
IsSent-act (edit_header f) more b d o h = ground arith
IsSent-act (status_call code) more b d o h = ground arith
IsSent-act (write_call p) more b d o h = ground arith
IsSent-act flush_call more b d o h = ground arith
IsSent-act hijack_call more b d o h = ground arith

pub IsOrderly-rest :
    (a : Action) (more : List Action) → IsOrderly true (a ∷ more) → IsOrderly true more
IsOrderly-rest (edit_header f) more o = o.1
IsOrderly-rest (status_call code) more o = o.1
IsOrderly-rest (write_call p) more o = o
IsOrderly-rest flush_call more o = o.1
IsOrderly-rest hijack_call more o = ground arith

Under-act :
    (w : Bool) (a : Action) (more : List Action) (b : Buffered) (d : Client)
    → IsOrderly w (a ∷ more)
    → IsUnder w b d
    → (v : Bool) × IsOrderly v more × IsUnder v (buffered_act a b) (act a d)
unfolding buffered_act act
Under-act true a more b d o (inl h) = (true, IsOrderly-rest a more o, IsHeld-act a more b d o h)
Under-act true a more b d o (inr h) =
    (true, IsOrderly-rest a more o, inr (IsSent-act a more b d o h))
Under-act false (edit_header f) more b d o h = (false, o.1, ground arith)
Under-act false (status_call code) more b d o h = (true, o.1, inl (IsEarly-status code b d o.0 h))
Under-act false (write_call p) more b d o h = (true, o, IsEarly-write p b d h)
Under-act false flush_call more b d o h = ground arith
Under-act false hijack_call more b d o h = ground arith

Under-run_actions :
    (w : Bool) (actions : List Action) (b : Buffered) (d : Client)
    → IsOrderly w actions
    → IsUnder w b d
    → IsUnder true (buffered_serve actions b) (run_actions actions d)
unfolding buffered_serve run_actions
Under-run_actions w [] b d o h = subst (λ v. IsUnder v b d) o h
Under-run_actions w (a ∷ actions) b d o h =
    let (v, o', h') = Under-act w a actions b d o h in
    Under-run_actions v actions (buffered_act a b) (act a d) o' h'

Under-flush_to : (b : Buffered) (d : Client) → IsUnder true b d → wire (flush_to b) ≡ wire d
unfolding flush_to put_body put_status write_through
Under-flush_to b d (inl h) =
    ground (arith, IsFinal-is_invalid b.status_code, IsFinal-is_interim b.status_code)
Under-flush_to b d (inr h) = ground arith

-- A handler that edits the header before it writes, answers with a status from 200 to 999 and
-- flushes only what it has begun: through the buffer, whatever its limit, the client gets the same
-- status, header and body as from the handler alone, if no hook changes the response.
pub flush_to-run_actions :
    (limit : ℕ) (actions : List Action)
    → IsOrderly false actions
    → wire (flush_to (buffered_serve actions (new_buffered limit new_client)))
      ≡ wire (run_actions actions new_client)
flush_to-run_actions limit actions o =
    Under-flush_to (buffered_serve actions (new_buffered limit new_client))
      (run_actions actions new_client)
      (Under-run_actions false actions (new_buffered limit new_client) new_client o (ground arith))

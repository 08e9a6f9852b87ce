-- ===== src/Agent/Queue.antt =====
-- The event queues of agents, web/agent/v2_events.go. Times are nanoseconds, with 0 for Go's zero
-- time; `now` is the clock as an operation reads it. `V` is the type of parameters; the two decoders
-- stand for bindV2EventParams, the round trip through encoding/json, into TerminalRequestParams (its
-- RequestID) and PingParams (its TaskID), and are `none` where that fails. The channel `signal` of a
-- queue is the number of channels made before it: the ones with smaller numbers are closed.
pub mod Keys
pub mod Delivery
use mango_hub.Base.{
  ℕ, zero, suc, ◌+◌, ◌-◌, ◌*◌, ◌/◌, ◌%◌, Bool, true, false, not, ◌||◌, Option, none, some, List, [],
  ◌∷◌, ◌++◌, length, take, drop, keep, Bytes, codes, eqb, ltb, leb, ◌==◌, if◌then◌else◌, ◌⊎◌, inl,
  inr,
}
use mango_hub.Base.Assoc.{Map, lookup, insert}
use mango_hub.Base.Int.{ℤ, pos, negsuc}

abbrev pub queue_limit : ℕ
queue_limit = 128

abbrev pub second : ℕ
second = 1_000_000_000

abbrev pub event_ttl : ℕ
event_ttl = 5 * 60 * second

abbrev pub ping_event_ttl : ℕ
ping_event_ttl = 3 * second

abbrev pub file_event_ttl : ℕ
file_event_ttl = 2 * 60 * second

abbrev pub method_agent_ping : Bytes
method_agent_ping = codes "agent.ping"

abbrev pub method_agent_file : Bytes
method_agent_file = codes "agent.file"

abbrev pub method_agent_terminal : Bytes
method_agent_terminal = codes "agent.terminal.request"

-- v2.Event
pub record Event (V : Type 0) : Type 0 where
  pub id : Bytes
  pub method : Bytes
  pub params : V
  pub created_at : ℕ
  pub expires_at : ℕ

-- v2EventQueue
pub record Queue (V : Type 0) : Type 0 where
  pub events : List (Event V)
  pub signal : ℕ

abbrev pub Queues : Type 0 → Type 0
Queues V = Map (Queue V)

-- The decimal digits of `%d`; the fuel is the number, which has no more digits than that.
unfoldable pub digits_from : ℕ → ℕ → Bytes → Bytes
digits_from fuel zero acc = acc
digits_from zero (suc n) acc = acc
digits_from (suc fuel) (suc n) acc = digits_from fuel (suc n / 10) ((48 + suc n % 10) ∷ acc)

unfoldable pub decimal : ℕ → Bytes
unfolding digits_from
decimal zero = codes "0"
decimal (suc n) = digits_from (suc n) (suc n) []

unfoldable pub ttl_of : Bytes → ℕ
ttl_of method =
    if eqb method method_agent_ping
    then ping_event_ttl
    else if eqb method method_agent_file
    then file_event_ttl
    else event_ttl

abbrev pub IdList : Type 0
IdList = List Bytes

unfoldable pub has_id : IdList → Bytes → Bool
has_id [] id = false
has_id (x ∷ xs) id = eqb x id || has_id xs id

module _ {V : Type 0} where
  -- getV2EventQueueLocked: a queue that is missing is made, empty and with a fresh signal.
  unfoldable pub queue_of : Bytes → Queues V → Queue V
  queue_of uuid qs = elim (lookup uuid qs) [
    | none ↦ record { events = []; signal = 0 }
    | some q ↦ q
  ]

  -- ackV2EventsLocked
  unfoldable pub ack_events : IdList → List (Event V) → List (Event V)
  ack_events [] events = events
  ack_events (x ∷ xs) events = keep (λ e. not (has_id (x ∷ xs) e.id)) events

  -- pruneExpiredV2EventsLocked
  unfoldable pub is_live : ℕ → Event V → Bool
  is_live now e = if e.expires_at == 0 then true else ltb now e.expires_at

  unfoldable pub prune_expired : ℕ → List (Event V) → List (Event V)
  prune_expired now events = keep (is_live now) events

  -- takeV2EventsLocked; the slice is a copy, and the queue keeps its events.
  unfoldable pub take_events : ℤ → List (Event V) → List (Event V)
  take_events (negsuc n) events = events
  take_events (pos n) events = if n == 0 || ltb (length events) n then events else take n events

  -- TakeV2Events
  unfoldable pub take_queued : Bytes → IdList → ℤ → ℕ → Queues V → List (Event V) × Queues V
  take_queued uuid acks limit now qs =
      let q = queue_of uuid qs in
      let left = prune_expired now (ack_events acks q.events) in
      (take_events limit left, insert uuid (record q { events = left }) qs)

  -- AckV2Events
  unfoldable pub ack_queued : Bytes → IdList → Queues V → Queues V
  ack_queued uuid [] qs = qs
  ack_queued uuid (x ∷ xs) qs = elim (lookup uuid qs) [
    | none ↦ qs
    | some q ↦ insert uuid (record q { events = ack_events (x ∷ xs) q.events }) qs
  ]

  -- WaitV2Events up to where it blocks: the events, or the signal that it waits for. When that is
  -- closed, or its timer has run out, it ends with `take_queued` without acknowledgements.
  unfoldable pub wait_begin : Bytes → IdList → Bool → ℕ → Queues V → (List (Event V) ⊎ ℕ) × Queues V
  wait_begin uuid acks no_timeout now qs =
      let q = queue_of uuid qs in
      let left = prune_expired now (ack_events acks q.events) in
      let events = take_events (pos queue_limit) left in
      let qs' = insert uuid (record q { events = left }) qs in
      if not (length events == 0) || no_timeout then (inl events, qs') else (inr q.signal, qs')

  unfoldable pub is_closed : Bytes → ℕ → Queues V → Bool
  is_closed uuid signal qs = ltb signal (queue_of uuid qs).signal

module _ {V : Type 0} (terminal_request : V → Option Bytes) (ping_task : V → Option ℕ) where
  request_key : Bytes → Option Bytes → Bytes
  request_key method none = []
  request_key method (some id) = if eqb id [] then [] else method ++ codes ":" ++ id

  task_key : Bytes → Option ℕ → Bytes
  task_key method none = []
  task_key method (some id) = if id == 0 then [] else method ++ codes ":" ++ decimal id

  -- v2EventCoalesceKey
  unfoldable pub coalesce_key : Event V → Bytes
  unfolding request_key task_key
  coalesce_key e =
      if eqb e.method method_agent_terminal
      then request_key e.method (terminal_request e.params)
      else if eqb e.method method_agent_ping
      then task_key e.method (ping_task e.params)
      else []

  -- coalesceV2EventLocked
  unfoldable pub coalesce : Event V → List (Event V) → List (Event V)
  coalesce event events =
      let key = coalesce_key event in
      if eqb key [] then events else keep (λ e. not (eqb (coalesce_key e) key)) events

  -- The part of EnqueueV2Event under the lock that changes the events.
  unfoldable pub push_event : Event V → ℕ → List (Event V) → List (Event V)
  push_event event now events =
      let all = coalesce event (prune_expired now events) ++ event ∷ [] in
      if ltb queue_limit (length all) then drop (length all - queue_limit) all else all

  -- EnqueueV2Event: the identifier is the random one of newV2EventID; `created` is the clock before
  -- the lock is taken and `now` behind it.
  unfoldable pub new_event : Bytes → Bytes → V → ℕ → Event V
  new_event id method params created = record {
    id = id;
    method = method;
    params = params;
    created_at = created;
    expires_at = created + ttl_of method;
  }

  unfoldable pub enqueue : Bytes → Event V → ℕ → Queues V → Queues V
  enqueue uuid event now qs =
      let q = queue_of uuid qs in
      insert uuid (record { events = push_event event now q.events; signal = suc q.signal }) qs

  -- DispatchV2Event, and DispatchPing with the method of pings: `sent` is that a connection took the
  -- event at once, `is_v2` what IsV2Client says of the agent.
  unfoldable pub dispatch_event : Bool → Bool → Bytes → Event V → ℕ → Queues V → Bool × Queues V
  dispatch_event sent is_v2 uuid event now qs =
      if sent
      then (true, qs)
      else if not is_v2
      then (false, qs)
      else (true, enqueue uuid event now qs)

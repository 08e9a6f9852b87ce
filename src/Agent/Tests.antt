-- ===== src/Agent/Tests.antt =====
-- Runs of the event queues and the state of agents, and their theorems at concrete inputs.
use mango_hub.Base.{
  ◌*◌, ℕ, ◌≡◌, refl, inr, true, false, Option, none, some, [], ◌∷◌, Bytes, codes, arith, eqb,
}
use mango_hub.Base.Assoc.{lookup, insert}
use mango_hub.Base.Int.{pos}
use mango_hub.Agent.Queue.{
  Event, Queue, Queues, queue_limit, method_agent_ping, method_agent_terminal, ack_events,
  prune_expired, is_live, coalesce_key, push_event, take_events, take_queued, queue_of, wait_begin,
  is_closed, new_event, ttl_of, enqueue, decimal,
}
use mango_hub.Agent.Queue.Keys.{IsQueue, push_event-IsQueue}
use mango_hub.Agent.Queue.Delivery.{Among, enqueue-wakes}
use mango_hub.Agent.Runtime.{
  Report, Agents, second, default_presence_ttl, update_recent, record_report, set_connected_clients,
  get_connected_client, delete_client_conditionally, set_presence, is_online,
}
use mango_hub.Agent.Runtime.Reports.{AllSorted}

-- Parameters are a task number; no terminal request is decoded.
abbrev no_request : ℕ → Option Bytes
no_request v = none

abbrev task : ℕ → Option ℕ
task v = some v

abbrev ping : Bytes → ℕ → Event ℕ
ping id n = record {
  id = id;
  method = method_agent_ping;
  params = n;
  created_at = 0;
  expires_at = 3 * second;
}

prints_decimal : decimal 1203 ≡ codes "1203"
unfolding decimal
prints_decimal = refl

-- A second ping of a task takes the place of the first.
coalesces :
    push_event no_request task (ping (codes "c") 7) 0 (ping (codes "a") 7 ∷ ping (codes "b") 8 ∷ [])
    ≡ ping (codes "b") 8 ∷ ping (codes "c") 7 ∷ []
unfolding push_event mango_hub.Agent.Queue.coalesce coalesce_key prune_expired is_live decimal eqb
coalesces = refl

push_event-IsQueue_example :
    IsQueue no_request task (push_event no_request task (ping (codes "c") 7) 0 [])
    × IsQueue no_request task (ack_events (codes "a" ∷ []) [])
    × IsQueue no_request task (prune_expired 0 [])
push_event-IsQueue_example =
    push_event-IsQueue no_request task (ping (codes "c") 7) 0 (codes "a" ∷ []) []
      (record { bounded = omega arith; distinct = tt })

abbrev one_queue : Queues ℕ
one_queue = (codes "u", record { events = ping (codes "a") 7 ∷ []; signal = 0 }) ∷ []

abbrev idle : Queues ℕ
idle = (codes "u", record { events = []; signal = 4 }) ∷ []

waits : wait_begin (codes "u") [] false 9 idle ≡ (inr 4, idle)
unfolding wait_begin queue_of lookup insert eqb ack_events prune_expired take_events
waits = refl

enqueue-wakes_example :
    (is_closed (codes "u") 4 idle ≡ false)
    × (is_closed (codes "u") 4 (enqueue no_request task (codes "u") (ping (codes "a") 7) 10 idle)
        ≡ true)
    × Among
        (ping (codes "a") 7)
        (take_queued
          (codes "u")
          []
          (pos queue_limit)
          11
          (enqueue no_request task (codes "u") (ping (codes "a") 7) 10 idle)).0
enqueue-wakes_example =
    enqueue-wakes no_request task (codes "u") [] (ping (codes "a") 7) false 9 4 10 11 idle idle
      waits (omega arith)

abbrev report : ℕ → Report ℕ
report t = record { uuid = codes "u"; updated_at = t; body = 0 }

abbrev agents : Agents ℕ
agents = record {
  connected_clients = [];
  v2_clients = [];
  latest_report = (codes "u", report 70) ∷ [];
  recent_reports = [];
  presence_only = [];
}

inserts_by_time :
    update_recent (report 5) 2 (report 1 ∷ report 3 ∷ report 9 ∷ [])
    ≡ report 3 ∷ report 5 ∷ report 9 ∷ []
unfolding update_recent mango_hub.Agent.Runtime.reports_after mango_hub.Agent.Runtime.insert_report
inserts_by_time = refl

agents-AllSorted : AllSorted agents
unfolding lookup
agents-AllSorted uuid = tt

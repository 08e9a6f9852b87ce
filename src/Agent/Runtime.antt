-- ===== src/Agent/Runtime.antt =====
-- The state of agents in memory, web/agent/connections.go: connections, version-2 agents, presence
-- without a WebSocket, and reports. The package's maps are the fields of one record. A connection, a
-- pointer to connection.SafeConn, is its address; times are nanoseconds, 0 for Go's zero time, and
-- `now` is the clock. `B` is the rest of a report.
pub mod Reports
pub mod Online
use mango_hub.Base.{
  ℕ, zero, suc, ◌+◌, ◌*◌, ◌-◌, Bool, true, false, not, ◌&&◌, ◌||◌, Option, none, some, List, [],
  ◌∷◌, ◌++◌, length, drop, Bytes, eqb, ltb, ◌==◌, if◌then◌else◌,
}
use mango_hub.Base.Assoc.{Map, lookup, insert, delete}

abbrev pub second : ℕ
second = 1_000_000_000

abbrev pub recent_report_retention : ℕ
recent_report_retention = 60 * second

abbrev pub default_presence_ttl : ℕ
default_presence_ttl = 20 * second

-- v2.Report, by the fields that this file reads.
pub record Report (B : Type 0) : Type 0 where
  pub uuid : Bytes
  pub updated_at : ℕ
  pub body : B

-- An entry of presenceOnly; the identifier is an int64, by its bits.
pub record Presence : Type 0 where
  pub id : ℕ
  pub expire : ℕ

pub record Agents (B : Type 0) : Type 0 where
  pub connected_clients : Map ℕ
  pub v2_clients : Map (Unit {0})
  pub latest_report : Map (Report B)
  pub recent_reports : Map (List (Report B))
  pub presence_only : Map Presence

abbrev is_some : {A : Type 0} → Option A → Bool
is_some none = false
is_some (some _) = true

abbrev or_empty : {A : Type 0} → Option (List A) → List A
or_empty none = []
or_empty (some xs) = xs

-- reportsAfter: the reports from the first one on that is not before the cutoff.
unfoldable pub reports_after : {B : Type 0} → List (Report B) → ℕ → List (Report B)
reports_after [] cutoff = []
reports_after (r ∷ rs) cutoff = if ltb r.updated_at cutoff then reports_after rs cutoff else r ∷ rs

-- The insertion of RecordReport. sort.Search gives the first position whose report is later, of
-- reports that are sorted by their time; `copy` makes room for the new one there.
unfoldable pub insert_report : {B : Type 0} → Report B → List (Report B) → List (Report B)
insert_report report [] = report ∷ []
insert_report report (r ∷ rs) =
    if ltb report.updated_at r.updated_at then report ∷ r ∷ rs else r ∷ insert_report report rs

module _ {B : Type 0} where
  -- GetConnectedClient
  unfoldable pub get_connected_client : Bytes → Agents B → Option ℕ
  get_connected_client uuid a = lookup uuid a.connected_clients

  -- SetConnectedClients
  unfoldable pub set_connected_clients : Bytes → ℕ → Agents B → Agents B
  set_connected_clients uuid conn a = record a {
    connected_clients = insert uuid conn a.connected_clients;
  }

  -- MarkV2Client and IsV2Client
  unfoldable pub mark_v2_client : Bytes → Agents B → Agents B
  mark_v2_client uuid a = record a { v2_clients = insert uuid tt a.v2_clients }

  unfoldable pub is_v2_client : Bytes → Agents B → Bool
  is_v2_client uuid a = is_some (lookup uuid a.v2_clients)

  -- DeleteConnectedClients
  unfoldable pub delete_connected_clients : Bytes → Agents B → Agents B
  delete_connected_clients uuid a = record a {
    connected_clients = delete uuid a.connected_clients;
    v2_clients = delete uuid a.v2_clients;
  }

  -- DeleteClientConditionally
  unfoldable pub delete_client_conditionally : Bytes → ℕ → Agents B → Agents B
  unfolding delete_connected_clients
  delete_client_conditionally uuid conn a = elim (lookup uuid a.connected_clients) [
    | none ↦ a
    | some current ↦ if current == conn then delete_connected_clients uuid a else a
  ]

  -- KeepAlivePresence
  unfoldable pub keep_alive_presence : Bytes → ℕ → ℕ → ℕ → Agents B → Agents B
  keep_alive_presence uuid id ttl now a = record a {
    presence_only = insert uuid (record { id = id; expire = now + ttl }) a.presence_only;
  }

  -- SetPresence
  unfoldable pub set_presence : Bytes → ℕ → Bool → ℕ → Agents B → Agents B
  unfolding keep_alive_presence
  set_presence uuid id true now a = keep_alive_presence uuid id default_presence_ttl now a
  set_presence uuid id false now a = elim (lookup uuid a.presence_only) [
    | none ↦ a
    | some cur ↦
        if cur.id == id then record a { presence_only = delete uuid a.presence_only } else a
  ]

  -- Whether GetAllOnlineUUIDs lists an agent.
  unfoldable pub is_online : Bytes → ℕ → Agents B → Bool
  is_online uuid now a =
      is_some (lookup uuid a.connected_clients)
      || elim (lookup uuid a.presence_only) [ none ↦ false | some p ↦ ltb now p.expire ]

  -- IsAgentOnline of v2_events.go
  unfoldable pub is_agent_online : Bytes → Agents B → Bool
  unfolding is_v2_client get_connected_client
  is_agent_online uuid a = is_some (get_connected_client uuid a) || is_v2_client uuid a

  -- The first half of RecordReport under the lock.
  unfoldable pub update_latest : Report B → Map (Report B) → Map (Report B)
  update_latest report latest = elim (lookup report.uuid latest) [
    | none ↦ insert report.uuid report latest
    | some old ↦
        if ltb report.updated_at old.updated_at then latest else insert report.uuid report latest
  ]

  -- The second half: what becomes of the recent reports of the agent.
  unfoldable pub update_recent : Report B → ℕ → List (Report B) → List (Report B)
  update_recent report cutoff recent =
      let reports = reports_after recent cutoff in
      if ltb report.updated_at cutoff then reports else insert_report report reports

  -- RecordReport; `stamped` is the clock as it is read first, for a report without a time.
  unfoldable pub record_report : Report B → ℕ → ℕ → Agents B → Agents B
  unfolding update_latest update_recent
  record_report given stamped now a =
      if eqb given.uuid []
      then a
      else let report : Report B =
          if given.updated_at == 0 then record given { updated_at = stamped } else given in
        record a {
          latest_report = update_latest report a.latest_report;
          recent_reports =
              insert report.uuid
                (update_recent report (now - recent_report_retention)
                  (or_empty (lookup report.uuid a.recent_reports)))
                a.recent_reports;
        }

  -- GetRecentReports
  unfoldable pub get_recent_reports : Bytes → ℕ → Agents B → List (Report B) × Agents B
  get_recent_reports uuid now a =
      let reports =
        reports_after (or_empty (lookup uuid a.recent_reports)) (now - recent_report_retention) in
      if length reports == 0
      then ([], record a { recent_reports = delete uuid a.recent_reports })
      else (reports, record a { recent_reports = insert uuid reports a.recent_reports })

  -- DeleteLatestReport
  unfoldable pub delete_latest_report : Bytes → Agents B → Agents B
  delete_latest_report uuid a = record a {
    latest_report = delete uuid a.latest_report;
    recent_reports = delete uuid a.recent_reports;
  }

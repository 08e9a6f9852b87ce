-- ===== src/Notifier.antt =====
-- The notices that an agent is offline or online again, utils/notifier/offline.go, of one client: the
-- clients share nothing but the map that has a state for each. A time is a number of nanoseconds, 0
-- for Go's zero time. The goroutines that wait for the end of a grace period are a list of timers,
-- and each runs once, at any time that is not before its end.
pub mod Notices
pub mod Counts
pub mod Grace
mod Tests
use mango_hub.Base.{
  ℕ, zero, suc, ◌+◌, ◌*◌, ◌^◌, ◌≡◌, Bool, true, false, not, ◌&&◌, ◌||◌, Option, none, some, List,
  [], ◌∷◌, ◌++◌, get_elem?, ltb, leb, ◌==◌, if◌then◌else◌,
}
use mango_hub.Base.Int.{ℤ, pos, pos_part, leb_ℤ}

abbrev pub second : ℕ
second = 10 ^ 9

-- A goroutine that sleeps: its startTime, its expectedConnectionID and the end of the grace period.
pub record Timer : Type 0 where
  pub start : ℕ
  pub expected : ℕ
  pub due : ℕ

-- notificationState, with the goroutines that OfflineNotification has started.
pub record NotificationState : Type 0 where
  pub pending_offline_since : ℕ
  pub is_first_connection : Bool
  pub is_conn_exist : Bool
  pub connection_id : ℕ
  pub timers : List Timer

unfoldable pub new_state : NotificationState
new_state = record {
  pending_offline_since = 0;
  is_first_connection = true;
  is_conn_exist = false;
  connection_id = 0;
  timers = [];
}

-- A message that is sent, with the connection that it is about; the first also has the time that is
-- stored as last_notified.
pub data Notice : Type 0 where
  went_offline : ℕ → ℕ → Notice
  came_online : ℕ → Notice

-- The grace period of the configuration in nanoseconds, by default 5 minutes.
unfoldable pub grace_of : ℤ → ℕ
grace_of configured =
    if leb_ℤ configured (pos 0) then 300 * second else pos_part configured * second

-- OfflineNotification up to the start of its goroutine. `found` is that the client exists, `enabled`
-- the configuration.
unfoldable pub offline_notification :
    Bool → Bool → ℤ → ℕ → ℕ → NotificationState → NotificationState
unfolding grace_of
offline_notification found enabled configured now ended s =
    if not found
    then s
    else if not enabled
    then s
    else if not (s.pending_offline_since == 0) || not (s.connection_id == ended)
    then s
    else record s {
      pending_offline_since = now;
      timers =
          s.timers
          ++ record { start = now; expected = ended; due = now + grace_of configured } ∷ [];
    }

-- The goroutine after its sleep.
unfoldable pub after_grace : Timer → NotificationState → List Notice × NotificationState
after_grace t s =
    if (s.pending_offline_since == 0) || not (s.connection_id == t.expected) then ([], s) else (
      went_offline t.expected t.start ∷ [],
      record s { pending_offline_since = 0; is_conn_exist = false },
    )

unfoldable pub update_online_state : ℕ → NotificationState → Bool × NotificationState
update_online_state id s =
    if s.is_first_connection
    then (
      false,
      record s {
        connection_id = id;
        is_first_connection = false;
        pending_offline_since = 0;
        is_conn_exist = true;
      },
    )
    else if not (s.pending_offline_since == 0)
    then (false, record s { connection_id = id; pending_offline_since = 0 })
    else if s.is_conn_exist
    then (false, record s { connection_id = id; pending_offline_since = 0 })
    else (true, record s { connection_id = id; pending_offline_since = 0; is_conn_exist = true })

unfoldable pub online_notification :
    Bool → Bool → ℕ → NotificationState → List Notice × NotificationState
unfolding update_online_state
online_notification found enabled id s =
    if not found
    then ([], s)
    else (let (should_notify, s') = update_online_state id s in
        (if not enabled || not should_notify then [] else came_online id ∷ [], s'))

pub data Event : Type 0 where
  ends : Bool → Bool → ℤ → ℕ → ℕ → Event
  connects : Bool → Bool → ℕ → Event
  wakes : ℕ → ℕ → Event

remove_at : ℕ → List Timer → List Timer
remove_at n [] = []
remove_at zero (t ∷ ts) = ts
remove_at (suc n) (t ∷ ts) = t ∷ remove_at n ts

-- A timer runs when it is due; one that is not there does not run.
wake : ℕ → ℕ → Option Timer → NotificationState → List Notice × NotificationState
unfolding after_grace remove_at
wake now n none s = ([], s)
wake now n (some t) s =
    if ltb now t.due then ([], s) else after_grace t (record s { timers = remove_at n s.timers })

unfoldable pub step : Event → NotificationState → List Notice × NotificationState
unfolding wake
step (ends found enabled configured now ended) s =
    ([], offline_notification found enabled configured now ended s)
step (connects found enabled id) s = online_notification found enabled id s
step (wakes now n) s = wake now n (get_elem? s.timers n) s

unfoldable pub run : List Event → NotificationState → List Notice × NotificationState
unfolding step
run [] s = ([], s)
run (event ∷ events) s =
    let (now, s') = step event s in let (later, s'') = run events s' in (now ++ later, s'')

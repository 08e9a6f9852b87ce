-- ===== src/Notifier/Tests.antt =====
-- Tests and examples for utils/notifier/offline.go.
use mango_hub.Base.{◌*◌, ◌≡◌, refl, true, false, List, [], ◌∷◌}
use mango_hub.Base.Int.{pos}
use mango_hub.Notifier.{
  second, NotificationState, new_state, went_offline, came_online, Event, ends, connects, wakes,
  offline_notification, online_notification, run,
}
use mango_hub.Notifier.Notices.{Answers, run-Answers}

-- A first connection, a loss that is reported, and a return.
abbrev lost_and_back : List Event
lost_and_back =
    connects true true 1
    ∷ ends true true (pos 60) (5 * second) 1
    ∷ wakes (65 * second) 0
    ∷ connects true true 2
    ∷ []

lost_and_back_notices :
    (run lost_and_back new_state).0 ≡ went_offline 1 (5 * second) ∷ came_online 2 ∷ []
unfolding run new_state online_notification offline_notification
lost_and_back_notices = refl

run-Answers_example : Answers true (came_online 2 ∷ [])
unfolding run new_state online_notification offline_notification
run-Answers_example = run-Answers lost_and_back

abbrev connected : NotificationState
connected = record {
  pending_offline_since = 0;
  is_first_connection = false;
  is_conn_exist = true;
  connection_id = 7;
  timers = [];
}

-- ===== src/Notifier/Grace.antt =====
-- The grace period of a lost connection (utils/notifier/offline.go).
use mango_hub.Base.{
  ℕ, ◌+◌, ◌≤◌, ◌≡◌, ◌≢◌, refl, sym, ap, ◌∙◌, Bool, true, not, ◌||◌, some, List, [], ◌∷◌, ◌++◌,
  length, get_elem?, ltb, ◌==◌, arith, if◌then◌else◌,
}
use mango_hub.Base.Branch.{either, if_true, if_false}
use mango_hub.Base.Int.{ℤ}
use mango_hub.Notifier.{
  Timer, NotificationState, Notice, went_offline, came_online, grace_of, offline_notification,
  after_grace, update_online_state, online_notification, ends, connects, wakes, wake, step, run,
}

get_elem?-last : (ts : List Timer) (t : Timer) → get_elem? (ts ++ t ∷ []) (length ts) ≡ some t
get_elem?-last [] t = refl
get_elem?-last (u ∷ ts) t = get_elem?-last ts t

module _ (s : NotificationState) (configured : ℤ) (now : ℕ) where
  timer : Timer
  timer = record { start = now; expected = s.connection_id; due = now + grace_of configured }

  -- The state after the end of the current connection.
  away : NotificationState
  away = record s { pending_offline_since = now; timers = s.timers ++ timer ∷ [] }

  offline_notification-away :
      s.pending_offline_since ≡ 0
      → offline_notification true true configured now s.connection_id s ≡ away
  unfolding offline_notification away timer
  offline_notification-away h =
      if_false (λ s'. s' ≡ away) s
        (not (s.pending_offline_since == 0) || not (s.connection_id == s.connection_id))
        (ground arith) refl

  wake-lost :
      (later n : ℕ)
      → now ≢ 0
      → now + grace_of configured ≤ later
      → (wake later n (some timer) away).0 ≡ went_offline s.connection_id now ∷ []
  unfolding wake away timer after_grace
  wake-lost later n h k =
      if_false
        (λ (o : List Notice × NotificationState). o.0 ≡ went_offline s.connection_id now ∷ []) _
        (ltb later (now + grace_of configured)) (ground arith)
        (if_false
          (λ (o : List Notice × NotificationState). o.0 ≡ went_offline s.connection_id now ∷ []) _
          ((now == 0) || not (s.connection_id == s.connection_id)) (ground arith) refl)

  -- Another connection before the end of the grace period.
  online_notification-silent :
      (id : ℕ)
      → now ≢ 0
      → ((online_notification true true id away).0 ≡ [])
        × ((online_notification true true id away).1.connection_id ≡ id)
        × ((online_notification true true id away).1.timers ≡ away.timers)
  unfolding online_notification update_online_state away
  online_notification-silent id h =
      let Q = λ (o : Bool × NotificationState).
        ((if not o.0 then [] else came_online id ∷ []) ≡ [])
        × (o.1.connection_id ≡ id)
        × (o.1.timers ≡ s.timers ++ timer ∷ []) in
      either Q s.is_first_connection (refl, refl, refl)
        (if_true Q _ (not (now == 0)) (ground arith) (refl, refl, refl))

  wake-back :
      (later n : ℕ) (s' : NotificationState)
      → s'.connection_id ≢ s.connection_id
      → (wake later n (some timer) s').0 ≡ []
  unfolding wake timer after_grace
  wake-back later n s' h =
      let Q = λ (o : List Notice × NotificationState). o.0 ≡ [] in
      either Q (ltb later (now + grace_of configured)) refl (
        if_true Q _ ((s'.pending_offline_since == 0) || not (s'.connection_id == s.connection_id))
          (ground arith) refl)

  back-silent :
      (later id : ℕ) (o : List Notice × NotificationState)
      → id ≢ s.connection_id
      → (o.0 ≡ []) × (o.1.connection_id ≡ id) × (o.1.timers ≡ away.timers)
      → o.0 ++ ((wake later (length s.timers) (get_elem? o.1.timers (length s.timers)) o.1).0 ++ [])
        ≡ []
  unfolding away
  back-silent later id o other (silent, there, same) =
      ap (λ l. l ++ ((wake later n (get_elem? o.1.timers n) o.1).0 ++ [])) silent
      ∙ ap (λ ts. (wake later n (get_elem? ts n) o.1).0 ++ []) same
      ∙ ap (λ t. (wake later n t o.1).0 ++ []) (get_elem?-last s.timers timer)
      ∙ ap (λ l. l ++ []) (wake-back later n o.1 (λ e. other (sym there ∙ e)))
    where
      n : ℕ
      n = length s.timers

  -- The current connection of an agent ends while notices are on and no grace period runs. If nothing
  -- else happens, it is reported as lost once the grace period is over, with the time of its end; if
  -- another connection comes first, neither that one nor the end of the grace period is reported.
  pub run-grace :
      (later id : ℕ)
      → s.pending_offline_since ≡ 0
      → now ≢ 0
      → now + grace_of configured ≤ later
      → id ≢ s.connection_id
      → ((run
            (ends true true configured now s.connection_id ∷ wakes later (length s.timers) ∷ [])
            s).0
          ≡ went_offline s.connection_id now ∷ [])
        × ((run
              (ends true true configured now s.connection_id
                ∷ connects true true id
                ∷ wakes later (length s.timers)
                ∷ [])
              s).0
            ≡ [])
  unfolding run step away
  run-grace later id quiet h k other = (
    rw (offline_notification-away quiet, get_elem?-last s.timers timer)
        (ap (λ l. l ++ []) (wake-lost later (length s.timers) h k)),
    rw (offline_notification-away quiet) (
        back-silent later id (online_notification true true id away) other
          (online_notification-silent id h)),
  )

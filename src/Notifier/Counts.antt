-- ===== src/Notifier/Counts.antt =====
-- The number of the notices of a client (utils/notifier/offline.go).
use mango_hub.Base.{
  ℕ, zero, suc, ◌+◌, ◌≤◌, ◌≡◌, refl, ap, Bool, not, ◌||◌, Option, none, some, List, [], ◌∷◌, ◌++◌,
  get_elem?, ltb, ◌==◌, arith, if◌then◌else◌,
}
use mango_hub.Base.Branch.{either}
use mango_hub.Base.Int.{ℤ}
use mango_hub.Notifier.{
  Timer, NotificationState, new_state, Notice, went_offline, came_online, grace_of,
  offline_notification, after_grace, update_online_state, online_notification, Event, ends,
  connects, wakes, remove_at, wake, step, run,
}

-- How often a connection is reported as lost, how often it ends, and how often a goroutine waits to
-- report it.
abbrev pub reports_of : ℕ → List Notice → ℕ
reports_of id [] = 0
reports_of id (went_offline i since ∷ ns) = (if i == id then 1 else 0) + reports_of id ns
reports_of id (came_online i ∷ ns) = reports_of id ns

abbrev pub ends_of : ℕ → List Event → ℕ
ends_of id [] = 0
ends_of id (ends f e c now i ∷ events) = (if i == id then 1 else 0) + ends_of id events
ends_of id (connects f e i ∷ events) = ends_of id events
ends_of id (wakes now n ∷ events) = ends_of id events

abbrev waiting_of : ℕ → List Timer → ℕ
waiting_of id [] = 0
waiting_of id (t ∷ ts) = (if t.expected == id then 1 else 0) + waiting_of id ts

reports_of-append :
    (id : ℕ) (ms ns : List Notice) → reports_of id (ms ++ ns) ≡ reports_of id ms + reports_of id ns
reports_of-append id [] ns = omega arith
reports_of-append id (went_offline i since ∷ ms) ns = omega (arith, reports_of-append id ms ns)
reports_of-append id (came_online i ∷ ms) ns = reports_of-append id ms ns

waiting_of-append :
    (id : ℕ) (ts us : List Timer) → waiting_of id (ts ++ us) ≡ waiting_of id ts + waiting_of id us
waiting_of-append id [] us = omega arith
waiting_of-append id (t ∷ ts) us = omega (arith, waiting_of-append id ts us)

after_grace-reports :
    (id : ℕ) (t : Timer) (s : NotificationState)
    → (reports_of id (after_grace t s).0 ≤ (if t.expected == id then 1 else 0))
      × ((after_grace t s).1.timers ≡ s.timers)
unfolding after_grace
after_grace-reports id t s =
    either
      (λ (o : List Notice × NotificationState).
        (reports_of id o.0 ≤ (if t.expected == id then 1 else 0)) × (o.1.timers ≡ s.timers))
      ((s.pending_offline_since == 0) || not (s.connection_id == t.expected)) (omega arith, refl)
      (omega arith, refl)

abbrev expected_or : ℕ → Option Timer → ℕ
expected_or d none = d
expected_or d (some t) = t.expected

waiting_of-remove_at :
    (id n : ℕ) (ts : List Timer) (t : Timer)
    → get_elem? ts n ≡ some t
    → waiting_of id ts ≡ (if t.expected == id then 1 else 0) + waiting_of id (remove_at n ts)
unfolding remove_at
waiting_of-remove_at id n [] t e = ground arith
waiting_of-remove_at id zero (u ∷ ts) t e = rw (ap (expected_or 0) e) refl
waiting_of-remove_at id (suc n) (u ∷ ts) t e = omega (arith, waiting_of-remove_at id n ts t e)

-- What a step takes from the goroutines that wait it reports at most once.
abbrev Counted : ℕ → NotificationState → ℕ → List Notice × NotificationState → Type 0
Counted id s more o = reports_of id o.0 + waiting_of id o.1.timers ≤ more + waiting_of id s.timers

offline_notification-Counted :
    (id : ℕ) (f e : Bool) (c : ℤ) (now i : ℕ) (s : NotificationState)
    → waiting_of id (offline_notification f e c now i s).timers
      ≤ (if i == id then 1 else 0) + waiting_of id s.timers
unfolding offline_notification
offline_notification-Counted id f e c now i s =
    let Q = λ (s' : NotificationState).
      waiting_of id s'.timers ≤ (if i == id then 1 else 0) + waiting_of id s.timers in
    let same : waiting_of id s.timers ≤ (if i == id then 1 else 0) + waiting_of id s.timers =
      omega arith in
    either Q (not f) same (
      either Q (not e) same (
        either Q (not (s.pending_offline_since == 0) || not (s.connection_id == i)) same (
          omega (
            arith,
            waiting_of-append id s.timers
                (record { start = now; expected = i; due = now + grace_of c } ∷ []),
          ))))

timers-update_online_state :
    (id : ℕ) (s : NotificationState) → (update_online_state id s).1.timers ≡ s.timers
unfolding update_online_state
timers-update_online_state id s =
    let Q = λ (o : Bool × NotificationState). o.1.timers ≡ s.timers in
    either Q s.is_first_connection refl
      (either Q (not (s.pending_offline_since == 0)) refl (either Q s.is_conn_exist refl refl))

online_notification-Counted :
    (id : ℕ) (f e : Bool) (i : ℕ) (s : NotificationState)
    → Counted id s 0 (online_notification f e i s)
unfolding online_notification
online_notification-Counted id f e i s =
    either (Counted id s 0) (not f) (omega arith)
      (omega (arith, none_lost, ap (waiting_of id) (timers-update_online_state i s)))
  where
    none_lost :
        reports_of id (if not e || not (update_online_state i s).0 then [] else came_online i ∷ [])
        ≡ 0
    none_lost =
        either (λ ns. reports_of id ns ≡ 0) (not e || not (update_online_state i s).0) refl refl

wake-Counted :
    (id now n : ℕ) (o : Option Timer) (s : NotificationState)
    → get_elem? s.timers n ≡ o
    → Counted id s 0 (wake now n o s)
unfolding wake
wake-Counted id now n none s e = omega arith
wake-Counted id now n (some t) s e =
    let left : NotificationState = record s { timers = remove_at n s.timers } in
    let (once, kept) = after_grace-reports id t left in
    either (Counted id s 0) (ltb now t.due) (omega arith)
      (omega (arith, once, ap (waiting_of id) kept, waiting_of-remove_at id n s.timers t e))

step-Counted :
    (id : ℕ) (event : Event) (s : NotificationState)
    → Counted id s (ends_of id (event ∷ [])) (step event s)
unfolding step
step-Counted id (ends f e c now i) s = omega (arith, offline_notification-Counted id f e c now i s)
step-Counted id (connects f e i) s = online_notification-Counted id f e i s
step-Counted id (wakes now n) s = wake-Counted id now n (get_elem? s.timers n) s refl

ends_of-first :
    (id : ℕ) (event : Event) (events : List Event)
    → ends_of id (event ∷ events) ≡ ends_of id (event ∷ []) + ends_of id events
ends_of-first id (ends f e c now i) events = omega arith
ends_of-first id (connects f e i) events = omega arith
ends_of-first id (wakes now n) events = omega arith

run-Counted :
    (id : ℕ) (events : List Event) (s : NotificationState)
    → Counted id s (ends_of id events) (run events s)
unfolding run
run-Counted id [] s = omega arith
run-Counted id (event ∷ events) s = omega (
  arith,
  step-Counted id event s,
  run-Counted id events (step event s).1,
  reports_of-append id (step event s).0 (run events (step event s).1).0,
  ends_of-first id event events,
)

-- In any run, a connection is reported as lost at most as often as its end was notified.
pub reports_of-run :
    (id : ℕ) (events : List Event) → reports_of id (run events new_state).0 ≤ ends_of id events
unfolding new_state
reports_of-run id events = omega (arith, run-Counted id events new_state)

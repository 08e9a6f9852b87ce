-- ===== src/Notifier/Notices.antt =====
-- The order of the notices of a client (utils/notifier/offline.go).
use mango_hub.Base.{
  ℕ, ◌≡◌, ◌≢◌, refl, sym, ◌∙◌, Bool, true, false, not, ◌||◌, Option, none, some, List, [], ◌∷◌,
  ◌++◌, get_elem?, ltb, ◌==◌, arith, if◌then◌else◌,
}
use mango_hub.Base.Branch.{either, either_by}
use mango_hub.Base.Int.{ℤ}
use mango_hub.Notifier.{
  Timer, NotificationState, new_state, Notice, went_offline, came_online, offline_notification,
  after_grace, update_online_state, online_notification, Event, ends, connects, wakes, wake, step,
  run,
}

-- Every notice that the agent is online has one before it that it is offline, with no other in
-- between; `reported` is whether there is one before the first.
abbrev pub Answers : Bool → List Notice → Type 0
Answers reported [] = Unit
Answers reported (went_offline id since ∷ ns) = Answers true ns
Answers reported (came_online id ∷ ns) = (reported ≡ true) × Answers false ns

-- Whether the last notice is that the agent is offline.
abbrev reported_after : Bool → List Notice → Bool
reported_after reported [] = reported
reported_after reported (went_offline id since ∷ ns) = reported_after true ns
reported_after reported (came_online id ∷ ns) = reported_after false ns

Answers-append :
    (b : Bool) (ms ns : List Notice)
    → Answers b ms
    → Answers (reported_after b ms) ns
    → Answers b (ms ++ ns)
Answers-append b [] ns h k = k
Answers-append b (went_offline id since ∷ ms) ns h k = Answers-append true ms ns h k
Answers-append b (came_online id ∷ ms) ns h k = (h.0, Answers-append false ms ns h.1 k)

-- An agent that was there before and is not now was reported.
abbrev Reported : Bool → NotificationState → Type 0
Reported b s = s.is_first_connection ≡ false → s.is_conn_exist ≡ false → b ≡ true

-- What a step does to the notices.
abbrev Fine : Bool → List Notice × NotificationState → Type 0
Fine b o = Answers b o.0 × Reported (reported_after b o.0) o.1

offline_notification-Reported :
    (b found enabled : Bool) (configured : ℤ) (now ended : ℕ) (s : NotificationState)
    → Reported b s
    → Reported b (offline_notification found enabled configured now ended s)
unfolding offline_notification
offline_notification-Reported b found enabled configured now ended s h =
    either (Reported b) (not found) h (
      either (Reported b) (not enabled) h (
        either (Reported b) (not (s.pending_offline_since == 0) || not (s.connection_id == ended)) h
          h))

after_grace-Fine :
    (b : Bool) (t : Timer) (s : NotificationState) → Reported b s → Fine b (after_grace t s)
unfolding after_grace
after_grace-Fine b t s h =
    either (Fine b) ((s.pending_offline_since == 0) || not (s.connection_id == t.expected)) (tt, h)
      (tt, λ x y. refl)

-- What updateOnlineState does to an agent that was reported, if it was away.
abbrev Updated : Bool → Bool × NotificationState → Type 0
Updated b o = (o.0 ≡ true → (b ≡ true) × (o.1.is_conn_exist ≡ true)) × Reported b o.1

not-true : true ≢ false
not-true e = ground arith

update_online_state-Updated :
    (b : Bool) (id : ℕ) (s : NotificationState)
    → Reported b s
    → Updated b (update_online_state id s)
unfolding update_online_state
update_online_state-Updated b id s h =
    either_by (Updated b) s.is_first_connection
      (λ f. ((λ e. ground arith), λ x y. absurd (not-true y)))
      (λ f.
        either (Updated b) (not (s.pending_offline_since == 0)) ((λ e. ground arith), λ x y. h x y)
          (either_by (Updated b) s.is_conn_exist (λ g. ((λ e. ground arith), λ x y. h x y))
            (λ g. ((λ e. (h f g, refl)), λ x y. absurd (not-true y)))))

send-Fine :
    (b enabled : Bool) (id : ℕ) (o : Bool × NotificationState)
    → Updated b o
    → Fine b ((if not enabled || not o.0 then [] else came_online id ∷ []), o.1)
send-Fine b false id o u = (tt, u.1)
send-Fine b true id (false, s) u = (tt, u.1)
send-Fine b true id (true, s) u =
    let (reported, exists) = u.0 refl in ((reported, tt), λ x y. absurd (not-true (sym exists ∙ y)))

online_notification-Fine :
    (b found enabled : Bool) (id : ℕ) (s : NotificationState)
    → Reported b s
    → Fine b (online_notification found enabled id s)
unfolding online_notification
online_notification-Fine b found enabled id s h =
    either (Fine b) (not found) (tt, h)
      (send-Fine b enabled id (update_online_state id s) (update_online_state-Updated b id s h))

wake-Fine :
    (b : Bool) (now n : ℕ) (o : Option Timer) (s : NotificationState)
    → Reported b s
    → Fine b (wake now n o s)
unfolding wake
wake-Fine b now n none s h = (tt, h)
wake-Fine b now n (some t) s h = either (Fine b) (ltb now t.due) (tt, h) (after_grace-Fine b t _ h)

step-Fine :
    (b : Bool) (event : Event) (s : NotificationState) → Reported b s → Fine b (step event s)
unfolding step
step-Fine b (ends f e c now id) s h = (tt, offline_notification-Reported b f e c now id s h)
step-Fine b (connects f e id) s h = online_notification-Fine b f e id s h
step-Fine b (wakes now n) s h = wake-Fine b now n (get_elem? s.timers n) s h

run-Answers_from :
    (b : Bool) (events : List Event) (s : NotificationState)
    → Reported b s
    → Answers b (run events s).0
unfolding run
run-Answers_from b [] s h = tt
run-Answers_from b (event ∷ events) s h =
    let now = step-Fine b event s h in
    Answers-append b (step event s).0 (run events (step event s).1).0 now.0
      (run-Answers_from (reported_after b (step event s).0) events (step event s).1 now.1)

-- However connections start and end, grace periods end and the configuration changes: an agent is
-- reported as online only after it was reported as offline, at most once for each such report.
pub run-Answers : (events : List Event) → Answers false (run events new_state).0
unfolding new_state
run-Answers events = run-Answers_from false events new_state (λ x y. absurd (not-true x))

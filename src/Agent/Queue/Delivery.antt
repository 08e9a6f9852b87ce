-- ===== src/Agent/Queue/Delivery.antt =====
-- The delivery of events to an agent that takes them or waits for them (web/agent/v2_events.go).
use mango_hub.Base.{
  ℕ, zero, suc, ◌-◌, ◌≤◌, ◌<◌, ◌≡◌, refl, inl, inr, Bool, true, false, Option, List, [], ◌∷◌, ◌++◌,
  length, take, drop, keep, Bytes, eqb, eqb_refl, ltb, arith, Bool-cases, length-append, lt→ltb,
  length-drop, length-keep-le, if◌then◌else◌, ap,
}
use mango_hub.Base.Int.{ℤ, pos}
use mango_hub.Base.Assoc.{insert, lookup-insert}
use mango_hub.Agent.Queue.{
  Event, Queue, Queues, queue_limit, IdList, queue_of, ack_events, is_live, prune_expired,
  take_events, take_queued, wait_begin, is_closed, coalesce, push_event, enqueue,
}

pub data Among {ℓ} {A : Type ℓ} (x : A) : List A → Type ℓ where
  here : {xs : List A} → Among x (x ∷ xs)
  there : {y : A} {xs : List A} → Among x xs → Among x (y ∷ xs)

module _ {ℓ} {A : Type ℓ} where
  Among-snoc : (x : A) (xs : List A) → Among x (xs ++ x ∷ [])
  Among-snoc x [] = here
  Among-snoc x (y ∷ xs) = there (Among-snoc x xs)

  -- What is cut off in front does not reach the last element.
  drop-snoc : (x : A) (n : ℕ) (xs : List A) → n ≤ length xs → Among x (drop n (xs ++ x ∷ []))
  drop-snoc x zero xs h = Among-snoc x xs
  drop-snoc x (suc n) [] h = elim h [ ]
  drop-snoc x (suc n) (y ∷ xs) h = drop-snoc x n xs (omega arith)

  Among-keep : (p : A → Bool) (x : A) {xs : List A} → p x ≡ true → Among x xs → Among x (keep p xs)
  Among-keep p x h here = rw h here
  Among-keep p x h (there {y = y} {xs = xs} a) = elim (Bool-cases (p y)) [
    | inl e ↦ rw e (there (Among-keep p x h a))
    | inr e ↦ rw e (Among-keep p x h a)
  ]

  take-whole : (n : ℕ) (xs : List A) → length xs ≤ n → take n xs ≡ xs
  take-whole zero [] h = refl
  take-whole zero (x ∷ xs) h = absurd (omega arith)
  take-whole (suc n) [] h = refl
  take-whole (suc n) (x ∷ xs) h = ap (λ l. x ∷ l) (take-whole n xs (omega arith))

  keep-keep : (p : A → Bool) (xs : List A) → keep p (keep p xs) ≡ keep p xs
  keep-keep p [] = refl
  keep-keep p (x ∷ xs) = elim (Bool-cases (p x)) [
    | inl e ↦ rw (e, e) (ap (λ l. x ∷ l) (keep-keep p xs))
    | inr e ↦ rw e (keep-keep p xs)
  ]

module _ {V : Type 0} where
  queue_of-insert :
      (uuid other : Bytes) (q : Queue V) (qs : Queues V)
      → queue_of other (insert uuid q qs) ≡ (if eqb uuid other then q else queue_of other qs)
  unfolding queue_of
  queue_of-insert uuid other q qs = ground (arith, lookup-insert uuid other q qs)

  -- TakeV2Events hands the events over without removing them: asked again at the same time, with
  -- nothing acknowledged between, it gives the same ones; and the queues of other agents are untouched.
  pub take_queued-again :
      (uuid other : Bytes) (acks : IdList) (limit : ℤ) (now : ℕ) (qs : Queues V)
      → eqb uuid other ≡ false
      → let (given, qs') = take_queued uuid acks limit now qs in
        ((take_queued uuid [] limit now qs').0 ≡ given) × (queue_of other qs' ≡ queue_of other qs)
  unfolding take_queued ack_events prune_expired
  take_queued-again uuid other acks limit now qs ne =
      (simp (queue_of-insert, eqb_refl, keep-keep), simp (queue_of-insert, ne))

  -- What a blocked WaitV2Events leaves behind: its signal is the queue's, and is not closed.
  wait_begin-blocked :
      (uuid : Bytes) (acks : IdList) (now s : ℕ) (no_timeout : Bool) (qs qs' : Queues V)
      → wait_begin uuid acks no_timeout now qs ≡ (inr s, qs')
      → ((queue_of uuid qs').signal ≡ s) × (is_closed uuid s qs' ≡ false)
  unfolding wait_begin is_closed
  wait_begin-blocked uuid acks now s no_timeout qs qs' e =
      let left : List (Event V) = prune_expired now (ack_events acks (queue_of uuid qs).events) in
      let q : Queue V = record (queue_of uuid qs) { events = left } in
      let at : queue_of uuid (insert uuid q qs) ≡ q = simp (queue_of-insert, eqb_refl) in
      ground (arith, at)

module _ {V : Type 0} (terminal_request : V → Option Bytes) (ping_task : V → Option ℕ) where
  push_event-holds :
      (event : Event V) (now : ℕ) (events : List (Event V))
      → Among event (push_event terminal_request ping_task event now events)
        × (length (push_event terminal_request ping_task event now events) ≤ queue_limit)
  unfolding push_event
  push_event-holds event now events =
      cut (coalesce terminal_request ping_task event (prune_expired now events))
    where
      cut :
          (kept : List (Event V))
          → let all = kept ++ event ∷ [] in
            let pushed =
              if ltb queue_limit (length all) then drop (length all - queue_limit) all else all in
            Among event pushed × (length pushed ≤ queue_limit)
      cut kept = elim (Bool-cases (ltb queue_limit (length (kept ++ event ∷ [])))) [
        | inl y ↦ rw y (
          drop-snoc event (length (kept ++ event ∷ []) - queue_limit) kept
              (omega (arith, length-append kept (event ∷ []))),
          omega
              (arith, length-drop (length (kept ++ event ∷ []) - queue_limit) (kept ++ event ∷ [])),
        )
        | inr n ↦ rw n (Among-snoc event kept, ground arith)
      ]

  take_all :
      (now : ℕ) (event : Event V) (events : List (Event V))
      → Among event events
      → length events ≤ queue_limit
      → now < event.expires_at
      → Among event (take_events (pos queue_limit) (prune_expired now events))
  unfolding take_events prune_expired is_live
  take_all now event events a short live =
      rw (whole (omega (arith, length-keep-le (is_live now) events)))
        (Among-keep (is_live now) event (ground arith) a)
    where
      whole :
          length (keep (is_live now) events) ≤ queue_limit
          → take_events (pos queue_limit) (keep (is_live now) events) ≡ keep (is_live now) events
      whole h = elim (Bool-cases (ltb (length (keep (is_live now) events)) queue_limit)) [
        | inl y ↦ rw y
        | inr n ↦ rw n (take-whole queue_limit (keep (is_live now) events) h)
      ]

  -- No wake-up is lost: while an agent waits, the event that is queued for it next closes the signal
  -- it waits for, which was open until then, and TakeV2Events, with which the wait ends, delivers the
  -- event if it has not expired by then.
  pub enqueue-wakes :
      (uuid : Bytes) (acks : IdList) (event : Event V) (no_timeout : Bool) (now s t later : ℕ)
      (qs qs' : Queues V)
      → wait_begin uuid acks no_timeout now qs ≡ (inr s, qs')
      → later < event.expires_at
      → (is_closed uuid s qs' ≡ false)
        × (is_closed uuid s (enqueue terminal_request ping_task uuid event t qs') ≡ true)
        × Among event
            (take_queued uuid []
              (pos queue_limit)
              later
              (enqueue terminal_request ping_task uuid event t qs')).0
  unfolding enqueue take_queued ack_events is_closed
  enqueue-wakes uuid acks event no_timeout now s t later qs qs' e live =
      let (same, open_then) = wait_begin-blocked uuid acks now s no_timeout qs qs' e in
      let (held, short) = push_event-holds event t (queue_of uuid qs').events in
      (
        open_then,
        simp (queue_of-insert, eqb_refl, same) (lt→ltb s (suc s) (omega arith)),
        simp (queue_of-insert, eqb_refl) (take_all later event _ held short live),
      )

-- ===== src/Agent/Queue/Keys.antt =====
-- The length of an agent's queue, and the keys by which its events are coalesced
-- (web/agent/v2_events.go).
use mango_hub.Base.{
  ℕ, zero, suc, ◌-◌, ◌≤◌, ◌≡◌, ◌≢◌, ◌⊎◌, inl, inr, Bool, not, Option, List, [], ◌∷◌, ◌++◌, length,
  drop, keep, All, All-keep, Bytes, eqb, eqb_iff, eqb→eq, ltb, arith, Bool-cases, length-drop,
  length-keep-le, if◌then◌else◌,
}
use mango_hub.Agent.Queue.{
  Event, queue_limit, IdList, ack_events, is_live, prune_expired, coalesce_key, coalesce,
  push_event,
}

All-drop {ℓ} : {A : Type ℓ} (P : A → Type 0) (n : ℕ) (xs : List A) → All P xs → All P (drop n xs)
All-drop P zero xs h = h
All-drop P (suc n) [] h = h
All-drop P (suc n) (x ∷ xs) h = All-drop P n xs h.1

module _ {V : Type 0} (terminal_request : V → Option Bytes) (ping_task : V → Option ℕ) where
  abbrev pub key : Event V → Bytes
  key e = coalesce_key terminal_request ping_task e

  -- Two events that coalesce have the same key, and it is not empty.
  abbrev pub Apart : Event V → Event V → Type 0
  Apart e f = (key e ≡ []) ⊎ (key f ≢ key e)

  abbrev pub Distinct : List (Event V) → Type 0
  Distinct [] = Unit
  Distinct (e ∷ es) = All (Apart e) es × Distinct es

  -- At most 128 events, and no two of them would coalesce.
  pub record IsQueue (events : List (Event V)) : Type 0 where
    pub bounded : length events ≤ queue_limit
    pub distinct : Distinct events

  Distinct-keep : (p : Event V → Bool) (es : List (Event V)) → Distinct es → Distinct (keep p es)
  Distinct-keep p [] h = tt
  Distinct-keep p (e ∷ es) h = elim (Bool-cases (p e)) [
    | inl y ↦ rw y (All-keep (Apart e) p es h.0, Distinct-keep p es h.1)
    | inr n ↦ rw n (Distinct-keep p es h.1)
  ]

  Distinct-drop : (n : ℕ) (es : List (Event V)) → Distinct es → Distinct (drop n es)
  Distinct-drop zero es h = h
  Distinct-drop (suc n) [] h = h
  Distinct-drop (suc n) (e ∷ es) h = Distinct-drop n es h.1

  Distinct-snoc :
      (x : Event V) (es : List (Event V))
      → Distinct es
      → All (λ e. Apart e x) es
      → Distinct (es ++ x ∷ [])
  Distinct-snoc x [] h k = (tt, tt)
  Distinct-snoc x (e ∷ es) h k = (snoc es h.0, Distinct-snoc x es h.1 k.1)
    where
      snoc : (es : List (Event V)) → All (Apart e) es → All (Apart e) (es ++ x ∷ [])
      snoc [] a = (k.0, tt)
      snoc (f ∷ es) a = (a.0, snoc es a.1)

  Apart-unkeyed : (x e : Event V) → key x ≡ [] → Apart e x
  Apart-unkeyed x e h = elim (Bool-cases (eqb (key e) [])) [
    | inl y ↦ inl (eqb→eq (key e) [] y)
    | inr n ↦ inr (λ d. ground (arith, eqb_iff (key e) []))
  ]

  All-unkeyed : (x : Event V) (es : List (Event V)) → key x ≡ [] → All (λ e. Apart e x) es
  All-unkeyed x [] h = tt
  All-unkeyed x (e ∷ es) h = (Apart-unkeyed x e h, All-unkeyed x es h)

  All-kept :
      (x : Event V) (es : List (Event V))
      → All (λ e. Apart e x) (keep (λ e. not (eqb (key e) (key x))) es)
  All-kept x [] = tt
  All-kept x (e ∷ es) = elim (Bool-cases (eqb (key e) (key x))) [
    | inl y ↦ rw y (All-kept x es)
    | inr n ↦ rw n (inr (λ d. ground (arith, eqb_iff (key e) (key x))), All-kept x es)
  ]

  coalesce-Apart :
      (x : Event V) (es : List (Event V))
      → Distinct es
      → Distinct (coalesce terminal_request ping_task x es)
        × All (λ e. Apart e x) (coalesce terminal_request ping_task x es)
  unfolding coalesce
  coalesce-Apart x es h = elim (Bool-cases (eqb (key x) [])) [
    | inl y ↦ rw y (h, All-unkeyed x es (eqb→eq (key x) [] y))
    | inr n ↦ rw n (Distinct-keep _ es h, All-kept x es)
  ]

  drop_to_limit :
      (all : List (Event V)) → length (drop (length all - queue_limit) all) ≤ queue_limit
  drop_to_limit all = omega (arith, length-drop (length all - queue_limit) all)

  IsQueue-keep : (p : Event V → Bool) (es : List (Event V)) → IsQueue es → IsQueue (keep p es)
  IsQueue-keep p es q = record {
    bounded = omega (arith, length-keep-le p es, q.bounded);
    distinct = Distinct-keep p es q.distinct;
  }

  IsQueue-ack : (acks : IdList) (es : List (Event V)) → IsQueue es → IsQueue (ack_events acks es)
  unfolding ack_events
  IsQueue-ack [] es q = q
  IsQueue-ack (x ∷ xs) es q = IsQueue-keep _ es q

  IsQueue-cut :
      (all : List (Event V))
      → Distinct all
      → IsQueue (if ltb queue_limit (length all) then drop (length all - queue_limit) all else all)
  IsQueue-cut all d = elim (Bool-cases (ltb queue_limit (length all))) [
    | inl y ↦ rw y (record {
      bounded = drop_to_limit all;
      distinct = Distinct-drop (length all - queue_limit) all d;
    })
    | inr n ↦ rw n (record { bounded = ground arith; distinct = d })
  ]

  -- EnqueueV2Event keeps the queue within its limit of 128 and free of two events that coalesce, and
  -- so do an acknowledgement and the removal of what has expired.
  pub push_event-IsQueue :
      (event : Event V) (now : ℕ) (acks : IdList) (events : List (Event V))
      → IsQueue events
      → IsQueue (push_event terminal_request ping_task event now events)
        × IsQueue (ack_events acks events)
        × IsQueue (prune_expired now events)
  unfolding push_event prune_expired
  push_event-IsQueue event now acks events q =
      let (distinct, apart) =
        coalesce-Apart event (keep (is_live now) events)
          (Distinct-keep (is_live now) events q.distinct) in
      (
        IsQueue-cut _ (Distinct-snoc event _ distinct apart),
        IsQueue-ack acks events q,
        IsQueue-keep (is_live now) events q,
      )

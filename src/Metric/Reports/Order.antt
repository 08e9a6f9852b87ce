-- ===== src/Metric/Reports/Order.antt =====
-- The times under which reports are written (internal/metricstore/report_batcher.go).
use mango_hub.Base.{
  ℕ, ◌<◌, ◌≡◌, ◌≢◌, refl, ap, subst, ◌∙◌, ◌⊎◌, inl, inr, Bool, true, false, some, List, [], ◌∷◌,
  All, Bytes, eqb, eqb→eq, arith, Bool-cases, if◌then◌else◌,
}
use mango_hub.Base.Assoc.{Map, lookup, insert, lookup-insert}
use mango_hub.Base.Int.{ℤ}
use mango_hub.Metric.Points.{Report}
use mango_hub.Metric.Reports.{
  TrafficValues, Latest, failed, missing, found, first_of, values_of, restore_up, restore_down,
  stamp_after, restore, remember, prepare,
}

module _ (states : Map TrafficValues) where
  -- The time of the last report of an agent, 0 if there is none.
  pub stamp_of : Bytes → Map TrafficValues → ℕ
  stamp_of uuid pending = (values_of uuid pending states).timestamp

  stamp_of-insert :
      (uuid u : Bytes) (v : TrafficValues) (pending : Map TrafficValues)
      → stamp_of u (insert uuid v pending)
        ≡ (if eqb uuid u then v.timestamp else stamp_of u pending)
  unfolding stamp_of values_of
  stamp_of-insert uuid u v pending =
      ap (λ o. (first_of o (lookup u states)).timestamp) (lookup-insert uuid u v pending)
      ∙ split (eqb uuid u)
    where
      split :
          (b : Bool)
          → (first_of (if b then some v else lookup u pending) (lookup u states)).timestamp
            ≡ (if b then v.timestamp else (first_of (lookup u pending) (lookup u states)).timestamp)
      split true = refl
      split false = refl

stamp_after-later :
    (last given : ℕ)
    → given ≢ 0
    → ((last ≡ 0) ⊎ (last < stamp_after last given)) × (stamp_after last given ≢ 0)
unfolding stamp_after
stamp_after-later last given h = ground arith

module _ {F W : Type 0} (of_int : ℤ → F) (latest_before : W → Bytes → Bytes → ℕ → Latest) (w : W)
    (states : Map TrafficValues) where
  -- A report is later than the last one of its agent.
  abbrev pub Later : Map TrafficValues → Report F → Type 0
  Later pending q =
      (stamp_of states q.uuid pending ≡ 0) ⊎ (stamp_of states q.uuid pending < q.updated_at)

  -- Each report is later than the one before it of the same agent.
  abbrev pub Rising : List (Report F) → Type 0
  Rising [] = Unit
  Rising (r ∷ rs) =
      All (λ q. (eqb r.uuid q.uuid ≡ false) ⊎ (r.updated_at < q.updated_at)) rs × Rising rs

  abbrev pub HasTime : Report F → Type 0
  HasTime r = r.updated_at ≢ 0

  timestamp-restore_up : (l : Latest) (v : TrafficValues) → (restore_up l v).timestamp ≡ v.timestamp
  unfolding restore_up
  timestamp-restore_up failed v = refl
  timestamp-restore_up missing v = refl
  timestamp-restore_up (found n) v = refl

  timestamp-restore_down :
      (l : Latest) (v : TrafficValues) → (restore_down l v).timestamp ≡ v.timestamp
  unfolding restore_down
  timestamp-restore_down failed v = refl
  timestamp-restore_down missing v = refl
  timestamp-restore_down (found n) v = refl

  timestamp-restore :
      (r : Report F) (v : TrafficValues) → (restore latest_before w r v).timestamp ≡ v.timestamp
  unfolding restore
  timestamp-restore r v = elim (Bool-cases v.initialized) [
    | inl y ↦ simp (y) refl
    | inr n ↦ simp (n, timestamp-restore_down, timestamp-restore_up)
  ]

  -- What is later than the report that was just remembered is later than it and than all before it.
  Later-insert :
      (pending : Map TrafficValues) (r q : Report F) (v : TrafficValues)
      → HasTime r
      → Later pending r
      → Later (insert r.uuid (remember r v) pending) q
      → Later pending q × ((eqb r.uuid q.uuid ≡ false) ⊎ (r.updated_at < q.updated_at))
  unfolding remember
  Later-insert pending r q v t h k = elim (Bool-cases (eqb r.uuid q.uuid)) [
    | inr n ↦ (subst (λ m. (m ≡ 0) ⊎ (m < q.updated_at)) (same ∙ rw n refl) k, inl n)
    | inl y ↦ joined (subst (λ m. (m ≡ 0) ⊎ (m < q.updated_at)) (same ∙ rw y refl) k) (
        subst (λ u. (stamp_of states u pending ≡ 0) ⊎ (stamp_of states u pending < r.updated_at))
          (eqb→eq r.uuid q.uuid y) h)
  ]
    where
      same :
          stamp_of states q.uuid (insert r.uuid (remember r v) pending)
          ≡ (if eqb r.uuid q.uuid then r.updated_at else stamp_of states q.uuid pending)
      same = stamp_of-insert states r.uuid q.uuid (remember r v) pending

      joined :
          {m : ℕ}
          → (r.updated_at ≡ 0) ⊎ (r.updated_at < q.updated_at)
          → (m ≡ 0) ⊎ (m < r.updated_at)
          → ((m ≡ 0) ⊎ (m < q.updated_at))
            × ((eqb r.uuid q.uuid ≡ false) ⊎ (r.updated_at < q.updated_at))
      joined (inl z) l = absurd (t z)
      joined (inr b) (inl z) = (inl z, inr b)
      joined (inr b) (inr c) = (inr (omega arith), inr b)

  All-Later-insert :
      (pending : Map TrafficValues) (r : Report F) (v : TrafficValues) (qs : List (Report F))
      → HasTime r
      → Later pending r
      → All (Later (insert r.uuid (remember r v) pending)) qs
      → All (Later pending) qs
        × All (λ q. (eqb r.uuid q.uuid ≡ false) ⊎ (r.updated_at < q.updated_at)) qs
  All-Later-insert pending r v [] t h k = (tt, tt)
  All-Later-insert pending r v (q ∷ qs) t h k =
      let (a, b) = Later-insert pending r q v t h k.0 in
      let (as', bs) = All-Later-insert pending r v qs t h k.1 in ((a, as'), (b, bs))

  -- For any reports that have a time and any stored states: the reports are prepared with times that
  -- rise, for each agent, from one to the next and from the last time that is stored.
  pub prepare-Rising :
      (reports : List (Report F)) (pending : Map TrafficValues)
      → All HasTime reports
      → All (Later pending) (prepare of_int latest_before w states reports pending).reports
        × Rising (prepare of_int latest_before w states reports pending).reports
  unfolding prepare stamp_of
  prepare-Rising [] pending h = (tt, tt)
  prepare-Rising (given ∷ reports) pending h =
      let (above, rising) = prepare-Rising reports (insert r.uuid (remember r v) pending) h.1 in
      let (timed, has) = stamp_after-later v.timestamp given.updated_at h.0 in
      let later = subst (λ m. (m ≡ 0) ⊎ (m < r.updated_at)) same timed in
      let (all, firsts) = All-Later-insert pending r v _ has later above in
      ((later, all), (firsts, rising))
    where
      v : TrafficValues
      v = restore latest_before w given (values_of given.uuid pending states)

      r : Report F
      r = record given { updated_at = stamp_after v.timestamp given.updated_at }

      same : v.timestamp ≡ stamp_of states given.uuid pending
      same = timestamp-restore given (values_of given.uuid pending states)

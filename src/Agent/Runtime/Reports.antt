-- ===== src/Agent/Runtime/Reports.antt =====
-- The reports that are kept of an agent (web/agent/connections.go).
use mango_hub.Base.{
  ℕ, ◌-◌, ◌≤◌, ◌≡◌, ◌⊎◌, inl, inr, false, some, List, [], ◌∷◌, All, Bytes, eqb, eqb_iff, ltb, ◌==◌,
  arith, Bool-cases, Option-cases, if◌then◌else◌,
}
use mango_hub.Base.Assoc.{Map, lookup, insert, lookup-insert}
use mango_hub.Agent.Runtime.{
  recent_report_retention, Report, Agents, or_empty, reports_after, insert_report, update_latest,
  update_recent, record_report,
}

module _ {B : Type 0} where
  abbrev pub IsSorted : List (Report B) → Type 0
  IsSorted [] = Unit
  IsSorted (r ∷ rs) = All (λ q. r.updated_at ≤ q.updated_at) rs × IsSorted rs

  abbrev pub NotBefore : ℕ → List (Report B) → Type 0
  NotBefore cutoff rs = All (λ (q : Report B). cutoff ≤ q.updated_at) rs

  All-le_trans : (a b : ℕ) (rs : List (Report B)) → a ≤ b → NotBefore b rs → NotBefore a rs
  All-le_trans a b [] h k = tt
  All-le_trans a b (r ∷ rs) h k = (omega arith, All-le_trans a b rs h k.1)

  reports_after-lem :
      (rs : List (Report B)) (cutoff : ℕ)
      → IsSorted rs
      → IsSorted (reports_after rs cutoff) × NotBefore cutoff (reports_after rs cutoff)
  unfolding reports_after
  reports_after-lem [] cutoff h = (tt, tt)
  reports_after-lem (r ∷ rs) cutoff h = elim (Bool-cases (ltb r.updated_at cutoff)) [
    | inl y ↦ rw y (reports_after-lem rs cutoff h.1)
    | inr n ↦ rw n (h, (ground arith, All-le_trans cutoff r.updated_at rs (ground arith) h.0))
  ]

  insert-NotBefore :
      (r : Report B) (rs : List (Report B)) (cutoff : ℕ)
      → cutoff ≤ r.updated_at
      → NotBefore cutoff rs
      → NotBefore cutoff (insert_report r rs)
  unfolding insert_report
  insert-NotBefore r [] cutoff h k = (h, tt)
  insert-NotBefore r (q ∷ rs) cutoff h k = elim (Bool-cases (ltb r.updated_at q.updated_at)) [
    | inl y ↦ rw y (h, k)
    | inr n ↦ rw n (k.0, insert-NotBefore r rs cutoff h k.1)
  ]

  insert-IsSorted :
      (r : Report B) (rs : List (Report B)) → IsSorted rs → IsSorted (insert_report r rs)
  unfolding insert_report
  insert-IsSorted r [] h = (tt, tt)
  insert-IsSorted r (q ∷ rs) h = elim (Bool-cases (ltb r.updated_at q.updated_at)) [
    | inl y ↦ rw y ((ground arith, All-le_trans r.updated_at q.updated_at rs (ground arith) h.0), h)
    | inr n ↦ rw n (insert-NotBefore r rs q.updated_at (ground arith) h.0, insert-IsSorted r rs h.1)
  ]

  -- The recent reports of an agent stay sorted by their time, and after a report none of them is
  -- older than the retention of one minute.
  pub update_recent-IsSorted :
      (report : Report B) (cutoff : ℕ) (recent : List (Report B))
      → IsSorted recent
      → IsSorted (update_recent report cutoff recent)
        × NotBefore cutoff (update_recent report cutoff recent)
  unfolding update_recent
  update_recent-IsSorted report cutoff recent h =
      let (sorted, fresh) = reports_after-lem recent cutoff h in
      elim (Bool-cases (ltb report.updated_at cutoff)) [
        | inl y ↦ rw y (sorted, fresh)
        | inr n ↦
            rw n (
              insert-IsSorted report _ sorted,
              insert-NotBefore report _ cutoff (ground arith) fresh,
            )
      ]

  -- Sorted recent reports for every agent.
  abbrev pub AllSorted : Agents B → Type 0
  AllSorted a = (uuid : Bytes) → IsSorted (or_empty (lookup uuid a.recent_reports))

  or_empty-insert :
      (k j : Bytes) (rs : List (Report B)) (m : Map (List (Report B)))
      → IsSorted rs
      → IsSorted (or_empty (lookup j m))
      → IsSorted (or_empty (lookup j (insert k rs m)))
  or_empty-insert k j rs m h i = elim (Bool-cases (eqb k j)) [
    | inl y ↦ simp (lookup-insert, y) h
    | inr n ↦ simp (lookup-insert, n) i
  ]

  -- RecordReport keeps the recent reports of every agent sorted by their time.
  pub record_report-AllSorted :
      (report : Report B) (stamped now : ℕ) (a : Agents B)
      → AllSorted a
      → AllSorted (record_report report stamped now a)
  unfolding record_report
  record_report-AllSorted given stamped now a h uuid = elim (Bool-cases (eqb given.uuid [])) [
    | inl y ↦ rw y (h uuid)
    | inr n ↦ rw n (
        or_empty-insert report.uuid uuid _ a.recent_reports
          (update_recent-IsSorted report (now - recent_report_retention) _ (h report.uuid)).0
          (h uuid))
  ]
    where
      report : Report B
      report = if given.updated_at == 0 then record given { updated_at = stamped } else given

  update_latest-grows :
      (report : Report B) (latest : Map (Report B)) (uuid : Bytes) {old : Report B}
      → lookup uuid latest ≡ some old
      → (new : Report B) × (lookup uuid (update_latest report latest) ≡ some new)
        × (old.updated_at ≤ new.updated_at)
  unfolding update_latest
  update_latest-grows report latest uuid {old} e = elim (Option-cases (lookup report.uuid latest)) [
    | inl missing ↦ rw (missing, update_latest) (put (ground (arith, eqb_iff report.uuid uuid)))
    | inr (r, found) ↦ elim (Bool-cases (ltb report.updated_at r.updated_at)) [
      | inl y ↦ rw (found, y, update_latest) (old, e, omega arith)
      | inr n ↦ rw (found, n, update_latest) (put (ground (arith, eqb_iff report.uuid uuid)))
    ]
  ]
    where
      put :
          (eqb report.uuid uuid ≡ false) ⊎ (old.updated_at ≤ report.updated_at)
          → (new : Report B) × (lookup uuid (insert report.uuid report latest) ≡ some new)
            × (old.updated_at ≤ new.updated_at)
      put (inl other) = (old, simp (lookup-insert, other) e, omega arith)
      put (inr newer) = elim (Bool-cases (eqb report.uuid uuid)) [
        | inl y ↦ (report, simp (lookup-insert, y), newer)
        | inr n ↦ (old, simp (lookup-insert, n) e, omega arith)
      ]

  -- RecordReport never replaces the latest report of an agent by an older one, and removes none.
  pub record_report-latest :
      (report : Report B) (stamped now : ℕ) (uuid : Bytes) (a : Agents B) {old : Report B}
      → lookup uuid a.latest_report ≡ some old
      → (new : Report B) × (lookup uuid (record_report report stamped now a).latest_report
          ≡ some new)
        × (old.updated_at ≤ new.updated_at)
  unfolding record_report
  record_report-latest given stamped now uuid a {old} e = elim (Bool-cases (eqb given.uuid [])) [
    | inl y ↦ rw y (old, e, omega arith)
    | inr n ↦ rw n (update_latest-grows _ a.latest_report uuid e)
  ]

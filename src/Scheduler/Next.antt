-- ===== src/Scheduler/Next.antt =====
-- When a schedule is due, everySchedule.Next and cronSchedule.Next of internal/scheduler/scheduler.go.
-- A time is a number of nanoseconds since the zero time of Go, on which whole seconds are cut; the
-- calendar of the local time zone is a parameter. A zero result is none.
use mango_hub.Base.{
  ℕ, zero, suc, ◌+◌, ◌-◌, ◌*◌, ◌/◌, ◌^◌, ◌≤◌, ◌<◌, ◌≡◌, inl, inr, Bool, true, false, ◌&&◌, Option,
  none, some, List, [], ◌∷◌, Bytes, codes, eqb, has_prefix, trim_space, drop, length, ltb, ◌==◌,
  subst, arith, Bool-cases, if◌then◌else◌,
}
use mango_hub.Base.Int.{ℤ, pos, pos_part, neg_part, leb_ℤ}
use mango_hub.Scheduler.Cron.{
  Parsed, Schedule, CronSchedule, every, cron, has_value, parse, parse_cron, fields, with_second,
  every_prefix, positive_duration, schedule_of, parse_field, named,
}
use mango_hub.Scheduler.Cron.Range.{Gives}

-- Second, Minute, Hour, Day, Month and Weekday of a time.
pub record Calendar : Type 0 where
  pub second : ℕ
  pub minute : ℕ
  pub hour : ℕ
  pub day : ℕ
  pub month : ℕ
  pub weekday : ℕ

abbrev pub nanoseconds : ℕ
nanoseconds = 10 ^ 9

-- 366 * 24 hours, in seconds.
abbrev pub window : ℕ
window = 366 * 24 * 3600

module _ (calendar : ℕ → Calendar) where
  unfoldable pub matches : CronSchedule → ℕ → Bool
  matches s time =
      let c = calendar time in
      has_value s.seconds c.second
      && has_value s.minutes c.minute
      && has_value s.hours c.hour
      && has_value s.dom c.day
      && has_value s.months c.month
      && has_value s.dow c.weekday

  -- The loop over the seconds before the limit; `next` and the limit are in seconds.
  unfoldable pub next_from : ℕ → CronSchedule → ℕ → ℕ → Option ℕ
  next_from zero s next limit = none
  next_from (suc fuel) s next limit =
      let rest = next_from fuel s (next + 1) limit in
      let here = if matches s next then some next else rest in if ltb next limit then here else none

  -- cronSchedule.Next of a time in seconds.
  unfoldable pub next_second : CronSchedule → ℕ → Option ℕ
  unfolding next_from
  next_second s t = next_from window s (t + 1) (t + 1 + window)

  unfoldable pub next_time : Schedule → ℕ → Option ℕ
  next_time (every interval) t = some (t + pos_part interval - neg_part interval)
  next_time (cron s) t = elim (next_second s (t / nanoseconds)) [
    | none ↦ none
    | some n ↦ some (n * nanoseconds)
  ]

  -- The first second from `first` on, and before `limit`, that matches.
  abbrev pub IsEarliest : CronSchedule → ℕ → ℕ → Option ℕ → Type 0
  IsEarliest s first limit (some n) =
      (first ≤ n)
      × (n < limit)
      × (matches s n ≡ true)
      × ((m : ℕ) → first ≤ m → m < n → matches s m ≡ false)
  IsEarliest s first limit none = (m : ℕ) → first ≤ m → m < limit → matches s m ≡ false

  after :
      (s : CronSchedule) (first m : ℕ)
      → matches s first ≡ false
      → first ≤ m
      → (first + 1 ≤ m → matches s m ≡ false)
      → matches s m ≡ false
  after s first m n a later = elim (Bool-cases (first == m)) [
    | inl y ↦ subst (λ x. matches s x ≡ false) (ground arith) n
    | inr other ↦ later (ground arith)
  ]

  IsEarliest-later :
      (s : CronSchedule) (first limit : ℕ) (o : Option ℕ)
      → matches s first ≡ false
      → IsEarliest s (first + 1) limit o
      → IsEarliest s first limit o
  IsEarliest-later s first limit none n h = λ m a b. after s first m n a (λ c. h m c b)
  IsEarliest-later s first limit (some k) n h =
      (omega arith, h.1, h.2, λ m a b. after s first m n a (λ c. h.3 m c b))

  next_from-IsEarliest :
      (fuel : ℕ) (s : CronSchedule) (next limit : ℕ)
      → limit ≤ fuel + next
      → IsEarliest s next limit (next_from fuel s next limit)
  unfolding next_from
  next_from-IsEarliest zero s next limit h = λ m a b. ground arith
  next_from-IsEarliest (suc fuel) s next limit h = elim (Bool-cases (ltb next limit)) [
    | inr out ↦ rw out (λ m a b. ground arith)
    | inl y ↦ elim (Bool-cases (matches s next)) [
      | inl hit ↦ rw (y, hit) (omega arith, ground arith, hit, λ m a b. ground arith)
      | inr miss ↦
          rw (y, miss)
            (IsEarliest-later s next limit _ miss
              (next_from-IsEarliest fuel s (next + 1) limit (omega arith)))
    ]
  ]

  -- cronSchedule.Next, for every schedule and time: the first later second that the schedule matches,
  -- if there is one among the seconds of the next 366 days, and else the zero time.
  pub next_second-IsEarliest :
      (s : CronSchedule) (t : ℕ) → IsEarliest s (t + 1) (t + 1 + window) (next_second s t)
  unfolding next_second
  next_second-IsEarliest s t = next_from-IsEarliest window s (t + 1) (t + 1 + window) (omega arith)

  -- Whenever the schedule is asked, the next run is later.
  abbrev pub IsForward : Schedule → Type 0
  IsForward s = (t n : ℕ) → next_time s t ≡ some n → t < n

  cron-IsForward : (s : CronSchedule) → IsForward (cron s)
  unfolding next_time
  cron-IsForward s t n =
      found (next_second s (t / nanoseconds)) (next_second-IsEarliest s (t / nanoseconds))
    where
      found :
          (o : Option ℕ)
          → IsEarliest s (t / nanoseconds + 1) (t / nanoseconds + 1 + window) o
          → (elim o [ none ↦ none | some k ↦ some (k * nanoseconds) ]) ≡ some n
          → t < n
      found none h e = ground arith
      found (some k) h e = ground arith

  positive_duration-IsForward : (o : Option ℤ) → Gives IsForward (positive_duration o)
  unfolding positive_duration next_time
  positive_duration-IsForward none = tt
  positive_duration-IsForward (some d) = elim (Bool-cases (leb_ℤ d (pos 0))) [
    | inl y ↦ rw y tt
    | inr n ↦ rw n (λ t k e. ground arith)
  ]

  schedule_of-IsForward :
      (a b c d e f : Parsed (List ℤ)) → Gives IsForward (schedule_of a b c d e f)
  unfolding schedule_of
  schedule_of-IsForward (inl x) b c d e f = tt
  schedule_of-IsForward (inr a) (inl x) c d e f = tt
  schedule_of-IsForward (inr a) (inr b) (inl x) d e f = tt
  schedule_of-IsForward (inr a) (inr b) (inr c) (inl x) e f = tt
  schedule_of-IsForward (inr a) (inr b) (inr c) (inr d) (inl x) f = tt
  schedule_of-IsForward (inr a) (inr b) (inr c) (inr d) (inr e) (inl x) = tt
  schedule_of-IsForward (inr a) (inr b) (inr c) (inr d) (inr e) (inr f) = cron-IsForward _

  parse_cron-IsForward : (texts : List Bytes) → Gives IsForward (parse_cron texts)
  unfolding parse_cron
  parse_cron-IsForward [] = tt
  parse_cron-IsForward (s ∷ []) = tt
  parse_cron-IsForward (s ∷ m ∷ []) = tt
  parse_cron-IsForward (s ∷ m ∷ h ∷ []) = tt
  parse_cron-IsForward (s ∷ m ∷ h ∷ d ∷ []) = tt
  parse_cron-IsForward (s ∷ m ∷ h ∷ d ∷ mo ∷ []) = tt
  parse_cron-IsForward (s ∷ m ∷ h ∷ d ∷ mo ∷ w ∷ []) =
      schedule_of-IsForward (named (codes "second") (parse_field s 0 59))
        (named (codes "minute") (parse_field m 0 59)) (named (codes "hour") (parse_field h 0 23))
        (named (codes "day-of-month") (parse_field d 1 31))
        (named (codes "month") (parse_field mo 1 12))
        (named (codes "day-of-week") (parse_field w 0 7))
  parse_cron-IsForward (s ∷ m ∷ h ∷ d ∷ mo ∷ w ∷ x ∷ xs) = tt

  -- A schedule that Parse accepts, @every or cron, never gives a next run that is not later than the
  -- time it is asked for, so the loop of a job always moves forward.
  pub parse-IsForward :
      (parse_duration : Bytes → Option ℤ) (text : Bytes)
      → Gives IsForward (parse parse_duration text)
  unfolding parse
  parse-IsForward parse_duration text = elim (Bool-cases (eqb spec [])) [
    | inl y ↦ rw y tt
    | inr n ↦ elim (Bool-cases (has_prefix spec every_prefix)) [
      | inl y ↦
          rw (n, y)
            (positive_duration-IsForward
              (parse_duration (trim_space (drop (length every_prefix) spec))))
      | inr m ↦ rw (n, m) (parse_cron-IsForward (with_second (fields spec)))
    ]
  ]
    where
      spec : Bytes
      spec = trim_space text

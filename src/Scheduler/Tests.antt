-- ===== src/Scheduler/Tests.antt =====
-- Runs of the cron scheduler, and its theorems at concrete inputs.
use mango_hub.Base.{
  ℕ, ◌+◌, ◌-◌, ◌/◌, ◌%◌, ◌^◌, ◌<◌, ◌≡◌, refl, ◌↔◌, inr, true, false, Option, none, [], ◌∷◌, Bytes,
  codes, eqb, trim_space, space_width, contains_byte, arith,
}
use mango_hub.Base.Int.{ℤ, pos, negsuc}
use mango_hub.Scheduler.Cron.{
  CronSchedule, every, fill, fill_rounds, has_value, parse_range, parse_field, split, atoi,
  digits_value, add_int64,
}
use mango_hub.Scheduler.Cron.Fill.{InSteps, has_value-fill, fill-wraps}
use mango_hub.Scheduler.Cron.Ends.{fill-fill_rounds}
use mango_hub.Scheduler.Next.{Calendar, IsEarliest, window, next_second, next_second-IsEarliest}
use mango_hub.Scheduler.Jobs.{
  Manager, new_manager, start_job, replace, add_context_func, remove, remove_prefix, stop_all,
}
use mango_hub.Scheduler.Jobs.Contexts.{
  IsManager, Keeps, new_manager-IsManager, start_job-IsManager, manager-IsManager,
}

-- The seconds of a calendar of 30-day months that starts on a Sunday.
abbrev plain_calendar : ℕ → Calendar
plain_calendar t = record {
  second = t % 60;
  minute = t / 60 % 60;
  hour = t / 3600 % 24;
  day = t / 86400 % 30 + 1;
  month = t / 2592000 % 12 + 1;
  weekday = t / 86400 % 7;
}

abbrev half_past : CronSchedule
half_past = record {
  seconds = pos 30 ∷ [];
  minutes = pos 1 ∷ [];
  hours = pos 0 ∷ [];
  dom = pos 1 ∷ [];
  months = pos 1 ∷ [];
  dow = pos 0 ∷ [];
}

abbrev no_duration : Bytes → Option ℤ
no_duration s = none

abbrev two_jobs : Manager
two_jobs =
    (start_job (codes "ping:b") (every (pos 5)) false
      (start_job (codes "ping:a") (every (pos 5)) true new_manager).1).1

two_jobs-IsManager : IsManager two_jobs
two_jobs-IsManager =
    start_job-IsManager (codes "ping:b") _
      (start_job-IsManager (codes "ping:a") new_manager new_manager-IsManager (every (pos 5)) true)
      (every (pos 5)) false

parses_a_field : parse_field (codes "*/20,7") 0 59 ≡ inr (pos 0 ∷ pos 20 ∷ pos 40 ∷ pos 7 ∷ [])
unfolding parse_field split trim_space space_width eqb contains_byte digits_value atoi parse_range
    fill add_int64
parses_a_field = refl

has_value-fill_example : (has_value (fill fill_rounds (pos 5) 59 10) 25 ≡ true) ↔ InSteps 5 59 10 25
has_value-fill_example = has_value-fill 5 59 10 25 (omega arith) (omega arith) (omega arith)

fill-wraps_example :
    fill fill_rounds (pos 2) 59 (2 ^ 63 - 1) ≡ pos 2 ∷ negsuc (2 ^ 63 - 2) ∷ pos 0 ∷ []
fill-wraps_example =
    fill-wraps 1 (2 ^ 63 - 1) (omega arith) (omega arith) 59 (omega arith) (omega arith)

fill-fill_rounds_example :
    fill 1000 (pos 59) 59 (2 ^ 63 - 1) ≡ fill fill_rounds (pos 59) 59 (2 ^ 63 - 1)
fill-fill_rounds_example =
    fill-fill_rounds 59 (2 ^ 63 - 1) (omega arith) (omega arith) (omega arith) 59 1000 (omega arith)
      (omega arith)

next_second-IsEarliest_example :
    IsEarliest plain_calendar half_past
      (40 + 1)
      (40 + 1 + window)
      (next_second plain_calendar half_past 40)
next_second-IsEarliest_example = next_second-IsEarliest plain_calendar half_past 40

manager-IsManager_example :
    Keeps (add_context_func no_duration (codes "ping:a") (codes "* * * * *") true true two_jobs)
    × IsManager (remove (codes "ping:a") two_jobs)
    × IsManager (remove_prefix (codes "ping:a") two_jobs)
    × IsManager (stop_all two_jobs)
manager-IsManager_example =
    manager-IsManager no_duration (codes "ping:a") (codes "* * * * *") true true two_jobs
      two_jobs-IsManager

two_contexts : 1 < two_jobs.contexts
unfolding start_job replace new_manager
two_contexts = omega arith

-- ===== src/Scheduler/Jobs.antt =====
-- The jobs of a Manager, internal/scheduler/scheduler.go. A job is the number of the context that its
-- goroutine runs under; `cancelled` are the contexts that were cancelled, `contexts` is how many were
-- made. Every operation holds the lock from its first access of the map to its last.
use mango_hub.Base.{
  ℕ, suc, ◌<◌, ◌≡◌, ◌⊎◌, inl, inr, Bool, true, false, ◌||◌, Option, none, some, List, [], ◌∷◌, map,
  keep, Bytes, eqb, has_prefix, ◌==◌, if◌then◌else◌,
}
use mango_hub.Base.Assoc.{Map, lookup, insert, delete}
use mango_hub.Base.Int.{ℤ}
use mango_hub.Scheduler.Cron.{CronError, Parsed, Schedule, parse}
pub mod Contexts
pub mod Removal

pub data JobError : Type 0 where
  empty_name : JobError
  invalid_spec : Bytes → CronError → JobError
  nil_func : Bytes → JobError

pub record Manager : Type 0 where
  pub jobs : Map ℕ
  pub cancelled : List ℕ
  pub contexts : ℕ

unfoldable pub new_manager : Manager
new_manager = record { jobs = []; cancelled = []; contexts = 0 }

unfoldable pub is_cancelled : ℕ → List ℕ → Bool
is_cancelled c [] = false
is_cancelled c (d ∷ ds) = d == c || is_cancelled c ds

-- old.cancel(), of the job that a name has, if it has one.
abbrev pub cancel_old : Option ℕ → List ℕ → List ℕ
cancel_old none cs = cs
cancel_old (some old) cs = old ∷ cs

unfoldable pub replace : Bytes → ℕ → Manager → Manager
replace name ctx m = record m {
  cancelled = cancel_old (lookup name m.jobs) m.cancelled;
  jobs = insert name ctx m.jobs;
}

unfoldable pub remove : Bytes → Manager → Manager
remove name m = record m {
  cancelled = cancel_old (lookup name m.jobs) m.cancelled;
  jobs = delete name m.jobs;
}

-- `for name, old := range m.jobs`, over the names that the map has when the loop starts.
unfoldable pub remove_names : List Bytes → Manager → Manager
unfolding remove
remove_names [] m = m
remove_names (name ∷ names) m = remove_names names (remove name m)

abbrev pub names_of : Map ℕ → List Bytes
names_of [] = []
names_of ((name, c) ∷ jobs) = name ∷ names_of jobs

unfoldable pub remove_prefix : Bytes → Manager → Manager
unfolding remove_names
remove_prefix prefix m = remove_names (keep (λ name. has_prefix name prefix) (names_of m.jobs)) m

unfoldable pub stop_all : Manager → Manager
unfolding remove_names
stop_all m = remove_names (names_of m.jobs) m

-- The goroutine that AddContextFunc starts: m.run(ctx, name, s, runImmediately, fn).
pub record Run : Type 0 where
  pub context : ℕ
  pub name : Bytes
  pub schedule : Schedule
  pub immediately : Bool

-- The new context's number is the number of those made before. `has_func` is fn != nil.
unfoldable pub start_job : Bytes → Schedule → Bool → Manager → Run × Manager
unfolding replace
start_job name s immediately m = (
  record { context = m.contexts; name = name; schedule = s; immediately = immediately },
  replace name m.contexts (record m { contexts = suc m.contexts }),
)

unfoldable pub add_context_func :
    (Bytes → Option ℤ) → Bytes → Bytes → Bool → Bool → Manager → JobError ⊎ (Run × Manager)
unfolding start_job
add_context_func parse_duration name spec immediately has_func m =
    if eqb name [] then inl empty_name else elim (parse parse_duration spec) [
      | inl e ↦ inl (invalid_spec name e)
      | inr s ↦ if has_func then inr (start_job name s immediately m) else inl (nil_func name)
    ]

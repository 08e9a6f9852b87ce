-- ===== src/Scheduler/Jobs/Contexts.antt =====
-- The contexts of the jobs of a Manager (internal/scheduler/scheduler.go): which are live,
-- which are cancelled, and which name each belongs to.
use mango_hub.Base.{
  ℕ, ◌<◌, ◌≡◌, sym, ap, subst, ◌∙◌, ◌⊎◌, inl, inr, Bool, true, false, ◌||◌, Option, some, List, [],
  ◌∷◌, keep, Bytes, eqb, eqb_iff, eqb_refl, has_prefix, ◌==◌, arith, Bool-cases, Option-cases,
  if◌then◌else◌,
}
use mango_hub.Base.Assoc.{lookup, insert, delete, lookup-insert, lookup-delete}
use mango_hub.Base.Int.{ℤ}
use mango_hub.Scheduler.Cron.{Parsed, Schedule, parse}
use mango_hub.Scheduler.Jobs.{
  Manager, Run, invalid_spec, nil_func, JobError, is_cancelled, cancel_old, replace, remove,
  remove_names, names_of, remove_prefix, stop_all, start_job, add_context_func, new_manager,
}

-- The job of a name is a context that was made and not cancelled; two names have two contexts; only
-- contexts that were made are cancelled; and each one made is cancelled or is the job of some name.
pub record IsManager (m : Manager) : Type 0 where
  pub live :
      (name : Bytes) (c : ℕ)
      → lookup name m.jobs ≡ some c
      → (c < m.contexts) × (is_cancelled c m.cancelled ≡ false)
  pub single :
      (a b : Bytes) (c : ℕ) → lookup a m.jobs ≡ some c → lookup b m.jobs ≡ some c → eqb a b ≡ true
  pub past : (c : ℕ) → is_cancelled c m.cancelled ≡ true → c < m.contexts
  pub owned :
      (c : ℕ)
      → c < m.contexts
      → (is_cancelled c m.cancelled ≡ true) ⊎ ((name : Bytes) × (lookup name m.jobs ≡ some c))

pub new_manager-IsManager : IsManager new_manager
unfolding new_manager is_cancelled lookup
new_manager-IsManager = record {
  live = λ name c e. ground arith;
  single = λ a b c e f. ground arith;
  past = λ c e. ground arith;
  owned = λ c b. ground arith;
}

module _ (name : Bytes) (m : Manager) (h : IsManager m) where
  abbrev ended : List ℕ
  ended = cancel_old (lookup name m.jobs) m.cancelled

  -- What the name's context becomes, and what the others stay.
  ended-own : (c : ℕ) → lookup name m.jobs ≡ some c → is_cancelled c ended ≡ true
  unfolding is_cancelled
  ended-own c e = rw e (ground arith)

  ended-grows : (c : ℕ) → is_cancelled c m.cancelled ≡ true → is_cancelled c ended ≡ true
  unfolding is_cancelled
  ended-grows c k = elim (Option-cases (lookup name m.jobs)) [
    | inl missing ↦ rw missing k
    | inr (old, found) ↦ rw found (ground arith)
  ]

  ended-other :
      (a : Bytes) (c : ℕ)
      → eqb name a ≡ false
      → lookup a m.jobs ≡ some c
      → is_cancelled c ended ≡ false
  unfolding is_cancelled
  ended-other a c n e = elim (Option-cases (lookup name m.jobs)) [
    | inl missing ↦ rw missing (h.live a c e).1
    | inr (old, found) ↦ elim (Bool-cases (old == c)) [
      | inl y ↦ ground (arith, h.single name a c (found ∙ ap some (ground arith)) e)
      | inr other ↦ rw found (ground (arith, h.live a c e))
    ]
  ]

  ended-past : (c : ℕ) → is_cancelled c ended ≡ true → c < m.contexts
  unfolding is_cancelled
  ended-past c e = elim (Option-cases (lookup name m.jobs)) [
    | inl missing ↦
        h.past c (subst (λ o. is_cancelled c (cancel_old o m.cancelled) ≡ true) missing e)
    | inr (old, found) ↦ elim (Bool-cases (old == c)) [
      | inl y ↦ ground (arith, h.live name old found)
      | inr other ↦
          h.past c
            (rest other (subst (λ o. is_cancelled c (cancel_old o m.cancelled) ≡ true) found e))
    ]
  ]
    where
      rest : {b : Bool} → b ≡ false → {d : Bool} → (b || d) ≡ true → d ≡ true
      rest n {d} k = ground arith

  ended-owned :
      (c : ℕ)
      → c < m.contexts
      → (is_cancelled c ended ≡ true)
        ⊎ ((a : Bytes) × (eqb name a ≡ false) × (lookup a m.jobs ≡ some c))
  ended-owned c b = elim (h.owned c b) [
    | inl k ↦ inl (ended-grows c k)
    | inr (a, e) ↦ elim (Bool-cases (eqb name a)) [
      | inl y ↦
          inl
            (ended-own c (subst (λ n. lookup n m.jobs ≡ some c) (ground (arith, eqb_iff name a)) e))
      | inr n ↦ inr (a, n, e)
    ]
  ]

  -- Remove keeps the invariant.
  remove-IsManager : IsManager (remove name m)
  unfolding remove
  remove-IsManager = record {
    live = λ a c e. let (n, k) = kept a c e in ((h.live a c k).0, ended-other a c n k);
    single = λ a b c e f. h.single a b c (kept a c e).1 (kept b c f).1;
    past = ended-past;
    owned = λ c b. elim (ended-owned c b) [
      | inl k ↦ inl k
      | inr (a, n, e) ↦ inr (a, simp (lookup-delete, n) e)
    ];
  }
    where
      kept :
          (a : Bytes) (c : ℕ)
          → lookup a (delete name m.jobs) ≡ some c
          → (eqb name a ≡ false) × (lookup a m.jobs ≡ some c)
      kept a c e = ground (arith, lookup-delete name a m.jobs)

  stored :
      (a : Bytes) (c : ℕ)
      → lookup a (insert name m.contexts m.jobs) ≡ some c
      → ((eqb name a ≡ true) × (c ≡ m.contexts))
        ⊎ ((eqb name a ≡ false) × (lookup a m.jobs ≡ some c))
  stored a c e = ground (arith, lookup-insert name a m.contexts m.jobs)

  new_context : is_cancelled m.contexts ended ≡ false
  new_context = elim (Bool-cases (is_cancelled m.contexts ended)) [
    | inl y ↦ ground (arith, ended-past m.contexts y)
    | inr n ↦ n
  ]

  pub start_job-IsManager :
      (s : Schedule) (immediately : Bool) → IsManager (start_job name s immediately m).1
  unfolding start_job replace
  start_job-IsManager s immediately = record {
    live = λ a c e. elim (stored a c e) [
      | inl (y, i) ↦ (omega arith, subst (λ d. is_cancelled d ended ≡ false) (sym i) new_context)
      | inr (n, k) ↦ (ground (arith, h.live a c k), ended-other a c n k)
    ];
    single = λ a b c e f. one a b c (stored a c e) (stored b c f);
    past = λ c e. ground (arith, ended-past c e);
    owned = λ c b. elim (Bool-cases (c == m.contexts)) [
      | inl y ↦ inr (name, simp (lookup-insert, eqb_refl) (ground arith))
      | inr n ↦ elim (ended-owned c (ground arith)) [
        | inl k ↦ inl k
        | inr (a, o, e) ↦ inr (a, simp (lookup-insert, o) e)
      ]
    ];
  }
    where
      Stored : Bytes → ℕ → Type 0
      Stored a c =
          ((eqb name a ≡ true) × (c ≡ m.contexts))
          ⊎ ((eqb name a ≡ false) × (lookup a m.jobs ≡ some c))

      one : (a b : Bytes) (c : ℕ) → Stored a c → Stored b c → eqb a b ≡ true
      one a b c (inl (y, i)) (inl (z, j)) =
          ground (arith, eqb_iff name a, eqb_iff name b, eqb_iff a b)
      one a b c (inl (y, i)) (inr (z, j)) = ground (arith, h.live b c j)
      one a b c (inr (y, i)) (inl (z, j)) = ground (arith, h.live a c i)
      one a b c (inr (y, i)) (inr (z, j)) = h.single a b c i j

pub remove_names-IsManager :
    (names : List Bytes) (m : Manager) → IsManager m → IsManager (remove_names names m)
unfolding remove_names
remove_names-IsManager [] m h = h
remove_names-IsManager (name ∷ names) m h =
    remove_names-IsManager names (remove name m) (remove-IsManager name m h)

-- AddContextFunc gives an error or keeps the invariant.
abbrev pub Keeps : JobError ⊎ (Run × Manager) → Type 0
Keeps (inl e) = Unit
Keeps (inr r) = IsManager r.1

add_context_func-Keeps :
    (parse_duration : Bytes → Option ℤ) (name spec : Bytes) (immediately has_func : Bool)
    (m : Manager)
    → IsManager m
    → Keeps (add_context_func parse_duration name spec immediately has_func m)
unfolding add_context_func
add_context_func-Keeps parse_duration name spec immediately has_func m h =
    elim (Bool-cases (eqb name [])) [
      | inl y ↦ rw y tt
      | inr n ↦ rw n (parsed (parse parse_duration spec) has_func)
    ]
  where
    parsed :
        (r : Parsed Schedule) (f : Bool)
        → Keeps (elim r [
          | inl e ↦ inl (invalid_spec name e)
          | inr s ↦ if f then inr (start_job name s immediately m) else inl (nil_func name)
        ])
    parsed (inl e) f = tt
    parsed (inr s) true = start_job-IsManager name m h s immediately
    parsed (inr s) false = tt

-- A manager's contexts, whatever is added, replaced or removed: no context is lost, each one that was
-- made is cancelled or belongs to exactly one name, and no name's context is cancelled.
pub manager-IsManager :
    (parse_duration : Bytes → Option ℤ) (name spec : Bytes) (immediately has_func : Bool)
    (m : Manager)
    → IsManager m
    → Keeps (add_context_func parse_duration name spec immediately has_func m)
      × IsManager (remove name m)
      × IsManager (remove_prefix name m)
      × IsManager (stop_all m)
unfolding remove_prefix stop_all
manager-IsManager parse_duration name spec immediately has_func m h = (
  add_context_func-Keeps parse_duration name spec immediately has_func m h,
  remove-IsManager name m h,
  remove_names-IsManager (keep (λ n. has_prefix n name) (names_of m.jobs)) m h,
  remove_names-IsManager (names_of m.jobs) m h,
)

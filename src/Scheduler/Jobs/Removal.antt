-- ===== src/Scheduler/Jobs/Removal.antt =====
-- What Remove, RemovePrefix and StopAll leave of the jobs (internal/scheduler/scheduler.go).
use mango_hub.Base.{
  ℕ, ◌<◌, ◌≡◌, refl, sym, ap, ◌∙◌, inl, inr, Bool, true, false, none, List, [], ◌∷◌, keep, Bytes,
  eqb, eqb_iff, has_prefix, arith, Bool-cases, if◌then◌else◌, subst,
}
use mango_hub.Base.Assoc.{Map, lookup, lookup-delete}
use mango_hub.Scheduler.Jobs.{
  Manager, is_cancelled, remove, remove_names, names_of, remove_prefix, stop_all,
}
use mango_hub.Scheduler.Jobs.Contexts.{IsManager, remove_names-IsManager}

is_name : Bytes → List Bytes → Bool
is_name a [] = false
is_name a (n ∷ ns) = if eqb n a then true else is_name a ns

lookup-remove_names :
    (a : Bytes) (ns : List Bytes) (m : Manager)
    → lookup a (remove_names ns m).jobs ≡ (if is_name a ns then none else lookup a m.jobs)
unfolding remove_names is_name remove
lookup-remove_names a [] m = refl
lookup-remove_names a (n ∷ ns) m =
    lookup-remove_names a ns (remove n m) ∙ ground (arith, lookup-delete n a m.jobs)

remove_names-contexts : (ns : List Bytes) (m : Manager) → (remove_names ns m).contexts ≡ m.contexts
unfolding remove_names remove
remove_names-contexts [] m = refl
remove_names-contexts (n ∷ ns) m = remove_names-contexts ns (remove n m)

is_name-keep :
    (prefix a : Bytes) (ns : List Bytes)
    → is_name a (keep (λ n. has_prefix n prefix) ns)
      ≡ (if has_prefix a prefix then is_name a ns else false)
unfolding is_name
is_name-keep prefix a [] = ground arith
is_name-keep prefix a (n ∷ ns) = elim (Bool-cases (eqb n a)) [
  | inl y ↦ elim (Bool-cases (has_prefix n prefix)) [
    | inl p ↦ rw (p, y, sym (same y) ∙ p) refl
    | inr p ↦ rw (p, sym (same y) ∙ p) (is_name-keep prefix a ns ∙ rw (sym (same y) ∙ p) refl)
  ]
  | inr o ↦ elim (Bool-cases (has_prefix n prefix)) [
    | inl p ↦ rw (p, o) (is_name-keep prefix a ns)
    | inr p ↦ rw (p, o) (is_name-keep prefix a ns)
  ]
]
  where
    same : eqb n a ≡ true → has_prefix n prefix ≡ has_prefix a prefix
    same y = ap (λ x. has_prefix x prefix) (ground (arith, eqb_iff n a))

lookup-missing :
    (a : Bytes) (jobs : Map ℕ) → is_name a (names_of jobs) ≡ false → lookup a jobs ≡ none
unfolding is_name lookup
lookup-missing a [] h = refl
lookup-missing a ((n, c) ∷ jobs) h = ground (arith, lookup-missing a jobs)

-- After RemovePrefix the names with the prefix have no job, and the others the job that they had.
pub lookup-remove_prefix :
    (prefix a : Bytes) (m : Manager)
    → lookup a (remove_prefix prefix m).jobs
      ≡ (if has_prefix a prefix then none else lookup a m.jobs)
unfolding remove_prefix
lookup-remove_prefix prefix a m =
    lookup-remove_names a picked m
    ∙ ground (arith, is_name-keep prefix a (names_of m.jobs), lookup-missing a m.jobs)
  where
    picked : List Bytes
    picked = keep (λ name. has_prefix name prefix) (names_of m.jobs)

lookup-stop_all : (a : Bytes) (m : Manager) → lookup a (stop_all m).jobs ≡ none
unfolding stop_all
lookup-stop_all a m =
    lookup-remove_names a (names_of m.jobs) m ∙ ground (arith, lookup-missing a m.jobs)

-- StopAll, of a manager that keeps its invariant, cancels every context that was made.
pub stop_all-cancels :
    (m : Manager) (c : ℕ)
    → IsManager m
    → c < m.contexts
    → is_cancelled c (stop_all m).cancelled ≡ true
unfolding stop_all
stop_all-cancels m c h b =
    elim ((remove_names-IsManager (names_of m.jobs) m h).owned c
      (subst (λ k. c < k) (sym (remove_names-contexts (names_of m.jobs) m)) b)) [
        | inl k ↦ k
        | inr (a, e) ↦ ground (arith, e, lookup-stop_all a m)
      ]

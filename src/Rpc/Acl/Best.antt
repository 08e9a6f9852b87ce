-- ===== src/Rpc/Acl/Best.antt =====
-- What resolveMinRole picks from the table of rules (pkg/rpc/permission.go).
use mango_hub.Base.{
  ℕ, ◌≤◌, ◌<◌, ◌≡◌, refl, ◌⊎◌, inl, inr, Bool, true, false, none, some, [], ◌∷◌, Bytes, arith,
  Bool-cases, ◌∙◌, ltb, ◌==◌, ◌&&◌, ◌||◌,
}
use mango_hub.Rpc.Wildcard.{wildcard_match}
use mango_hub.Rpc.Principal.{Role, role_admin, level_of}
use mango_hub.Rpc.Acl.{
  Rule, Acl, Found, consider, resolve_loop, normalize_method, role_of_found, resolve_min_role,
}

abbrev pub Matches : Bytes → Rule → Type 0
Matches method r = wildcard_match r.pattern_of method ≡ true

pub data In (r : Rule) : Acl → Type 0 where
  head : {acl : Acl} → In r (r ∷ acl)
  tail : {q : Rule} {acl : Acl} → In r acl → In r (q ∷ acl)

-- The first is more specific, or as specific and at least as strict.
abbrev pub Prevails : ℕ × Role → ℕ × Role → Type 0
Prevails (spec, role) (spec', role') =
    (spec' < spec) ⊎ ((spec' ≡ spec) × (level_of role' ≤ level_of role))

Prevails-trans : (a b c : ℕ × Role) → Prevails a b → Prevails b c → Prevails a c
Prevails-trans (s, r) (t, q) (u, p) h k = ground arith

abbrev pub value : Rule → ℕ × Role
value r = (r.specificity, r.min_role)

-- Some outcome of the loop that prevails over `a`.
abbrev Over : Found → ℕ × Role → Type 0
Over found a = (b : ℕ × Role) × (found ≡ some b) × Prevails b a

Over-trans : (found : Found) (a b : ℕ × Role) → Over found a → Prevails a b → Over found b
Over-trans found a b (c, e, h) k = (c, e, Prevails-trans c a b h k)

abbrev takes_over : Rule → ℕ → Role → Bool
takes_over r s q =
    ltb s r.specificity || r.specificity == s && ltb (level_of q) (level_of r.min_role)

consider-Over :
    (r : Rule) (found : Found)
    → Over (consider r found) (value r)
      × ((a : ℕ × Role) → found ≡ some a → Over (consider r found) a)
      × ((consider r found ≡ some (value r)) ⊎ (consider r found ≡ found))
unfolding consider
consider-Over r none = ((value r, refl, ground arith), λ a e. cc, inl refl)
consider-Over r (some (s, q)) = elim (Bool-cases (takes_over r s q)) [
  | inl t ↦ rw t ((value r, refl, ground arith), λ a e. (value r, refl, ground arith), inl refl)
  | inr t ↦ rw t (((s, q), refl, ground arith), λ a e. ((s, q), refl, ground arith), inr refl)
]

-- What the loop finds comes from what it was given or from a rule that matches, and prevails over
-- both.
record Outcome (method : Bytes) (acl : Acl) (found result : Found) : Type 0 where
  origin : (result ≡ found) ⊎ ((r : Rule) × In r acl × Matches method r × (result ≡ some (value r)))
  over_rules : (r : Rule) → In r acl → Matches method r → Over result (value r)
  over_found : (a : ℕ × Role) → found ≡ some a → Over result a

Outcome-skip :
    {method : Bytes} {acl : Acl} {found result : Found} (q : Rule)
    → wildcard_match q.pattern_of method ≡ false
    → Outcome method acl found result
    → Outcome method (q ∷ acl) found result
Outcome-skip {method} {acl} {found} {result} q n o = record {
  origin = elim o.origin [ inl e ↦ inl e | inr (r, i, m, e) ↦ inr (r, tail i, m, e) ];
  over_rules = inside;
  over_found = o.over_found;
}
  where
    inside : (r : Rule) → In r (q ∷ acl) → Matches method r → Over result (value r)
    inside r head m = cc
    inside r (tail i) m = o.over_rules r i m

Outcome-consider :
    {method : Bytes} {acl : Acl} {found result : Found} (q : Rule)
    → Matches method q
    → Outcome method acl (consider q found) result
    → Outcome method (q ∷ acl) found result
Outcome-consider {method} {acl} {found} {result} q n o = record {
  origin = elim o.origin [
    | inl e ↦ elim (consider-Over q found).2 [
      | inl f ↦ inr (q, head, n, e ∙ f)
      | inr f ↦ inl (e ∙ f)
    ]
    | inr (r, i, m, e) ↦ inr (r, tail i, m, e)
  ];
  over_rules = inside;
  over_found = λ a e. through a ((consider-Over q found).1 a e);
}
  where
    through : (a : ℕ × Role) → Over (consider q found) a → Over result a
    through a (b, e, h) = Over-trans result b a (o.over_found b e) h

    inside : (r : Rule) → In r (q ∷ acl) → Matches method r → Over result (value r)
    inside r head m = through (value r) (consider-Over q found).0
    inside r (tail i) m = o.over_rules r i m

resolve_loop-Outcome :
    (method : Bytes) (acl : Acl) (found : Found)
    → Outcome method acl found (resolve_loop method acl found)
unfolding resolve_loop
resolve_loop-Outcome method [] found = record {
  origin = inl refl;
  over_rules = λ r i. elim i [ ];
  over_found = λ a e. (a, e, ground arith);
}
resolve_loop-Outcome method (q ∷ acl) found =
    elim (Bool-cases (wildcard_match q.pattern_of method)) [
      | inl m ↦ rw m (Outcome-consider q m (resolve_loop-Outcome method acl (consider q found)))
      | inr n ↦ rw n (Outcome-skip q n (resolve_loop-Outcome method acl found))
    ]

-- The role is that of a matching rule which no other matching rule is more specific than, nor as
-- specific and stricter; or no rule matches, and the role is RoleAdmin.
abbrev pub IsBest : Acl → Bytes → Role → Type 0
IsBest acl method role =
    ((r : Rule) × In r acl
      × Matches method r
      × (role ≡ r.min_role)
      × ((q : Rule) → In q acl → Matches method q → Prevails (value r) (value q)))
    ⊎ (((q : Rule) → In q acl → ¬ Matches method q) × (role ≡ role_admin))

Outcome-IsBest :
    (method : Bytes) (acl : Acl) (result : Found)
    → Outcome method acl none result
    → IsBest acl method (role_of_found result)
Outcome-IsBest method acl none o = inr (λ q i m. cc ((o.over_rules q i m).1), refl)
Outcome-IsBest method acl (some b) o = elim o.origin [
  | inl e ↦ cc
  | inr (r, i, m, e) ↦
      inl (r, i, m, ground arith, λ q j n. let (c, f, h) = o.over_rules q j n in ground arith)
]

-- The role that a method requires, for every table of rules: that of a matching rule of the highest
-- specificity, the strictest of these, and RoleAdmin where no rule matches.
pub resolve_min_role-IsBest :
    (acl : Acl) (method : Bytes)
    → IsBest acl (normalize_method method) (resolve_min_role acl method)
unfolding resolve_min_role
resolve_min_role-IsBest acl method =
    Outcome-IsBest (normalize_method method) acl _
      (resolve_loop-Outcome (normalize_method method) acl none)

-- The order in which rules were declared does not matter: two tables with the same rules require
-- roles of the same level of every method.
pub resolve_min_role-order :
    (a b : Acl) (method : Bytes)
    → ((r : Rule) → In r a → In r b)
    → ((r : Rule) → In r b → In r a)
    → level_of (resolve_min_role a method) ≡ level_of (resolve_min_role b method)
resolve_min_role-order a b method f g = elim (resolve_min_role-IsBest a method) [
  | inl (r, i, m, e, h) ↦ elim (resolve_min_role-IsBest b method) [
    | inl (q, j, n, d, k) ↦
        let x = h q (g q j) n in let y = k r (f r i) m in rw (e, d) (ground arith)
    | inr (none_fit, d) ↦ absurd (none_fit r (f r i) m)
  ]
  | inr (none_fit, e) ↦ elim (resolve_min_role-IsBest b method) [
    | inl (q, j, n, d, k) ↦ absurd (none_fit q (g q j) n)
    | inr (_, d) ↦ rw (e, d)
  ]
]

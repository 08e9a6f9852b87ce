-- ===== src/Rpc/Acl/Table.antt =====
-- The table of rules that Allow keeps: one rule for a pattern, with its specificity computed, and
-- what an exact rule does (pkg/rpc/permission.go).
use mango_hub.Base.{
  ℕ, zero, suc, ◌+◌, ◌-◌, ◌≤◌, ◌<◌, ◌≡◌, ◌≢◌, refl, inl, inr, true, false, Option, none, some, [],
  ◌∷◌, length, Bytes, arith, Bool-cases, All, eqb, eqb_iff, eqb→eq, contains_byte, if◌then◌else◌,
  ap, ◌==◌, sym, ◌∙◌,
}
use mango_hub.Rpc.Wildcard.{star}
use mango_hub.Rpc.Wildcard.Meaning.{Fits, done, same, skip, eat, NoStar, wildcard_match_iff}
use mango_hub.Rpc.Principal.{Role}
use mango_hub.Rpc.Acl.{
  Rule, Acl, compute_specificity, count_literal, rune_width, exact_bonus, put_rule, allow,
  normalize_method, resolve_min_role,
}
use mango_hub.Rpc.Acl.Best.{In, head, tail, Matches, Prevails, value, resolve_min_role-IsBest}

abbrev Computed : Rule → Type 0
Computed r = (r.specificity, r.has_wildcard) ≡ compute_specificity r.pattern_of

abbrev Distinct : Acl → Type 0
Distinct [] = Unit
Distinct (r ∷ acl) = All (λ q. q.pattern_of ≢ r.pattern_of) acl × Distinct acl

-- At most one rule stands for a pattern, and each has the specificity of its pattern.
pub record IsTable (acl : Acl) : Type 0 where
  pub computed : All Computed acl
  pub distinct : Distinct acl

-- The rule that a table has for a pattern.
unfoldable pub rule_for : Bytes → Acl → Option Rule
rule_for pat [] = none
rule_for pat (r ∷ acl) = if eqb r.pattern_of pat then some r else rule_for pat acl

abbrev pub rule_of : Bytes → Role → Rule
rule_of pat role = record {
  pattern_of = pat;
  min_role = role;
  specificity = (compute_specificity pat).0;
  has_wildcard = (compute_specificity pat).1;
}

put_rule-Computed :
    (rule : Rule) (acl : Acl) → Computed rule → All Computed acl → All Computed (put_rule rule acl)
unfolding put_rule
put_rule-Computed rule [] c h = (c, tt)
put_rule-Computed rule (r ∷ acl) c h = elim (Bool-cases (eqb r.pattern_of rule.pattern_of)) [
  | inl e ↦ rw e (c, h.1)
  | inr e ↦ rw e (h.0, put_rule-Computed rule acl c h.1)
]

put_rule-other :
    (rule : Rule) (acl : Acl) (pat : Bytes)
    → rule.pattern_of ≢ pat
    → All (λ q. q.pattern_of ≢ pat) acl
    → All (λ q. q.pattern_of ≢ pat) (put_rule rule acl)
unfolding put_rule
put_rule-other rule [] pat n h = (n, tt)
put_rule-other rule (r ∷ acl) pat n h = elim (Bool-cases (eqb r.pattern_of rule.pattern_of)) [
  | inl e ↦ rw e (n, h.1)
  | inr e ↦ rw e (h.0, put_rule-other rule acl pat n h.1)
]

put_rule-Distinct : (rule : Rule) (acl : Acl) → Distinct acl → Distinct (put_rule rule acl)
unfolding put_rule
put_rule-Distinct rule [] h = (tt, tt)
put_rule-Distinct rule (r ∷ acl) h = elim (Bool-cases (eqb r.pattern_of rule.pattern_of)) [
  | inl e ↦ rw e (rw (eqb→eq _ _ e) at h.0, h.1)
  | inr e ↦ rw e (
    put_rule-other rule acl r.pattern_of (λ d. ground (arith, eqb_iff r.pattern_of rule.pattern_of))
        h.0,
    put_rule-Distinct rule acl h.1,
  )
]

-- Allow keeps the table well formed, whatever the pattern and the role.
pub allow-IsTable :
    (pat : Bytes) (role : Role) (acl : Acl) → IsTable acl → IsTable (allow pat role acl)
unfolding allow
allow-IsTable pat role acl t = record {
  computed = put_rule-Computed (rule_of pat role) acl refl t.computed;
  distinct = put_rule-Distinct (rule_of pat role) acl t.distinct;
}

rule_for-put_rule :
    (rule : Rule) (q : Bytes) (acl : Acl)
    → rule_for q (put_rule rule acl) ≡ (if eqb rule.pattern_of q then some rule else rule_for q acl)
unfolding rule_for put_rule
rule_for-put_rule rule q [] = refl
rule_for-put_rule rule q (r ∷ acl) = ground (
  arith,
  eqb_iff r.pattern_of rule.pattern_of,
  eqb_iff rule.pattern_of q,
  eqb_iff r.pattern_of q,
  rule_for-put_rule rule q acl,
)

-- After Allow the table has the declared rule for its pattern, and for every other pattern the rule
-- that it had: a second declaration of a pattern replaces the first.
pub rule_for-allow :
    (pat q : Bytes) (role : Role) (acl : Acl)
    → rule_for q (allow pat role acl)
      ≡ (if eqb pat q then some (rule_of pat role) else rule_for q acl)
unfolding allow
rule_for-allow pat q role acl = rule_for-put_rule (rule_of pat role) q acl

In-put_rule : (rule : Rule) (acl : Acl) → In rule (put_rule rule acl)
unfolding put_rule
In-put_rule rule [] = head
In-put_rule rule (r ∷ acl) = elim (Bool-cases (eqb r.pattern_of rule.pattern_of)) [
  | inl e ↦ rw e head
  | inr e ↦ rw e (tail (In-put_rule rule acl))
]

All-In {ℓ} : {r : Rule} {acl : Acl} (P : Rule → Type ℓ) → All P acl → In r acl → P r
All-In P h head = h.0
All-In P h (tail i) = All-In P h.1 i

-- In a table of distinct patterns the rule of a pattern is the only one.
Distinct-unique :
    {r q : Rule} {acl : Acl}
    → Distinct acl
    → In r acl
    → In q acl
    → r.pattern_of ≡ q.pattern_of
    → r ≡ q
Distinct-unique d head head e = refl
Distinct-unique d head (tail j) e = absurd (All-In _ d.0 j (sym e))
Distinct-unique d (tail i) head e = absurd (All-In _ d.0 i e)
Distinct-unique d (tail i) (tail j) e = Distinct-unique d.1 i j e

Fits-self : (s : Bytes) → Fits s s
Fits-self [] = done
Fits-self (c ∷ s) = same (Fits-self s)

-- A pattern with no `*` fits its own text only.
Fits-plain : {p s : Bytes} → contains_byte p star ≡ false → Fits p s → p ≡ s
unfolding contains_byte
Fits-plain h done = refl
Fits-plain h (same f) = ground (arith, Fits-plain (ground arith) f)
Fits-plain h (skip e f) = ground arith
Fits-plain h (eat e f) = ground arith

literals : Bytes → ℕ
literals [] = 0
literals (c ∷ s) = (if c == star then 0 else 1) + literals s

count_literal-le : (inside : ℕ) (p : Bytes) → count_literal inside p ≤ literals p
unfolding count_literal literals
count_literal-le inside [] = omega arith
count_literal-le (suc inside) (c ∷ p) = ground (arith, count_literal-le inside p)
count_literal-le zero (c ∷ p) = ground (arith, count_literal-le (rune_width (c ∷ p) - 1) p)

Fits-literals : {p s : Bytes} → Fits p s → literals p ≤ length s
unfolding literals
Fits-literals done = omega arith
Fits-literals (same f) = ground (arith, Fits-literals f)
Fits-literals (skip e f) = ground (arith, Fits-literals f)
Fits-literals (eat e f) = ground (arith, Fits-literals f)

specificity_plain :
    (p : Bytes) → contains_byte p star ≡ false → (compute_specificity p).0 ≡ exact_bonus
unfolding compute_specificity
specificity_plain p h = rw h

specificity_wild :
    {p s : Bytes} → contains_byte p star ≡ true → Fits p s → (compute_specificity p).0 ≤ length s
unfolding compute_specificity
specificity_wild {p} h f = rw h (omega (arith, count_literal-le 0 p, Fits-literals f))

contains-NoStar : (s : Bytes) → NoStar s → contains_byte s star ≡ false
unfolding contains_byte
contains-NoStar [] n = refl
contains-NoStar (c ∷ s) n = ground (arith, contains-NoStar s)

-- Of the rules that match a method with an exact rule, no other is as specific.
exact-Prevails :
    {acl : Acl} {r : Rule} (method : Bytes) (role : Role)
    → IsTable acl
    → NoStar method
    → length method < exact_bonus
    → In (rule_of method role) acl
    → In r acl
    → Matches method r
    → Prevails (value r) (value (rule_of method role))
    → r ≡ rule_of method role
exact-Prevails {acl} {r} method role t n small i j m h =
    elim (Bool-cases (contains_byte r.pattern_of star)) [
      | inl w ↦ absurd (
          omega (
            arith,
            ap (λ x. x.0) (All-In Computed t.computed j),
            specificity_wild w fits,
            specificity_plain method (contains-NoStar method n),
          ))
      | inr w ↦ Distinct-unique t.distinct j i (Fits-plain w fits)
    ]
  where
    fits : Fits r.pattern_of method
    fits = (wildcard_match_iff r.pattern_of method n).0 m

-- An exact rule decides: once a role is declared for a method by its full name, that role is
-- required of it, whatever other rules the table has. The method is a name that resolveMinRole does
-- not prefix, without `*`, and shorter than the bonus of exact rules (2^20 bytes).
pub resolve_min_role-allow :
    (method : Bytes) (role : Role) (acl : Acl)
    → IsTable acl
    → normalize_method method ≡ method
    → NoStar method
    → length method < exact_bonus
    → resolve_min_role (allow method role acl) method ≡ role
resolve_min_role-allow method role acl t norm n small =
    elim (rw norm at (resolve_min_role-IsBest (allow method role acl) method)) [
      | inl (r, j, m, e, h) ↦
          e
          ∙ ap (λ x. x.min_role)
              (exact-Prevails method role table n small declared j m (h _ declared self))
      | inr (none_fit, _) ↦ absurd (none_fit _ declared self)
    ]
  where
    table : IsTable (allow method role acl)
    table = allow-IsTable method role acl t

    declared : In (rule_of method role) (allow method role acl)
    declared = unfold allow in In-put_rule (rule_of method role) acl

    self : Matches method (rule_of method role)
    self = (wildcard_match_iff method method n).1 (Fits-self method)

-- ===== src/Metric/Rollup/Intervals.antt =====
-- The intervals of a query, pkg/metric/interval.go.
use mango_hub.Base.{drop, ◌≡◌, refl, subst, ◌⊎◌, inl, inr, false, List, [], ◌∷◌, arith}
use mango_hub.Base.Branch.{elim_by}
use mango_hub.Base.Int.{ℤ, pos, negsuc, leb_ℤ, ltb_ℤ, ◌≤ℤ◌}
use mango_hub.Metric.Rollup.{
  second, standard_query_intervals, floor_from, floor_standard_interval, days_up, ceil_from,
  ceil_standard_interval,
}

-- Each number is at most the next one.
abbrev Ordered : ℤ → List ℤ → Type 0
Ordered a [] = Unit
Ordered a (b ∷ bs) = (a ≤ℤ b) × Ordered b bs

≤ℤ_trans : (a b c : ℤ) → a ≤ℤ b → b ≤ℤ c → a ≤ℤ c
≤ℤ_trans a b c h k = omega arith

abbrev pub OneOf : ℤ → List ℤ → Type 0
OneOf c [] = ⊥
OneOf c (b ∷ bs) = (c ≡ b) ⊎ OneOf c bs

Ordered-least : (a : ℤ) (bs : List ℤ) (c : ℤ) → Ordered a bs → OneOf c bs → a ≤ℤ c
Ordered-least a [] c o m = elim m [ ]
Ordered-least a (b ∷ bs) c o (inl e) = rw e o.0
Ordered-least a (b ∷ bs) c o (inr m) = ≤ℤ_trans a b c o.0 (Ordered-least b bs c o.1 m)

floor_from-below : (selected x : ℤ) (cs : List ℤ) → selected ≤ℤ x → floor_from selected x cs ≤ℤ x
unfolding floor_from
floor_from-below selected x [] h = h
floor_from-below selected x (c ∷ cs) h =
    elim_by (λ r. r ≤ℤ x) (ltb_ℤ x c) (λ e. h) (λ e. floor_from-below c x cs (ground arith))

floor_from-OneOf : (selected x : ℤ) (cs : List ℤ) → OneOf (floor_from selected x cs) (selected ∷ cs)
unfolding floor_from
floor_from-OneOf selected x [] = inl refl
floor_from-OneOf selected x (c ∷ cs) =
    elim_by (λ r. OneOf r (selected ∷ c ∷ cs)) (ltb_ℤ x c) (λ e. inl refl)
      (λ e. inr (floor_from-OneOf c x cs))

floor_from-above :
    (selected x : ℤ) (cs : List ℤ) → Ordered selected cs → selected ≤ℤ floor_from selected x cs
unfolding floor_from
floor_from-above selected x [] o = omega arith
floor_from-above selected x (c ∷ cs) o =
    elim_by (λ r. selected ≤ℤ r) (ltb_ℤ x c) (λ e. omega arith)
      (λ e. ≤ℤ_trans selected c _ o.0 (floor_from-above c x cs o.1))

first_least : (c : ℤ) (cs : List ℤ) (d : ℤ) → Ordered c cs → OneOf d (c ∷ cs) → c ≤ℤ d
first_least c cs d o (inl e) = rw e (omega arith)
first_least c cs d o (inr m) = Ordered-least c cs d o m

floor_from-largest :
    (selected x : ℤ) (cs : List ℤ) (d : ℤ)
    → Ordered selected cs
    → OneOf d (selected ∷ cs)
    → d ≤ℤ x
    → d ≤ℤ floor_from selected x cs
unfolding floor_from
floor_from-largest selected x cs d o (inl e) h = rw e (floor_from-above selected x cs o)
floor_from-largest selected x [] d o (inr m) h = elim m [ ]
floor_from-largest selected x (c ∷ cs) d o (inr m) h =
    let l = first_least c cs d o.1 m in
    elim_by (λ r. d ≤ℤ r) (ltb_ℤ x c) (λ e. (let k = ≤ℤ_trans c d x l h in ground arith))
      (λ e. floor_from-largest c x cs d o.1 m h)

ceil_from-above : (x : ℤ) (cs : List ℤ) → pos 0 ≤ℤ x → x ≤ℤ ceil_from x cs
unfolding ceil_from days_up
ceil_from-above (pos n) [] h = omega arith
ceil_from-above (negsuc n) [] h = omega arith
ceil_from-above x (c ∷ cs) h =
    elim_by (λ r. x ≤ℤ r) (leb_ℤ x c) (λ e. ground arith) (λ e. ceil_from-above x cs h)

not_passed : (x c d : ℤ) → leb_ℤ x c ≡ false → x ≤ℤ d → d ≡ c → ⊥
not_passed x c d e h f = (let k = subst (λ z. x ≤ℤ z) f h in ground arith)

OneOf-rest : (x c d : ℤ) (cs : List ℤ) → leb_ℤ x c ≡ false → x ≤ℤ d → OneOf d (c ∷ cs) → OneOf d cs
OneOf-rest x c d cs e h (inl f) = absurd (not_passed x c d e h f)
OneOf-rest x c d cs e h (inr m) = m

ceil_from-smallest :
    (x c : ℤ) (cs : List ℤ) (d : ℤ)
    → Ordered c cs
    → OneOf d (c ∷ cs)
    → x ≤ℤ d
    → ceil_from x (c ∷ cs) ≤ℤ d
unfolding ceil_from
ceil_from-smallest x c [] d o m h =
    elim_by (λ r. r ≤ℤ d) (leb_ℤ x c) (λ e. first_least c [] d o m)
      (λ e. elim (OneOf-rest x c d [] e h m) [ ])
ceil_from-smallest x c (b ∷ bs) d o m h =
    elim_by (λ r. r ≤ℤ d) (leb_ℤ x c) (λ e. first_least c (b ∷ bs) d o m)
      (λ e. ceil_from-smallest x b bs d o.1 (OneOf-rest x c d (b ∷ bs) e h m) h)

≤ℤ_total : (x c : ℤ) → (c ≤ℤ x) ⊎ (x ≤ℤ c)
≤ℤ_total x c = ground arith

-- The same for any ascending intervals, of which `s` is the first.
from-nearest :
    (s : ℤ) (cs : List ℤ) (x c : ℤ)
    → Ordered s cs
    → pos 0 ≤ℤ s
    → s ≤ℤ x
    → OneOf c (s ∷ cs)
    → OneOf (floor_from s x (s ∷ cs)) (s ∷ cs)
      × (floor_from s x (s ∷ cs) ≤ℤ x)
      × (x ≤ℤ ceil_from x (s ∷ cs))
      × ((c ≤ℤ floor_from s x (s ∷ cs)) ⊎ (ceil_from x (s ∷ cs) ≤ℤ c))
from-nearest s cs x c o z h m = (
  elim (floor_from-OneOf s x (s ∷ cs)) [ inl e ↦ inl e | inr k ↦ k ],
  floor_from-below s x (s ∷ cs) h,
  ceil_from-above x (s ∷ cs) (≤ℤ_trans (pos 0) s x z h),
  elim (≤ℤ_total x c) [
    | inl k ↦ inl (floor_from-largest s x (s ∷ cs) c (omega arith, o) (inr m) k)
    | inr k ↦ inr (ceil_from-smallest x s cs c o m k)
  ],
)

-- For a duration of at least one second and any standard interval `c`: FloorStandardInterval gives a
-- standard interval that is at most the duration, CeilStandardInterval gives an interval that is at
-- least the duration, and `c` does not lie between the two: it is at most the first or at least the
-- second.
pub standard_interval-nearest :
    (x c : ℤ)
    → pos second ≤ℤ x
    → OneOf c standard_query_intervals
    → OneOf (floor_standard_interval x) standard_query_intervals
      × (floor_standard_interval x ≤ℤ x)
      × (x ≤ℤ ceil_standard_interval x)
      × ((c ≤ℤ floor_standard_interval x) ⊎ (ceil_standard_interval x ≤ℤ c))
unfolding floor_standard_interval ceil_standard_interval
standard_interval-nearest x c h m =
    from-nearest (pos second) (drop 1 standard_query_intervals) x c (ground arith) (omega arith) h m

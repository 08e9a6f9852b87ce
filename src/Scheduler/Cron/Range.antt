-- ===== src/Scheduler/Cron/Range.antt =====
-- The bounds of the values of a field: parseField and parseRange of internal/scheduler/scheduler.go.
use mango_hub.Base.{
  ℕ, zero, suc, ◌≤◌, inl, inr, ◌||◌, List, [], ◌∷◌, All, All-append, Bytes, codes, eqb,
  contains_byte, trim_space, ltb, arith, Bool-cases, if◌then◌else◌,
}
use mango_hub.Base.Int.{ℤ, pos, negsuc, ◌≤ℤ◌, leb_ℤ}
use mango_hub.Scheduler.Cron.{
  Parsed, split, atoi, or_error, range_within, value_within, range_of_parts, parse_range, add_int64,
  fill, fill_rounds, step_of_parts, parse_part, parse_parts, parse_field, ◌>>=◌,
  invalid_range_start, invalid_range_end, invalid_value,
}

-- A result without an error has a property.
abbrev pub Gives : {A : Type 0} → (A → Type 0) → Parsed A → Type 0
Gives P (inl e) = Unit
Gives P (inr a) = P a

pub Gives-bind :
    {A B : Type 0} (P : A → Type 0) (Q : B → Type 0) (x : Parsed A) (f : A → Parsed B)
    → Gives P x
    → ((a : A) → P a → Gives Q (f a))
    → Gives Q (x >>= f)
Gives-bind P Q (inl e) f h k = tt
Gives-bind P Q (inr a) f h k = k a h

pub Gives-any : {A : Type 0} (x : Parsed A) → Gives (λ _. Unit) x
Gives-any (inl e) = tt
Gives-any (inr a) = tt

abbrev pub AtMost : ℕ → List ℤ → Type 0
AtMost max values = All (λ v. v ≤ℤ pos max) values

fill-AtMost : (fuel : ℕ) (i : ℤ) (end step max : ℕ) → end ≤ max → AtMost max (fill fuel i end step)
unfolding fill
fill-AtMost zero i end step max h = tt
fill-AtMost (suc fuel) i end step max h = elim (Bool-cases (leb_ℤ i (pos end))) [
  | inl y ↦ rw y (ground arith, fill-AtMost fuel (add_int64 i step) end step max h)
  | inr n ↦ rw n tt
]

-- The two ends of a range are in order and inside min-max.
abbrev pub IsRange : ℕ → ℕ → ℕ × ℕ → Type 0
IsRange min max r = (min ≤ r.0) × (r.0 ≤ r.1) × (r.1 ≤ max)

range_within-IsRange : (min max : ℕ) (a b : ℤ) → Gives (IsRange min max) (range_within min max a b)
unfolding range_within
range_within-IsRange min max (pos a) (pos b) =
    elim (Bool-cases (ltb b a || ltb a min || ltb max b)) [
      | inl y ↦ rw y tt
      | inr n ↦ rw n (ground arith, ground arith, ground arith)
    ]
range_within-IsRange min max (pos a) (negsuc b) = tt
range_within-IsRange min max (negsuc a) b = tt

value_within-IsRange : (min max : ℕ) (v : ℤ) → Gives (IsRange min max) (value_within min max v)
unfolding value_within
value_within-IsRange min max (pos v) = elim (Bool-cases (ltb v min || ltb max v)) [
  | inl y ↦ rw y tt
  | inr n ↦ rw n (ground arith, ground arith, ground arith)
]
value_within-IsRange min max (negsuc v) = tt

range_of_parts-IsRange :
    (min max : ℕ) (parts : List Bytes) → Gives (IsRange min max) (range_of_parts min max parts)
unfolding range_of_parts
range_of_parts-IsRange min max [] = tt
range_of_parts-IsRange min max (a ∷ []) = tt
range_of_parts-IsRange min max (a ∷ b ∷ []) =
    Gives-bind _ _ (or_error (atoi a) invalid_range_start) _ (Gives-any _) (λ x _.
      Gives-bind _ _ (or_error (atoi b) invalid_range_end) _ (Gives-any _)
        (λ y _. range_within-IsRange min max x y))
range_of_parts-IsRange min max (a ∷ b ∷ c ∷ parts) = tt

-- parseRange, for every text: an error, or two ends in order and inside the field's bounds.
pub parse_range-IsRange :
    (base : Bytes) (min max : ℕ) → min ≤ max → Gives (IsRange min max) (parse_range base min max)
unfolding parse_range
parse_range-IsRange base min max h = elim (Bool-cases (eqb base (codes "*") || eqb base [])) [
  | inl y ↦ rw y (omega arith, h, omega arith)
  | inr n ↦ elim (Bool-cases (contains_byte base b'-')) [
    | inl y ↦ rw (n, y) (range_of_parts-IsRange min max (split b'-' base))
    | inr m ↦
        rw (n, m)
          (Gives-bind _ _ (or_error (atoi base) invalid_value) _ (Gives-any _)
            (λ v _. value_within-IsRange min max v))
  ]
]

from_base-AtMost :
    (min max : ℕ) (b : Bytes × ℕ)
    → min ≤ max
    → Gives (AtMost max) (parse_range b.0 min max >>= λ r. inr (fill fill_rounds (pos r.0) r.1 b.1))
from_base-AtMost min max b h =
    Gives-bind (IsRange min max) (AtMost max) (parse_range b.0 min max)
      (λ r. inr (fill fill_rounds (pos r.0) r.1 b.1)) (parse_range-IsRange b.0 min max h)
      (λ r k. fill-AtMost fill_rounds (pos r.0) r.1 b.1 max k.2)

parse_part-AtMost :
    (text : Bytes) (min max : ℕ) → min ≤ max → Gives (AtMost max) (parse_part text min max)
unfolding parse_part
parse_part-AtMost text min max h = elim (Bool-cases (eqb part [])) [
  | inl y ↦ rw y tt
  | inr n ↦ rw n (
      Gives-bind (λ _. Unit) (AtMost max) base_step
        (λ (b : Bytes × ℕ).
          parse_range b.0 min max >>= λ r. inr (fill fill_rounds (pos r.0) r.1 b.1))
        (Gives-any base_step) (λ b _. from_base-AtMost min max b h))
]
  where
    part : Bytes
    part = trim_space text

    base_step : Parsed (Bytes × ℕ)
    base_step = if contains_byte part b'/' then step_of_parts (split b'/' part) else inr (part, 1)

parse_parts-AtMost :
    (parts : List Bytes) (min max : ℕ) → min ≤ max → Gives (AtMost max) (parse_parts parts min max)
unfolding parse_parts
parse_parts-AtMost [] min max h = tt
parse_parts-AtMost (text ∷ parts) min max h =
    Gives-bind _ _ (parse_part text min max) _ (parse_part-AtMost text min max h) (λ vs k.
      Gives-bind _ _ (parse_parts parts min max) _ (parse_parts-AtMost parts min max h)
        (λ ws l. All-append _ vs ws k l))

-- parseField, for every text: an error, or values none of which is above the field's upper bound.
pub parse_field-AtMost :
    (field : Bytes) (min max : ℕ) → min ≤ max → Gives (AtMost max) (parse_field field min max)
unfolding parse_field
parse_field-AtMost field min max h = parse_parts-AtMost (split b',' field) min max h

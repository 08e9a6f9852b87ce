-- ===== src/Scheduler/Cron.antt =====
-- Cron expressions, Parse, parseField and parseRange of internal/scheduler/scheduler.go. An int is an
-- ℤ in the range of int64, and the addition of the loop wraps. A set of values, map[int]struct{}, is
-- the list of the values that were stored. time.ParseDuration is a parameter, with its error as none.
pub mod Fill
pub mod Ends
pub mod Range
use mango_hub.Base.{
  ℕ, zero, suc, ◌+◌, ◌-◌, ◌*◌, ◌^◌, ◌≡◌, refl, Bool, true, false, not, ◌&&◌, ◌||◌, Option, none,
  some, List, [], ◌∷◌, ◌++◌, ◌⊎◌, inl, inr, length, drop, Bytes, codes, eqb, has_prefix,
  contains_byte, trim_space, space_width, ltb, leb, ◌==◌, if◌then◌else◌,
}
use mango_hub.Base.Int.{ℤ, pos, negsuc, sub_ℕ, leb_ℤ}

-- The errors; `in_field` wraps one with the field that it is about.
pub data CronError : Type 0 where
  empty_spec bad_duration not_positive empty_part invalid_step invalid_range : CronError
  invalid_range_start invalid_range_end range_out_of_bounds : CronError
  invalid_value value_out_of_bounds : CronError
  field_count : ℕ → CronError
  in_field : Bytes → CronError → CronError

abbrev pub Parsed : Type 0 → Type 0
Parsed A = CronError ⊎ A

infixl 5 ◌>>=◌
abbrev pub ◌>>=◌ : {A B : Type 0} → Parsed A → (A → Parsed B) → Parsed B
inl e >>= f = inl e
inr a >>= f = f a

-- strings.Split with a separator of one byte.
unfoldable pub split : ℕ → Bytes → List Bytes
split sep [] = [] ∷ []
split sep (c ∷ s) = elim (split sep s) [
  | [] ↦ []
  | p ∷ ps ↦ if c == sep then [] ∷ p ∷ ps else (c ∷ p) ∷ ps
]

-- strings.Fields: `word` is the field that is being read, none between fields. The fuel is the length.
abbrev end_word : Option Bytes → List Bytes
end_word none = []
end_word (some w) = w ∷ []

abbrev add_byte : Option Bytes → ℕ → Bytes
add_byte none c = c ∷ []
add_byte (some w) c = w ++ c ∷ []

unfoldable pub fields_from : ℕ → Bytes → Option Bytes → List Bytes
fields_from fuel [] word = end_word word
fields_from zero (c ∷ s) word = end_word word
fields_from (suc fuel) (c ∷ s) word =
    let spaced = end_word word ++ fields_from fuel (drop (space_width (c ∷ s)) (c ∷ s)) none in
    let inside = fields_from fuel s (some (add_byte word c)) in
    if space_width (c ∷ s) == 0 then inside else spaced

unfoldable pub fields : Bytes → List Bytes
unfolding fields_from
fields s = fields_from (length s) s none

abbrev pub max_int64 : ℕ
max_int64 = 2 ^ 63 - 1

-- strconv.Atoi: an optional sign and at least one digit, in the range of int64.
unfoldable pub digits_value : Bytes → ℕ → Option ℕ
digits_value [] acc = some acc
digits_value (c ∷ s) acc =
    let rest = digits_value s (acc * 10 + (c - 48)) in if leb 48 c && leb c 57 then rest else none

abbrev signed : Bool → Option ℕ → Option ℤ
signed negative none = none
signed false (some n) = if leb n max_int64 then some (pos n) else none
signed true (some n) = if leb n (suc max_int64) then some (sub_ℕ 0 n) else none

unfoldable pub unsigned : Bytes → Option ℕ
unfolding digits_value
unsigned [] = none
unsigned (c ∷ s) = digits_value (c ∷ s) 0

unfoldable pub atoi : Bytes → Option ℤ
unfolding unsigned
atoi [] = none
atoi (c ∷ s) =
    if c == b'-'
    then signed true (unsigned s)
    else if c == b'+'
    then signed false (unsigned s)
    else signed false (unsigned (c ∷ s))

or_error : {A : Type 0} → Option A → CronError → Parsed A
or_error none e = inl e
or_error (some a) e = inr a

-- The tests of parseRange on a range and on a value; min is not negative.
unfoldable pub range_within : ℕ → ℕ → ℤ → ℤ → Parsed (ℕ × ℕ)
range_within min max (pos start) (pos end) =
    if ltb end start || ltb start min || ltb max end
    then inl range_out_of_bounds
    else inr (start, end)
range_within min max start end = inl range_out_of_bounds

unfoldable pub value_within : ℕ → ℕ → ℤ → Parsed (ℕ × ℕ)
value_within min max (pos value) =
    if ltb value min || ltb max value then inl value_out_of_bounds else inr (value, value)
value_within min max (negsuc n) = inl value_out_of_bounds

unfoldable pub range_of_parts : ℕ → ℕ → List Bytes → Parsed (ℕ × ℕ)
unfolding or_error
range_of_parts min max (a ∷ b ∷ []) = do
  start ← or_error (atoi a) invalid_range_start
  end ← or_error (atoi b) invalid_range_end
  range_within min max start end
range_of_parts min max parts = inl invalid_range

unfoldable pub parse_range : Bytes → ℕ → ℕ → Parsed (ℕ × ℕ)
unfolding range_of_parts or_error range_within value_within
parse_range base min max =
    if eqb base (codes "*") || eqb base []
    then inr (min, max)
    else if contains_byte base b'-'
    then range_of_parts min max (split b'-' base)
    else do value ← or_error (atoi base) invalid_value; value_within min max value

-- i += step on int64, for a positive step.
unfoldable pub add_int64 : ℤ → ℕ → ℤ
add_int64 (pos a) step =
    if leb (a + step) max_int64 then pos (a + step) else negsuc (2 ^ 64 - (a + step) - 1)
add_int64 (negsuc a) step = sub_ℕ step (suc a)

-- for i := start; i <= end; i += step { values[i] = struct{}{} }
unfoldable pub fill : ℕ → ℤ → ℕ → ℕ → List ℤ
fill zero i end step = []
fill (suc fuel) i end step =
    let rest = i ∷ fill fuel (add_int64 i step) end step in if leb_ℤ i (pos end) then rest else []

-- The values of a field are below 60 and a sum that wraps twice comes back at least 2 lower, so no
-- loop of the program needs more rounds.
abbrev pub fill_rounds : ℕ
fill_rounds = 200

step_within : ℤ → Parsed ℕ
step_within (pos zero) = inl invalid_step
step_within (pos (suc n)) = inr (suc n)
step_within (negsuc n) = inl invalid_step

-- A part `base/step`, or a part without a step.
unfoldable pub step_of_parts : List Bytes → Parsed (Bytes × ℕ)
unfolding or_error step_within
step_of_parts (base ∷ text ∷ []) = do
  n ← or_error (atoi text) invalid_step
  step ← step_within n
  inr (base, step)
step_of_parts parts = inl invalid_step

unfoldable pub parse_part : Bytes → ℕ → ℕ → Parsed (List ℤ)
unfolding step_of_parts
parse_part text min max =
    let part = trim_space text in
    if eqb part [] then inl empty_part else do
      (base, step) ←
          (if contains_byte part b'/' then step_of_parts (split b'/' part) else inr (part, 1))
      (start, end) ← parse_range base min max
      inr (fill fill_rounds (pos start) end step)

unfoldable pub parse_parts : List Bytes → ℕ → ℕ → Parsed (List ℤ)
unfolding parse_part
parse_parts [] min max = inr []
parse_parts (text ∷ parts) min max = do
  values ← parse_part text min max
  rest ← parse_parts parts min max
  inr (values ++ rest)

unfoldable pub parse_field : Bytes → ℕ → ℕ → Parsed (List ℤ)
unfolding parse_parts split
parse_field field min max = parse_parts (split b',' field) min max

-- cronSchedule
pub record CronSchedule : Type 0 where
  pub seconds : List ℤ
  pub minutes : List ℤ
  pub hours : List ℤ
  pub dom : List ℤ
  pub months : List ℤ
  pub dow : List ℤ

pub data Schedule : Type 0 where
  every : ℤ → Schedule
  cron : CronSchedule → Schedule

abbrev pub named : {A : Type 0} → Bytes → Parsed A → Parsed A
named name (inl e) = inl (in_field name e)
named name (inr a) = inr a

-- `_, ok := values[n]`
unfoldable pub has_value : List ℤ → ℕ → Bool
has_value [] n = false
has_value (pos v ∷ vs) n = v == n || has_value vs n
has_value (negsuc v ∷ vs) n = has_value vs n

unfoldable pub without : List ℤ → ℕ → List ℤ
without [] n = []
without (pos v ∷ vs) n = if v == n then without vs n else pos v ∷ without vs n
without (negsuc v ∷ vs) n = negsuc v ∷ without vs n

-- Sunday is 0 and 7.
unfoldable pub fold_sunday : List ℤ → List ℤ
unfolding has_value without
fold_sunday dow = if has_value dow 7 then without (pos 0 ∷ dow) 7 else dow

-- The fields in the order in which they are parsed: the first error is the result.
unfoldable pub schedule_of :
    Parsed (List ℤ)
    → Parsed (List ℤ)
    → Parsed (List ℤ)
    → Parsed (List ℤ)
    → Parsed (List ℤ)
    → Parsed (List ℤ)
    → Parsed Schedule
unfolding fold_sunday
schedule_of second minute hour day_of_month month day_of_week = do
  seconds ← second
  minutes ← minute
  hours ← hour
  dom ← day_of_month
  months ← month
  dow ← day_of_week
  inr (
      cron (record {
        seconds = seconds;
        minutes = minutes;
        hours = hours;
        dom = dom;
        months = months;
        dow = fold_sunday dow;
      }))

unfoldable pub parse_cron : List Bytes → Parsed Schedule
unfolding schedule_of
parse_cron (s ∷ m ∷ h ∷ d ∷ mo ∷ w ∷ []) =
    schedule_of (named (codes "second") (parse_field s 0 59))
      (named (codes "minute") (parse_field m 0 59)) (named (codes "hour") (parse_field h 0 23))
      (named (codes "day-of-month") (parse_field d 1 31))
      (named (codes "month") (parse_field mo 1 12))
      (named (codes "day-of-week") (parse_field w 0 7))
parse_cron texts = inl (field_count (length texts))

abbrev pub with_second : List Bytes → List Bytes
with_second texts = if length texts == 5 then codes "0" ∷ texts else texts

abbrev pub every_prefix : Bytes
every_prefix = codes "@every "

unfoldable pub positive_duration : Option ℤ → Parsed Schedule
positive_duration none = inl bad_duration
positive_duration (some d) = if leb_ℤ d (pos 0) then inl not_positive else inr (every d)

unfoldable pub parse : (Bytes → Option ℤ) → Bytes → Parsed Schedule
unfolding parse_cron positive_duration fields
parse parse_duration text =
    let spec = trim_space text in
    if eqb spec []
    then inl empty_spec
    else if has_prefix spec every_prefix
    then positive_duration (parse_duration (trim_space (drop (length every_prefix) spec)))
    else parse_cron (with_second (fields spec))

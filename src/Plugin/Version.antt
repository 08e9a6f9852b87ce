-- ===== src/Plugin/Version.antt =====
-- CheckKomariVersion of internal/plugin/version.go. The version of the server,
-- utils.CurrentVersion, is an argument.
use mango_hub.Base.{
  ℕ, zero, suc, Bool, true, false, Option, none, some, List, [], ◌∷◌, ◌⊎◌, inl, inr, Bytes, codes,
  eqb, has_prefix, trim_space, drop, length, ltb, ◌==◌, if◌then◌else◌,
}
use mango_hub.Base.Int.{ℤ, pos, negsuc}
use mango_hub.Scheduler.Cron.{atoi}

-- [3]int, of parts that are not negative.
pub record Semver : Type 0 where
  pub major : ℕ
  pub minor : ℕ
  pub patch : ℕ

pub data VersionError : Type 0 where
  empty_version too_many_parts : VersionError
  invalid_part : Bytes → VersionError

-- The results of compareSemver: -1, 0 and 1.
pub data Comparison : Type 0 where
  less same greater : Comparison

pub data Operator : Type 0 where
  at_least at_most above below exact : Operator

unfoldable pub compare_part : ℕ → ℕ → Comparison → Comparison
compare_part a b rest = if ltb a b then less else if ltb b a then greater else rest

unfoldable pub compare_semver : Semver → Semver → Comparison
unfolding compare_part
compare_semver a b =
    compare_part a.major b.major (compare_part a.minor b.minor (compare_part a.patch b.patch same))

unfoldable pub satisfies : Comparison → Operator → Bool
satisfies less at_least = false
satisfies less at_most = true
satisfies less above = false
satisfies less below = true
satisfies less exact = false
satisfies same at_least = true
satisfies same at_most = true
satisfies same above = false
satisfies same below = false
satisfies same exact = true
satisfies greater at_least = true
satisfies greater at_most = false
satisfies greater above = true
satisfies greater below = false
satisfies greater exact = false

-- strings.Split(s, "."): the first part, and the parts behind it.
split_dot : Bytes → Bytes × List Bytes
split_dot [] = ([], [])
split_dot (c ∷ s) =
    let (part, parts) = split_dot s in if c == b'.' then ([], part ∷ parts) else (c ∷ part, parts)

part_of : Bytes → Option ℤ → VersionError ⊎ ℕ
part_of part none = inl (invalid_part part)
part_of part (some (negsuc n)) = inl (invalid_part part)
part_of part (some (pos n)) = inr n

-- The loop over the parts, of which there are at most three.
parse_parts : List Bytes → VersionError ⊎ List ℕ
unfolding part_of
parse_parts [] = inr []
parse_parts (part ∷ parts) = elim (part_of part (atoi part)) [
  | inl e ↦ inl e
  | inr n ↦ elim (parse_parts parts) [ inl e ↦ inl e | inr ns ↦ inr (n ∷ ns) ]
]

nth : List ℕ → ℕ → ℕ
nth [] i = 0
nth (n ∷ ns) zero = n
nth (n ∷ ns) (suc i) = nth ns i

semver_of : VersionError ⊎ List ℕ → VersionError ⊎ Semver
unfolding nth
semver_of (inl e) = inl e
semver_of (inr ns) = inr (record { major = nth ns 0; minor = nth ns 1; patch = nth ns 2 })

parse_trimmed : Bytes → VersionError ⊎ Semver
unfolding split_dot parse_parts semver_of
parse_trimmed s =
    if eqb s []
    then inl empty_version
    else (let (part, parts) = split_dot s in
        if ltb 3 (length (part ∷ parts))
        then inl too_many_parts
        else semver_of (parse_parts (part ∷ parts)))

unfoldable pub parse_semver : Bytes → VersionError ⊎ Semver
unfolding parse_trimmed
parse_semver s = parse_trimmed (trim_space (if has_prefix s (b'v' ∷ []) then drop 1 s else s))

-- The operator of a constraint, and what follows it.
unfoldable pub operator_of : Bytes → Operator × Bytes
operator_of s =
    if has_prefix s (codes ">=")
    then (at_least, trim_space (drop 2 s))
    else if has_prefix s (codes "<=")
    then (at_most, trim_space (drop 2 s))
    else if has_prefix s (codes ">")
    then (above, trim_space (drop 1 s))
    else if has_prefix s (codes "<")
    then (below, trim_space (drop 1 s))
    else if has_prefix s (codes "=")
    then (exact, trim_space (drop 1 s))
    else (exact, s)

pub data CheckError : Type 0 where
  invalid_constraint : VersionError → CheckError
  requires : Bytes → CheckError

-- The decision on a wanted version and that of the server, which may be malformed.
unfoldable pub decide :
    Bytes → Operator → VersionError ⊎ Semver → VersionError ⊎ Semver → Option CheckError
decide constraint op (inl e) current = some (invalid_constraint e)
decide constraint op (inr want) (inl e) = none
decide constraint op (inr want) (inr have) =
    if satisfies (compare_semver have want) op then none else some (requires constraint)

unfoldable pub check_trimmed : Bytes → Bytes → Option CheckError
unfolding operator_of
check_trimmed current constraint =
    if eqb constraint []
    then none
    else (let (op, rest) = operator_of constraint in
        decide constraint op (parse_semver rest) (parse_semver current))

unfoldable pub check_komari_version : Bytes → Bytes → Option CheckError
unfolding check_trimmed
check_komari_version current constraint = check_trimmed current (trim_space constraint)

-- ===== src/Plugin/Order.antt =====
-- The order of versions (internal/plugin/version.go).
use mango_hub.Base.{◌<◌, ◌≡◌, ◌↔◌, ◌⊎◌, inr, false, none, [], eqb, trim_space, Bytes, arith}
use mango_hub.Plugin.Version.{
  Semver, Operator, at_least, at_most, above, below, exact, compare_part, compare_semver, satisfies,
  decide, operator_of, parse_semver, check_trimmed, check_komari_version,
}

-- The first of two versions is the older one: at the first part where they differ it is lower.
abbrev pub Older : Semver → Semver → Type 0
Older a b =
    (a.major < b.major)
    ⊎ ((a.major ≡ b.major) × ((a.minor < b.minor) ⊎ ((a.minor ≡ b.minor) × (a.patch < b.patch))))

abbrev pub Alike : Semver → Semver → Type 0
Alike a b = (a.major ≡ b.major) × (a.minor ≡ b.minor) × (a.patch ≡ b.patch)

-- What an operator asks of the version of the server and the one that is wanted.
abbrev pub Allows : Operator → Semver → Semver → Type 0
Allows at_least have want = Older want have ⊎ Alike have want
Allows at_most have want = Older have want ⊎ Alike have want
Allows above have want = Older want have
Allows below have want = Older have want
Allows exact have want = Alike have want

decide_iff :
    (constraint : Bytes) (op : Operator) (want have : Semver)
    → (decide constraint op (inr want) (inr have) ≡ none) ↔ Allows op have want
unfolding decide compare_semver compare_part satisfies
decide_iff constraint at_least want have = (λ e. ground arith, λ h. ground arith)
decide_iff constraint at_most want have = (λ e. ground arith, λ h. ground arith)
decide_iff constraint above want have = (λ e. ground arith, λ h. ground arith)
decide_iff constraint below want have = (λ e. ground arith, λ h. ground arith)
decide_iff constraint exact want have = (λ e. ground arith, λ h. ground arith)

-- For a constraint that is not empty, with the operator and the version that are read of it, and a
-- well-formed version of the server: the plugin is accepted exactly if the two versions are in the
-- relation that the operator names.
pub check_komari_version_iff :
    (current constraint rest : Bytes) (op : Operator) (want have : Semver)
    → eqb (trim_space constraint) [] ≡ false
    → operator_of (trim_space constraint) ≡ (op, rest)
    → parse_semver rest ≡ inr want
    → parse_semver current ≡ inr have
    → (check_komari_version current constraint ≡ none) ↔ Allows op have want
unfolding check_komari_version check_trimmed
check_komari_version_iff current constraint rest op want have full asks wants has =
    rw (full, asks, wants, has) (decide_iff (trim_space constraint) op want have)

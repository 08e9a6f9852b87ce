-- ===== src/Plugin/Tests.antt =====
-- Tests and examples for internal/plugin.
use mango_hub.Base.{ℕ, ◌≡◌, ◌↔◌, refl, none, some, codes, eqb, has_prefix, trim_space}
use mango_hub.Scheduler.Cron.{atoi}
use mango_hub.Plugin.Version.{
  Semver, at_least, requires, compare_semver, satisfies, decide, operator_of, parse_semver,
  check_komari_version,
}
use mango_hub.Plugin.Order.{Allows, check_komari_version_iff}

too_old : check_komari_version (codes "1.2.3") (codes ">= 1.10") ≡ some (requires (codes ">= 1.10"))
unfolding check_komari_version eqb trim_space decide parse_semver has_prefix atoi satisfies
    compare_semver
too_old = refl

abbrev version : ℕ → ℕ → ℕ → Semver
version major minor patch = record { major = major; minor = minor; patch = patch }

check_komari_version_iff_example :
    (check_komari_version (codes "v1.10.3") (codes " >=1.2 ") ≡ none)
    ↔ Allows at_least (version 1 10 3) (version 1 2 0)
unfolding parse_semver eqb trim_space operator_of has_prefix atoi
check_komari_version_iff_example =
    check_komari_version_iff (codes "v1.10.3") (codes " >=1.2 ") (codes "1.2") at_least
      (version 1 2 0) (version 1 10 3) refl refl refl refl

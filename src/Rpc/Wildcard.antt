-- ===== src/Rpc/Wildcard.antt =====
-- pkg/rpc/permission.go, wildcardMatch: the matcher of access patterns, in which `*` stands for any
-- run of bytes. A position of the source (p, str, star + 1, strBackup) is the part of the text that
-- begins there; star == -1 is `none`. The loop takes fuel, and `none` is that the fuel ran out.
pub mod Fuel
pub mod Meaning
use mango_hub.Base.{
  ℕ, zero, suc, ◌+◌, ◌*◌, Bool, true, false, Option, none, some, [], ◌∷◌, length, Bytes, ◌==◌,
  if◌then◌else◌,
}
use mathlib.Core.List.{tail}

abbrev pub star : ℕ
star = b'*'

-- `star + 1` and `strBackup`, where star != -1
abbrev pub Backup : Type 0
Backup = Option (Bytes × Bytes)

-- The second loop, and the test that ends the function.
unfoldable pub only_stars : Bytes → Bool
only_stars [] = true
only_stars (c ∷ p) = if c == star then only_stars p else false

-- The last two branches of the loop.
unfoldable pub backtrack : Backup → (Bytes → Bytes → Backup → Option Bool) → Option Bool
backtrack none go = some false
backtrack (some (after, saved)) go = go after (tail saved) (some (after, tail saved))

-- The first loop.
unfoldable pub scan : ℕ → Bytes → Bytes → Backup → Option Bool
scan zero p s back = none
scan (suc fuel) p [] back = some (only_stars p)
scan (suc fuel) [] (d ∷ s) back = backtrack back (scan fuel)
scan (suc fuel) (c ∷ p) (d ∷ s) back =
    let advance = scan fuel p s back in
    let remember = scan fuel p (d ∷ s) (some (p, d ∷ s)) in
    if c == d then advance else if c == star then remember else backtrack back (scan fuel)

-- Each of the positions of the text is a start of at most one pass over the pattern.
abbrev pub enough : Bytes → Bytes → ℕ
enough pattern s = suc (suc (length s) * suc (length pattern))

unfoldable pub wildcard_match : Bytes → Bytes → Bool
unfolding scan backtrack only_stars
wildcard_match pattern s = elim (scan (enough pattern s) pattern s none) [
  | none ↦ false
  | some b ↦ b
]

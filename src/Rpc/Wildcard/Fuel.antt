-- ===== src/Rpc/Wildcard/Fuel.antt =====
-- wildcardMatch ends on every pattern and every text (pkg/rpc/permission.go): each round of its loop
-- shortens the pattern that is left, or the text behind the saved position.
use mango_hub.Base.{
  ℕ, zero, suc, ◌+◌, ◌*◌, ◌≤◌, ◌<◌, ◌≡◌, Bool, Option, none, some, [], ◌∷◌, length, Bytes, arith,
  inl, inr, Bool-cases, ◌==◌,
}
use mango_hub.Rpc.Wildcard.{star, Backup, backtrack, scan, enough, wildcard_match}

abbrev pub Returns : Option Bool → Type 0
Returns none = ⊥
Returns (some b) = Unit

-- The saved pattern is shorter than `k`, and the saved text as long as the text, at most `m` bytes.
abbrev Saved : ℕ → ℕ → Bytes → Backup → Type 0
Saved k m s none = Unit
Saved k m s (some (after, saved)) =
    (length after < k) × (length s ≤ length saved) × (length saved ≤ m)

Saved-tail : (k m d : ℕ) (s : Bytes) (back : Backup) → Saved k m (d ∷ s) back → Saved k m s back
Saved-tail k m d s none h = tt
Saved-tail k m d s (some (after, saved)) h = (h.0, omega arith, h.2)

backtrack-Returns :
    (k fuel m d : ℕ) (s : Bytes) (back : Backup) (go : Bytes → Bytes → Backup → Option Bool)
    → ((m' : ℕ) (p' s' : Bytes) (b : Backup)
        → length p' < k
        → length s' ≤ m'
        → Saved k m' s' b
        → m' * k + length p' < fuel
        → Returns (go p' s' b))
    → Saved k m (d ∷ s) back
    → m * k < suc fuel
    → Returns (backtrack back go)
unfolding backtrack
backtrack-Returns k fuel m d s none go ih hb hf = tt
backtrack-Returns k fuel m d s (some (after, [])) go ih hb hf = absurd (omega arith)
backtrack-Returns k fuel zero d s (some (after, e ∷ saved)) go ih hb hf = absurd (omega arith)
backtrack-Returns k fuel (suc m) d s (some (after, e ∷ saved)) go ih hb hf =
    ih m after saved (some (after, saved)) hb.0 (omega arith) (hb.0, omega arith, omega arith)
      (omega arith)

scan-Returns :
    (k fuel m : ℕ) (p s : Bytes) (back : Backup)
    → length p < k
    → length s ≤ m
    → Saved k m s back
    → m * k + length p < fuel
    → Returns (scan fuel p s back)
unfolding scan
scan-Returns k zero m p s back hp hs hb hf = absurd (omega arith)
scan-Returns k (suc fuel) m p [] back hp hs hb hf = tt
scan-Returns k (suc fuel) m [] (d ∷ s) back hp hs hb hf =
    backtrack-Returns k fuel m d s back (scan fuel) (scan-Returns k fuel) hb (omega arith)
scan-Returns k (suc fuel) m (c ∷ p) (d ∷ s) back hp hs hb hf = elim (Bool-cases (c == d)) [
  | inl e ↦ rw e (
      scan-Returns k fuel m p s back (omega arith) (omega arith) (Saved-tail k m d s back hb)
        (omega arith))
  | inr e ↦ elim (Bool-cases (c == star)) [
    | inl f ↦
        rw (e, f)
          (scan-Returns k fuel m p (d ∷ s) (some (p, d ∷ s)) (omega arith) hs
            (omega arith, omega arith, hs) (omega arith))
    | inr f ↦
        rw (e, f)
          (backtrack-Returns k fuel m d s back (scan fuel) (scan-Returns k fuel) hb (omega arith))
  ]
]

-- Whatever the pattern and the text, `*` bytes in the text included, the loop of `wildcardMatch`
-- ends by itself within `(len(s)+1)*(len(pattern)+1)` rounds, and `wildcard_match` is its answer.
pub wildcard_match-total :
    (pattern s : Bytes) → scan (enough pattern s) pattern s none ≡ some (wildcard_match pattern s)
unfolding wildcard_match
wildcard_match-total pattern s = answered _ (
    scan-Returns (suc (length pattern)) (enough pattern s) (length s) pattern s none (omega arith)
      (omega arith) tt (omega arith))
  where
    answered : (r : Option Bool) → Returns r → r ≡ some (elim r [ none ↦ Bool.false | some b ↦ b ])
    answered none h = absurd h
    answered (some b) h = mango_hub.Base.refl

-- ===== src/Rpc/Wildcard/Meaning.antt =====
-- What a pattern means, with no order of search in it, and that wildcardMatch decides it on texts
-- without a `*` of their own (pkg/rpc/permission.go).
use mango_hub.Base.{
  ℕ, zero, suc, ◌≤◌, ◌≡◌, refl, ◌≢◌, ◌↔◌, Bool, true, false, Option, none, some, [], ◌∷◌, Bytes,
  arith, inl, inr, Bool-cases, ◌==◌, All,
}
use mango_hub.Rpc.Wildcard.{star, Backup, only_stars, backtrack, scan, enough, wildcard_match}
use mango_hub.Rpc.Wildcard.Fuel.{wildcard_match-total}

-- `Fits p s`: the text `s` is the pattern `p` with a run of bytes in place of each `*`.
pub data Fits : Bytes → Bytes → Type 0 where
  done : Fits [] []
  same : {c : ℕ} {p s : Bytes} → Fits p s → Fits (c ∷ p) (c ∷ s)
  skip : {c : ℕ} {p s : Bytes} → c ≡ star → Fits p s → Fits (c ∷ p) s
  eat : {c d : ℕ} {p s : Bytes} → c ≡ star → Fits (c ∷ p) s → Fits (c ∷ p) (d ∷ s)

abbrev pub NoStar : Bytes → Type 0
NoStar s = All (λ c. c ≢ star) s

-- The pattern fits the text from some later byte on: what a saved `*` leaves to be tried.
data Later (p : Bytes) : Bytes → Type 0 where
  now : {s : Bytes} → Fits p s → Later p s
  after : {d : ℕ} {s : Bytes} → Later p s → Later p (d ∷ s)

Later-Fits : {p s : Bytes} → Later p s → Fits (star ∷ p) s
Later-Fits (now f) = skip refl f
Later-Fits (after l) = eat refl (Later-Fits l)

Fits-Later : {p s : Bytes} (c : ℕ) → c ≡ star → Fits (c ∷ p) s → Later p s
Fits-Later c e (same f) = after (now f)
Fits-Later c e (skip _ f) = now f
Fits-Later c e (eat _ f) = after (Fits-Later c e f)

Later-past_star : {p : Bytes} (c : ℕ) {s : Bytes} → c ≡ star → Later (c ∷ p) s → Later p s
Later-past_star c e (now f) = Fits-Later c e f
Later-past_star c e (after l) = after (Later-past_star c e l)

-- Where a byte of the pattern stands first, what follows it fits behind that byte.
Later-past_byte : {p : Bytes} (c : ℕ) {s : Bytes} → c ≢ star → Later (c ∷ p) s → Later p s
Later-past_byte c n (now (same f)) = after (now f)
Later-past_byte c n (now (skip e f)) = absurd (n e)
Later-past_byte c n (now (eat e f)) = absurd (n e)
Later-past_byte c n (after l) = after (Later-past_byte c n l)

Later-advance : {p s : Bytes} (c d : ℕ) → c ≢ star → Later (c ∷ p) (d ∷ s) → Later p s
Later-advance c d n (now (same f)) = now f
Later-advance c d n (now (skip e f)) = absurd (n e)
Later-advance c d n (now (eat e f)) = absurd (n e)
Later-advance c d n (after l) = Later-past_byte c n l

Later-retry : {p s : Bytes} (d : ℕ) → ¬ Fits p (d ∷ s) → Later p (d ∷ s) → Later p s
Later-retry d n (now f) = absurd (n f)
Later-retry d n (after l) = l

Fits-advance : {p s : Bytes} (c d : ℕ) → c ≢ star → Fits (c ∷ p) (d ∷ s) → (c ≡ d) × Fits p s
Fits-advance c d n (same f) = (refl, f)
Fits-advance c d n (skip e f) = absurd (n e)
Fits-advance c d n (eat e f) = absurd (n e)

Fits-same : {p s : Bytes} (c d : ℕ) → c ≡ d → Fits p s → Fits (c ∷ p) (d ∷ s)
Fits-same {p} {s} c d e f = rw (← e) (same f)

only_stars→Fits : (p : Bytes) → only_stars p ≡ true → Fits p []
unfolding only_stars
only_stars→Fits [] h = done
only_stars→Fits (c ∷ p) h = skip (ground arith) (only_stars→Fits p (ground arith))

Fits→only_stars : {p : Bytes} → Fits p [] → only_stars p ≡ true
unfolding only_stars
Fits→only_stars done = refl
Fits→only_stars (skip e f) = ground (arith, Fits→only_stars f)

-- The answer, if there is one, is right about `G`.
abbrev Right : Type 0 → Option Bool → Type 0
Right G none = Unit
Right G (some true) = G
Right G (some false) = ¬ G

-- `G` is the question that was asked at the start.
module _ (G : Type 0) where
  -- What the saved position is worth: it alone still answers the question.
  abbrev Saved : Bytes → Bytes → Backup → Type 0
  Saved p s none = G → Fits p s
  Saved p s (some (a, t)) = (G → Later a t) × (Later a t → G) × (Fits a t → Fits p s) × NoStar t

  record Inv (p s : Bytes) (back : Backup) : Type 0 where
    enough_now : Fits p s → G
    ahead : G → Later p s
    saved : Saved p s back
    plain : NoStar s

  Saved-map :
      {p s p' s' : Bytes} (back : Backup)
      → (Fits p s → Fits p' s')
      → Saved p s back
      → Saved p' s' back
  Saved-map none f h = λ g. f (h g)
  Saved-map (some (a, t)) f h = (h.0, h.1, λ x. f (h.2 x), h.3)

  Inv-advance :
      {p s : Bytes} {back : Backup} (c d : ℕ) → c ≡ d → Inv (c ∷ p) (d ∷ s) back → Inv p s back
  Inv-advance {p} {s} {back} c d e i = record {
    enough_now = λ f. i.enough_now (Fits-same c d e f);
    ahead = λ g. Later-advance c d (λ n. i.plain.0 (ground arith)) (i.ahead g);
    saved = Saved-map back (λ f. (Fits-advance c d (λ n. i.plain.0 (ground arith)) f).1) i.saved;
    plain = i.plain.1;
  }

  Inv-remember :
      {p s : Bytes} {back : Backup} (c : ℕ) → c ≡ star → Inv (c ∷ p) s back → Inv p s (some (p, s))
  Inv-remember {p} {s} {back} c e i = record {
    enough_now = λ f. i.enough_now (skip e f);
    ahead = λ g. Later-past_star c e (i.ahead g);
    saved = (
      λ g. Later-past_star c e (i.ahead g),
      λ l. i.enough_now (rw e (Later-Fits l)),
      λ f. f,
      i.plain,
    );
    plain = i.plain;
  }

  backtrack-Right :
      {p s : Bytes} (back : Backup) (go : Bytes → Bytes → Backup → Option Bool)
      → ((p' s' : Bytes) (b : Backup) → Inv p' s' b → Right G (go p' s' b))
      → Inv p s back
      → ¬ Fits p s
      → Right G (backtrack back go)
  unfolding backtrack
  backtrack-Right none go ih i n = λ g. n (i.saved g)
  backtrack-Right (some (a, [])) go ih i n = ih a [] (some (a, [])) (record {
    enough_now = λ f. i.saved.1 (now f);
    ahead = i.saved.0;
    saved = (i.saved.0, i.saved.1, λ f. f, tt);
    plain = tt;
  })
  backtrack-Right (some (a, d ∷ t)) go ih i n =
      let onward = λ (g : G). Later-retry d (λ f. n (i.saved.2 f)) (i.saved.0 g) in
      ih a t (some (a, t)) (record {
        enough_now = λ f. i.saved.1 (after (now f));
        ahead = onward;
        saved = (onward, λ l. i.saved.1 (after l), λ f. f, i.saved.3.1);
        plain = i.saved.3.1;
      })

  answer-Right : {p : Bytes} {back : Backup} → Inv p [] back → Right G (some (only_stars p))
  answer-Right {p} i = elim (Bool-cases (only_stars p)) [
    | inl e ↦ rw e (i.enough_now (only_stars→Fits p e))
    | inr e ↦ rw e (λ g. at_end e (i.ahead g))
  ]
    where
      at_end : only_stars p ≡ false → Later p [] → ⊥
      at_end e (now f) = cc (e, Fits→only_stars f)

  scan-Right :
      (fuel : ℕ) (p s : Bytes) (back : Backup) → Inv p s back → Right G (scan fuel p s back)
  unfolding scan
  scan-Right zero p s back i = tt
  scan-Right (suc fuel) p [] back i = answer-Right i
  scan-Right (suc fuel) [] (d ∷ s) back i =
      backtrack-Right back (scan fuel) (scan-Right fuel) i (λ f. elim f [ ])
  scan-Right (suc fuel) (c ∷ p) (d ∷ s) back i = elim (Bool-cases (c == d)) [
    | inl e ↦ rw e (scan-Right fuel p s back (Inv-advance c d (ground arith) i))
    | inr e ↦ elim (Bool-cases (c == star)) [
      | inl f ↦
          rw (e, f) (scan-Right fuel p (d ∷ s) (some (p, d ∷ s)) (Inv-remember c (ground arith) i))
      | inr f ↦
          rw (e, f)
            (backtrack-Right back (scan fuel) (scan-Right fuel) i
              (λ x. absurd (ground (arith, (Fits-advance c d (ground arith) x).0))))
    ]
  ]

-- `wildcardMatch` answers true exactly if the text is the pattern with a run of bytes in place of
-- each `*`, for every text that has no byte `*` itself.
pub wildcard_match_iff :
    (pattern s : Bytes) → NoStar s → (wildcard_match pattern s ≡ true) ↔ Fits pattern s
wildcard_match_iff pattern s n = decided (wildcard_match pattern s) (
    rw (wildcard_match-total pattern s) at (
      scan-Right (Fits pattern s) (enough pattern s) pattern s none
        (record { enough_now = λ f. f; ahead = now; saved = λ f. f; plain = n })))
  where
    decided : (b : Bool) → Right (Fits pattern s) (some b) → (b ≡ true) ↔ Fits pattern s
    decided true r = (λ _. r, λ _. refl)
    decided false r = (λ e. cc, λ f. absurd (r f))

Fits-any : (c : ℕ) (s : Bytes) → c ≡ star → Fits (c ∷ []) s
Fits-any c [] e = skip e done
Fits-any c (d ∷ s) e = eat e (Fits-any c s e)

star_text-scan : (n d : ℕ) (s : Bytes) → 2 ≤ n → scan n (star ∷ []) (star ∷ d ∷ s) none ≡ some false
unfolding scan backtrack
star_text-scan zero d s h = absurd (omega arith)
star_text-scan (suc zero) d s h = absurd (omega arith)
star_text-scan (suc (suc n)) d s h = refl

-- The pattern `*` fits each text that begins with the byte `*` and has another byte behind it, but
-- `wildcardMatch` refuses it.
pub wildcard_match-star_text :
    (d : ℕ) (s : Bytes)
    → Fits (star ∷ []) (star ∷ d ∷ s) × (wildcard_match (star ∷ []) (star ∷ d ∷ s) ≡ false)
unfolding wildcard_match
wildcard_match-star_text d s = (
  Fits-any star (star ∷ d ∷ s) refl,
  rw (star_text-scan (enough (star ∷ []) (star ∷ d ∷ s)) d s (omega arith), wildcard_match),
)

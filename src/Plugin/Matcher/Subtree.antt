-- ===== src/Plugin/Matcher/Subtree.antt =====
-- What a path filter matches, by the segments of the path (matchesPath of internal/plugin/hook.go).
use mango_hub.Base.{
  ℕ, ◌≡◌, ◌↔◌, refl, sym, ap, ◌∙◌, inl, inr, Bool, true, false, ◌||◌, some, List, [], ◌∷◌, ◌++◌,
  arith, ◌==◌, if◌then◌else◌, Bytes, eqb, eqb_iff, has_prefix, Bool-cases,
}
use mathlib.Core.List.{append_assoc, append-nil}
use mango_hub.Plugin.Matcher.{slash, HookMatcher, or_root, matches_path}

-- A byte in front of the first segment.
abbrev onto_first : ℕ → List Bytes → List Bytes
onto_first c [] = (c ∷ []) ∷ []
onto_first c (p ∷ ps) = (c ∷ p) ∷ ps

-- The segments of a path: what stands between its slashes.
unfoldable pub segments : Bytes → List Bytes
segments [] = [] ∷ []
segments (c ∷ s) = if c == slash then [] ∷ segments s else onto_first c (segments s)

joined : List Bytes → Bytes
joined [] = []
joined (p ∷ []) = p
joined (p ∷ q ∷ ps) = p ++ slash ∷ joined (q ∷ ps)

joined-onto_first : (c : ℕ) (ps : List Bytes) → joined (onto_first c ps) ≡ c ∷ joined ps
unfolding joined
joined-onto_first c [] = refl
joined-onto_first c (p ∷ []) = refl
joined-onto_first c (p ∷ q ∷ ps) = refl

segments-onto : (s : Bytes) → (p : Bytes) × (ps : List Bytes) × (segments s ≡ p ∷ ps)
unfolding segments
segments-onto [] = ([], [], refl)
segments-onto (c ∷ s) = elim (Bool-cases (c == slash)) [
  | inl e ↦ ([], segments s, ground arith)
  | inr e ↦ let (p, ps, e') = segments-onto s in (c ∷ p, ps, ground arith)
]

joined-segments : (s : Bytes) → joined (segments s) ≡ s
unfolding joined segments
joined-segments [] = refl
joined-segments (c ∷ s) =
    let (p, ps, e) = segments-onto s in
    ground (arith, joined-segments s, joined-onto_first c (segments s))

onto_first-append :
    (c : ℕ) (s : Bytes) (ps : List Bytes)
    → onto_first c (segments s ++ ps) ≡ onto_first c (segments s) ++ ps
onto_first-append c s ps = let (q, qs, e) = segments-onto s in rw e refl

segments-append : (s r : Bytes) → segments (s ++ slash ∷ r) ≡ segments s ++ segments r
unfolding segments
segments-append [] r = refl
segments-append (c ∷ s) r = ground (arith, segments-append s r, onto_first-append c s (segments r))

joined-append :
    (ps : List Bytes) (p q : Bytes) (qs : List Bytes)
    → joined ((p ∷ ps) ++ q ∷ qs) ≡ joined (p ∷ ps) ++ slash ∷ joined (q ∷ qs)
unfolding joined
joined-append [] p q qs = refl
joined-append (r ∷ ps) p q qs = rw (joined-append ps r q qs, append_assoc) refl

has_prefix→eq : (s t : Bytes) → has_prefix s t ≡ true → (r : Bytes) × (s ≡ t ++ r)
unfolding has_prefix
has_prefix→eq s [] h = (s, refl)
has_prefix→eq [] (b ∷ t) h = cc
has_prefix→eq (a ∷ s) (b ∷ t) h = let (r, e) = has_prefix→eq s t (ground arith) in (r, ground arith)

has_prefix-append : (t r : Bytes) → has_prefix (t ++ r) t ≡ true
unfolding has_prefix
has_prefix-append [] r = refl
has_prefix-append (b ∷ t) r = ground (arith, has_prefix-append t r)

-- The filter of one path, and of a path with all that is below it.
abbrev pub Covers : Bool → List Bytes → List Bytes → Type 0
Covers false base path = path ≡ base
Covers true base path = (rest : List Bytes) × (path ≡ base ++ rest)

segments-eq : (s t : Bytes) → segments s ≡ segments t → s ≡ t
segments-eq s t e = sym (joined-segments s) ∙ ap joined e ∙ joined-segments t

covers_below :
    (s t : Bytes)
    → has_prefix s (t ++ slash ∷ []) ≡ true
    → (rest : List Bytes) × (segments s ≡ segments t ++ rest)
covers_below s t h =
    let (r, e) = has_prefix→eq s (t ++ slash ∷ []) h in
    (segments r, rw (e, append_assoc) (segments-append t r))

below_covers :
    (s t : Bytes) (q : Bytes) (qs : List Bytes)
    → segments s ≡ segments t ++ q ∷ qs
    → has_prefix s (t ++ slash ∷ []) ≡ true
below_covers s t q qs e =
    let (p, ps, first) = segments-onto t in
    let e' : s ≡ (t ++ slash ∷ []) ++ joined (q ∷ qs) =
      sym (joined-segments s)
      ∙ ap joined e
      ∙ ap (λ l. joined (l ++ q ∷ qs)) first
      ∙ joined-append ps p q qs
      ∙ ap (λ l. joined l ++ slash ∷ joined (q ∷ qs)) (sym first)
      ∙ ap (λ l. l ++ slash ∷ joined (q ∷ qs)) (joined-segments t)
      ∙ sym (append_assoc t (slash ∷ []) (joined (q ∷ qs))) in
    rw e' (has_prefix-append (t ++ slash ∷ []) (joined (q ∷ qs)))

Covers-eq : (b : Bool) (s t : Bytes) → s ≡ t → Covers b (segments t) (segments s)
Covers-eq false s t e = ap segments e
Covers-eq true s t e = ([], ap segments e ∙ sym (append-nil (segments t)))

Covers-true :
    (s t : Bytes)
    → Covers true (segments t) (segments s)
    → (eqb s t || has_prefix s (t ++ slash ∷ [])) ≡ true
Covers-true s t ([], e) = ground (arith, eqb_iff s t, segments-eq s t (e ∙ append-nil (segments t)))
Covers-true s t (q ∷ qs, e) = ground (arith, below_covers s t q qs e)

true-Covers :
    (s t : Bytes)
    → (eqb s t || has_prefix s (t ++ slash ∷ [])) ≡ true
    → Covers true (segments t) (segments s)
true-Covers s t h = elim (Bool-cases (eqb s t)) [
  | inl e ↦ Covers-eq true s t ((eqb_iff s t).0 e)
  | inr e ↦ covers_below s t (ground arith)
]

Covers-either :
    (b : Bool) (s t : Bytes)
    → ((if b then eqb s t || has_prefix s (t ++ slash ∷ []) else eqb s t) ≡ true)
      ↔ Covers b (segments t) (segments s)
Covers-either true s t = (true-Covers s t, Covers-true s t)
Covers-either false s t =
    (λ h. Covers-eq false s t ((eqb_iff s t).0 h), λ e. (eqb_iff s t).1 (segments-eq s t e))

-- A filter without a star matches the path with the same segments, in lower case; with a star, every
-- path whose segments begin with those of the filter. An empty path is read as the root.
pub matches_path_iff :
    (to_lower : Bytes → Bytes) (m : HookMatcher) (path : Bytes)
    → (matches_path to_lower (some m) path ≡ true)
      ↔ Covers m.prefix (segments m.path) (segments (to_lower (or_root path)))
unfolding matches_path
matches_path_iff to_lower m path = Covers-either m.prefix (to_lower (or_root path)) m.path

-- ===== src/JsPath/Extension.antt =====
-- The extension of a name, nodeExtname of pkg/jsruntime/path/path.go. The loop goes from the last byte
-- to the first, so it reads the value from its end; an index of -1 is none.
use mango_hub.Base.{
  ℕ, suc, ◌+◌, ◌-◌, ◌≤◌, ◌<◌, ◌≡◌, refl, sym, ap, ◌∙◌, subst, inl, inr, Bool, true, false, not,
  ◌&&◌, ◌||◌, Option, none, some, [], ◌∷◌, ◌++◌, length, take, drop, reverse_onto,
  length-reverse_onto, length-drop, append-take-drop, take-all, All, All-reverse_onto, Bytes, eqb,
  eqb_refl, leb, le→leb, Option-cases, ◌==◌, if◌then◌else◌, arith, Bool-cases,
}
use mathlib.Core.List.{append-nil}
use mango_hub.Base.Int.{ℤ, pos, negsuc}

-- The variables of the loop.
pub record Scan : Type 0 where
  pub start_dot : Option ℕ
  pub start_part : ℕ
  pub end : Option ℕ
  pub matched_slash : Bool
  pub pre_dot_state : ℤ

unfoldable pub scan_start : Scan
scan_start = record {
  start_dot = none;
  start_part = 0;
  end = none;
  matched_slash = true;
  pre_dot_state = pos 0;
}

abbrev pub is_separator : Bool → ℕ → Bool
is_separator windows c = c == b'/' || windows && c == 92

abbrev is_one : ℤ → Bool
is_one (pos n) = n == 1
is_one (negsuc n) = false

abbrev pub is_zero : ℤ → Bool
is_zero (pos n) = n == 0
is_zero (negsuc n) = false

-- `if end == -1`
unfoldable pub mark_end : ℕ → Scan → Scan
mark_end index s = elim s.end [
  | none ↦ record s { matched_slash = false; end = some (index + 1) }
  | some e ↦ s
]

-- The branches on a dot.
unfoldable pub mark_dot : ℕ → ℕ → Scan → Scan
mark_dot c index s = elim s.start_dot [
  | none ↦ if c == b'.' then record s { start_dot = some index } else s
  | some d ↦
      if c == b'.'
      then (if is_one s.pre_dot_state then s else record s { pre_dot_state = pos 1 })
      else record s { pre_dot_state = negsuc 0 }
]

unfoldable pub extension_loop : Bool → Bytes → Scan → Scan
unfolding mark_end mark_dot
extension_loop windows [] s = s
extension_loop windows (c ∷ before) s =
    let index = length before in
    let next = extension_loop windows before (mark_dot c index (mark_end index s)) in
    let over = extension_loop windows before s in
    if is_separator windows c
    then (if not s.matched_slash then record s { start_part = index + 1 } else over)
    else next

unfoldable pub extension_of : Bytes → Scan → Bytes
extension_of value s = elim s.start_dot [
  | none ↦ []
  | some d ↦ elim s.end [
    | none ↦ []
    | some e ↦
        if is_zero s.pre_dot_state || is_one s.pre_dot_state && d == e - 1 && d == s.start_part + 1
        then []
        else take (e - d) (drop d value)
  ]
]

unfoldable pub node_extname : Bytes → Bool → Bytes
unfolding extension_loop extension_of scan_start
node_extname value windows =
    extension_of value (extension_loop windows (reverse_onto value []) scan_start)

-- strings.TrimSuffix
unfoldable pub trim_suffix : Bytes → Bytes → Bytes
trim_suffix s suffix =
    if leb (length suffix) (length s) && eqb (drop (length s - length suffix) s) suffix
    then take (length s - length suffix) s
    else s

abbrev pub NoSlash : Bool → Bytes → Type 0
NoSlash windows s = All (λ c. is_separator windows c ≡ false) s

-- The end is n, and the dot, if there is one, stands before it.
abbrev IsInside : ℕ → Scan → Type 0
IsInside n s = (s.end ≡ some n) × ((d : ℕ) → s.start_dot ≡ some d → d < n)

mark_dot-IsInside :
    (n c index : ℕ) (s : Scan) → index < n → IsInside n s → IsInside n (mark_dot c index s)
unfolding mark_dot
mark_dot-IsInside n c index s b h = elim (Option-cases s.start_dot) [
  | inl missing ↦ elim (Bool-cases (c == b'.')) [
    | inl y ↦ rw (missing, y) (h.0, λ d e. ground arith)
    | inr o ↦ rw (missing, o) (h.0, λ d e. ground arith)
  ]
  | inr (d, found) ↦ elim (Bool-cases (c == b'.')) [
    | inr o ↦ rw (found, o) (h.0, λ e q. h.1 e (found ∙ q))
    | inl y ↦ elim (Bool-cases (is_one s.pre_dot_state)) [
      | inl z ↦ rw (found, y, z) (h.0, λ e q. h.1 e (found ∙ q))
      | inr z ↦ rw (found, y, z) (h.0, λ e q. h.1 e (found ∙ q))
    ]
  ]
]

mark_end-IsInside : (n index : ℕ) (s : Scan) → IsInside n s → IsInside n (mark_end index s)
unfolding mark_end
mark_end-IsInside n index s h = rw h.0 (refl, h.1)

extension_loop-IsInside :
    (windows : Bool) (n : ℕ) (before : Bytes) (s : Scan)
    → length before ≤ n
    → NoSlash windows before
    → IsInside n s
    → IsInside n (extension_loop windows before s)
unfolding extension_loop mark_end
extension_loop-IsInside windows n [] s b h k = k
extension_loop-IsInside windows n (c ∷ before) s b h k = rw h.0 (
    extension_loop-IsInside windows n before (mark_dot c index (mark_end index s)) (omega arith) h.1
      (mark_dot-IsInside n c index (mark_end index s) (omega arith)
        (mark_end-IsInside n index s k)))
  where
    index : ℕ
    index = length before

-- The first byte of the loop, the last of the value, sets the end.
mark_end-first : (index : ℕ) → IsInside (suc index) (mark_end index scan_start)
unfolding mark_end scan_start
mark_end-first index = (ap some (omega arith), λ d e. ground arith)

loop_start-IsInside :
    (windows : Bool) (c : ℕ) (before : Bytes)
    → NoSlash windows (c ∷ before)
    → IsInside (suc (length before)) (extension_loop windows (c ∷ before) scan_start)
unfolding extension_loop
loop_start-IsInside windows c before h = rw h.0 (
    extension_loop-IsInside windows (suc index) before
      (mark_dot c index (mark_end index scan_start)) (omega arith) h.1
      (mark_dot-IsInside (suc index) c index (mark_end index scan_start) (omega arith)
        (mark_end-first index)))
  where
    index : ℕ
    index = length before

-- A suffix, cut off and put back.
append-trim_suffix-drop :
    (d : ℕ) (s : Bytes) → d ≤ length s → trim_suffix s (drop d s) ++ drop d s ≡ s
unfolding trim_suffix
append-trim_suffix-drop d s h =
    rw
      (
        same,
        le→leb (length (drop d s)) (length s) (omega (arith, length-drop d s)),
        eqb_refl (drop d s),
      )
      (append-take-drop d s)
  where
    same : length s - length (drop d s) ≡ d
    same = omega (arith, length-drop d s)

append-trim_suffix-nil : (s : Bytes) → trim_suffix s [] ++ [] ≡ s
unfolding trim_suffix
append-trim_suffix-nil s =
    append-nil _ ∙ elim (Bool-cases (leb 0 (length s) && eqb (drop (length s - 0) s) [])) [
      | inl y ↦ rw y (take-all (length s - 0) s (omega arith))
      | inr n ↦ rw n refl
    ]

-- The extension is a suffix of the value, and what is left of the value stands before it.
abbrev pub EndsWith : Bytes → Bytes → Type 0
EndsWith value suffix = trim_suffix value suffix ++ suffix ≡ value

extension_of-EndsWith :
    (value : Bytes) (s : Scan) → IsInside (length value) s → EndsWith value (extension_of value s)
unfolding extension_of
extension_of-EndsWith value s h = elim (Option-cases s.start_dot) [
  | inl missing ↦ rw missing (append-trim_suffix-nil value)
  | inr (d, found) ↦
      elim (Bool-cases (
        is_zero s.pre_dot_state
        || is_one s.pre_dot_state && d == length value - 1 && d == s.start_part + 1)) [
          | inl y ↦ rw (found, h.0, y) (append-trim_suffix-nil value)
          | inr n ↦
              rw (found, h.0, n)
                (subst (EndsWith value)
                  (sym (
                    take-all (length value - d) (drop d value)
                      (omega (arith, length-drop d value))))
                  (append-trim_suffix-drop d value (omega (arith, h.1 d found))))
        ]
]

scanned :
    (windows : Bool) (value rev : Bytes)
    → length rev ≡ length value
    → NoSlash windows rev
    → EndsWith value (extension_of value (extension_loop windows rev scan_start))
unfolding extension_of extension_loop scan_start
scanned windows value [] e h = append-trim_suffix-nil value
scanned windows value (c ∷ before) e h =
    extension_of-EndsWith value (extension_loop windows (c ∷ before) scan_start) (
      subst (λ n. IsInside n (extension_loop windows (c ∷ before) scan_start)) e
        (loop_start-IsInside windows c before h))

pub node_extname-EndsWith :
    (value : Bytes) (windows : Bool)
    → NoSlash windows value
    → EndsWith value (node_extname value windows)
unfolding node_extname
node_extname-EndsWith value windows h =
    scanned windows value (reverse_onto value []) (omega (arith, length-reverse_onto value []))
      (All-reverse_onto (λ c. is_separator windows c ≡ false) value [] h tt)

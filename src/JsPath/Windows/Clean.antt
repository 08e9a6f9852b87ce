-- ===== src/JsPath/Windows/Clean.antt =====
-- What cleanWinParts gives (pkg/jsruntime/path/path.go).
use mango_hub.Base.{
  ◌≡◌, ◌≢◌, refl, sym, ap, ◌∙◌, subst, ◌⊎◌, inl, inr, Bool, true, false, ◌||◌, List, [], ◌∷◌, ◌++◌,
  All, All-append, All-reverse_onto, reverse_onto, reverse_onto-reverse_onto, Bytes, codes, eqb,
  eqb→eq, eqb_refl, if◌then◌else◌, arith, Bool-cases,
}
use mathlib.Core.List.{append_assoc, append-nil}
use mango_hub.JsPath.Windows.{
  backslash, is_win_separator, end_field, fields_on, join, dots, go_up, clean_part, clean_loop,
  clean_win_parts,
}

abbrev pub IsOrdinary : Bytes → Type 0
IsOrdinary p = (eqb p [] ≡ false) × (eqb p (codes ".") ≡ false) × (eqb p dots ≡ false)

-- A cleaned path, from its end: ordinary parts, and behind them, if the path is relative, `..` only.
abbrev pub IsClean : Bool → List Bytes → Type 0
IsClean absolute [] = Unit
IsClean absolute (p ∷ ps) =
    (IsOrdinary p × IsClean absolute ps)
    ⊎ ((eqb p dots ≡ true) × (absolute ≡ false) × All (λ q. eqb q dots ≡ true) ps)

tail-IsClean :
    (absolute : Bool) (p : Bytes) (ps : List Bytes)
    → IsClean absolute (p ∷ ps)
    → IsClean absolute ps
tail-IsClean absolute p [] h = tt
tail-IsClean absolute p (q ∷ ps) (inl h) = h.1
tail-IsClean absolute p (q ∷ ps) (inr (d, r, h)) = inr (h.0, r, h.1)

go_up-IsClean :
    (absolute : Bool) (ps : List Bytes) → IsClean absolute ps → IsClean absolute (go_up absolute ps)
unfolding go_up
go_up-IsClean true [] h = tt
go_up-IsClean false [] h = inr (eqb_refl dots, refl, tt)
go_up-IsClean absolute (p ∷ ps) (inl h) = rw h.0.2 h.1
go_up-IsClean true (p ∷ ps) (inr (d, r, h)) = ground arith
go_up-IsClean false (p ∷ ps) (inr (d, r, h)) = rw d (inr (eqb_refl dots, refl, (d, h)))

clean_part-IsClean :
    (absolute : Bool) (part : Bytes) (ps : List Bytes)
    → IsClean absolute ps
    → IsClean absolute (clean_part absolute part ps)
unfolding clean_part
clean_part-IsClean absolute part ps h = elim (Bool-cases (eqb part [] || eqb part (codes "."))) [
  | inl y ↦ rw y h
  | inr n ↦ elim (Bool-cases (eqb part dots)) [
    | inl y ↦ rw (n, y) (go_up-IsClean absolute ps h)
    | inr m ↦ rw (n, m) (inl ((ground arith, ground arith, m), h))
  ]
]

clean_loop-IsClean :
    (absolute : Bool) (parts ps : List Bytes)
    → IsClean absolute ps
    → IsClean absolute (clean_loop absolute parts ps)
unfolding clean_loop
clean_loop-IsClean absolute [] ps h = h
clean_loop-IsClean absolute (part ∷ parts) ps h =
    clean_loop-IsClean absolute parts (clean_part absolute part ps)
      (clean_part-IsClean absolute part ps h)

dots_stay :
    (ps : List Bytes) → All (λ q. eqb q dots ≡ true) ps → clean_part false dots ps ≡ dots ∷ ps
unfolding clean_part go_up eqb
dots_stay [] h = refl
dots_stay (q ∷ ps) h = rw h.0 refl

-- A part that the result of cleaning may hold is put on it as it is.
clean_part-fixed :
    (absolute : Bool) (part : Bytes) (ps : List Bytes)
    → IsClean absolute (part ∷ ps)
    → clean_part absolute part ps ≡ part ∷ ps
unfolding clean_part go_up
clean_part-fixed absolute part ps (inl ((a, b, c), h)) = rw (a, b, c) refl
clean_part-fixed true part ps (inr (d, r, h)) = ground arith
clean_part-fixed false part ps (inr (d, r, h)) =
    subst (λ p. clean_part false p ps ≡ p ∷ ps) (sym (eqb→eq part dots d)) (dots_stay ps h)

rest-IsClean :
    (absolute : Bool) (parts ps : List Bytes)
    → IsClean absolute (reverse_onto parts ps)
    → IsClean absolute ps
unfolding reverse_onto
rest-IsClean absolute [] ps h = h
rest-IsClean absolute (p ∷ parts) ps h =
    tail-IsClean absolute p ps (rest-IsClean absolute parts (p ∷ ps) h)

clean_loop-fixed :
    (absolute : Bool) (parts ps : List Bytes)
    → IsClean absolute (reverse_onto parts ps)
    → clean_loop absolute parts ps ≡ reverse_onto parts ps
unfolding clean_loop reverse_onto
clean_loop-fixed absolute [] ps h = refl
clean_loop-fixed absolute (p ∷ parts) ps h =
    ap (clean_loop absolute parts)
      (clean_part-fixed absolute p ps (rest-IsClean absolute parts (p ∷ ps) h))
    ∙ clean_loop-fixed absolute parts (p ∷ ps) h

-- A part as strings.FieldsFunc gives it: not empty and without a separator.
abbrev pub NoSeparator : Bytes → Type 0
NoSeparator p = All (λ c. is_win_separator c ≡ false) p

abbrev pub IsPart : Bytes → Type 0
IsPart p = (p ≢ []) × NoSeparator p

end_field-AllPart : (word : Bytes) → NoSeparator word → All IsPart (end_field word)
end_field-AllPart [] h = tt
end_field-AllPart (c ∷ word) h = ((λ e. cc, h), tt)

fields_on-AllPart : (word s : Bytes) → NoSeparator word → All IsPart (fields_on word s)
unfolding fields_on
fields_on-AllPart word [] h = end_field-AllPart word h
fields_on-AllPart word (c ∷ s) h = elim (Bool-cases (is_win_separator c)) [
  | inl y ↦ rw y (
      All-append IsPart (end_field word) (fields_on [] s) (end_field-AllPart word h)
        (fields_on-AllPart [] s tt))
  | inr n ↦ rw n (
      fields_on-AllPart (word ++ c ∷ []) s
        (All-append (λ c. is_win_separator c ≡ false) word (c ∷ []) h (n, tt)))
]

dots-IsPart : IsPart dots
dots-IsPart = (λ e. cc, (refl, (refl, tt)))

go_up-AllPart : (absolute : Bool) (ps : List Bytes) → All IsPart ps → All IsPart (go_up absolute ps)
unfolding go_up
go_up-AllPart true [] h = tt
go_up-AllPart false [] h = (dots-IsPart, tt)
go_up-AllPart absolute (p ∷ ps) h = elim (Bool-cases (eqb p dots)) [
  | inr n ↦ rw n h.1
  | inl y ↦ rw y (stays absolute)
]
  where
    stays : (b : Bool) → All IsPart (if b then p ∷ ps else dots ∷ p ∷ ps)
    stays true = h
    stays false = (dots-IsPart, h)

clean_part-AllPart :
    (absolute : Bool) (part : Bytes) (ps : List Bytes)
    → IsPart part
    → All IsPart ps
    → All IsPart (clean_part absolute part ps)
unfolding clean_part go_up
clean_part-AllPart absolute part ps h k = elim (Bool-cases (eqb part [] || eqb part (codes "."))) [
  | inl y ↦ rw y k
  | inr n ↦ elim (Bool-cases (eqb part dots)) [
    | inl y ↦ rw (n, y) (go_up-AllPart absolute ps k)
    | inr m ↦ rw (n, m) (h, k)
  ]
]

clean_loop-AllPart :
    (absolute : Bool) (parts ps : List Bytes)
    → All IsPart parts
    → All IsPart ps
    → All IsPart (clean_loop absolute parts ps)
unfolding clean_loop
clean_loop-AllPart absolute [] ps h k = k
clean_loop-AllPart absolute (p ∷ parts) ps h k =
    clean_loop-AllPart absolute parts (clean_part absolute p ps) h.1
      (clean_part-AllPart absolute p ps h.0 k)

-- The fields of joined parts are the parts.
fields_on-part :
    (word p s : Bytes) → NoSeparator p → fields_on word (p ++ s) ≡ fields_on (word ++ p) s
unfolding fields_on
fields_on-part word [] s h = ap (λ w. fields_on w s) (sym (append-nil word))
fields_on-part word (c ∷ p) s h = rw h.0 (
    fields_on-part (word ++ c ∷ []) p s h.1
    ∙ ap (λ w. fields_on w s) (append_assoc word (c ∷ []) p))

end_part : (p : Bytes) → IsPart p → end_field p ≡ p ∷ []
end_part [] h = ground arith
end_part (c ∷ p) h = refl

fields_on-join : (ps : List Bytes) → All IsPart ps → fields_on [] (join ps) ≡ ps
unfolding join fields_on
fields_on-join [] h = refl
fields_on-join (p ∷ []) h =
    ap (fields_on []) (sym (append-nil p)) ∙ fields_on-part [] p [] h.0.1 ∙ end_part p h.0
fields_on-join (p ∷ q ∷ ps) h =
    fields_on-part [] p (backslash ∷ join (q ∷ ps)) h.0.1
    ∙ ap (λ l. end_field p ++ l) (fields_on-join (q ∷ ps) h.1)
    ∙ ap (λ l. l ++ q ∷ ps) (end_part p h.0)

-- cleanWinParts, for every path: the parts that it gives are not empty and have no separator; none is
-- `.`, and `..` stands only at the front of a relative path, never in an absolute one; and joined and
-- cleaned again they stay as they are.
pub clean_win_parts-IsClean :
    (rest : Bytes) (absolute : Bool)
    → IsClean absolute (reverse_onto (clean_win_parts rest absolute) [])
      × All IsPart (clean_win_parts rest absolute)
      × (clean_win_parts (join (clean_win_parts rest absolute)) absolute
          ≡ clean_win_parts rest absolute)
unfolding clean_win_parts
clean_win_parts-IsClean rest absolute = (subst (IsClean absolute) (sym twice) clean, parts, again)
  where
    result : List Bytes
    result = clean_loop absolute (fields_on [] rest) []

    twice : reverse_onto (reverse_onto result []) [] ≡ result
    twice = reverse_onto-reverse_onto result []

    clean : IsClean absolute result
    clean = clean_loop-IsClean absolute (fields_on [] rest) [] tt

    parts : All IsPart (reverse_onto result [])
    parts =
        All-reverse_onto IsPart result []
          (clean_loop-AllPart absolute (fields_on [] rest) [] (fields_on-AllPart [] rest tt) tt) tt

    again :
        reverse_onto (clean_loop absolute (fields_on [] (join (reverse_onto result []))) []) []
        ≡ reverse_onto result []
    again =
        ap (λ ps. reverse_onto (clean_loop absolute ps []) [])
          (fields_on-join (reverse_onto result []) parts)
        ∙ ap (λ ps. reverse_onto ps [])
            (clean_loop-fixed absolute (reverse_onto result []) []
                (subst (IsClean absolute) (sym twice) clean)
              ∙ twice)

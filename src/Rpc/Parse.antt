-- ===== src/Rpc/Parse.antt =====
-- pkg/rpc/parse.go. `decode_one` and `decode_many` stand for json.Unmarshal into a request and into
-- a slice of requests: a value, or the text of an error. `text` makes an `any` of a string.
use mango_hub.Base.{
  ◌≡◌, ◌≢◌, refl, ◌⊎◌, inl, inr, none, some, List, [], ◌∷◌, Bytes, codes, arith, ap, sym, subst,
  Bool-cases, trim_space, ◌==◌, if◌then◌else◌, All, Option-cases,
}
use mango_hub.Rpc.Message.{Error, Request, make_error, validate, parse_error, invalid_request}

abbrev pub Parsed : Type 0 → Type 0 → Type 0
Parsed V A = Error V ⊎ A

-- The loop over a batch: the first request that is not valid ends it.
unfoldable pub validate_all : {V : Type 0} → List (Request V) → Parsed V (List (Request V))
validate_all [] = inr []
validate_all (r ∷ rs) = elim (validate (some r)) [
  | some e ↦ inl e
  | none ↦ elim (validate_all rs) [ inl e ↦ inl e | inr res ↦ inr (r ∷ res) ]
]

module _ {V : Type 0} (text : Bytes → V) (decode_one : Bytes → Bytes ⊎ Request V)
    (decode_many : Bytes → Bytes ⊎ List (Request V)) where
  invalid_json : Bytes → Error V
  invalid_json err = make_error parse_error (codes "invalid json") (some (text err))

  unfoldable pub parse_single : Bytes → Parsed V (List (Request V))
  unfolding invalid_json
  parse_single body = elim (decode_one body) [
    | inl err ↦ inl (invalid_json err)
    | inr r ↦ elim (validate (some r)) [ some e ↦ inl e | none ↦ inr (r ∷ []) ]
  ]

  unfoldable pub parse_batch : Bytes → Parsed V (List (Request V))
  unfolding invalid_json validate_all
  parse_batch body = elim (decode_many body) [
    | inl err ↦ inl (invalid_json err)
    | inr arr ↦ elim arr [
      | [] ↦ inl (make_error invalid_request (codes "empty batch") none)
      | r ∷ rs ↦ validate_all (r ∷ rs)
    ]
  ]

  parse_trimmed : Bytes → Parsed V (List (Request V))
  parse_trimmed [] = inl (make_error parse_error (codes "empty body") none)
  parse_trimmed (first ∷ rest) =
      if first == b'{'
      then parse_single (first ∷ rest)
      else if first == b'['
      then parse_batch (first ∷ rest)
      else inl (make_error parse_error (codes "invalid json: not object/array") none)

  unfoldable pub parse_requests : Bytes → Parsed V (List (Request V))
  unfolding parse_trimmed parse_single parse_batch
  parse_requests body = parse_trimmed (trim_space body)

  unfoldable pub parse_request : Bytes → Parsed V (Request V)
  parse_request body = elim (parse_requests body) [
    | inl e ↦ inl e
    | inr requests ↦ elim requests [
      | [] ↦ inl (make_error invalid_request (codes "no requests found") none)
      | r ∷ rs ↦ inr r
    ]
  ]

abbrev pub IsValid : {V : Type 0} → Request V → Type 0
IsValid r = validate (some r) ≡ none

-- Valid requests, at least one; or an error of one of the two codes.
abbrev pub Sound : {V : Type 0} → Parsed V (List (Request V)) → Type 0
Sound (inl e) = (e.code ≡ parse_error) ⊎ (e.code ≡ invalid_request)
Sound (inr rs) = (rs ≢ []) × All IsValid rs

abbrev Checked : {V : Type 0} → List (Request V) → Parsed V (List (Request V)) → Type 0
Checked rs (inl e) = e.code ≡ invalid_request
Checked rs (inr res) = (res ≡ rs) × All IsValid rs

validate-code :
    {V : Type 0} (r : Request V) (e : Error V)
    → validate (some r) ≡ some e
    → e.code ≡ invalid_request
unfolding validate make_error
validate-code r e h = ground arith

-- A batch is passed on whole and in order, if each of its requests is valid.
validate_all-Checked : {V : Type 0} (rs : List (Request V)) → Checked rs (validate_all rs)
unfolding validate_all
validate_all-Checked [] = (refl, tt)
validate_all-Checked {V} (r ∷ rs) = elim (Option-cases (validate (some r))) [
  | inl valid ↦ rw (valid, Checked) (onward (validate_all rs) valid (validate_all-Checked rs))
  | inr (e, h) ↦ rw (h, Checked) (validate-code r e h)
]
  where
    onward :
        (x : Parsed V (List (Request V)))
        → IsValid r
        → Checked rs x
        → Checked (r ∷ rs) (elim x [ inl e ↦ inl e | inr res ↦ inr (r ∷ res) ])
    onward (inl e) v h = h
    onward (inr res) v h = (ap (λ x. r ∷ x) h.0, (v, h.1))

Checked-Sound :
    {V : Type 0} (r : Request V) (rs : List (Request V)) (x : Parsed V (List (Request V)))
    → Checked (r ∷ rs) x
    → Sound x
Checked-Sound r rs (inl e) h = inr h
Checked-Sound r rs (inr res) h = (λ e. ground arith, subst (λ l. All IsValid l) (sym h.0) h.1)

module _ {V : Type 0} (text : Bytes → V) (decode_one : Bytes → Bytes ⊎ Request V)
    (decode_many : Bytes → Bytes ⊎ List (Request V)) where
  parse_single-Sound : (body : Bytes) → Sound (parse_single text decode_one decode_many body)
  unfolding parse_single make_error
  parse_single-Sound body = decoded (decode_one body)
    where
      decoded :
          (d : Bytes ⊎ Request V)
          → Sound (elim d [
            | inl err ↦ inl (invalid_json text decode_one decode_many err)
            | inr r ↦ elim (validate (some r)) [ some e ↦ inl e | none ↦ inr (r ∷ []) ]
          ])
      decoded (inl err) = inl refl
      decoded (inr r) = elim (Option-cases (validate (some r))) [
        | inl valid ↦ rw valid (λ e. cc, (valid, tt))
        | inr (e, h) ↦ rw h (inr (validate-code r e h))
      ]

  parse_batch-Sound : (body : Bytes) → Sound (parse_batch text decode_one decode_many body)
  unfolding parse_batch make_error
  parse_batch-Sound body = decoded (decode_many body)
    where
      decoded :
          (d : Bytes ⊎ List (Request V))
          → Sound (elim d [
            | inl err ↦ inl (invalid_json text decode_one decode_many err)
            | inr arr ↦ elim arr [
              | [] ↦ inl (make_error invalid_request (codes "empty batch") none)
              | r ∷ rs ↦ validate_all (r ∷ rs)
            ]
          ])
      decoded (inl err) = inl refl
      decoded (inr []) = inr refl
      decoded (inr (r ∷ rs)) =
          Checked-Sound r rs (validate_all (r ∷ rs)) (validate_all-Checked (r ∷ rs))

  parse_trimmed-Sound : (body : Bytes) → Sound (parse_trimmed text decode_one decode_many body)
  unfolding parse_trimmed make_error
  parse_trimmed-Sound [] = inl refl
  parse_trimmed-Sound (c ∷ body) = elim (Bool-cases (c == b'{')) [
    | inl e ↦ rw e (parse_single-Sound (c ∷ body))
    | inr e ↦ elim (Bool-cases (c == b'[')) [
      | inl f ↦ rw (e, f) (parse_batch-Sound (c ∷ body))
      | inr f ↦ rw (e, f) (inl refl)
    ]
  ]

  -- ParseRequests, for every body and whatever json.Unmarshal makes of it: it returns at least one
  -- request and only valid ones, or an error with the code ParseError or InvalidRequest.
  pub parse_requests-Sound :
      (body : Bytes) → Sound (parse_requests text decode_one decode_many body)
  unfolding parse_requests
  parse_requests-Sound body = parse_trimmed-Sound (trim_space body)

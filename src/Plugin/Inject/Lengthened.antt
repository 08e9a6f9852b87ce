-- ===== src/Plugin/Inject/Lengthened.antt =====
-- A document with letters that have more bytes in small than as capitals (injectHTMLContent of
-- internal/plugin/inject.go).
use mango_hub.Base.{
  ℕ, zero, suc, ◌+◌, ◌*◌, ◌≤◌, ◌<◌, ◌≡◌, ◌≢◌, refl, ap, ◌∙◌, none, some, List, [], ◌∷◌, ◌++◌, arith,
  Bytes, codes, length, eqb, eqb_iff, has_prefix,
}
use mango_hub.Base.Branch.{if_false}
use mango_hub.Plugin.Inject.{
  InjectEntry, index, heads, bodies, splice, index_fold, put_head_at, put_head, one_later, put_tail,
  then_tail, inject_html_content,
}
use mango_hub.Plugin.Inject.Places.{InsertedAt, InsertedAt-take, splice-some}

-- U+023A as a capital and in small.
abbrev pub capital : Bytes
capital = 0xc8 ∷ 0xba ∷ []

abbrev pub small : Bytes
small = 0xe2 ∷ 0xb1 ∷ 0xa5 ∷ []

-- The end of a head behind as many letters.
abbrev pub letters : Bytes → ℕ → Bytes
letters letter zero = codes "</head>"
letters letter (suc n) = letter ++ letters letter n

length-letters : (n : ℕ) → length (letters capital n) ≡ n * 2 + 7
length-letters zero = refl
length-letters (suc n) = omega (arith, length-letters n)

index-letters : (n : ℕ) → index (letters small n) (codes "</head>") ≡ some (n * 3)
unfolding index has_prefix
index-letters zero = refl
index-letters (suc n) =
    ap (λ i. one_later (one_later (one_later i))) (index-letters n) ∙ ap some (omega arith)

splice-none : (i : ℕ) (fragment text : Bytes) → length text < i → splice i fragment text ≡ none
unfolding splice
splice-none i fragment text h = ground arith

module _ (to_lower : Bytes → Bytes) (n : ℕ)
    (lowered : to_lower (letters capital n) ≡ letters small n) where
  put_head-letters :
      (head : Bytes)
      → head ≢ []
      → put_head to_lower head (letters capital n) ≡ splice (n * 3) head (letters capital n)
  unfolding put_head index_fold
  put_head-letters head full =
      if_false (λ o. o ≡ splice (n * 3) head (letters capital n)) _ (eqb head [])
        (ground (arith, eqb_iff head []))
        (ap (put_head_at head (letters capital n))
          (ap (λ s. index s (codes "</head>")) lowered ∙ index-letters n))

  -- If the small letter of U+023A has the three bytes of U+2C65, then a fragment for the head of a
  -- document that is the letter n times and `</head>` is put in n bytes too far on, at the byte 3 n in
  -- place of 2 n, for n up to 7, and for every greater n putting it in panics.
  pub inject_html_content-letters :
      (fragments : List InjectEntry)
      → heads fragments ≢ []
      → (n ≤ 7
          → (mid : Bytes) × InsertedAt (n * 3) (heads fragments) (letters capital n) mid
            × (inject_html_content to_lower (letters capital n) fragments
                ≡ put_tail to_lower (bodies fragments) mid))
        × (8 ≤ n → inject_html_content to_lower (letters capital n) fragments ≡ none)
  unfolding inject_html_content
  inject_html_content-letters fragments full =
      let place = put_head-letters (heads fragments) full in
      (
        λ few.
            let fits : n * 3 ≤ length (letters capital n) = omega (arith, length-letters n) in
            (
              _,
              InsertedAt-take (n * 3) (heads fragments) (letters capital n) fits,
              ap (then_tail to_lower (bodies fragments))
                  (place ∙ splice-some (n * 3) (heads fragments) (letters capital n) fits),
            ),
        λ many. ap (then_tail to_lower (bodies fragments)) (
            place
            ∙ splice-none (n * 3) (heads fragments) (letters capital n)
                (omega (arith, length-letters n))),
      )

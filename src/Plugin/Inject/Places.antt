-- ===== src/Plugin/Inject/Places.antt =====
-- Where the fragments stand in the document (injectHTMLContent of internal/plugin/inject.go).
use mango_hub.Base.{
  ℕ, ◌≤◌, ◌≡◌, refl, sym, Option, none, some, List, ◌++◌, arith, Bytes, codes, length, take, drop,
  append-take-drop, length-take,
}
use mango_hub.Plugin.Inject.{splice, index_fold}

-- The third text is the second with the fragment put in after its first n bytes.
abbrev pub InsertedAt : ℕ → Bytes → Bytes → Bytes → Type 0
InsertedAt n fragment text out =
    (before after : Bytes) × (length before ≡ n)
    × (text ≡ before ++ after)
    × (out ≡ before ++ (fragment ++ after))

abbrev pub or_at : ℕ → Option ℕ → ℕ
or_at n none = n
or_at n (some i) = i

pub InsertedAt-take :
    (n : ℕ) (fragment text : Bytes)
    → n ≤ length text
    → InsertedAt n fragment text (take n text ++ (fragment ++ drop n text))
InsertedAt-take n fragment text h = (
  take n text,
  drop n text,
  omega (arith, length-take n text),
  sym (append-take-drop n text),
  refl,
)

pub splice-some :
    (i : ℕ) (fragment text : Bytes)
    → i ≤ length text
    → splice i fragment text ≡ some (take i text ++ (fragment ++ drop i text))
unfolding splice
splice-some i fragment text h = ground arith

-- The fragment at the place that was looked for, in a text in which it can be.
abbrev Put : Option Bytes → ℕ → Bytes → Bytes → Type 0
Put result n fragment text = (out : Bytes) × (result ≡ some out) × InsertedAt n fragment text out

module _ (to_lower : Bytes → Bytes) where
  abbrev pub head_place : Bytes → ℕ
  head_place text = or_at 0 (index_fold to_lower text (codes "</head>"))

  abbrev pub tail_place : Bytes → ℕ
  tail_place text =
      or_at (or_at (length text) (index_fold to_lower text (codes "</html>")))
        (index_fold to_lower text (codes "</body>"))

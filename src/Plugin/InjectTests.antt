-- ===== src/Plugin/InjectTests.antt =====
-- Tests and examples for internal/plugin/inject.go.
use mango_hub.Base.{
  ℕ, ◌+◌, ◌≤◌, ◌≡◌, leb, ◌&&◌, refl, false, ◌==◌, if◌then◌else◌, none, some, List, [], ◌∷◌, ◌++◌,
  Bytes, codes, eqb, has_prefix,
}
use mango_hub.Plugin.Client.{
  add_header, get_header, new_client, Action, edit_header, write_call, flush_call, run_actions,
  wire,
}
use mango_hub.Plugin.Inject.{
  InjectEntry, inject_html_content, heads, bodies, index, index_fold, put_tail,
  is_html_content_type,
}
use mango_hub.Plugin.Inject.Places.{InsertedAt}
use mango_hub.Plugin.Inject.Lengthened.{capital, letters, inject_html_content-letters}
use mango_hub.Plugin.HtmlWriter.{html_inject_handler, is_other}
use mango_hub.Plugin.HtmlWriter.Forwarded.{html_inject_handler-wire}

abbrev same : Bytes → Bytes
same s = s

-- strings.ToLower on ASCII.
abbrev ascii : ℕ → ℕ
ascii c = if leb 65 c && leb c 90 then c + 32 else c

abbrev ascii_lower : Bytes → Bytes
ascii_lower [] = []
ascii_lower (c ∷ s) = ascii c ∷ ascii_lower s

-- The bytes of the letter U+023A are made those of its small letter.
abbrev letter : ℕ → Bytes
letter c = if c == 0xc8 then 0xe2 ∷ 0xb1 ∷ [] else if c == 0xba then 0xa5 ∷ [] else c ∷ []

abbrev lower : Bytes → Bytes
lower [] = []
lower (c ∷ s) = letter c ++ lower s

abbrev fragment : InjectEntry
fragment = record { short = codes "p"; head = codes "<x>"; body = codes "<y>" }

abbrev page : Bytes
page = codes "<head></head><body></body>"

a_page :
    inject_html_content same page (fragment ∷ []) ≡ some (codes "<head><x></head><body><y></body>")
unfolding inject_html_content
a_page = refl

-- Eight letters are enough for a panic, seven are not.
inject_html_content-letters_example :
    (8 ≤ 7
      → (mid : Bytes) × InsertedAt 24 (heads (fragment ∷ [])) (letters capital 8) mid
        × (inject_html_content lower (letters capital 8) (fragment ∷ [])
            ≡ put_tail lower (bodies (fragment ∷ [])) mid))
    × (8 ≤ 8 → inject_html_content lower (letters capital 8) (fragment ∷ []) ≡ none)
unfolding heads
inject_html_content-letters_example =
    inject_html_content-letters lower 8 refl (fragment ∷ []) (λ e. cc)

abbrev json : List Action
json =
    edit_header (add_header (codes "Content-Type") (codes "application/json"))
    ∷ write_call (codes "{}")
    ∷ flush_call
    ∷ []

html_inject_handler-wire_example :
    wire (html_inject_handler same same 8 false (fragment ∷ []) json new_client)
    ≡ wire (run_actions json new_client)
unfolding is_other get_header eqb is_html_content_type index_fold index has_prefix
html_inject_handler-wire_example =
    html_inject_handler-wire same same 8 false (fragment ∷ []) json (refl, (refl, refl))

-- ===== src/Plugin/Inject.antt =====
-- The fragments of plugins in HTML documents: injectHTMLContent and htmlInjectWriter of
-- internal/plugin/inject.go. strings.ToLower and http.DetectContentType are parameters; `none` is a
-- panic on an index past the end of a text.
pub mod Places
pub mod Lengthened
use mango_hub.Base.{
  ℕ, ◌+◌, ◌≡◌, Bool, true, false, ◌||◌, ◌&&◌, not, Option, none, some, List, [], ◌∷◌, ◌++◌, length,
  take, drop, map, ltb, ◌==◌, suc, if◌then◌else◌, Bytes, codes, eqb, has_prefix,
}
use mango_hub.Plugin.Client.{
  Header, get_header, set_header, del_header, Client, put_body, put_flush, take_connection, Action,
  edit_header, status_call, write_call, flush_call, hijack_call,
}
use mango_hub.Plugin.Buffer.{write_through}

-- A fragment for the head and one for the end of the body of a document.
pub record InjectEntry : Type 0 where
  pub short : Bytes
  pub head : Bytes
  pub body : Bytes

-- strings.Index: the first place where the second text stands in the first.
abbrev pub one_later : Option ℕ → Option ℕ
one_later none = none
one_later (some i) = some (suc i)

unfoldable pub index : Bytes → Bytes → Option ℕ
unfolding has_prefix
index [] needle = if has_prefix [] needle then some 0 else none
index (c ∷ s) needle = if has_prefix (c ∷ s) needle then some 0 else one_later (index s needle)

unfoldable pub heads : List InjectEntry → Bytes
heads [] = []
heads (f ∷ fragments) = f.head ++ heads fragments

unfoldable pub bodies : List InjectEntry → Bytes
bodies [] = []
bodies (f ∷ fragments) = f.body ++ bodies fragments

-- text[:i] + fragment + text[i:]
unfoldable pub splice : ℕ → Bytes → Bytes → Option Bytes
splice i fragment text =
    if ltb (length text) i then none else some (take i text ++ (fragment ++ drop i text))

abbrev pub put_head_at : Bytes → Bytes → Option ℕ → Option Bytes
put_head_at head text none = some (head ++ text)
put_head_at head text (some i) = splice i head text

abbrev pub put_tail_at : Bytes → Bytes → Option ℕ → Option ℕ → Option Bytes
put_tail_at tail text (some i) html = splice i tail text
put_tail_at tail text none (some i) = splice i tail text
put_tail_at tail text none none = some (text ++ tail)

module _ (to_lower : Bytes → Bytes) where
  unfoldable pub index_fold : Bytes → Bytes → Option ℕ
  unfolding index
  index_fold text needle = index (to_lower text) needle

  unfoldable pub put_head : Bytes → Bytes → Option Bytes
  unfolding index_fold splice eqb
  put_head head text =
      if eqb head [] then some text else put_head_at head text (index_fold text (codes "</head>"))

  unfoldable pub put_tail : Bytes → Bytes → Option Bytes
  unfolding index_fold splice eqb
  put_tail tail text =
      if eqb tail []
      then some text
      else put_tail_at tail text (index_fold text (codes "</body>"))
          (index_fold text (codes "</html>"))

  abbrev pub then_tail : Bytes → Option Bytes → Option Bytes
  then_tail tail none = none
  then_tail tail (some text) = put_tail tail text

  unfoldable pub inject_html_content : Bytes → List InjectEntry → Option Bytes
  unfolding put_head put_tail heads bodies
  inject_html_content body fragments =
      then_tail (bodies fragments) (put_head (heads fragments) body)

  -- isHTMLContentType
  unfoldable pub is_html_content_type : Bytes → Bool
  unfolding index_fold
  is_html_content_type ct = elim (index_fold ct (codes "text/html")) [
    | none ↦ false
    | some i ↦ true
  ]

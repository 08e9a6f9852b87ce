-- ===== src/Plugin/HtmlWriter.antt =====
-- htmlInjectWriter of internal/plugin/inject.go: a response of HTML is held back until it is
-- complete, and every other goes on to the client. strings.ToLower and http.DetectContentType are
-- parameters.
pub mod Forwarded
use mango_hub.Base.{
  ℕ, ◌+◌, ◌-◌, ◌≡◌, Bool, true, false, ◌||◌, ◌&&◌, not, Option, none, some, List, [], ◌∷◌, ◌++◌,
  length, take, ltb, if◌then◌else◌, Bytes, codes, eqb,
}
use mango_hub.Plugin.Client.{
  Header, get_header, set_header, del_header, Client, put_body, put_flush, take_connection, Action,
  edit_header, status_call, write_call, flush_call, hijack_call, run_actions,
}
use mango_hub.Plugin.Buffer.{write_through}
use mango_hub.Plugin.Inject.{InjectEntry, is_html_content_type, inject_html_content}

pub record HtmlWriter : Type 0 where
  pub header : Header
  pub status_code : ℕ
  pub wrote_header : Bool
  pub body : Bytes
  pub html : Bool
  pub streaming : Bool
  pub hijacked : Bool
  pub limit : ℕ
  pub underlying : Client

abbrev pub new_html_writer : ℕ → Client → HtmlWriter
new_html_writer limit w = record {
  header = [];
  status_code = 0;
  wrote_header = false;
  body = [];
  html = false;
  streaming = false;
  hijacked = false;
  limit = limit;
  underlying = w;
}

abbrev pub content_type : Bytes
content_type = codes "Content-Type"

-- passthrough
unfoldable pub pass_through : HtmlWriter → HtmlWriter
unfolding put_body write_through
pass_through w = if w.streaming || w.hijacked then w else record w {
  streaming = true;
  underlying = put_body w.body (write_through w.status_code w.header w.underlying);
}

abbrev pub choose_status : ℕ → HtmlWriter → HtmlWriter
choose_status code w =
    if w.wrote_header then w else record w { status_code = code; wrote_header = true }

abbrev pub write_below : Bytes → HtmlWriter → HtmlWriter
write_below p w = record w { underlying = put_body p w.underlying }

module _ (to_lower : Bytes → Bytes) where
  -- The type of the content is known, and it is not HTML.
  unfoldable pub is_other : Bytes → Bool
  unfolding eqb is_html_content_type
  is_other ct = not (eqb ct []) && not (is_html_content_type to_lower ct)

  unfoldable pub html_write_header : ℕ → HtmlWriter → HtmlWriter
  unfolding pass_through is_other get_header
  html_write_header code w =
      let v = choose_status code w in
      if w.streaming
      then w
      else if is_other (get_header content_type v.header)
      then pass_through v
      else v

  -- The end of Write, where the response is HTML or its type is not known.
  unfoldable pub hold_body : Bytes → HtmlWriter → HtmlWriter
  unfolding pass_through
  hold_body p w =
      if ltb w.limit (length w.body + length p)
      then write_below p (pass_through w)
      else record w { body = w.body ++ p }

module _ (to_lower detect : Bytes → Bytes) where
  abbrev pub sniff_length : ℕ
  sniff_length = 512

  unfoldable pub sniff_content_type : Bytes → Bytes → Bytes
  sniff_content_type buffered next = detect (
      if ltb (length buffered) sniff_length
      then buffered ++ take (sniff_length - length buffered) next
      else buffered)

  -- The writer with the type that was found for it, where it had none.
  abbrev pub with_type : Bytes → HtmlWriter → HtmlWriter
  with_type p w =
      let ct = sniff_content_type w.body p in
      if eqb (get_header content_type w.header) [] && not (eqb ct [])
      then record w { header = set_header content_type ct w.header }
      else w

  abbrev pub write_typed : Bytes → HtmlWriter → HtmlWriter
  write_typed p w =
      let ct = get_header content_type w.header in
      if is_other to_lower ct
      then write_below p (pass_through w)
      else hold_body to_lower p (record w { html = not (eqb ct []) })

  unfoldable pub html_write : Bytes → HtmlWriter → HtmlWriter
  unfolding sniff_content_type get_header eqb is_other pass_through hold_body put_body
  html_write p w =
      if w.streaming
      then write_below p w
      else if w.html
      then hold_body to_lower p (choose_status 200 w)
      else write_typed p (with_type p (choose_status 200 w))

  unfoldable pub html_flush : HtmlWriter → HtmlWriter
  unfolding pass_through put_flush
  html_flush w =
      (λ (v : HtmlWriter). record v { underlying = put_flush v.underlying }) (pass_through w)

  unfoldable pub html_act : Action → HtmlWriter → HtmlWriter
  unfolding html_write_header html_write html_flush
  html_act (edit_header f) w = record w { header = f w.header }
  html_act (status_call code) w = html_write_header to_lower code w
  html_act (write_call p) w = html_write p w
  html_act flush_call w = html_flush w
  html_act hijack_call w = record w { hijacked = true; underlying = take_connection w.underlying }

  unfoldable pub html_serve : List Action → HtmlWriter → HtmlWriter
  unfolding html_act
  html_serve [] w = w
  html_serve (a ∷ actions) w = html_serve actions (html_act a w)

  -- The document with the fragments, or a panic.
  abbrev pub write_document : ℕ → Header → Client → Option Bytes → Client
  write_document status header w none = record w { panicked = true }
  write_document status header w (some body) =
      put_body body (write_through status (del_header (codes "Content-Length") header) w)

  -- A header without a type is given one if the body is HTML.
  abbrev pub final_type : HtmlWriter → Bytes
  final_type w =
      let ct = get_header content_type w.header in if eqb ct [] then detect w.body else ct

  abbrev pub final_header : HtmlWriter → Header
  final_header w =
      if eqb (get_header content_type w.header) [] && is_html_content_type to_lower (final_type w)
      then set_header content_type (final_type w) w.header
      else w.header

  unfoldable pub html_flush_to : List InjectEntry → HtmlWriter → Client
  unfolding get_header eqb is_html_content_type inject_html_content put_body write_through
  html_flush_to fragments w =
      if w.streaming || w.hijacked
      then w.underlying
      else if is_html_content_type to_lower (final_type w)
      then write_document w.status_code (final_header w) w.underlying
          (inject_html_content to_lower w.body fragments)
      else put_body w.body (write_through w.status_code (final_header w) w.underlying)

  -- htmlInjectHandler, for a handler that does these actions.
  unfoldable pub html_inject_handler : ℕ → Bool → List InjectEntry → List Action → Client → Client
  unfolding run_actions html_serve html_flush_to
  html_inject_handler limit upgrade [] actions c = run_actions actions c
  html_inject_handler limit upgrade (f ∷ fragments) actions c =
      if upgrade
      then run_actions actions c
      else html_flush_to (f ∷ fragments) (html_serve actions (new_html_writer limit c))

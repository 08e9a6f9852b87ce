-- ===== src/Plugin/HtmlWriter/Forwarded.antt =====
-- Responses that are not HTML, through htmlInjectWriter (internal/plugin/inject.go).
use mango_hub.Base.{ℕ, ◌≡◌, refl, Bool, true, false, List, [], ◌∷◌, arith, Bytes}
use mango_hub.Base.Branch.{either}
use mango_hub.Plugin.Client.{
  Header, get_header, Client, new_client, is_invalid, is_interim, is_some, put_status, put_body,
  put_flush, Action, edit_header, status_call, write_call, flush_call, hijack_call, act,
  run_actions, wire,
}
use mango_hub.Plugin.Buffer.{write_through}
use mango_hub.Plugin.Buffer.Transparent.{
  IsFinal, IsOrderly, IsFinal-is_invalid, IsFinal-is_interim, IsOrderly-rest,
}
use mango_hub.Plugin.Inject.{InjectEntry}
use mango_hub.Plugin.HtmlWriter.{
  HtmlWriter, new_html_writer, content_type, pass_through, choose_status, write_below, is_other,
  html_write_header, html_write, html_flush, html_act, html_serve, html_flush_to,
  html_inject_handler,
}

module _ (to_lower : Bytes → Bytes) where
  -- A handler that first sets a header with a type of content that is not HTML, then writes a status
  -- from 200 to 999 or a part of the body, and only then flushes.
  abbrev pub IsOther : Header → List Action → Type 0
  IsOther h [] = false ≡ true
  IsOther h (edit_header f ∷ actions) = IsOther (f h) actions
  IsOther h (status_call code ∷ actions) =
      IsFinal code × (is_other to_lower (get_header content_type h) ≡ true) × IsOrderly true actions
  IsOther h (write_call p ∷ actions) =
      (is_other to_lower (get_header content_type h) ≡ true) × IsOrderly true actions
  IsOther h (_ ∷ actions) = false ≡ true

module _ (to_lower detect : Bytes → Bytes) where
  abbrev IsFresh : HtmlWriter → Client → Type 0
  IsFresh w d =
      (w.streaming ≡ false)
      × (w.wrote_header ≡ false)
      × (w.hijacked ≡ false)
      × (w.html ≡ false)
      × (w.underlying ≡ new_client)
      × (w.body ≡ [])
      × (d ≡ record new_client { header = w.header })

  abbrev IsThrough : HtmlWriter → Client → Type 0
  IsThrough w d =
      (w.streaming ≡ true)
      × (wire w.underlying ≡ wire d)
      × (d.panicked ≡ false)
      × (d.hijacked ≡ false)
      × (is_some d.status ≡ true)

  IsThrough-act :
      (a : Action) (more : List Action) (w : HtmlWriter) (d : Client)
      → IsOrderly true (a ∷ more)
      → IsThrough w d
      → IsThrough (html_act to_lower detect a w) (act a d)
  unfolding html_act act html_write_header html_write html_flush pass_through put_status put_body
      put_flush
  IsThrough-act (edit_header f) more w d o h = ground arith
  IsThrough-act (status_call code) more w d o h = ground arith
  IsThrough-act (write_call p) more w d o h = ground arith
  IsThrough-act flush_call more w d o h = ground arith
  IsThrough-act hijack_call more w d o h = ground arith

  IsFresh-status :
      (code : ℕ) (w : HtmlWriter) (d : Client)
      → IsFinal code
      → is_other to_lower (get_header content_type w.header) ≡ true
      → IsFresh w d
      → IsThrough (html_write_header to_lower code w) (put_status code d)
  unfolding html_write_header pass_through put_status put_body write_through
  IsFresh-status code w d final other h =
      ground (arith, IsFinal-is_invalid code, IsFinal-is_interim code)

  -- A part of the body behind a header that says what it is.
  IsFresh-typed :
      (p : Bytes) (w : HtmlWriter) (d : Client)
      → is_other to_lower (get_header content_type w.header) ≡ true
      → IsFresh w d
      → html_write to_lower detect p w ≡ write_below p (pass_through (choose_status 200 w))
  unfolding html_write is_other
  IsFresh-typed p w d other h = ground arith

  IsFresh-write :
      (p : Bytes) (w : HtmlWriter) (d : Client)
      → IsFresh w d
      → IsThrough (write_below p (pass_through (choose_status 200 w))) (put_body p d)
  unfolding pass_through put_status put_body write_through is_invalid is_interim
  IsFresh-write p w d h = ground arith

  IsThrough-run_actions :
      (actions : List Action) (w : HtmlWriter) (d : Client)
      → IsOrderly true actions
      → IsThrough w d
      → IsThrough (html_serve to_lower detect actions w) (run_actions actions d)
  unfolding html_serve run_actions
  IsThrough-run_actions [] w d o h = h
  IsThrough-run_actions (a ∷ more) w d o h =
      IsThrough-run_actions more (html_act to_lower detect a w) (act a d) (IsOrderly-rest a more o)
        (IsThrough-act a more w d o h)

  fresh-run_actions :
      (actions : List Action) (w : HtmlWriter) (d : Client)
      → IsOther to_lower w.header actions
      → IsFresh w d
      → IsThrough (html_serve to_lower detect actions w) (run_actions actions d)
  unfolding html_serve run_actions html_act act
  fresh-run_actions [] w d o h = cc
  fresh-run_actions (edit_header f ∷ more) w d o h =
      fresh-run_actions more (html_act to_lower detect (edit_header f) w) (act (edit_header f) d) o
        (ground arith)
  fresh-run_actions (status_call code ∷ more) w d o h =
      IsThrough-run_actions more (html_write_header to_lower code w) (put_status code d) o.2
        (IsFresh-status code w d o.0 o.1 h)
  fresh-run_actions (write_call p ∷ more) w d o h =
      IsThrough-run_actions more (html_write to_lower detect p w) (put_body p d) o.1
        (rw (IsFresh-typed p w d o.0 h) (IsFresh-write p w d h))
  fresh-run_actions (flush_call ∷ more) w d o h = cc
  fresh-run_actions (hijack_call ∷ more) w d o h = cc

  IsThrough-flush_to :
      (fragments : List InjectEntry) (w : HtmlWriter) (d : Client)
      → IsThrough w d
      → wire (html_flush_to to_lower detect fragments w) ≡ wire d
  unfolding html_flush_to
  IsThrough-flush_to fragments w d h = ground arith

  -- A response that is not HTML by the type in its header, of a handler that sets the header before it
  -- writes, answers with a status from 200 to 999 and flushes only what it has begun, goes to the
  -- client as the handler alone would have sent it, whatever fragments there are and however long
  -- it is.
  pub html_inject_handler-wire :
      (limit : ℕ) (upgrade : Bool) (fragments : List InjectEntry) (actions : List Action)
      → IsOther to_lower [] actions
      → wire (html_inject_handler to_lower detect limit upgrade fragments actions new_client)
        ≡ wire (run_actions actions new_client)
  unfolding html_inject_handler
  html_inject_handler-wire limit upgrade [] actions o = refl
  html_inject_handler-wire limit upgrade (f ∷ fragments) actions o =
      either (λ c. wire c ≡ wire (run_actions actions new_client)) upgrade refl
        (IsThrough-flush_to (f ∷ fragments)
          (html_serve to_lower detect actions (new_html_writer limit new_client))
          (run_actions actions new_client)
          (fresh-run_actions actions (new_html_writer limit new_client) new_client o
            (ground arith)))

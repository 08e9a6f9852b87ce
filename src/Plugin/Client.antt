-- ===== src/Plugin/Client.antt =====
-- The http.ResponseWriter of net/http that the wrappers of internal/plugin/hook.go and inject.go
-- write to, and what a handler does to a writer. A header is the list of its fields, with names in
-- canonical form, in the order in which they were added.
use mango_hub.Base.{
  ℕ, Bool, true, false, ◌||◌, ◌&&◌, not, Option, none, some, List, [], ◌∷◌, ◌++◌, keep, ltb, leb,
  ◌==◌, if◌then◌else◌, Bytes, eqb,
}

abbrev pub Header : Type 0
Header = List (Bytes × Bytes)

-- Header.Get, Del, Set and Add
unfoldable pub get_header : Bytes → Header → Bytes
get_header name [] = []
get_header name ((n, v) ∷ h) = if eqb n name then v else get_header name h

abbrev pub del_header : Bytes → Header → Header
del_header name h = keep (λ f. not (eqb f.0 name)) h

abbrev pub add_header : Bytes → Bytes → Header → Header
add_header name value h = h ++ (name, value) ∷ []

abbrev pub set_header : Bytes → Bytes → Header → Header
set_header name value h = add_header name value (del_header name h)

-- What the client gets: the status, with the header as it was at that time, the statuses of
-- information before it, and the body.
pub record Client : Type 0 where
  pub header : Header
  pub status : Option ℕ
  pub sent : Header
  pub interim : List ℕ
  pub body : Bytes
  pub panicked : Bool
  pub hijacked : Bool

abbrev pub new_client : Client
new_client = record {
  header = [];
  status = none;
  sent = [];
  interim = [];
  body = [];
  panicked = false;
  hijacked = false;
}

abbrev pub is_some : Option ℕ → Bool
is_some none = false
is_some (some code) = true

-- The connection takes no more from the handler.
abbrev pub is_shut : Client → Bool
is_shut c = c.panicked || c.hijacked

-- A status that stands for the response, and one that says more comes.
unfoldable pub is_invalid : ℕ → Bool
is_invalid code = ltb code 100 || ltb 999 code

unfoldable pub is_interim : ℕ → Bool
is_interim code = leb 100 code && leb code 199 && not (code == 101)

-- ResponseWriter.WriteHeader: it panics at a status that is no status, and only the first counts.
unfoldable pub put_status : ℕ → Client → Client
put_status code c =
    if is_shut c || is_some c.status
    then c
    else if is_invalid code
    then record c { panicked = true }
    else if is_interim code
    then record c { interim = c.interim ++ code ∷ [] }
    else record c { status = some code; sent = c.header }

-- bodyAllowedForStatus
unfoldable pub bodiless : Option ℕ → Bool
bodiless none = false
bodiless (some code) = is_interim code || code == 101 || code == 204 || code == 304

-- ResponseWriter.Write: the status is 200 if none was written; some have no body.
unfoldable pub put_body : Bytes → Client → Client
unfolding put_status
put_body p c =
    let d = put_status 200 c in
    if is_shut d || bodiless d.status then d else record d { body = d.body ++ p }

-- Flusher.Flush
unfoldable pub put_flush : Client → Client
unfolding put_status
put_flush c = put_status 200 c

-- Hijacker.Hijack
abbrev pub take_connection : Client → Client
take_connection c = if is_shut c then c else record c { hijacked = true }

-- What a handler does, one call of the writer after the other.
pub data Action : Type 0 where
  edit_header : (Header → Header) → Action
  status_call : ℕ → Action
  write_call : Bytes → Action
  flush_call : Action
  hijack_call : Action

-- A handler on the client's own writer.
unfoldable pub act : Action → Client → Client
unfolding put_status put_body put_flush
act (edit_header f) c = if is_shut c then c else record c { header = f c.header }
act (status_call code) c = put_status code c
act (write_call p) c = put_body p c
act flush_call c = put_flush c
act hijack_call c = take_connection c

unfoldable pub run_actions : List Action → Client → Client
unfolding act
run_actions [] c = c
run_actions (a ∷ actions) c = run_actions actions (act a c)

-- What has gone over the wire, or ended the handler.
pub record Wire : Type 0 where
  pub status : Option ℕ
  pub header : Header
  pub interim : List ℕ
  pub body : Bytes
  pub panicked : Bool
  pub hijacked : Bool

abbrev pub wire : Client → Wire
wire c = record {
  status = c.status;
  header = c.sent;
  interim = c.interim;
  body = c.body;
  panicked = c.panicked;
  hijacked = c.hijacked;
}

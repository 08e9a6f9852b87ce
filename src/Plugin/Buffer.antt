-- ===== src/Plugin/Buffer.antt =====
-- bufferedResponseWriter of internal/plugin/hook.go: what a handler writes is held back for the
-- response hooks, until the first Flush or until the body exceeds the limit.
pub mod Transparent
pub mod Unwritten
use mango_hub.Base.{
  ℕ, ◌+◌, Bool, true, false, ◌||◌, List, [], ◌∷◌, ◌++◌, length, ltb, if◌then◌else◌, Bytes, codes,
  eqb,
}
use mango_hub.Plugin.Client.{
  Header, del_header, Client, put_status, put_body, put_flush, take_connection, Action, edit_header,
  status_call, write_call, flush_call, hijack_call,
}

pub record Buffered : Type 0 where
  pub header : Header
  pub status_code : ℕ
  pub body : Bytes
  pub wrote_header : Bool
  pub streaming : Bool
  pub forwarded : Bool
  pub hijacked : Bool
  pub limit : ℕ
  pub passthrough : Bool
  pub underlying : Client

abbrev pub new_buffered : ℕ → Client → Buffered
new_buffered limit w = record {
  header = [];
  status_code = 0;
  body = [];
  wrote_header = false;
  streaming = false;
  forwarded = false;
  hijacked = false;
  limit = limit;
  passthrough = false;
  underlying = w;
}

-- writeThrough: the header is added to that of the writer below, then the status is written.
unfoldable pub write_through : ℕ → Header → Client → Client
unfolding put_status
write_through status header w = put_status status (record w { header = w.header ++ header })

unfoldable pub write_header : ℕ → Buffered → Buffered
unfolding write_through
write_header code b =
    if b.streaming
    then if b.forwarded || b.hijacked
      then b
      else record b { forwarded = true; underlying = write_through code b.header b.underlying }
    else if b.wrote_header
    then b
    else record b { status_code = code; wrote_header = true }

-- The first write without a status writes 200.
abbrev pub with_status : Buffered → Buffered
with_status b = if b.wrote_header then b else record b { status_code = 200; wrote_header = true }

-- The part of Write that follows the choice of a status.
unfoldable pub append_body : Bytes → Buffered → Buffered
unfolding write_through put_body
append_body p b =
    if ltb b.limit (length b.body + length p)
    then record b {
      streaming = true;
      forwarded = true;
      passthrough = true;
      underlying = put_body p (put_body b.body (write_through b.status_code b.header b.underlying));
    }
    else record b { body = b.body ++ p }

unfoldable pub write : Bytes → Buffered → Buffered
unfolding append_body put_body
write p b =
    if b.streaming
    then record b { underlying = put_body p b.underlying }
    else append_body p (with_status b)

abbrev pub buffered_status : Buffered → ℕ
buffered_status b = if b.wrote_header then b.status_code else 200

-- The writer takes what a response hook made of the response, if none of it has been sent.
unfoldable pub apply : ℕ → Header → Bytes → Buffered → Buffered
apply status header body b = if b.streaming then b else record b {
  status_code = status;
  wrote_header = true;
  header = if eqb body b.body then header else del_header (codes "Content-Length") header;
  body = body;
}

-- flushTo
unfoldable pub flush_to : Buffered → Client
unfolding write_through put_body
flush_to b =
    if b.streaming || b.hijacked
    then b.underlying
    else put_body b.body (write_through b.status_code b.header b.underlying)

abbrev pub hijack : Buffered → Buffered
hijack b = record b { hijacked = true; underlying = take_connection b.underlying }

-- The first Flush sends what has been held back.
abbrev start_stream : Buffered → Buffered
start_stream b = record b {
  streaming = true;
  underlying = put_body b.body (write_through b.status_code b.header b.underlying);
}

abbrev flush_underlying : Buffered → Buffered
flush_underlying b = record b { underlying = put_flush b.underlying }

unfoldable pub flush : Buffered → Buffered
unfolding write_through put_body put_flush
flush b = flush_underlying (if b.streaming then b else start_stream b)

-- A handler on the writer. A panic of the writer below ends it, but changes nothing below any more.
unfoldable pub buffered_act : Action → Buffered → Buffered
unfolding write_header write flush
buffered_act (edit_header f) b = record b { header = f b.header }
buffered_act (status_call code) b = write_header code b
buffered_act (write_call p) b = write p b
buffered_act flush_call b = flush b
buffered_act hijack_call b = hijack b

unfoldable pub buffered_serve : List Action → Buffered → Buffered
unfolding buffered_act
buffered_serve [] b = b
buffered_serve (a ∷ actions) b = buffered_serve actions (buffered_act a b)

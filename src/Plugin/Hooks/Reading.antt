-- ===== src/Plugin/Hooks/Reading.antt =====
-- What the hooks and the handler get of the body of a request (ReadAll of
-- pkg/jsruntime/httpbody/read.go, maxHookBodyLimit and wrapHandler of internal/plugin/hook.go).
use mango_hub.Base.{
  Bool-cases, ℕ, zero, suc, ◌≤◌, ◌<◌, ◌≡◌, ◌↔◌, refl, inl, inr, true, false, Option, none, some,
  List, [], ◌∷◌, Bytes, length, take, length-take, arith, ap, sym, subst, ◌∙◌, ltb,
}
use mango_hub.Base.Int.{pos, ltb_ℤ}
use mango_hub.Plugin.Client.{Client, Action}
use mango_hub.Plugin.Buffer.{Buffered}
use mango_hub.Plugin.Hooks.Guarded.{
  Runs, IsAllowed, wrapped, matching_request, wrap_handler-handled_iff,
}
use mango_hub.Plugin.Hooks.{
  HookEntry, HttpRequest, Changes, Rewrite, Turn, max_hook_body_limit, request_with_body, max_int64,
  one_more, read_limited, check_size, read_all,
}

take-whole : {A : Type 0} (n : ℕ) (xs : List A) → length xs ≤ n → take n xs ≡ xs
take-whole zero [] h = refl
take-whole zero (x ∷ xs) h = absurd (omega arith)
take-whole (suc n) [] h = refl
take-whole (suc n) (x ∷ xs) h = rw (take-whole n xs (omega arith)) refl

one_more-pos : (n : ℕ) → n < max_int64 → one_more (pos n) ≡ pos (suc n)
unfolding one_more
one_more-pos n h = ground arith

size_iff :
    (limit : ℕ) (body got : Bytes)
    → (check_size (pos limit) (some (take (suc limit) body)) ≡ some got)
      ↔ ((some body ≡ some got) × (length got ≤ limit))
size_iff limit body got = elim (Bool-cases (ltb limit (length body))) [
  | inr h ↦
      let fits : ltb_ℤ (pos limit) (pos (length body)) ≡ false = ground arith in
      rw (take-whole (suc limit) body (ground arith), fits) (λ e. (e, ground arith), λ (e, _). e)
  | inl h ↦
      let long : ltb_ℤ (pos limit) (pos (length (take (suc limit) body))) ≡ true =
        ground (arith, length-take (suc limit) body) in
      rw long (λ e. cc, λ (e, fits). absurd (ground arith))
]

-- Below the largest int64 the reader of the limit decides as it should: a body within the limit is
-- read whole, a longer one is refused, and so is one that cannot be read.
pub read_all_iff :
    (limit : ℕ) (body : Option Bytes) (got : Bytes)
    → limit < max_int64
    → (read_all (pos limit) body ≡ some got) ↔ ((body ≡ some got) × (length got ≤ limit))
unfolding read_all read_limited
read_all_iff limit none got h = rw (one_more-pos limit h) (λ e. cc, λ (e, _). cc)
read_all_iff limit (some body) got h = rw (one_more-pos limit h) (size_iff limit body got)

-- At the largest int64 nothing is read, and no body is refused.
pub read_all-max_int64 : (body : Option Bytes) → read_all (pos max_int64) body ≡ some []
unfolding read_all read_limited one_more
read_all-max_int64 body = refl

module _ (to_lower to_upper : Bytes → Bytes) (parse_url : Bytes → Option Bytes) (message : Bytes)
    (call_request : HookEntry → HttpRequest → Bytes → Turn Changes)
    (call_response : HookEntry → HttpRequest → Buffered → Turn Rewrite) (limit : ℕ)
    (next : HttpRequest → List Action) where
  -- Where the largest limit of the request hooks that match is the largest int64, the handler is given
  -- what these hooks make of an empty body, whatever the body of the request is, and whether or not
  -- it can be read.
  pub wrap_handler-unread :
      (hooks matching : List HookEntry) (h : HookEntry) (r q : HttpRequest) (c : Client)
      → r.upgrade ≡ false
      → matching_request to_lower hooks r ≡ h ∷ matching
      → max_hook_body_limit (h ∷ matching) ≡ pos max_int64
      → ((wrapped to_lower to_upper parse_url message call_request call_response limit next hooks r
            c).handled
          ≡ some q)
        ↔ ((left : HttpRequest) × (last : Bytes) × Runs to_upper parse_url call_request
              (h ∷ matching)
              r
              []
              left
              last
            × (q ≡ request_with_body left last))
  wrap_handler-unread hooks matching h r q c e found largest =
      let (down, up) =
        wrap_handler-handled_iff to_lower to_upper parse_url message call_request call_response
          limit next hooks r q c e in
      let empty : read_all (max_hook_body_limit (h ∷ matching)) r.body ≡ some [] =
        ap (λ l. read_all l r.body) largest ∙ read_all-max_int64 r.body in
      (
        λ handled.
            let (body, last, left, read, runs, same) =
              subst (λ hs. IsAllowed to_upper parse_url call_request hs r q) found (down handled) in
            let unread : body ≡ [] = cc in (left, last, rw unread at runs, same),
        λ (left, last, runs, same). up (
            subst (λ hs. IsAllowed to_upper parse_url call_request hs r q) (sym found)
              ([], last, left, empty, runs, same)),
      )

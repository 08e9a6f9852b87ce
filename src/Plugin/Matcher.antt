-- ===== src/Plugin/Matcher.antt =====
-- The path filters of hooks: hookMatcher of internal/plugin/hook.go. strings.ToLower and ToUpper and
-- filepath.IsLocal are parameters.
pub mod Subtree
use mango_hub.Base.{
  ℕ, ◌≡◌, Bool, true, false, ◌||◌, ◌&&◌, not, Option, none, some, ◌⊎◌, inl, inr, List, [], ◌∷◌,
  ◌++◌, reverse_onto, ==_iff, ◌==◌, if◌then◌else◌, Bytes, codes, eqb, has_prefix, trim_space, map,
}

abbrev pub slash : ℕ
slash = b'/'

pub record HookMatcher : Type 0 where
  pub method : Bytes
  pub path : Bytes
  pub prefix : Bool

pub data MatcherError : Type 0 where
  empty_path : MatcherError
  no_slash : Bytes → MatcherError
  invalid_path : Bytes → MatcherError
  invalid_segments : Bytes → MatcherError

-- strings.Cut at the first space; `none` where there is none.
abbrev add_front : ℕ → Option (Bytes × Bytes) → Option (Bytes × Bytes)
add_front c none = none
add_front c (some (m, r)) = some (c ∷ m, r)

unfoldable pub cut_space : Bytes → Option (Bytes × Bytes)
cut_space [] = none
cut_space (c ∷ s) = if c == b' ' then some ([], s) else add_front c (cut_space s)

-- strings.HasSuffix(s, "*"), with strings.TrimSuffix(s, "*"): the text is given from its end.
abbrev star_first : Bytes → Option Bytes
star_first [] = none
star_first (c ∷ s) = if c == b'*' then some (reverse_onto s []) else none

unfoldable pub trim_star : Bytes → Option Bytes
unfolding reverse_onto
trim_star s = star_first (reverse_onto s [])

-- strings.TrimRight(s, "/")
abbrev put_unless_last_slash : ℕ → Bytes → Bytes
put_unless_last_slash c [] = if c == slash then [] else c ∷ []
put_unless_last_slash c (d ∷ t) = c ∷ d ∷ t

unfoldable pub trim_slashes : Bytes → Bytes
trim_slashes [] = []
trim_slashes (c ∷ s) = put_unless_last_slash c (trim_slashes s)

unfoldable pub is_http_method : Bytes → Bool
unfolding eqb
is_http_method s =
    eqb s (codes "GET")
    || eqb s (codes "HEAD")
    || eqb s (codes "POST")
    || eqb s (codes "PUT")
    || eqb s (codes "PATCH")
    || eqb s (codes "DELETE")
    || eqb s (codes "OPTIONS")

-- The path of a request as matchesPath reads it.
abbrev pub or_root : Bytes → Bytes
or_root [] = slash ∷ []
or_root (c ∷ s) = c ∷ s

module _ (to_lower to_upper : Bytes → Bytes) (is_local : Bytes → Bool) where
  -- The part of parseHookMatcher after the slashes at the end are off.
  unfoldable pub finish_matcher : Bytes → Bool → Bytes → MatcherError ⊎ HookMatcher
  finish_matcher method prefix [] =
      if prefix
      then inr (record { method = method; path = []; prefix = prefix })
      else inl (invalid_path [])
  finish_matcher method prefix (c ∷ s) =
      if is_local (if c == slash then s else c ∷ s)
      then inr (record { method = method; path = to_lower (c ∷ s); prefix = prefix })
      else inl (invalid_segments (c ∷ s))

  abbrev take_star : Bytes → Bytes → Option Bytes → MatcherError ⊎ HookMatcher
  take_star method pattern none = finish_matcher method false (trim_slashes pattern)
  take_star method pattern (some base) = finish_matcher method true (trim_slashes base)

  unfoldable pub parse_path : Bytes → Bytes → MatcherError ⊎ HookMatcher
  unfolding trim_star trim_slashes has_prefix finish_matcher
  parse_path method pattern =
      if has_prefix pattern (slash ∷ [])
      then take_star method pattern (trim_star pattern)
      else inl (no_slash pattern)

  -- A first word that is a method is the method of the filter.
  abbrev take_method : Bytes → Option (Bytes × Bytes) → Bytes × Bytes
  take_method pattern none = ([], pattern)
  take_method pattern (some (word, rest)) =
      let method = to_upper (trim_space word) in
      if is_http_method method then (method, trim_space rest) else ([], pattern)

  unfoldable pub parse_trimmed : Bytes → MatcherError ⊎ HookMatcher
  unfolding parse_path cut_space is_http_method trim_space
  parse_trimmed [] = inl empty_path
  parse_trimmed (c ∷ s) =
      let (method, pattern) = take_method (c ∷ s) (cut_space (c ∷ s)) in parse_path method pattern

  unfoldable pub parse_hook_matcher : Bytes → MatcherError ⊎ HookMatcher
  unfolding parse_trimmed trim_space
  parse_hook_matcher pattern = parse_trimmed (trim_space pattern)

module _ (to_lower : Bytes → Bytes) where
  unfoldable pub matches_path : Option HookMatcher → Bytes → Bool
  unfolding eqb has_prefix
  matches_path none path = true
  matches_path (some m) path =
      let lower = to_lower (or_root path) in
      if m.prefix
      then eqb lower m.path || has_prefix lower (m.path ++ slash ∷ [])
      else eqb lower m.path

  -- The method and the path of the request.
  unfoldable pub matches_request : Option HookMatcher → Bytes → Bytes → Bool
  unfolding matches_path eqb
  matches_request none method path = true
  matches_request (some m) method path =
      if not (eqb m.method []) && not (eqb method m.method)
      then false
      else matches_path (some m) path

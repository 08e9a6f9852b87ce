-- ===== src/JsPath/Parts.antt =====
-- The parts of a path: posixPathParse, posixPathBasename, winPathParse, winPathBasename and
-- winPathDirname of pkg/jsruntime/path/path.go. The loops that go down from the end of a value read
-- it from its end.
use mango_hub.Base.{
  ℕ, ◌+◌, ◌-◌, ◌≡◌, refl, sym, ap, ◌∙◌, inl, inr, Bool, true, false, not, ◌&&◌, [], ◌∷◌, ◌++◌,
  length, take, drop, reverse_onto, All-reverse_onto, Bytes, codes, eqb, has_prefix, ltb, leb, ◌==◌,
  if◌then◌else◌, arith, Bool-cases,
}
use mathlib.Core.List.{append_assoc}
use mango_hub.JsPath.Windows.{
  WinPath, backslash, ends_with, split_win_path, to_backslashes, win_drive_volume,
}
use mango_hub.JsPath.Extension.{
  is_separator, node_extname, trim_suffix, NoSlash, EndsWith, node_extname-EndsWith,
}

unfoldable pub skip_separators : Bool → Bytes → Bytes
skip_separators windows [] = []
skip_separators windows (c ∷ s) =
    let rest = skip_separators windows s in if is_separator windows c then rest else c ∷ s

unfoldable pub until_separator : Bool → Bytes → Bytes
until_separator windows [] = []
until_separator windows (c ∷ s) =
    let rest = until_separator windows s in if is_separator windows c then [] else c ∷ rest

-- The value from its end, behind the separators that it ends with, and its last part.
unfoldable pub trimmed : Bool → Bytes → Bytes
unfolding skip_separators
trimmed windows value = skip_separators windows (reverse_onto value [])

unfoldable pub last_part : Bool → Bytes → Bytes
unfolding until_separator trimmed
last_part windows value = reverse_onto (until_separator windows (trimmed windows value)) []

abbrev last_start : Bool → Bytes → ℕ
last_start windows value = length (trimmed windows value) - length (last_part windows value)

unfoldable pub posix_path_basename : Bytes → Bytes
unfolding last_part
posix_path_basename value = last_part false value

unfoldable pub win_path_basename : Bytes → Bytes
unfolding last_part trimmed
win_path_basename path =
    let value = reverse_onto (trimmed true path) [] in
    let start = length value - length (last_part true path) in
    let drive = win_drive_volume value in
    if eqb value []
    then []
    else if not (eqb drive []) && ltb start (length drive)
    then drop (length drive) value
    else drop start value

-- isAbs of pathExports, for Windows.
unfoldable pub is_abs : Bytes → Bool
is_abs value = not (eqb (split_win_path value).root [])

unfoldable pub win_path_dirname : Bytes → Bytes
unfolding last_part trimmed
win_path_dirname value =
    let w = split_win_path value in
    let text = reverse_onto (trimmed true value) [] in
    let start = last_start true value in
    let result = reverse_onto (trimmed true (take (start - 1) text)) [] in
    let of_volume = if not (eqb w.volume []) then w.volume else codes "." in
    if leb start (length w.volume)
    then (if not (eqb w.root []) then w.volume ++ w.root else of_volume)
    else if eqb result w.volume
    then w.volume ++ w.root
    else result

-- The map that the parse functions return.
pub record PathParts : Type 0 where
  pub root : Bytes
  pub dir : Bytes
  pub base : Bytes
  pub ext : Bytes
  pub name : Bytes

abbrev slash_text : Bytes
slash_text = b'/' ∷ []

posix_dir : Bytes → Bytes → ℕ → ℕ → Bytes
posix_dir value root root_end start =
    let dir = take (start - 1) value in
    if start == root_end then root else if eqb dir [] && not (eqb root []) then root else dir

unfoldable pub posix_path_parse : Bytes → PathParts
unfolding posix_dir last_part trimmed
posix_path_parse value =
    let root = if has_prefix value slash_text then slash_text else [] in
    let root_end = if has_prefix value slash_text then 1 else 0 in
    let rest = drop root_end value in
    let base = last_part false rest in
    let ext = node_extname base false in
    record {
      root = root;
      dir = posix_dir value root root_end (root_end + last_start false rest);
      base = base;
      ext = ext;
      name = trim_suffix base ext;
    }

share_root : Bytes → Bytes → Bytes
share_root value volume =
    if ends_with (λ c. c == backslash) value then volume ++ backslash ∷ [] else volume

win_dir : Bytes → Bytes → ℕ → Bytes
win_dir root rest start = if start == 0 then root else root ++ take (start - 1) rest

win_parts : Bytes → WinPath → PathParts
unfolding win_dir share_root last_part trimmed
win_parts value w =
    let root = if not (eqb w.volume []) && eqb w.root [] then w.volume else w.volume ++ w.root in
    let base = last_part true w.rest in
    let ext = node_extname base true in
    let share = share_root value w.volume in
    if has_prefix w.volume (backslash ∷ backslash ∷ []) && eqb w.rest []
    then record { root = share; dir = share; base = []; ext = []; name = [] }
    else record {
      root = root;
      dir = win_dir root w.rest (last_start true w.rest);
      base = base;
      ext = ext;
      name = trim_suffix base ext;
    }

unfoldable pub win_path_parse : Bytes → PathParts
unfolding win_parts
win_path_parse path = win_parts (to_backslashes path) (split_win_path (to_backslashes path))

until_separator-NoSlash : (windows : Bool) (s : Bytes) → NoSlash windows (until_separator windows s)
unfolding until_separator
until_separator-NoSlash windows [] = tt
until_separator-NoSlash windows (c ∷ s) = elim (Bool-cases (is_separator windows c)) [
  | inl y ↦ rw y tt
  | inr n ↦ rw n (n, until_separator-NoSlash windows s)
]

last_part-EndsWith :
    (windows : Bool) (value : Bytes)
    → EndsWith (last_part windows value) (node_extname (last_part windows value) windows)
unfolding last_part
last_part-EndsWith windows value = node_extname-EndsWith (last_part windows value) windows (
    All-reverse_onto (λ c. is_separator windows c ≡ false)
      (until_separator windows (trimmed windows value)) []
      (until_separator-NoSlash windows (trimmed windows value)) tt)

-- A slash in front of a value is not seen from its end.
until-append : (s : Bytes) → until_separator false (s ++ slash_text) ≡ until_separator false s
unfolding until_separator
until-append [] = refl
until-append (c ∷ s) = elim (Bool-cases (is_separator false c)) [
  | inl y ↦ rw y refl
  | inr n ↦ rw n (ap (λ l. c ∷ l) (until-append s))
]

skip-append :
    (s : Bytes)
    → until_separator false (skip_separators false (s ++ slash_text))
      ≡ until_separator false (skip_separators false s)
unfolding skip_separators
skip-append [] = refl
skip-append (c ∷ s) = elim (Bool-cases (is_separator false c)) [
  | inl y ↦ rw y (skip-append s)
  | inr n ↦ rw n (until-append (c ∷ s))
]

reverse_onto-append : (s t : Bytes) → reverse_onto s t ≡ reverse_onto s [] ++ t
unfolding reverse_onto
reverse_onto-append [] t = refl
reverse_onto-append (c ∷ s) t =
    reverse_onto-append s (c ∷ t)
    ∙ sym (append_assoc (reverse_onto s []) (c ∷ []) t)
    ∙ ap (λ l. l ++ t) (sym (reverse_onto-append s (c ∷ [])))

last_part-slash : (s : Bytes) → last_part false (b'/' ∷ s) ≡ last_part false s
unfolding last_part trimmed reverse_onto
last_part-slash s =
    ap (λ l. reverse_onto (until_separator false (skip_separators false l)) [])
      (reverse_onto-append s slash_text)
    ∙ ap (λ l. reverse_onto l []) (skip-append (reverse_onto s []))

last_part-root :
    (value : Bytes)
    → last_part false (drop (if has_prefix value slash_text then 1 else 0) value)
      ≡ last_part false value
unfolding has_prefix
last_part-root [] = refl
last_part-root (c ∷ s) = elim (Bool-cases (c == b'/')) [
  | inl y ↦ rw y (sym (last_part-slash s) ∙ ap (λ d. last_part false (d ∷ s)) (ground arith))
  | inr n ↦ rw n refl
]

win_parts-base :
    (value : Bytes) (w : WinPath)
    → (win_parts value w).name ++ (win_parts value w).ext ≡ (win_parts value w).base
unfolding win_parts
win_parts-base value w =
    elim (Bool-cases (has_prefix w.volume (backslash ∷ backslash ∷ []) && eqb w.rest [])) [
      | inl y ↦ rw y refl
      | inr n ↦ rw n (last_part-EndsWith true w.rest)
    ]

-- posixPathParse and winPathParse, for every path: the name followed by the extension is the base, and
-- the base of a POSIX path is what posixPathBasename gives.
pub path_parse-base :
    (value : Bytes)
    → ((posix_path_parse value).name ++ (posix_path_parse value).ext
        ≡ (posix_path_parse value).base)
      × ((win_path_parse value).name ++ (win_path_parse value).ext ≡ (win_path_parse value).base)
      × ((posix_path_parse value).base ≡ posix_path_basename value)
unfolding posix_path_parse win_path_parse posix_path_basename
path_parse-base value = (
  last_part-EndsWith false (drop (if has_prefix value slash_text then 1 else 0) value),
  win_parts-base (to_backslashes value) (split_win_path (to_backslashes value)),
  last_part-root value,
)

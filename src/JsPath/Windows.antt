-- ===== src/JsPath/Windows.antt =====
-- Windows paths, pkg/jsruntime/path/path.go. The slice that cleanWinParts builds is kept from its end.
use mango_hub.Base.{
  ℕ, zero, suc, ◌+◌, ◌-◌, ◌≡◌, Bool, true, false, not, ◌&&◌, ◌||◌, Option, none, some, List, [],
  ◌∷◌, ◌++◌, length, reverse_onto, take, drop, Bytes, codes, eqb, has_prefix, leb, ◌==◌,
  if◌then◌else◌, map,
}
pub mod Clean

abbrev pub backslash : ℕ
backslash = 92

abbrev pub is_win_separator : ℕ → Bool
is_win_separator c = c == backslash || c == b'/'

-- strings.ReplaceAll(value, "/", `\`)
unfoldable pub to_backslashes : Bytes → Bytes
to_backslashes [] = []
to_backslashes (c ∷ s) = (if c == b'/' then backslash else c) ∷ to_backslashes s

abbrev is_letter : ℕ → Bool
is_letter c = leb b'A' c && leb c b'Z' || leb b'a' c && leb c b'z'

unfoldable pub win_drive_volume : Bytes → Bytes
win_drive_volume (c ∷ d ∷ s) = if is_letter c && d == b':' then c ∷ d ∷ [] else []
win_drive_volume s = []

-- strings.TrimLeft(s, `\`)
unfoldable pub trim_left : Bytes → Bytes
trim_left [] = []
trim_left (c ∷ s) = let rest = trim_left s in if c == backslash then rest else c ∷ s

-- strings.FieldsFunc with the separators; splitWinPath has made every `/` a backslash before it.
-- `word` is the field that is being read.
abbrev pub end_field : Bytes → List Bytes
end_field [] = []
end_field (c ∷ w) = (c ∷ w) ∷ []

unfoldable pub fields_on : Bytes → Bytes → List Bytes
fields_on word [] = end_field word
fields_on word (c ∷ s) =
    let next = end_field word ++ fields_on [] s in
    let inside = fields_on (word ++ c ∷ []) s in if is_win_separator c then next else inside

-- strings.TrimPrefix
unfoldable pub trim_prefix : Bytes → Bytes → Bytes
trim_prefix s prefix = if has_prefix s prefix then drop (length prefix) s else s

-- strings.Join(parts, `\`)
unfoldable pub join : List Bytes → Bytes
join [] = []
join (p ∷ []) = p
join (p ∷ q ∷ ps) = p ++ backslash ∷ join (q ∷ ps)

-- The three results of splitWinPath.
pub record WinPath : Type 0 where
  pub volume : Bytes
  pub root : Bytes
  pub rest : Bytes

abbrev root_text : Bytes
root_text = backslash ∷ []

split_drive : Bytes → Bytes → WinPath
unfolding trim_left
split_drive drive [] = record { volume = drive; root = []; rest = [] }
split_drive drive (c ∷ s) =
    if is_win_separator c
    then record { volume = drive; root = root_text; rest = trim_left (c ∷ s) }
    else record { volume = drive; root = []; rest = c ∷ s }

split_root : Bytes → WinPath
unfolding trim_left
split_root value =
    if has_prefix value root_text
    then record { volume = []; root = root_text; rest = trim_left value }
    else record { volume = []; root = []; rest = value }

-- A path `\\host\share\rest`; without a share it is a path from the root.
split_share : Bytes → List Bytes → WinPath
unfolding split_root trim_left trim_prefix
split_share value (host ∷ share ∷ parts) = record {
  volume = root_text ++ root_text ++ host ++ root_text ++ share;
  root = root_text;
  rest = trim_left (trim_prefix (trim_left (trim_prefix (trim_left value) host)) share);
}
split_share value parts = split_root value

unfoldable pub split_win_path : Bytes → WinPath
unfolding split_drive split_root split_share fields_on to_backslashes win_drive_volume trim_left
split_win_path path =
    let value = to_backslashes path in
    let drive = win_drive_volume value in
    if not (eqb drive [])
    then split_drive drive (drop (length drive) value)
    else if has_prefix value (root_text ++ root_text)
    then split_share value (fields_on [] (trim_left value))
    else split_root value

abbrev pub dots : Bytes
dots = codes ".."

-- `..`: the part before it goes, unless it is `..` itself, or there is none.
unfoldable pub go_up : Bool → List Bytes → List Bytes
go_up absolute [] = if absolute then [] else dots ∷ []
go_up absolute (p ∷ result) =
    if not (eqb p dots) then result else if absolute then p ∷ result else dots ∷ p ∷ result

-- One round of the loop of cleanWinParts.
unfoldable pub clean_part : Bool → Bytes → List Bytes → List Bytes
clean_part absolute part result =
    if eqb part [] || eqb part (codes ".")
    then result
    else if eqb part dots
    then go_up absolute result
    else part ∷ result

unfoldable pub clean_loop : Bool → List Bytes → List Bytes → List Bytes
clean_loop absolute [] result = result
clean_loop absolute (part ∷ parts) result =
    clean_loop absolute parts (clean_part absolute part result)

unfoldable pub clean_win_parts : Bytes → Bool → List Bytes
unfolding clean_loop reverse_onto
clean_win_parts rest absolute = reverse_onto (clean_loop absolute (fields_on [] rest) []) []

unfoldable pub ends_with : (ℕ → Bool) → Bytes → Bool
ends_with test [] = false
ends_with test (c ∷ []) = test c
ends_with test (c ∷ d ∷ s) = ends_with test (d ∷ s)

normal_text : WinPath → List Bytes → Bytes
unfolding join
normal_text w parts =
    let result = w.volume ++ w.root ++ join parts in
    if eqb result []
    then codes "."
    else if not (eqb w.volume []) && eqb w.root [] && length parts == 0
    then w.volume ++ codes "."
    else result

unfoldable pub win_path_normalize : Bytes → Bytes
unfolding normal_text
win_path_normalize value =
    let w = split_win_path value in
    let parts = clean_win_parts w.rest (not (eqb w.root [])) in
    let result = normal_text w parts in
    if eqb value []
    then codes "."
    else if ends_with is_win_separator value
        && not (length parts == 0)
        && not (ends_with (λ c. c == backslash) result)
    then result ++ backslash ∷ []
    else result

unfoldable pub non_empty : List Bytes → List Bytes
non_empty [] = []
non_empty (p ∷ parts) = if eqb p [] then non_empty parts else p ∷ non_empty parts

unfoldable pub win_path_join : List Bytes → Bytes
unfolding non_empty
win_path_join parts =
    let kept = non_empty parts in
    if length kept == 0 then codes "." else win_path_normalize (join kept)

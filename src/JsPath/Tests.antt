-- ===== src/JsPath/Tests.antt =====
-- Runs of the path functions, and their theorems at concrete inputs.
use mango_hub.Base.{
  ◌≡◌, refl, true, false, [], ◌∷◌, ◌++◌, All, codes, eqb, has_prefix, reverse_onto,
}
use mango_hub.JsPath.Windows.{
  backslash, fields_on, join, clean_part, go_up, clean_loop, clean_win_parts, split_win_path,
  to_backslashes, win_drive_volume, trim_left, win_path_normalize, win_path_join, non_empty,
  ends_with,
}
use mango_hub.JsPath.Windows.Clean.{IsClean, IsPart, clean_win_parts-IsClean}
use mango_hub.JsPath.Extension.{
  node_extname, extension_loop, extension_of, mark_end, mark_dot, scan_start,
}
use mango_hub.JsPath.Parts.{
  posix_path_parse, win_path_basename, win_path_dirname, last_part, trimmed, skip_separators,
  until_separator,
}

normalizes :
    win_path_normalize (codes "C:/a/../b/./c/")
    ≡ codes "C:" ++ backslash ∷ codes "b" ++ backslash ∷ codes "c" ++ backslash ∷ []
unfolding win_path_normalize split_win_path to_backslashes win_drive_volume trim_left
    clean_win_parts clean_loop clean_part go_up fields_on join ends_with reverse_onto eqb
normalizes = refl

keeps_dots : win_path_join (codes "a" ∷ codes "../../x" ∷ []) ≡ codes ".." ++ backslash ∷ codes "x"
unfolding win_path_join non_empty win_path_normalize split_win_path to_backslashes win_drive_volume
    trim_left clean_win_parts clean_loop clean_part go_up fields_on join ends_with reverse_onto eqb
    has_prefix
keeps_dots = refl

hides_dot_file : node_extname (codes ".bashrc") false ≡ []
unfolding node_extname extension_loop extension_of mark_end mark_dot scan_start reverse_onto
hides_dot_file = refl

finds_extension : node_extname (codes "/x/app.tar.gz") false ≡ codes ".gz"
unfolding node_extname extension_loop extension_of mark_end mark_dot scan_start reverse_onto
finds_extension = refl

clean_win_parts-IsClean_example :
    IsClean true (reverse_onto (clean_win_parts (codes "a/../../b/./c") true) [])
    × All IsPart (clean_win_parts (codes "a/../../b/./c") true)
    × (clean_win_parts (join (clean_win_parts (codes "a/../../b/./c") true)) true
        ≡ clean_win_parts (codes "a/../../b/./c") true)
clean_win_parts-IsClean_example = clean_win_parts-IsClean (codes "a/../../b/./c") true

parses_posix : (posix_path_parse (codes "/home/u/f.txt")).dir ≡ codes "/home/u"
unfolding posix_path_parse has_prefix eqb reverse_onto
parses_posix = refl

takes_dir : win_path_dirname (codes "C:/f.txt") ≡ codes "C:" ++ backslash ∷ []
unfolding win_path_dirname split_win_path to_backslashes win_drive_volume trim_left last_part
    trimmed skip_separators until_separator reverse_onto eqb
takes_dir = refl

takes_base : win_path_basename (codes "C:f.txt/") ≡ codes "f.txt"
unfolding win_path_basename last_part trimmed skip_separators until_separator win_drive_volume
    reverse_onto eqb
takes_base = refl

-- ===== src/Search/Paths.antt =====
-- The path helpers: src/util/search_util.cpp. `home` is what home_dir answers, and `age` the
-- seconds since the file changed; `extension` is `std::filesystem::path::extension` of a path.
use waylaunch.Prelude.{ℕ, ◌+◌, Bool, true, false, Option, none, some, List, [], ◌∷◌, map}
use waylaunch.Prelude.Tests.{◌==◌, if◌then◌else◌}
use waylaunch.Prelude.Lists.{is_empty}
use waylaunch.Prelude.Int.{ℤ, pos, ltb_ℤ}
use waylaunch.Prelude.Text.{Text, codes, text_eq, to_lower}

unfoldable pub home_dir : Option Text → Text
home_dir none = codes "."
home_dir (some h) = h

-- What follows a prefix, where the text starts with it.
abbrev next_byte : Bool → Option Text → Option Text
next_byte true rest = rest
next_byte false rest = none

unfoldable pub drop_prefix : Text → Text → Option Text
drop_prefix [] s = some s
drop_prefix (c ∷ p) [] = none
drop_prefix (c ∷ p) (d ∷ s) = next_byte (c == d) (drop_prefix p s)

unfoldable pub abbreviate_home : Option Text → Text → Text
abbreviate_home home path =
    if is_empty (home_dir home)
    then path
    else elim (drop_prefix (home_dir home) path) [ none ↦ path | some rest ↦ b'~' ∷ rest ]

unfoldable pub one_of : List Text → Text → Bool
one_of [] s = false
one_of (t ∷ ts) s = if text_eq s t then true else one_of ts s

unfoldable pub icon_of_extension : Text → Text
icon_of_extension ext =
    if one_of
      (codes ".png"
        ∷ codes ".jpg"
        ∷ codes ".jpeg"
        ∷ codes ".gif"
        ∷ codes ".svg"
        ∷ codes ".webp"
        ∷ codes ".bmp"
        ∷ [])
      ext
    then codes "image-x-generic"
    else if text_eq ext (codes ".pdf")
    then codes "application-pdf"
    else if one_of (codes ".mp3" ∷ codes ".flac" ∷ codes ".wav" ∷ codes ".ogg" ∷ codes ".m4a" ∷ [])
        ext
    then codes "audio-x-generic"
    else if one_of (codes ".mp4" ∷ codes ".mkv" ∷ codes ".webm" ∷ codes ".mov" ∷ []) ext
    then codes "video-x-generic"
    else if one_of
        (codes ".zip" ∷ codes ".tar" ∷ codes ".gz" ∷ codes ".xz" ∷ codes ".7z" ∷ codes ".rar" ∷ [])
        ext
    then codes "package-x-generic"
    else if one_of
        (codes ".cpp"
          ∷ codes ".hpp"
          ∷ codes ".h"
          ∷ codes ".c"
          ∷ codes ".py"
          ∷ codes ".js"
          ∷ codes ".ts"
          ∷ codes ".rs"
          ∷ codes ".go"
          ∷ codes ".java"
          ∷ codes ".sh"
          ∷ [])
        ext
    then codes "text-x-script"
    else codes "text-x-generic"

unfoldable pub icon_for_file : (Text → Text) → Text → Text
icon_for_file extension path = icon_of_extension (map to_lower (extension path))

unfoldable pub path_depth : Text → ℕ
path_depth [] = 0
path_depth (c ∷ p) = if c == b'/' then path_depth p + 1 else path_depth p

-- The bonus is a whole number; the comparisons of days are of whole seconds.
unfoldable pub recency_bonus : ℤ → ℕ
recency_bonus age =
    if ltb_ℤ age (pos 86400)
    then 60
    else if ltb_ℤ age (pos 604800)
    then 40
    else if ltb_ℤ age (pos 2592000)
    then 20
    else if ltb_ℤ age (pos 31536000)
    then 8
    else 0

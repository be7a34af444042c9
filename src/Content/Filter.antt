-- ===== src/Content/Filter.antt =====
-- The metadata predicates of a query: MetaFilter (include/waylaunch/content/store.h) and the
-- parsers of their values in src/content/store.cpp. The products and the sum of a size wrap around
-- at 64 bits, which C++ leaves undefined and compilers do; strtoll cuts a number at the bounds of
-- an int64_t. The times are integers without bound.
use waylaunch.Prelude.{ℕ, ◌-◌, ◌%◌, ◌^◌, Bool, true, false, ◌&&◌, Option, none, some, List, [], ◌∷◌}
use waylaunch.Prelude.Tests.{ltb, ◌==◌, if◌then◌else◌}
use waylaunch.Prelude.Lists.{length, is_empty, first, after}
use waylaunch.Prelude.Int.{ℤ, pos, negsuc, clamp, ◌+ℤ◌, ◌-ℤ◌, ◌*ℤ◌, ◌/ℤ◌}
use waylaunch.Prelude.Text.{Text, codes, text_eq, to_lower}
use waylaunch.Prelude.Decimal.{read_int, is_digit, starts_digit}

pub record MetaFilter : Type 0 where
  pub mime_globs : List Text
  pub name_likes : List Text
  pub size_min : ℤ
  pub size_max : ℤ
  pub mtime_min_ns : ℤ
  pub mtime_max_ns : ℤ
  pub active : Bool

abbrev pub no_filter : MetaFilter
no_filter = record {
  mime_globs = [];
  name_likes = [];
  size_min = negsuc 0;
  size_max = negsuc 0;
  mtime_min_ns = pos 0;
  mtime_max_ns = pos 0;
  active = false;
}

abbrev pub long_min : ℤ
long_min = negsuc 9_223_372_036_854_775_807

abbrev pub long_max : ℤ
long_max = pos 9_223_372_036_854_775_807

-- `std::strtoll` in base 10.
unfoldable pub strtoll : Text → ℤ
strtoll s = elim (read_int s) [ none ↦ pos 0 | some (n, rest) ↦ clamp n long_min long_max ]

-- The digits at the front of a text and the rest, as the loop of parse_size counts them.
abbrev pub digit_before : ℕ → Text × Text → Text × Text
digit_before c (ds, rest) = (c ∷ ds, rest)

unfoldable pub span_digits : Text → Text × Text
span_digits [] = ([], [])
span_digits (c ∷ s) = if is_digit c then digit_before c (span_digits s) else ([], c ∷ s)

-- An int64_t, where a result beyond its bounds wraps around.
unfoldable pub wrap64 : ℤ → ℤ
wrap64 (pos n) =
    if ltb (n % 2 ^ 64) (2 ^ 63) then pos (n % 2 ^ 64) else negsuc (2 ^ 64 - 1 - n % 2 ^ 64)
wrap64 (negsuc n) =
    if ltb (n % 2 ^ 64) (2 ^ 63) then negsuc (n % 2 ^ 64) else pos (2 ^ 64 - 1 - n % 2 ^ 64)

-- `*` of an int64_t with a number.
unfoldable pub times : ℤ → ℕ → ℤ
unfolding wrap64
times n k = wrap64 (n *ℤ pos k)

unfoldable pub scaled : ℤ → Text → ℤ
unfolding times
scaled n [] = n
scaled n (c ∷ []) =
    if to_lower c == b'k'
    then times n 1024
    else if to_lower c == b'm'
    then times (times n 1024) 1024
    else if to_lower c == b'g'
    then times (times (times n 1024) 1024) 1024
    else negsuc 0
scaled n (c ∷ d ∷ s) = negsuc 0

abbrev pub size_of_parts : Text × Text → ℤ
size_of_parts ([], rest) = negsuc 0
size_of_parts (c ∷ ds, rest) = scaled (strtoll (c ∷ ds)) rest

-- -1 on malformed input.
unfoldable pub parse_size : Text → ℤ
parse_size s = size_of_parts (span_digits s)

unfoldable pub kind_globs : Text → Option (List Text)
kind_globs kind =
    if text_eq kind (codes "pdf")
    then some (codes "application/pdf" ∷ [])
    else if text_eq kind (codes "image")
    then some (codes "image/*" ∷ [])
    else if text_eq kind (codes "audio")
    then some (codes "audio/*" ∷ [])
    else if text_eq kind (codes "video")
    then some (codes "video/*" ∷ [])
    else if text_eq kind (codes "text")
    then some (codes "text/*" ∷ [])
    else if text_eq kind (codes "code")
    then some (
        codes "text/x-*"
        ∷ codes "application/json"
        ∷ codes "application/javascript"
        ∷ codes "application/xml"
        ∷ codes "application/x-shellscript"
        ∷ [])
    else if text_eq kind (codes "archive")
    then some (
        codes "application/zip"
        ∷ codes "application/x-tar"
        ∷ codes "application/gzip"
        ∷ codes "application/x-7z-compressed"
        ∷ codes "application/x-bzip2"
        ∷ codes "application/x-xz"
        ∷ codes "application/vnd.rar"
        ∷ codes "application/x-rar-compressed"
        ∷ [])
    else if text_eq kind (codes "spreadsheet")
    then some (
        codes "*spreadsheetml*"
        ∷ codes "*opendocument.spreadsheet*"
        ∷ codes "text/csv"
        ∷ codes "application/vnd.ms-excel"
        ∷ [])
    else if text_eq kind (codes "presentation")
    then some (
        codes "*presentationml*"
        ∷ codes "*opendocument.presentation*"
        ∷ codes "application/vnd.ms-powerpoint"
        ∷ [])
    else if text_eq kind (codes "doc")
    then some (
        codes "*wordprocessingml*"
        ∷ codes "*opendocument.text*"
        ∷ codes "application/pdf"
        ∷ codes "application/rtf"
        ∷ codes "application/epub+zip"
        ∷ codes "text/markdown"
        ∷ [])
    else none

-- The operator before a value: one of the two bytes, if it is there.
pub data Compare : Type 0 where
  below above no_operator : Compare

unfoldable pub operator_of : Text → Compare
operator_of [] = Compare.no_operator
operator_of (c ∷ s) =
    if c == b'<' then Compare.below else if c == b'>' then Compare.above else Compare.no_operator

unfoldable pub without_operator : Text → Text
without_operator [] = []
without_operator (c ∷ s) = if c == b'<' then s else if c == b'>' then s else c ∷ s

unfoldable pub has_equals : Text → Bool
has_equals [] = false
has_equals (c ∷ s) = c == b'='

unfoldable pub without_equals : Text → Text
without_equals [] = []
without_equals (c ∷ s) = if c == b'=' then s else c ∷ s

unfoldable pub last_byte : Text → ℕ
last_byte [] = 0
last_byte (c ∷ []) = c
last_byte (c ∷ d ∷ s) = last_byte (d ∷ s)

abbrev pub nanoseconds : ℤ → ℤ
nanoseconds sec = sec *ℤ pos 1_000_000_000

-- The times of a window, in nanoseconds; 0 is no bound.
pub record Window : Type 0 where
  pub min_ns : ℤ
  pub max_ns : ℤ

abbrev pub from_to : ℤ → ℤ → Window
from_to a b = record { min_ns = nanoseconds a; max_ns = nanoseconds b }

abbrev pub since : ℤ → Window
since a = record { min_ns = nanoseconds a; max_ns = pos 0 }

abbrev pub until : ℤ → Window
until b = record { min_ns = pos 0; max_ns = nanoseconds b }

unfoldable pub is_unit : ℕ → Bool
is_unit c = if c == b'h' then true else if c == b'd' then true else c == b'w'

unfoldable pub unit_seconds : ℕ → ℤ
unit_seconds c = if c == b'h' then pos 3600 else if c == b'd' then pos 86400 else pos 604800

unfoldable pub relative_window : Compare → Text → ℤ → Window
relative_window op v now_s =
    let thresh = now_s -ℤ strtoll v *ℤ unit_seconds (last_byte v) in
    elim op [ Compare.above ↦ until thresh | _ ↦ since thresh ]

unfoldable pub date_window : Compare → ℤ → Window
date_window Compare.below day = until (day -ℤ pos 1)
date_window Compare.above day = since (day +ℤ pos 86400)
date_window Compare.no_operator day = from_to day (day +ℤ pos 86400 -ℤ pos 1)

unfoldable pub is_date_shape : Text → Bool
is_date_shape v =
    length v == 10
    && text_eq (first 1 (after 4 v)) (codes "-")
    && text_eq (first 1 (after 7 v)) (codes "-")

-- `timegm` of what `strptime` reads, where it reads a date, is the parameter `date`.
unfoldable pub window_of_value : (Text → Option ℤ) → Compare → Text → ℤ → Option Window
window_of_value date op v now_s =
    let day0 = now_s -ℤ (now_s -ℤ now_s /ℤ 86400 *ℤ pos 86400) in
    if is_empty v
    then none
    else if text_eq v (codes "today")
    then some (since day0)
    else if text_eq v (codes "yesterday")
    then some (from_to (day0 -ℤ pos 86400) (day0 -ℤ pos 1))
    else if starts_digit v && is_unit (last_byte v)
    then some (relative_window op v now_s)
    else if is_date_shape v
    then elim (date v) [ none ↦ none | some day ↦ some (date_window op day) ]
    else none

unfoldable pub parse_modified : (Text → Option ℤ) → Text → ℤ → Option Window
parse_modified date v now_s =
    window_of_value date (operator_of v) (without_equals (without_operator v)) now_s

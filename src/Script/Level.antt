-- ===== src/Script/Level.antt =====
-- The folder of the world: `read_level_name` of export/dsh_world_export.py.
use Prim.Native.Char.{Char, code}
use dsh_api.Prelude.{
  String, Bool, false, ◌&&◌, ◌||◌, not, Option, none, some, List, [], ◌∷◌, any, length, leb,
  is_empty, ◌==◌, if◌then◌else◌,
}
use dsh_api.Prelude.Chars.{chars, text, is_char, is_digit, starts}
use dsh_api.Prelude.Splitting.{split_once, strip}
use dsh_api.Action.{Result, ok, err, other}
use dsh_api.Export.Exporter.{bare_line}

-- `[A-Za-z0-9_]`
abbrev is_word : Char → Bool
is_word c =
    leb b'a' (code c) && leb (code c) b'z'
    || leb b'A' (code c) && leb (code c) b'Z'
    || is_digit c
    || is_char b'_' c

-- `[A-Za-z0-9_. -]`
abbrev is_plain : Char → Bool
is_plain c = is_word c || is_char b'.' c || is_char b' ' c || is_char b'-' c

abbrev all_plain : List Char → Bool
all_plain cs = not (any (λ c. not (is_plain c)) cs)

-- LEVEL_NAME_RE, whose `$` also matches before a newline at the end.
abbrev pub is_level_name : List Char → Bool
is_level_name [] = false
is_level_name (c ∷ cs) = is_word c && (all_plain cs && leb (length cs) 63)

abbrev or_world : String → String
or_world value = if is_empty value then "world" else value

-- A line, stripped, on the name so far.
abbrev of_pair : (Char → Bool) → String → Option (List Char × List Char) → String
of_pair is_space name none = name
of_pair is_space name (some (key, value)) =
    if strip is_space (text key) == "level-name"
    then or_world (strip is_space (text value))
    else name

abbrev of_line : (Char → Bool) → String → String → String
of_line is_space name line =
    if starts ("#" ∷ []) (chars line)
    then name
    else of_pair is_space name (split_once (is_char b'=') (chars line))

unfoldable pub last_name : (Char → Bool) → String → List String → String
unfolding strip chars text split_once starts
last_name is_space name [] = name
last_name is_space name (line ∷ lines) =
    last_name is_space (of_line is_space name (strip is_space line)) lines

abbrev checked_name : String → Result String
checked_name name =
    if not (is_level_name (bare_line name)) || name == "." || name == ".."
    then err
        (other "WorldError" "the world folder name in server.properties is not a plain folder name")
    else ok name

-- `read_level_name`, of the file's lines, if there is a file; `is_space` is `str.isspace`.
unfoldable pub read_level_name : (Char → Bool) → Option (List String) → Result String
unfolding last_name chars
read_level_name is_space none = ok "world"
read_level_name is_space (some lines) = checked_name (last_name is_space "world" lines)

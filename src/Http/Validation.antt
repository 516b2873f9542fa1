-- ===== src/Http/Validation.antt =====
-- The checks of a body (src/dsh_api/main.py), and `validate_name` of src/dsh_api/service.py.
use Prim.Native.Char.{Char, code}
use dsh_api.Prelude.{
  String, Bool, false, ◌&&◌, ◌||◌, not, Option, none, some, List, [], ◌∷◌, any, length, leb, codes,
  is_infix, if◌then◌else◌,
}
use dsh_api.Prelude.Chars.{chars, is_char, is_digit}
use dsh_api.Action.{Result, ok, err, value_error}

-- `[a-z]`
abbrev pub is_lower : Char → Bool
is_lower c = leb b'a' (code c) && leb (code c) b'z'

-- `[a-z0-9]`
abbrev pub is_end : Char → Bool
is_end c = is_lower c || is_digit c

-- `[a-z0-9-]{…}[a-z0-9]`, of any length.
unfoldable pub is_tail : List Char → Bool
is_tail [] = false
is_tail (c ∷ []) = is_end c
is_tail (c ∷ d ∷ cs) = (is_end c || is_char b'-' c) && is_tail (d ∷ cs)

-- `NAME_PATTERN.fullmatch`
abbrev pub is_name : List Char → Bool
is_name [] = false
is_name (c ∷ cs) = is_lower c && (is_tail cs && leb (length cs) 30)

unfoldable pub validate_name : String → Result String
unfolding is_tail chars codes is_infix
validate_name name =
    if not (is_name (chars name))
    then err (
        value_error
          "name must be lowercase letters, digits and dashes, 2-31 characters, starting with a letter and not ending in a dash")
    else if is_infix (codes "omcsi") (codes name)
    then err (value_error "name must not contain 'omcsi'")
    else ok name

-- `set(",=[]{}\\")`
abbrev is_special : Char → Bool
is_special c =
    is_char b',' c
    || is_char b'=' c
    || is_char b'[' c
    || is_char b']' c
    || is_char b'{' c
    || is_char b'}' c
    || is_char b'\\' c

-- `_motd` of `CreateServer`; `is_printable` is `str.isprintable`, character by character.
unfoldable pub validate_motd : (is_printable : Char → Bool) → Option String → Result (Option String)
unfolding chars
validate_motd is_printable none = ok none
validate_motd is_printable (some motd) =
    if any is_special (chars motd) || any (λ c. not (is_printable c)) (chars motd)
    then err (value_error "motd must be printable and may not contain , = [ ] { } or \\")
    else ok (some motd)

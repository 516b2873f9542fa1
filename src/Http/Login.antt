-- ===== src/Http/Login.antt =====
-- Who asks: src/dsh_api/auth.py, and `current_tenant` and `current_admin` of src/dsh_api/main.py.
use Prim.Native.Char.{Char}
use dsh_api.Prelude.{
  String, Bool, ◌||◌, not, Option, none, some, List, is_empty, ◌==◌, if◌then◌else◌,
}
use dsh_api.Prelude.Chars.{chars, text, is_char, lower_text}
use dsh_api.Prelude.Dict.{Dict, get}
use dsh_api.Prelude.Json as J
use dsh_api.Prelude.Json.{Json, Fields, lookup}
use dsh_api.Prelude.Splitting.{split_once, strip}
use dsh_api.Action.{Result, invalid_token, ok, err}

-- `authorization.partition(" ")`, without the space.
abbrev halves : List Char → Option (List Char × List Char) → String × String
halves whole none = (text whole, "")
halves whole (some (scheme, token)) = (text scheme, text token)

-- `bearer_token`; `is_space` is `str.isspace`.
unfoldable pub bearer_token : (is_space : Char → Bool) → Option String → Result String
unfolding split_once strip chars text lower_text
bearer_token is_space none = err (invalid_token "missing Authorization header")
bearer_token is_space (some authorization) =
    let (scheme, token) =
      halves (chars authorization) (split_once (is_char b' ') (chars authorization)) in
    if is_empty authorization
    then err (invalid_token "missing Authorization header")
    else if not (lower_text scheme == "bearer") || is_empty (strip is_space token)
    then err (invalid_token "expected a Bearer token")
    else ok (strip is_space token)

-- `Hs256Validator.validate`: `decode` is `jwt.decode` with its options, whose PyJWTError is a text.
pub data Decoded : Type 0 where
  claims : Fields → Decoded
  refused : String → Decoded

abbrev subject : Option Json → Result String
subject (some (J.text sub)) =
    if is_empty sub then err (invalid_token "sub claim is missing") else ok sub
subject _ = err (invalid_token "sub claim is missing")

abbrev of_decoded : Decoded → Result String
of_decoded (refused message) = err (invalid_token message)
of_decoded (claims fields) = subject (lookup "sub" fields)

unfoldable pub validate_hs256 : (decode : String → Decoded) → String → Result String
unfolding lookup
validate_hs256 decode token = of_decoded (decode token)

-- `FakeValidator.validate`
abbrev known : Option String → Result String
known none = err (invalid_token "unknown token")
known (some tenant) = ok tenant

unfoldable pub validate_fake : Dict String → String → Result String
unfolding get
validate_fake tokens token = known (get token tokens)

-- `validator.validate(bearer_token(authorization))`
abbrev pub validated : (validate : String → Result String) → Result String → Result String
validated validate (err e) = err e
validated validate (ok token) = validate token

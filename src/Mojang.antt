-- ===== src/Mojang.antt =====
-- The lookup of an operator's UUID (src/dsh_api/mojang.py).
use dsh_api.Prelude.{ℕ, String, Option, none, some, [], ◌∷◌, concat, eqb, if◌then◌else◌}
use dsh_api.Prelude.Decimal.{decimal}
use dsh_api.Prelude.Dict.{Dict, get}
use dsh_api.Prelude.Json as J
use dsh_api.Prelude.Json.{Json, object, lookup, truthy}
use dsh_api.Action.{Result, ok, err, unknown_username}

-- What the request comes to: the body, an HTTPError, an exception that means that Mojang was not
-- reached, by its text.
pub data Fetched : Type 0 where
  body : Json → Fetched
  http_error : (status : ℕ) → Fetched
  not_reached : (message : String) → Fetched

abbrev id_of : Json → Option Json
id_of (object fields) = lookup "id" fields
id_of _ = none

-- `show` is `str` of the values that are no texts, and `uuid` is `str(uuid.UUID(raw))`, where that
-- is no ValueError.
module _ (show : Json → String) (uuid : String → Option String) where
  abbrev str : Json → String
  str (J.text s) = s
  str j = show j

  abbrev dashed : String → Option String → Result String
  dashed username none = err (unknown_username username)
  dashed username (some id) = ok id

  abbrev of_id : String → Option Json → Result String
  of_id username none = err (unknown_username username)
  of_id username (some raw) =
      if truthy raw then dashed username (uuid (str raw)) else err (unknown_username username)

  -- `MojangResolver.resolve`
  unfoldable pub resolve : String → Fetched → Result String
  unfolding lookup truthy decimal
  resolve username (body json) = of_id username (id_of json)
  resolve username (http_error status) =
      if eqb status 404
      then err (unknown_username username)
      else err
          (unknown_username (concat (username ∷ ": Mojang returned HTTP " ∷ decimal status ∷ [])))
  resolve username (not_reached message) = err (
      unknown_username (concat (username ∷ ": Mojang could not be reached (" ∷ message ∷ ")" ∷ [])))

-- `FakeResolver.resolve`
abbrev known_or : String → Option String → Result String
known_or username none = err (unknown_username username)
known_or username (some id) = ok id

unfoldable pub resolve_fake : Dict String → String → Result String
unfolding get
resolve_fake known username = known_or username (get username known)

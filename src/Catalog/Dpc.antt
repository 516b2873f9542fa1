-- ===== src/Catalog/Dpc.antt =====
-- The entries of the catalog (src/dsh_api/catalog.py): the default plugins that are not DPC's, and
-- what DPC's API answers.
use dsh_api.Prelude.{
  String, Bool, false, ◌&&◌, Option, none, some, List, [], ◌∷◌, concat, map, if◌then◌else◌,
}
use dsh_api.Prelude.Chars.{chars, text, is_char, after_last, starts}
use dsh_api.Prelude.Dict.{Dict, put}
use dsh_api.Prelude.Dict as D
use dsh_api.Prelude.Json as J
use dsh_api.Prelude.Json.{Json, array, object, Fields, lookup, truthy, items}
use dsh_api.Action.{Result, ok, err, value_error}
use dsh_api.Plugins.{extra_slugs, extra_requires, jar_name_and_version}
use dsh_api.Plugins.Describe.{describe_plugin}
use dsh_api.Catalog.{CatalogPlugin}

abbrev or_none : Option (List String) → List String
or_none none = []
or_none (some requires) = requires

-- The entry of a default plugin under its slug.
abbrev pub extra_entry : (slug url : String) → CatalogPlugin
extra_entry slug url = record {
  slug = slug;
  title = (describe_plugin url).name;
  description = (describe_plugin url).description;
  tags = "compatibility" ∷ [];
  requires = or_none (D.get slug extra_requires);
  tag = (describe_plugin url).version;
  filename = text (after_last (is_char b'/') (chars url));
  url = url;
  icon_url = none;
  project_url = (describe_plugin url).project_url;
}

abbrev pub add_extra : Option String → String → Dict CatalogPlugin → Dict CatalogPlugin
add_extra none url extras = extras
add_extra (some slug) url extras = put slug (extra_entry slug url) extras

unfoldable pub extras_from : List String → Dict CatalogPlugin → Dict CatalogPlugin
unfolding jar_name_and_version D.get put describe_plugin text chars after_last
extras_from [] extras = extras
extras_from (url ∷ urls) extras =
    extras_from urls (add_extra (D.get (jar_name_and_version url).0 extra_slugs) url extras)

-- `extras_from_defaults`
abbrev pub extras_from_defaults : List String → Dict CatalogPlugin
extras_from_defaults urls = extras_from urls []

-- `value.get(k)` of an object, and `isinstance(value.get("slug"), str)`.
abbrev text_in : Option Json → Option String
text_in (some (J.text s)) = some s
text_in _ = none

abbrev pub is_filled : Option Json → Bool
is_filled none = false
is_filled (some j) = truthy j

-- The fields of each object with a slug.
unfoldable pub slugged : List Json → List (String × Fields)
unfolding lookup
slugged [] = []
slugged (object fs ∷ js) = elim (text_in (lookup "slug" fs)) [
  | none ↦ slugged js
  | some slug ↦ (slug, fs) ∷ slugged js
]
slugged (_ ∷ js) = slugged js

unfoldable pub releases_of : List (String × Fields) → Dict Fields → Dict Fields
unfolding put
releases_of [] releases = releases
releases_of ((slug, fs) ∷ rest) releases = releases_of rest (put slug fs releases)

abbrev pub list_of : Json → Option (List Json)
list_of (array js) = some (items js)
list_of _ = none

-- `show` is `str` of the values that are no texts.
module _ (show : Json → String) where
  abbrev str : Json → String
  str (J.text s) = s
  str j = show j

  abbrev str_of : Option Json → String
  str_of none = show J.null
  str_of (some j) = str j

  -- `str(value or other)`
  abbrev str_or : Option Json → String → String
  str_or none other = other
  str_or (some j) other = if truthy j then str j else other

  abbrev strings_in : Json → Option (List String)
  strings_in (array js) = some (map str (items js))
  strings_in _ = none

  -- `_strings`
  unfoldable pub strings : Option Json → Option (List String)
  unfolding items truthy
  strings none = some []
  strings (some j) = if truthy j then strings_in j else some []

  abbrev icon_of : Option String → Option String
  icon_of none = none
  icon_of (some icon) =
      if starts ("/" ∷ []) (chars icon)
      then some (concat ("https://dansplugins.com" ∷ icon ∷ []))
      else none

  abbrev pub dpc_entry :
      (api slug : String) (p release : Fields) (tags requires : List String) → CatalogPlugin
  dpc_entry api slug p release tags requires = record {
    slug = slug;
    title = str_or (lookup "title" p) slug;
    description = str_or (lookup "description" p) "";
    tags = tags;
    requires = requires;
    tag = str_of (lookup "tag" release);
    filename = text (after_last (is_char b'/') (chars (str_of (lookup "downloadUrl" release))));
    url = concat (api ∷ str_of (lookup "downloadPath" release) ∷ []);
    icon_url = icon_of (text_in (lookup "iconPath" p));
    project_url = some (concat ("https://dansplugins.com/resources/" ∷ slug ∷ []));
  }

  -- An entry whose tags and requirements are lists, and whose release has a tag.
  abbrev pub well_formed :
      (api slug : String) (p release : Fields) (tags requires : Option (List String))
      → Option CatalogPlugin
  well_formed api slug p release (some tags) (some requires) =
      if is_filled (lookup "tag" release)
      then some (dpc_entry api slug p release tags requires)
      else none
  well_formed api slug p release _ _ = none

  -- A plugin with its release, unless it is left out.
  abbrev pub joined : (api slug : String) (p : Fields) → Option Fields → Option CatalogPlugin
  joined api slug p none = none
  joined api slug p (some release) =
      if is_filled (lookup "downloadPath" release) && is_filled (lookup "downloadUrl" release)
      then well_formed api slug p release (strings (lookup "tags" p))
          (strings (lookup "requires" p))
      else none

  abbrev pub put_entry : String → Option CatalogPlugin → Dict CatalogPlugin → Dict CatalogPlugin
  put_entry slug none catalog = catalog
  put_entry slug (some entry) catalog = put slug entry catalog

  unfoldable pub join_all :
      (api : String)
      → List (String × Fields)
      → Dict Fields
      → Dict CatalogPlugin
      → Dict CatalogPlugin
  unfolding lookup truthy strings put D.get starts chars text after_last
  join_all api [] releases catalog = catalog
  join_all api ((slug, p) ∷ rest) releases catalog =
      join_all api rest releases (put_entry slug (joined api slug p (D.get slug releases)) catalog)

  abbrev pub parsed : String → Option (List Json) → Option (List Json) → Result (Dict CatalogPlugin)
  parsed api (some plugins) (some latest) =
      ok (join_all api (slugged plugins) (releases_of (slugged latest) []) [])
  parsed api _ _ = err (value_error "unexpected catalog shape")

  -- `parse_dpc`
  unfoldable pub parse_dpc : (plugins latest : Json) (api : String) → Result (Dict CatalogPlugin)
  unfolding items slugged releases_of join_all
  parse_dpc plugins latest api = parsed api (list_of plugins) (list_of latest)

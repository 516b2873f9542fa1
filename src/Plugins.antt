-- ===== src/Plugins.antt =====
-- src/dsh_api/plugins.py and `default_plugin_slug` of src/dsh_api/catalog.py: what the URL of a
-- jar says of its plugin. `urlparse` is modelled for URLs with or without `scheme://host`.
pub mod Describe
use Prim.Native.Char.{Char}
use dsh_api.Prelude.{
  String, Bool, false, ◌&&◌, ◌||◌, Option, none, some, List, [], ◌∷◌, ◌++◌, map, reverse, is_empty,
  if◌then◌else◌,
}
use dsh_api.Prelude.Dict.{Dict}
use dsh_api.Prelude.Dict as D
use dsh_api.Prelude.Chars.{
  chars, text, is_char, is_digit, before, after_last, starts, drop_prefix, lower_char,
}

-- The URL behind its `://`, or all of it.
unfoldable pub after_scheme : List Char → Option (List Char)
unfolding starts chars
after_scheme [] = none
after_scheme (c ∷ cs) =
    let rest = after_scheme cs in
    if starts (chars "://") (c ∷ cs) then some (drop_prefix (chars "://") (c ∷ cs)) else rest

abbrev pub ends_host : Char → Bool
ends_host c = is_char b'/' c || is_char b'?' c || is_char b'#' c

-- What is left once the host has been passed.
unfoldable pub after_host : List Char → List Char
after_host [] = []
after_host (c ∷ cs) = if ends_host c then c ∷ cs else after_host cs

abbrev ends_path : Char → Bool
ends_path c = is_char b'?' c || is_char b'#' c

-- `urlparse(url).path`, with the parameters of its last segment cut off by `filename_of`.
unfoldable pub url_path : List Char → List Char
unfolding after_scheme after_host before drop_prefix
url_path url =
    before ends_path (elim (after_scheme url) [ none ↦ url | some rest ↦ after_host rest ])

-- `urlparse(url).path.rsplit("/", 1)[-1]`
unfoldable pub filename_of : String → List Char
unfolding url_path after_last chars
filename_of url = before (is_char b';') (after_last (is_char b'/') (url_path (chars url)))

-- `filename[:-4] if filename.endswith(".jar") else filename`
unfoldable pub stem : List Char → List Char
unfolding starts drop_prefix chars
stem filename =
    if starts (chars "raj.") (reverse filename)
    then reverse (drop_prefix (chars "raj.") (reverse filename))
    else filename

abbrev next_is_digit : List Char → Bool
next_is_digit [] = false
next_is_digit (c ∷ _) = is_digit c

-- The match of `^(?P<name>.+?)-(?P<version>\d.*)$`, from the second character of the name on:
-- the name runs up to the first dash that a digit follows.
unfoldable pub split_version : List Char → List Char → Option (List Char × List Char)
split_version name [] = none
split_version name (c ∷ cs) =
    let rest = split_version (name ++ c ∷ []) cs in
    if is_char b'-' c && next_is_digit cs then some (name, cs) else rest

unfoldable pub match_name_version : List Char → Option (List Char × List Char)
unfolding split_version
match_name_version [] = none
match_name_version (c ∷ cs) = split_version (c ∷ []) cs

unfoldable pub jar_name_and_version : String → String × String
unfolding filename_of stem match_name_version text
jar_name_and_version url =
    let name = stem (filename_of url) in
    elim (match_name_version name) [ none ↦ (text name, "") | some (n, v) ↦ (text n, text v) ]

-- EXTRA_SLUGS, EXTRA_REQUIRES and CATALOG_SLUGS.
abbrev pub extra_slugs : Dict String
extra_slugs = ("ViaVersion", "viaversion") ∷ ("ViaBackwards", "viabackwards") ∷ []

abbrev pub extra_requires : Dict (List String)
extra_requires = ("viabackwards", "viaversion" ∷ []) ∷ []

abbrev pub catalog_slugs : Dict String
catalog_slugs = ("DansPluginManager", "dans-plugin-manager") ∷ []

-- `d.get(key) or other`
abbrev get_or : Option String → String → String
get_or none other = other
get_or (some s) other = if is_empty s then other else s

unfoldable pub default_plugin_slug : String → String
unfolding jar_name_and_version D.get text chars lower_char
default_plugin_slug url =
    let key = (jar_name_and_version url).0 in
    get_or (D.get key catalog_slugs)
      (get_or (D.get key extra_slugs) (text (map lower_char (chars key))))

-- ===== src/Plugins/Describe.antt =====
-- The default plugins as the portal shows them (src/dsh_api/plugins.py).
use dsh_api.Prelude.{
  String, ◌||◌, not, Option, none, some, List, [], ◌∷◌, concat, is_empty, ◌==◌, map, if◌then◌else◌,
}
use dsh_api.Prelude.Chars.{chars, text, is_char, before}
use dsh_api.Prelude.Dict.{Dict, get}
use dsh_api.Prelude.Splitting.{split}
use dsh_api.Plugins.{after_scheme, ends_host, url_path, jar_name_and_version}

pub record DefaultPlugin : Type 0 where
  pub name : String
  pub version : String
  pub description : String
  pub download_url : String
  pub project_url : Option String

-- KNOWN_PLUGINS
abbrev pub known_plugins : Dict (String × String)
known_plugins =
    (
      "DansPluginManager",
      (
        "Dan's Plugin Manager",
        "Installs and updates plugins from Dan's Plugins in-game with /dpm.",
      ),
    )
    ∷ ("ViaVersion", ("ViaVersion", "Lets players on newer Minecraft versions join your server."))
    ∷ (
      "ViaBackwards",
      ("ViaBackwards", "Lets players on older Minecraft versions join your server."),
    )
    ∷ []

-- `urlparse(url).netloc`
unfoldable pub netloc : String → String
unfolding after_scheme before chars text
netloc url = elim (after_scheme (chars url)) [
  | none ↦ ""
  | some rest ↦ text (before ends_host rest)
]

-- The match of _GITHUB_RELEASE, on the parts of the path between its slashes.
unfoldable pub github_release : List String → Option (String × String)
github_release (start ∷ owner ∷ repo ∷ releases ∷ download ∷ _ ∷ _) =
    if not (is_empty start)
      || is_empty owner
      || is_empty repo
      || not (releases == "releases")
      || not (download == "download")
    then none
    else some (owner, repo)
github_release _ = none

abbrev project_of : Option (String × String) → Option String
project_of none = none
project_of (some (owner, repo)) = some (concat ("https://github.com/" ∷ owner ∷ "/" ∷ repo ∷ []))

abbrev known_or : String → Option (String × String) → String × String
known_or key none = (key, "")
known_or key (some known) = known

unfoldable pub describe_plugin : String → DefaultPlugin
unfolding jar_name_and_version get netloc github_release url_path split chars text
describe_plugin url =
    let (key, version) = jar_name_and_version url in
    let (name, description) = known_or key (get key known_plugins) in
    record {
      name = name;
      version = version;
      description = description;
      download_url = url;
      project_url =
          if netloc url == "github.com"
          then project_of (github_release (split (is_char b'/') (text (url_path (chars url)))))
          else none;
    }

unfoldable pub describe_default_plugins : List String → List DefaultPlugin
unfolding describe_plugin
describe_default_plugins urls = map describe_plugin urls

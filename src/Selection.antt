-- ===== src/Selection.antt =====
-- src/dsh_api/selection.py: a server's plugin selection as the wrapper reads it. `json.dumps`
-- is written out for this document; its texts are escaped by `quote`
-- of `Prelude.Printing`.
use dsh_api.Prelude.{String, Bool, Option, none, some, List, [], ◌∷◌, sort_by, str_le, concat}
use dsh_api.Prelude.Chars.{chars, text, after_last, is_char}
use dsh_api.Prelude.Dict as D
use dsh_api.Prelude.Printing.{quote}
use dsh_api.Db.Rows.{SelectedPlugin}
use dsh_api.Plugins.{default_plugin_slug, jar_name_and_version, extra_requires}

-- One plugin of the document, with its keys sorted, at indent 4.
unfoldable pub plugin_json : SelectedPlugin → String
unfolding quote
plugin_json r = concat (
    "    {\n      \"filename\": "
    ∷ quote r.filename
    ∷ ",\n      \"slug\": "
    ∷ quote r.slug
    ∷ ",\n      \"tag\": "
    ∷ quote r.tag
    ∷ ",\n      \"url\": "
    ∷ quote r.url
    ∷ "\n    }"
    ∷ [])

unfoldable pub plugins_json : List SelectedPlugin → String
unfolding plugin_json
plugins_json [] = ""
plugins_json (r ∷ []) = plugin_json r
plugins_json (r ∷ q ∷ rs) = concat (plugin_json r ∷ ",\n" ∷ plugins_json (q ∷ rs) ∷ [])

-- `json.dumps({"version": 1, "plugins": …}, indent=2, sort_keys=True) + "\n"`
unfoldable pub document : List SelectedPlugin → String
unfolding plugins_json
document [] = "{\n  \"plugins\": [],\n  \"version\": 1\n}\n"
document (r ∷ rs) =
    concat ("{\n  \"plugins\": [\n" ∷ plugins_json (r ∷ rs) ∷ "\n  ],\n  \"version\": 1\n}\n" ∷ [])

abbrev pub slug_le : SelectedPlugin → SelectedPlugin → Bool
slug_le a b = str_le a.slug b.slug

unfoldable pub selection_json : List SelectedPlugin → String
unfolding document
selection_json rows = document (sort_by slug_le rows)

abbrev requires_of : Option (List String) → List String
requires_of none = []
requires_of (some rs) = rs

-- One default plugin, pinned to the jar that the list names.
unfoldable pub default_row : String → SelectedPlugin
unfolding default_plugin_slug jar_name_and_version D.get after_last chars text
default_row url = record {
  slug = default_plugin_slug url;
  tag = (jar_name_and_version url).1;
  filename = text (after_last (is_char b'/') (chars url));
  url = url;
  requires = requires_of (D.get (default_plugin_slug url) extra_requires);
  added_by = "default";
  added_at = none;
}

unfoldable pub default_selection : List String → List SelectedPlugin
unfolding default_row
default_selection [] = []
default_selection (url ∷ urls) = default_row url ∷ default_selection urls

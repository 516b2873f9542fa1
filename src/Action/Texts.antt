-- ===== src/Action/Texts.antt =====
-- The types and the texts of the exceptions (`type(exc).__name__`, `str(exc)`).
use dsh_api.Prelude.{String, List, [], ◌∷◌, concat}
use dsh_api.Prelude.Decimal.{decimal}
use dsh_api.Action.{
  Error, cluster_error, server_not_found, name_taken, tenant_at_cap, create_in_progress,
  players_online, unknown_username, plugin_selection_disabled, unknown_plugin, plugin_not_selected,
  plugin_required, server_busy, catalog_unavailable, feedback_not_found, feedback_rate_limited,
  export_disabled, export_not_found, export_conflict, export_limit, invalid_area, invalid_token,
  value_error, other,
}

abbrev pub type_name : Error → String
type_name (cluster_error _) = "ClusterError"
type_name (server_not_found _) = "ServerNotFound"
type_name (name_taken _) = "NameTaken"
type_name (tenant_at_cap _) = "TenantAtCap"
type_name (create_in_progress _) = "CreateInProgress"
type_name (players_online _) = "PlayersOnline"
type_name (unknown_username _) = "UnknownUsername"
type_name plugin_selection_disabled = "PluginSelectionDisabled"
type_name (unknown_plugin _) = "UnknownPlugin"
type_name (plugin_not_selected _) = "PluginNotSelected"
type_name (plugin_required _ _) = "PluginRequired"
type_name (server_busy _) = "ServerBusy"
type_name (catalog_unavailable _) = "CatalogUnavailable"
type_name (feedback_not_found _) = "FeedbackNotFound"
type_name (feedback_rate_limited _) = "FeedbackRateLimited"
type_name export_disabled = "ExportDisabled"
type_name (export_not_found _) = "ExportNotFound"
type_name (export_conflict _) = "ExportConflict"
type_name (export_limit _ _) = "ExportLimit"
type_name (invalid_area _) = "InvalidArea"
type_name (invalid_token _) = "InvalidToken"
type_name (value_error _) = "ValueError"
type_name (other name _) = name

abbrev join_names : List String → List String
join_names [] = []
join_names (n ∷ []) = n ∷ []
join_names (n ∷ m ∷ ns) = n ∷ ", " ∷ join_names (m ∷ ns)

unfoldable pub text_of : Error → String
unfolding decimal
text_of (cluster_error message) = message
text_of (server_not_found name) = name
text_of (name_taken name) = name
text_of (tenant_at_cap tenant) = tenant
text_of (create_in_progress name) = concat ("a server is already being created: " ∷ name ∷ [])
text_of (players_online count) = concat (decimal count ∷ " player(s) online" ∷ [])
text_of (unknown_username username) = username
text_of plugin_selection_disabled = ""
text_of (unknown_plugin slug) = concat ("no plugin '" ∷ slug ∷ "' in the catalog" ∷ [])
text_of (plugin_not_selected slug) = slug
text_of (plugin_required slug dependents) =
    concat (slug ∷ " is required by " ∷ join_names dependents)
text_of (server_busy state) = concat ("the server is " ∷ state ∷ [])
text_of (catalog_unavailable message) = message
text_of (feedback_not_found id) = decimal id
text_of (feedback_rate_limited limit) =
    concat ("more than " ∷ decimal limit ∷ " feedback messages in 1:00:00" ∷ [])
text_of export_disabled = ""
text_of (export_not_found id) = id
text_of (export_conflict message) = message
text_of (export_limit limit _) = concat ("at most " ∷ decimal limit ∷ " exports a day" ∷ [])
text_of (invalid_area message) = message
text_of (invalid_token message) = message
text_of (value_error message) = message
text_of (other _ message) = message

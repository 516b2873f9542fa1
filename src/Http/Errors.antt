-- ===== src/Http/Errors.antt =====
-- The replies to the exceptions of the services (src/dsh_api/main.py).
use dsh_api.Prelude.{ℕ, String, List, [], ◌∷◌, concat}
use dsh_api.Prelude.Decimal.{decimal}
use dsh_api.Action.{
  Error, cluster_error, server_not_found, name_taken, tenant_at_cap, create_in_progress,
  players_online, unknown_username, plugin_selection_disabled, unknown_plugin, plugin_not_selected,
  plugin_required, server_busy, catalog_unavailable, feedback_not_found, feedback_rate_limited,
  export_disabled, export_not_found, export_conflict, export_limit, invalid_area,
}
use dsh_api.Config.{Settings}

-- The status and the text `detail` of a reply.
pub record Refusal : Type 0 where
  pub status : ℕ
  pub detail : String

abbrev pub refusal : ℕ → String → Refusal
refusal status detail = record { status = status; detail = detail }

abbrev comma : List String → List String
comma [] = []
comma (n ∷ []) = n ∷ []
comma (n ∷ m ∷ ns) = n ∷ ", " ∷ comma (m ∷ ns)

-- The handlers of the application; what has none is an internal error.
unfoldable pub app_reply : Error → Refusal
unfolding decimal
app_reply (cluster_error message) =
    refusal 502 (concat ("cluster operation failed: " ∷ message ∷ []))
app_reply (create_in_progress name) =
    refusal 409 "a server is already being created for this account"
app_reply plugin_selection_disabled =
    refusal 503 "choosing plugins is not switched on for this service yet"
app_reply (catalog_unavailable message) = refusal 503 message
app_reply export_disabled = refusal 503 "world export is not enabled"
app_reply (export_not_found id) = refusal 404 "no such export"
app_reply (export_conflict message) = refusal 409 message
app_reply (export_limit limit _) =
    refusal 429 (concat ("at most " ∷ decimal limit ∷ " exports a day; try again later" ∷ []))
app_reply (invalid_area message) = refusal 422 message
app_reply (server_not_found name) = refusal 404 "no such server"
app_reply (server_busy state) =
    refusal 409 (concat ("the server is " ∷ state ∷ "; try again once it is up" ∷ []))
app_reply _ = refusal 500 "Internal Server Error"

-- `create_server`, for the name that is asked for.
unfoldable pub create_reply : Settings → String → Error → Refusal
unfolding app_reply decimal
create_reply settings name (tenant_at_cap _) = refusal 403 (
    concat
      ("tenant is at its cap of " ∷ decimal settings.max_servers_per_tenant ∷ " server(s)" ∷ []))
create_reply settings name (name_taken _) =
    refusal 409 (concat ("the name '" ∷ name ∷ "' is taken" ∷ []))
create_reply settings name (unknown_username username) =
    refusal 422 (concat ("operator username could not be resolved: " ∷ username ∷ []))
create_reply settings name e = app_reply e

-- `delete_server`
unfoldable pub delete_reply : Error → Refusal
unfolding app_reply decimal
delete_reply (create_in_progress _) =
    refusal 409 "the server is still being created; wait for it to finish"
delete_reply (players_online count) =
    refusal 409
      (concat (decimal count ∷ " player(s) online; pass ?force=true to disconnect them" ∷ []))
delete_reply e = app_reply e

-- `add_plugin`
unfoldable pub add_reply : Error → Refusal
unfolding app_reply
add_reply (unknown_plugin slug) =
    refusal 404 (concat ("no plugin '" ∷ slug ∷ "' in the catalog" ∷ []))
add_reply e = app_reply e

-- `remove_plugin`
unfoldable pub remove_reply : String → Error → Refusal
unfolding app_reply
remove_reply slug (plugin_not_selected _) =
    refusal 404 (concat ("'" ∷ slug ∷ "' is not installed on this server" ∷ []))
remove_reply slug (plugin_required _ dependents) =
    refusal 409 (concat (slug ∷ " is needed by " ∷ comma dependents))
remove_reply slug e = app_reply e

-- `apply_plugins`
unfoldable pub apply_reply : Error → Refusal
unfolding app_reply decimal
apply_reply (players_online count) =
    refusal 409 (concat (decimal count ∷ " player(s) online; confirm to restart anyway" ∷ []))
apply_reply e = app_reply e

-- `submit_feedback` and `update_feedback`
unfoldable pub feedback_reply : Error → Refusal
unfolding app_reply decimal
feedback_reply (feedback_rate_limited limit) =
    refusal 429
      (concat ("at most " ∷ decimal limit ∷ " feedback messages per hour; try again later" ∷ []))
feedback_reply (feedback_not_found _) = refusal 404 "no such feedback"
feedback_reply e = app_reply e

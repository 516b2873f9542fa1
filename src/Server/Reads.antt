-- ===== src/Server/Reads.antt =====
-- The reads of `ServerService` (src/dsh_api/service.py).
use dsh_api.Prelude.{
  ℕ, String, Bool, true, false, ◌&&◌, ◌||◌, Option, none, some, List, [], ◌∷◌, concat, ◌==◌,
  if◌then◌else◌,
}
use dsh_api.Action.{Act, server_not_found, pure, raise, ok, ◌>>=◌}
use dsh_api.Config.{Settings, sslip_hostname}
use dsh_api.Db.Rows as Rows
use dsh_api.Db.Rows.{ServerRow, RowStatus}
use dsh_api.Db.Servers.{get_server, list_servers}
use dsh_api.Cluster.Status.{
  State, StatefulSetStatus, WrapperStatus, provisioning, failed, deleting, replica_state,
  server_state, is_awake, is_waking,
}
use dsh_api.Cluster.Backend.{ClusterBackend}
use dsh_api.Server.World.{World, query, call}

pub record ServerView : Type 0 where
  pub name : String
  pub state : State
  pub hostname : String
  pub sslip_hostname : String
  pub dashboard_url : String
  pub motd : String
  pub operator_username : Option String
  pub created_at : ℕ
  pub last_woken_at : Option ℕ
  pub players_online : Option ℕ

module _ {C : Type 0} (settings : Settings) (B : ClusterBackend C) where
  -- The wrapper is asked only where the pod is up.
  abbrev pub ask_wrapper : String → StatefulSetStatus → Act (World C) (Option WrapperStatus)
  ask_wrapper name sts =
      if is_waking (replica_state sts) || is_awake (replica_state sts)
      then call (B.wrapper_status name)
      else pure none

  -- `_state`, and `state_of`, which is the same.
  unfoldable pub state_of : String → Act (World C) State
  unfolding server_state
  state_of name = do
    sts ← call (B.statefulset_status name)
    wrapper ← ask_wrapper name sts
    λ w. (ok (server_state sts wrapper w.now), w)

  -- The row is the answer until the create is done.
  abbrev pub row_state : String → RowStatus → Act (World C) State
  row_state name Rows.ready = state_of name
  row_state name Rows.provisioning = pure provisioning
  row_state name Rows.failed = pure failed
  row_state name Rows.deleting = pure deleting

  abbrev pub view_of : ServerRow → State → Option ℕ → ServerView
  view_of row state players = record {
    name = row.name;
    state = state;
    hostname = row.hostname;
    sslip_hostname = sslip_hostname settings row.name;
    dashboard_url = concat ("https://" ∷ row.hostname ∷ "/" ∷ []);
    motd = row.motd;
    operator_username = row.operator_username;
    created_at = row.created_at;
    last_woken_at = row.last_woken_at;
    players_online = players;
  }

  -- `_view`
  unfoldable pub view : ServerRow → Bool → Act (World C) ServerView
  view row with_players = do
    state ← row_state row.name row.status
    players ← if with_players && is_awake state then call (B.players_online row.name) else pure none
    pure (view_of row state players)

  abbrev pub owned_by : String → String → Option ServerRow → Act (World C) ServerRow
  owned_by tenant name none = raise (server_not_found name)
  owned_by tenant name (some row) =
      if row.tenant_id == tenant then pure row else raise (server_not_found name)

  unfoldable pub owned : String → String → Act (World C) ServerRow
  owned tenant name = do row ← query (get_server name); owned_by tenant name row

  unfoldable pub views : List ServerRow → Act (World C) (List ServerView)
  unfolding view
  views [] = pure []
  views (row ∷ rows) = do v ← view row false; vs ← views rows; pure (v ∷ vs)

  -- `list`
  unfoldable pub list : String → Act (World C) (List ServerView)
  unfolding views
  list tenant = do rows ← query (list_servers tenant); views rows

  -- `get`
  unfoldable pub get : String → String → Act (World C) ServerView
  get tenant name = do row ← owned tenant name; view row true

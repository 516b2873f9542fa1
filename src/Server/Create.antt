-- ===== src/Server/Create.antt =====
-- The create of `ServerService` (src/dsh_api/service.py): the request, and the job that it submits.
use dsh_api.Prelude.{
  String, false, Option, none, some, [], ◌∷◌, concat, leb, is_empty, if◌then◌else◌,
}
use dsh_api.Action.{
  Act, Error, cluster_error, name_taken, create_in_progress, tenant_at_cap, pure, raise, refuse_if,
  when, attempt, carry_on, ◌>>=◌, ◌>>◌,
}
use dsh_api.Action.Texts.{type_name, text_of}
use dsh_api.Config.{Settings, hostname, sslip_hostname}
use dsh_api.Db.Rows as Rows
use dsh_api.Db.Rows.{Db, ServerRow, RowStatus}
use dsh_api.Db.Servers.{
  get_server, provisioning_server, count_servers, reserve_server, set_status, mark_woken,
}
use dsh_api.Db.Plugins.{seed_plugins, set_plugin_hashes}
use dsh_api.Cluster.Status.{Credentials, ReleaseSpec}
use dsh_api.Cluster.Backend.{ClusterBackend}
use dsh_api.Selection.{default_selection, selection_json}
use dsh_api.Server.World.{World, provision, query, write, transact, call, submit, log_event}
use dsh_api.Server.Reads.{ServerView, view}

-- `str(exc)` of a ClusterError, and "<type>: <text>" of any other exception.
unfoldable pub describe : Error → String
unfolding text_of
describe (cluster_error message) = message
describe e = concat (type_name e ∷ ": " ∷ text_of e ∷ [])

module _ {C : Type 0} (settings : Settings) (B : ClusterBackend C) (sha256 : String → String) where
  abbrev pub refuse_pending : Option ServerRow → Act (World C) (Unit {0})
  refuse_pending none = pure tt
  refuse_pending (some row) = raise (create_in_progress row.name)

  abbrev pub refuse_held : String → Option ServerRow → Act (World C) (Unit {0})
  refuse_held name none = pure tt
  refuse_held name (some _) = raise (name_taken name)

  -- `_refuse_create`
  unfoldable pub refuse_create : String → String → Act (World C) (Unit {0})
  refuse_create tenant name = do
    pending ← query (provisioning_server tenant)
    refuse_pending pending
    count ← query (count_servers tenant)
    refuse_if (leb settings.max_servers_per_tenant count) (tenant_at_cap tenant)
    held ← query (get_server name)
    refuse_held name held

  -- `self.uuids.resolve(operator_username) if operator_username else None`
  abbrev pub resolve_operator : Option String → Act (World C) (Option String)
  resolve_operator none = pure none
  resolve_operator (some username) =
      if is_empty username
      then pure none
      else (do uuid ← call (B.resolve username); pure (some uuid))

  -- `motd or f"{name} on Dan's Server Hosting"`
  abbrev default_motd : String → String
  default_motd name = concat (name ∷ " on Dan's Server Hosting" ∷ [])

  abbrev pub motd_or : Option String → String → String
  motd_or none name = default_motd name
  motd_or (some motd) name = if is_empty motd then default_motd name else motd

  abbrev pub release_spec : String → Option String → Option String → Option String → ReleaseSpec
  release_spec name motd operator uuid = record {
    name = name;
    hostname = hostname settings name;
    sslip_hostname = sslip_hostname settings name;
    motd = motd_or motd name;
    operator_name = operator;
    operator_uuid = uuid;
    default_plugins = if settings.plugin_selection then [] else settings.default_plugins;
  }

  -- After the reservation: the job is submitted, or the reason why there is none is raised.
  abbrev pub after_reserve :
      (tenant : String) (spec : ReleaseSpec) (creds : Credentials) (then_on : Db → Db)
      → Option ServerRow
      → Act (World C) (ServerView × String)
  after_reserve tenant spec creds then_on none = do
    write (λ _. then_on)
    refuse_create tenant spec.name
    raise (name_taken spec.name)
  after_reserve tenant spec creds then_on (some row) = do
    log_event tenant spec.name "create.requested" ""
    submit (provision tenant spec creds)
    v ← view settings B row false
    pure (v, creds.admin_password)

  -- What `create` asks before it reserves: the operator's UUID and the new credentials.
  unfoldable pub create_checks :
      (tenant name : String) (operator : Option String)
      → Act (World C) (Option String × Credentials)
  create_checks tenant name operator = do
    refuse_create tenant name
    taken ← call (B.namespace_exists name)
    refuse_if taken (name_taken name)
    uuid ← resolve_operator operator
    creds ← call B.generate
    pure (uuid, creds)

  unfoldable pub create_reserved :
      (tenant name : String) (motd operator : Option String) (meanwhile then_on : Db → Db)
      → Option String × Credentials
      → Act (World C) (ServerView × String)
  create_reserved tenant name motd operator meanwhile then_on (uuid, creds) = do
    write (λ _. meanwhile)
    row ← transact (
        reserve_server name tenant (hostname settings name) (motd_or motd name) operator
          settings.max_servers_per_tenant)
    after_reserve tenant (release_spec name motd operator uuid) creds then_on row

  -- `meanwhile` is what other requests and jobs do to the database while kubectl and Mojang are
  -- asked, and `then_on` what they do before a lost reservation is explained.
  unfoldable pub create :
      (tenant name : String) (motd operator : Option String) (meanwhile then_on : Db → Db)
      → Act (World C) (ServerView × String)
  create tenant name motd operator meanwhile then_on w =
      let (r, w') = create_checks tenant name operator w in
      carry_on r (create_reserved tenant name motd operator meanwhile then_on) w'

  -- `_seed_plugin_selection`
  unfoldable pub seed_plugin_selection : String → Act (World C) (Unit {0})
  seed_plugin_selection name = do
    let rows = default_selection settings.default_plugins
    let text = selection_json rows
    call (B.write_plugin_selection name text)
    _ ← transact (seed_plugins name rows)
    write (λ _. set_plugin_hashes name (some (sha256 text)) none)

  -- `_provision_failed`
  unfoldable pub provision_failed : String → String → String → Act (World C) (Unit {0})
  provision_failed tenant name detail = do
    write (λ _. set_status name Rows.failed)
    log_event tenant name "create.failed" detail

  -- The body of the `try` of `_provision`.
  unfoldable pub provision_steps : ReleaseSpec → Credentials → Act (World C) (Unit {0})
  unfolding seed_plugin_selection
  provision_steps spec creds = do
    call (B.create_tenant_namespace spec.name)
    call (B.grant_tenant_access spec.name)
    call (B.create_credentials spec.name creds)
    when settings.plugin_selection (seed_plugin_selection spec.name)
    call (B.install_release spec creds)
    call (B.scale_wrapper spec.name 1)
    call (B.wait_for_rollout spec.name)

  unfoldable pub provision_done : String → String → Act (World C) (Unit {0})
  provision_done tenant name = do
    write (mark_woken name)
    write (λ _. set_status name Rows.ready)
    log_event tenant name "create.done" ""

  -- `_provision`: both `except` branches return.
  unfoldable pub run_provision : String → ReleaseSpec → Credentials → Act (World C) (Unit {0})
  unfolding provision_failed provision_done describe
  run_provision tenant spec creds =
      attempt (provision_steps spec creds) (λ _. provision_done tenant spec.name)
        (λ e. provision_failed tenant spec.name (describe e))

-- ===== src/Cluster/Fake.antt =====
-- The operations of `FakeClusterBackend` (src/dsh_api/cluster.py): the cluster in memory.
use dsh_api.Prelude.{
  ℕ, String, Bool, true, false, ◌&&◌, not, Option, none, some, [], ◌∷◌, ◌++◌, concat, leb, ltb,
  if◌then◌else◌,
}
use dsh_api.Prelude.Dict.{has, add, discard, get, put, pop}
use dsh_api.Action.{Act, cluster_error, pure, reads, refuse_if, ok, ◌>>=◌, ◌>>◌}
use dsh_api.Cluster.Status.{
  Credentials, ReleaseSpec, StatefulSetStatus, WrapperStatus, absent, namespace_for,
}
use dsh_api.Cluster.Backend.{Applied, ClusterBackend}
use dsh_api.Cluster.Exports.{require_binding, run_world_export, delete_world_export_pods}
use dsh_api.Cluster.Memory.{Fake, flag, update, op, status_of, not_found}

unfoldable pub create_tenant_namespace : String → Act Fake (Unit {0})
unfolding namespace_for
create_tenant_namespace name = do
  op "create_tenant_namespace" name []
  update (λ s. record s { namespaces = add (namespace_for name) s.namespaces })

unfoldable pub grant_tenant_access : String → Act Fake (Unit {0})
unfolding namespace_for
grant_tenant_access name = do
  op "grant_tenant_access" name []
  spaces ← reads (λ s. s.namespaces)
  refuse_if (not (has (namespace_for name) spaces))
      (cluster_error (concat ("namespaces '" ∷ namespace_for name ∷ "' not found" ∷ [])))
  update (λ s. record s { bound = add (namespace_for name) s.bound })

unfoldable pub create_credentials : String → Credentials → Act Fake (Unit {0})
unfolding require_binding
create_credentials name creds = do
  op "create_credentials" name []
  require_binding name
  update (λ s. record s { credentials = put name creds s.credentials })

abbrev keep_awake : StatefulSetStatus → Bool
keep_awake current = current.present && leb 1 current.replicas

abbrev installed : StatefulSetStatus → StatefulSetStatus
installed current = record absent { present = true; replicas = if keep_awake current then 1 else 0 }

unfoldable pub install_release : ReleaseSpec → Credentials → Act Fake (Unit {0})
unfolding require_binding get put
install_release spec creds = do
  current ← reads (status_of spec.name)
  op "install_release" spec.name (flag (keep_awake current) ∷ [])
  require_binding spec.name
  update (λ s. record s {
    releases = put spec.name spec s.releases;
    wrappers = put spec.name (installed current) s.wrappers;
  })

unfoldable pub scale_wrapper : String → ℕ → Act Fake (Unit {0})
unfolding get put pop
scale_wrapper name replicas = do
  op "scale_wrapper" name (replicas ∷ [])
  current ← reads (status_of name)
  refuse_if (not current.present) (not_found "statefulset " name)
  update (λ s. record s {
    wrappers =
        put name
          (record current {
            replicas = replicas;
            ready_replicas = 0;
            scaled_at = if leb 1 replicas then some s.clock else none;
          })
          s.wrappers;
    wrapper_statuses = pop name s.wrapper_statuses;
  })

abbrev just_running : WrapperStatus
just_running = record { running = true; pid = some 1; uptime_seconds = some 0; started_at = none }

unfoldable pub wait_for_rollout : String → Act Fake (Unit {0})
unfolding get put
wait_for_rollout name = do
  op "wait_for_rollout" name []
  current ← reads (status_of name)
  refuse_if (ltb current.replicas 1) (
      cluster_error
        (concat ("rollout of " ∷ name ∷ "-omcsi-minecraft-wrapper timed out (simulated)" ∷ [])))
  update (λ s. record s {
    wrappers = put name (record current { ready_replicas = 1 }) s.wrappers;
    wrapper_statuses = put name just_running s.wrapper_statuses;
  })

unfoldable pub start_wrapper : String → Act Fake (Unit {0})
unfolding get put
start_wrapper name = do
  op "start_wrapper" name []
  current ← reads (status_of name)
  refuse_if (ltb current.ready_replicas 1)
      (cluster_error "the wrapper could not be reached to start the server")
  update (λ s. record s { wrapper_statuses = put name just_running s.wrapper_statuses })

abbrev backup_path : String → Fake → String
backup_path name s = concat (s.backup_dir ∷ "/" ∷ name ∷ "-" ∷ s.stamp ∷ ".tar.gz" ∷ [])

unfoldable pub backup_world : String → Bool → Act Fake String
unfolding namespace_for get
backup_world name awake = do
  op "backup_world" name (flag awake ∷ [])
  spaces ← reads (λ s. s.namespaces)
  refuse_if (not (has (namespace_for name) spaces)) (cluster_error "no such namespace")
  release ← reads (λ s. get name s.releases)
  refuse_if (elim release [ none ↦ true | some _ ↦ false ])
      (cluster_error (concat ("persistentvolumeclaims " ∷ name ∷ "-omcsi-mcserver not found" ∷ [])))
  path ← reads (backup_path name)
  update (λ s. record s { files = add path s.files })
  pure path

unfoldable pub write_plugin_selection : String → String → Act Fake (Unit {0})
unfolding require_binding put
write_plugin_selection name text = do
  op "write_plugin_selection" name []
  require_binding name
  update (λ s. record s { selections = put name text s.selections })

unfoldable pub plugins_applied : String → Act Fake (Option Applied)
unfolding get
plugins_applied name s =
    (ok (if ltb (status_of name s).ready_replicas 1 then none else get name s.applied), s)

unfoldable pub send_command : String → String → Act Fake Bool
unfolding get
send_command name command s = (
  ok (elim (get name s.wrapper_statuses) [ none ↦ false | some w ↦ w.running ]),
  record s { commands = s.commands ++ (name, command) ∷ [] },
)

unfoldable pub restart_wrapper_pod : String → Act Fake (Unit {0})
unfolding get put pop
restart_wrapper_pod name = do
  op "restart_wrapper_pod" name []
  current ← reads (status_of name)
  refuse_if (ltb current.replicas 1)
      (cluster_error (concat ("pods " ∷ name ∷ "-omcsi-minecraft-wrapper-0 not found" ∷ [])))
  update (λ s. record s {
    wrappers =
        put name (record current { ready_replicas = 0; scaled_at = some s.clock }) s.wrappers;
    wrapper_statuses = pop name s.wrapper_statuses;
  })

unfoldable pub uninstall_release : String → Act Fake (Unit {0})
unfolding pop
uninstall_release name = do
  op "uninstall_release" name []
  update (λ s. record s {
    releases = pop name s.releases;
    wrappers = pop name s.wrappers;
    wrapper_statuses = pop name s.wrapper_statuses;
  })

-- The binding goes with its namespace.
unfoldable pub delete_namespace : String → Act Fake (Unit {0})
unfolding namespace_for pop
delete_namespace name = do
  op "delete_namespace" name []
  update (λ s. record s {
    namespaces = discard (namespace_for name) s.namespaces;
    bound = discard (namespace_for name) s.bound;
    credentials = pop name s.credentials;
  })

abbrev sample_creds : Credentials
sample_creds = record {
  rcon_password = "r";
  admin_password = "a";
  deploy_auth_token = "d";
  deployment_auth_token = "e";
}

abbrev pub fake_backend : ClusterBackend Fake
fake_backend = record {
  namespace_exists = λ name s. (ok (has (namespace_for name) s.namespaces), s);
  create_tenant_namespace = create_tenant_namespace;
  grant_tenant_access = grant_tenant_access;
  create_credentials = create_credentials;
  install_release = install_release;
  scale_wrapper = scale_wrapper;
  wait_for_rollout = wait_for_rollout;
  statefulset_status = λ name s. (ok (status_of name s), s);
  wrapper_status = λ name s. (ok (get name s.wrapper_statuses), s);
  start_wrapper = start_wrapper;
  players_online = λ name s. (ok (get name s.players), s);
  backup_world = backup_world;
  write_plugin_selection = write_plugin_selection;
  plugins_applied = plugins_applied;
  send_command = send_command;
  restart_wrapper_pod = restart_wrapper_pod;
  run_world_export = run_world_export;
  delete_world_export_pods = delete_world_export_pods;
  uninstall_release = uninstall_release;
  delete_namespace = delete_namespace;
  path_exists = λ path s. has path s.files;
  resolve = λ username s. (ok username, s);
  generate = λ s. (ok sample_creds, s);
}

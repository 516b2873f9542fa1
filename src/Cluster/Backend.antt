-- ===== src/Cluster/Backend.antt =====
-- The interface `ClusterBackend` (src/dsh_api/cluster.py), over the state `C` of all that lies
-- outside the process: the cluster, the disk with the backups, and Mojang.
use dsh_api.Prelude.{ℕ, String, Bool, Option, List}
use dsh_api.Prelude.Dict.{Dict}
use dsh_api.Action.{Act, Result}
use dsh_api.Cluster.Status.{Credentials, ReleaseSpec, StatefulSetStatus, WrapperStatus}

-- What the wrapper reports at /api/plugins/applied.
pub record Applied : Type 0 where
  pub selection_sha256 : String
  pub plugins : Dict String

-- The keyword arguments of `run_world_export` beside `dest` and `on_phase`.
pub record ExportCall : Type 0 where
  pub image : String
  pub args : List String
  pub timeout : ℕ

-- What a call of `run_world_export` does on this side: the phases that it hands to `on_phase`, in
-- their order, and the files that it unpacks, by their paths below `dest`, or what it raises.
pub record ExportRun : Type 0 where
  pub phases : List String
  pub unpacked : Result (Dict String)

pub record ClusterBackend (C : Type 0) : Type 0 where
  pub namespace_exists : String → Act C Bool
  pub create_tenant_namespace : String → Act C (Unit {0})
  pub grant_tenant_access : String → Act C (Unit {0})
  pub create_credentials : String → Credentials → Act C (Unit {0})
  pub install_release : ReleaseSpec → Credentials → Act C (Unit {0})
  pub scale_wrapper : String → ℕ → Act C (Unit {0})
  pub wait_for_rollout : String → Act C (Unit {0})
  pub statefulset_status : String → Act C StatefulSetStatus
  pub wrapper_status : String → Act C (Option WrapperStatus)
  pub start_wrapper : String → Act C (Unit {0})
  pub players_online : String → Act C (Option ℕ)
  pub backup_world : String → Bool → Act C String
  pub write_plugin_selection : String → String → Act C (Unit {0})
  pub plugins_applied : String → Act C (Option Applied)
  pub send_command : String → String → Act C Bool
  pub restart_wrapper_pod : String → Act C (Unit {0})
  pub run_world_export : (name export_id : String) → ExportCall → C → ExportRun × C
  pub delete_world_export_pods : String → Act C (Unit {0})
  pub uninstall_release : String → Act C (Unit {0})
  pub delete_namespace : String → Act C (Unit {0})
  -- `Path(p).exists()`, of the backups on the disk.
  pub path_exists : String → C → Bool
  -- `UuidResolver.resolve`
  pub resolve : String → Act C String
  -- `Credentials.generate`
  pub generate : Act C Credentials

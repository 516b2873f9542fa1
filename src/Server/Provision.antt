-- ===== src/Server/Provision.antt =====
-- What the create's job leaves in the rows (src/dsh_api/service.py).
use dsh_api.Prelude.{ℕ, String, ◌≡◌, Bool, true, false, List, arith}
use dsh_api.Action.{Result, ok, err}
use dsh_api.Config.{Settings}
use dsh_api.Db.Rows as Rows
use dsh_api.Db.Rows.{Db, ServerRow, RowStatus, is_row, is_provisioning}
use dsh_api.Db.Servers.{set_status, mark_woken}
use dsh_api.Db.Events.{record_event}
use dsh_api.Db.Plugins.{seed_plugins, set_plugin_hashes}
use dsh_api.Cluster.Status.{ReleaseSpec, Credentials}
use dsh_api.Cluster.Backend.{ClusterBackend}
use dsh_api.Server.World.{World}
use dsh_api.Server.Create.{
  seed_plugin_selection, provision_steps, provision_done, provision_failed, run_provision,
}

abbrev pub is_ok : {A : Type 0} → Result A → Bool
is_ok (ok _) = true
is_ok (err _) = false

module _ {C : Type 0} (settings : Settings) (B : ClusterBackend C) (sha256 : String → String) where
  servers-seed_plugin_selection :
      (name : String) (w : World C)
      → (seed_plugin_selection settings B sha256 name w).1.db.servers ≡ w.db.servers
  unfolding seed_plugin_selection set_plugin_hashes seed_plugins
  servers-seed_plugin_selection name w = ground arith

  servers-provision_steps :
      (spec : ReleaseSpec) (creds : Credentials) (w : World C)
      → (provision_steps settings B sha256 spec creds w).1.db.servers ≡ w.db.servers
  unfolding provision_steps
  servers-provision_steps spec creds w =
      let made = (B.create_tenant_namespace spec.name w.outside).1 in
      let bound = (B.grant_tenant_access spec.name made).1 in
      let ready = (B.create_credentials spec.name creds bound).1 in
      ground (arith, servers-seed_plugin_selection spec.name (record w { outside = ready }))

  -- The rows after the job, by whether every cluster step succeeded.
  abbrev pub rows_after : (name : String) (succeeded : Bool) (now : ℕ) → Db → List ServerRow
  rows_after name true now db = (set_status name Rows.ready (mark_woken name now db)).servers
  rows_after name false now db = (set_status name Rows.failed db).servers

  -- The job of a create never raises; it leaves the server's row at `ready` and woken now if
  -- every cluster step succeeded and at `failed` if one raised anything, and every other row as
  -- it was.
  pub run_provision_settles :
      (tenant : String) (spec : ReleaseSpec) (creds : Credentials) (w : World C)
      → ((run_provision settings B sha256 tenant spec creds w).0 ≡ ok tt)
        × ((run_provision settings B sha256 tenant spec creds w).1.db.servers
            ≡ rows_after spec.name
                (is_ok (provision_steps settings B sha256 spec creds w).0)
                (provision_steps settings B sha256 spec creds w).1.now
                w.db)
  unfolding run_provision provision_done provision_failed record_event set_status mark_woken
  run_provision_settles tenant spec creds w =
      (ground arith, ground (arith, servers-provision_steps spec creds w))

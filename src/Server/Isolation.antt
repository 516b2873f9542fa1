-- ===== src/Server/Isolation.antt =====
-- A tenant reaches its own servers only (src/dsh_api/service.py).
use dsh_api.Prelude.{String, ◌≡◌, ◌≢◌, Bool, Option, none, some, arith, eq_iff, refl}
use dsh_api.Action.{err, server_not_found}
use dsh_api.Config.{Settings}
use dsh_api.Db.Rows.{Db, ServerRow}
use dsh_api.Db.Servers.{get_server}
use dsh_api.Cluster.Backend.{ClusterBackend}
use dsh_api.Server.World.{World}
use dsh_api.Server.Reads.{owned, owned_by, get}
use dsh_api.Server.Wake.{wake}
use dsh_api.Server.Delete.{delete}

-- The name is no server of the tenant's.
abbrev pub IsForeign : String → String → Db → Type 0
IsForeign tenant name db =
    (row : ServerRow) → get_server name db ≡ some row → row.tenant_id ≢ tenant

module _ {C : Type 0} (settings : Settings) (B : ClusterBackend C) where
  owned_foreign :
      (tenant name : String) (w : World C)
      → IsForeign tenant name w.db
      → owned settings B tenant name w ≡ (err (server_not_found name), w)
  unfolding owned
  owned_foreign tenant name w foreign = by_row (get_server name w.db) (λ row e. foreign row e)
    where
      by_row :
          (row : Option ServerRow)
          → ((r : ServerRow) → row ≡ some r → r.tenant_id ≢ tenant)
          → owned_by settings B tenant name row w ≡ (err (server_not_found name), w)
      by_row none f = refl
      by_row (some r) f = ground (arith, eq_iff r.tenant_id tenant, f r refl)

  -- A get, a wake or a delete of a server that is not the tenant's raises ServerNotFound, with or
  -- without `force`, and changes neither the database, nor the queue, nor the cluster.
  pub foreign_requests :
      (tenant name : String) (force : Bool) (meanwhile : Db → Db) (w : World C)
      → IsForeign tenant name w.db
      → (get settings B tenant name w ≡ (err (server_not_found name), w))
        × (wake settings B tenant name w ≡ (err (server_not_found name), w))
        × (delete settings B tenant name force meanwhile w ≡ (err (server_not_found name), w))
  unfolding get wake delete
  foreign_requests tenant name force meanwhile w foreign =
      let refused = owned_foreign tenant name w foreign in
      (ground (arith, refused), ground (arith, refused), ground (arith, refused))

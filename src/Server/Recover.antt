-- ===== src/Server/Recover.antt =====
-- `recover_interrupted` of `ServerService` (src/dsh_api/service.py).
use dsh_api.Prelude.{List, [], ◌∷◌, reverse}
use dsh_api.Action.{Act, pure, ◌>>=◌, ◌>>◌}
use dsh_api.Db.Rows as Rows
use dsh_api.Db.Rows.{ServerRow}
use dsh_api.Db.Servers.{list_with_status, set_status}
use dsh_api.Db.Events.{events}
use dsh_api.Server.World.{World, query, write, log_event}
use dsh_api.Server.Delete.{status_before_delete}

module _ {C : Type 0} where
  unfoldable pub fail_creates : List ServerRow → Act (World C) (Unit {0})
  fail_creates [] = pure tt
  fail_creates (row ∷ rows) = do
    write (λ _. set_status row.name Rows.failed)
    log_event row.tenant_id row.name "create.interrupted" "the API restarted"
    fail_creates rows

  unfoldable pub restore_deletes : List ServerRow → Act (World C) (Unit {0})
  restore_deletes [] = pure tt
  restore_deletes (row ∷ rows) = do
    log ← query (events row.name)
    write (λ _. set_status row.name (status_before_delete (reverse log)))
    log_event row.tenant_id row.name "delete.interrupted" "the API restarted"
    restore_deletes rows

  unfoldable pub recover_interrupted : Act (World C) (Unit {0})
  unfolding fail_creates restore_deletes
  recover_interrupted = do
    creating ← query (list_with_status Rows.provisioning)
    fail_creates creating
    deleting ← query (list_with_status Rows.deleting)
    restore_deletes deleting

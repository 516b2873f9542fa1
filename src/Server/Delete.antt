-- ===== src/Server/Delete.antt =====
-- The delete of `ServerService` (src/dsh_api/service.py): the request, and the job that it submits.
use dsh_api.Prelude.{
  ℕ, String, Bool, true, false, ◌&&◌, ◌||◌, not, Option, none, some, List, [], ◌∷◌, reverse, ltb,
  codes, lower, is_infix, ◌==◌, if◌then◌else◌,
}
use dsh_api.Action.{
  Act, Result, Error, cluster_error, create_in_progress, players_online, pure, raise, refuse_if,
  when, attempt, ok, err, ◌>>=◌, ◌>>◌,
}
use dsh_api.Config.{Settings}
use dsh_api.Db.Rows as Rows
use dsh_api.Db.Rows.{Db, Event, ServerRow, RowStatus, is_failed, status_text}
use dsh_api.Db.Servers.{get_server, set_status, begin_delete, delete_server}
use dsh_api.Db.Events.{events}
use dsh_api.Cluster.Status.{replica_state, is_awake}
use dsh_api.Cluster.Backend.{ClusterBackend}
use dsh_api.Server.World.{World, remove, query, write, transact, call, submit, log_event}
use dsh_api.Server.Reads.{ServerView, view, owned}
use dsh_api.Server.Create.{describe}
use dsh_api.Server.Wake.{row_or}

-- `_world_backup_source_is_gone`: the ClusterError's text says that the claim is not there.
unfoldable pub source_is_gone : String → Bool
unfolding codes lower is_infix
source_is_gone message =
    let text = lower (codes message) in
    is_infix (codes "not found") text
    && (is_infix (codes "persistentvolumeclaims") text
        || is_infix (codes "persistentvolumeclaim/") text)

-- `event["kind"] in {"backup", "backup.reused"}`
abbrev pub is_backup : String → Bool
is_backup kind = kind == "backup" || kind == "backup.reused"

-- `_backup_still_on_disk`: the scan of a server's events, newest first.
unfoldable pub newest_backup : (String → Bool) → List Event → Option String
newest_backup on_disk [] = none
newest_backup on_disk (e ∷ es) =
    let rest = newest_backup on_disk es in
    if e.kind == "delete"
    then none
    else if is_backup e.kind && on_disk e.detail
    then some e.detail
    else rest

-- `_status_before_delete`: the scan of a server's events, newest first.
unfoldable pub status_before_delete : List Event → RowStatus
status_before_delete [] = Rows.ready
status_before_delete (e ∷ es) =
    let rest = status_before_delete es in
    if e.kind == "delete.requested"
    then (if e.detail == "failed" then Rows.failed else Rows.ready)
    else rest

module _ {C : Type 0} (settings : Settings) (B : ClusterBackend C) where
  -- `self.cluster.players_online(name) or 0`
  abbrev pub count_or_zero : Option ℕ → ℕ
  count_or_zero none = 0
  count_or_zero (some n) = n

  abbrev pub refuse_online : String → Act (World C) (Unit {0})
  refuse_online name = do
    online ← call (B.players_online name)
    refuse_if (ltb 0 (count_or_zero online)) (players_online (count_or_zero online))

  abbrev pub request_remove :
      (tenant name : String) (prior : RowStatus) (awake force began : Bool)
      → Act (World C) (Unit {0})
  request_remove tenant name prior awake force began = when began (do
    log_event tenant name "delete.requested" (status_text prior)
    submit (remove tenant name prior awake force))

  -- The rest of `delete`, once the players are not in the way.
  unfoldable pub request :
      (tenant name : String) (force awake : Bool) (meanwhile : Db → Db) (row : ServerRow)
      → Act (World C) ServerView
  request tenant name force awake meanwhile row = do
    write (λ _. meanwhile)
    began ← transact (λ _. begin_delete name row.status)
    request_remove tenant name row.status awake force began
    current ← query (get_server name)
    view settings B (row_or settings B row current) false

  -- From the status of the StatefulSet on.
  unfoldable pub begin_remove :
      (tenant name : String) (force : Bool) (meanwhile : Db → Db) (row : ServerRow)
      → Act (World C) ServerView
  begin_remove tenant name force meanwhile row = do
    sts ← call (B.statefulset_status name)
    let awake = is_awake (replica_state sts)
    when (awake && not force) (refuse_online name)
    request tenant name force awake meanwhile row

  abbrev pub delete_as :
      (tenant name : String) (force : Bool) (meanwhile : Db → Db) (row : ServerRow)
      (status : RowStatus)
      → Act (World C) ServerView
  delete_as tenant name force meanwhile row Rows.provisioning = raise (create_in_progress name)
  delete_as tenant name force meanwhile row Rows.deleting = view settings B row false
  delete_as tenant name force meanwhile row Rows.ready =
      begin_remove tenant name force meanwhile row
  delete_as tenant name force meanwhile row Rows.failed =
      begin_remove tenant name force meanwhile row

  -- `meanwhile` is what other requests and jobs do to the database while the cluster is asked.
  unfoldable pub delete :
      (tenant name : String) (force : Bool) (meanwhile : Db → Db) → Act (World C) ServerView
  delete tenant name force meanwhile = do
    row ← owned settings B tenant name
    delete_as tenant name force meanwhile row row.status

  -- `_delete_failed`
  unfoldable pub delete_failed :
      (tenant name : String) (prior : RowStatus) (kind detail : String) → Act (World C) (Unit {0})
  delete_failed tenant name prior kind detail = do
    write (λ _. set_status name prior)
    log_event tenant name kind detail

  -- The `except ClusterError` of `_back_up_for_delete`.
  abbrev pub without_backup :
      (tenant name : String) (prior : RowStatus) (force : Bool) (message : String)
      → Option String
      → Act (World C) (Option String)
  without_backup tenant name prior force message earlier =
      if source_is_gone message && elim earlier [ none ↦ false | some _ ↦ true ]
      then (do
        log_event tenant name "backup.reused" (elim earlier [ none ↦ "" | some path ↦ path ])
        pure earlier)
      else if not force && not (is_failed prior)
      then raise (cluster_error message)
      else (do log_event tenant name "backup.skipped" message; pure none)

  -- The `except` looks at the events and the disk; it catches a ClusterError only.
  abbrev pub backup_failed :
      (tenant name : String) (prior : RowStatus) (force : Bool)
      → Error
      → Act (World C) (Option String)
  backup_failed tenant name prior force (cluster_error message) w =
      without_backup tenant name prior force message
        (newest_backup (λ p. B.path_exists p w.outside) (reverse (events name w.db))) w
  backup_failed tenant name prior force unexpected w = (err unexpected, w)

  abbrev pub backup_taken : (tenant name path : String) → Act (World C) (Option String)
  backup_taken tenant name path = do log_event tenant name "backup" path; pure (some path)

  -- `_back_up_for_delete`
  unfoldable pub back_up_for_delete :
      (tenant name : String) (prior : RowStatus) (awake force : Bool)
      → Act (World C) (Option String)
  back_up_for_delete tenant name prior awake force =
      attempt (call (B.backup_world name awake)) (backup_taken tenant name)
        (backup_failed tenant name prior force)

  -- The cluster steps after the backup.
  unfoldable pub remove_release : String → Act (World C) (Unit {0})
  remove_release name = do call (B.uninstall_release name); call (B.delete_namespace name)

  -- What follows the `try` of `_remove`. The hooks run on the world exports and never fail it.
  abbrev pub removed : (tenant name : String) → Act (World C) (Unit {0})
  removed tenant name = do write (λ _. delete_server name); log_event tenant name "delete" ""

  abbrev pub release_removed :
      (tenant name : String) (prior : RowStatus) → Result (Unit {0}) → Act (World C) (Unit {0})
  release_removed tenant name prior (ok _) = removed tenant name
  release_removed tenant name prior (err e) =
      delete_failed tenant name prior "delete.failed" (describe e)

  unfoldable pub after_backup :
      (tenant name : String) (prior : RowStatus) → Act (World C) (Unit {0})
  after_backup tenant name prior w =
      let (r, w') = remove_release name w in release_removed tenant name prior r w'

  -- A ClusterError of the backup is `backup.failed`, any other exception `delete.failed`.
  abbrev pub failure_kind : Error → String
  failure_kind (cluster_error _) = "backup.failed"
  failure_kind _ = "delete.failed"

  -- `_remove`
  unfoldable pub run_remove :
      (tenant name : String) (prior : RowStatus) (awake force : Bool) → Act (World C) (Unit {0})
  run_remove tenant name prior awake force =
      attempt (back_up_for_delete tenant name prior awake force)
        (λ _. after_backup tenant name prior)
        (λ e. delete_failed tenant name prior (failure_kind e) (describe e))

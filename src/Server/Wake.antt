-- ===== src/Server/Wake.antt =====
-- The wake of `ServerService` (src/dsh_api/service.py).
use dsh_api.Prelude.{String, false, Option, none, some, ltb, if◌then◌else◌}
use dsh_api.Action.{Act, when, ◌>>=◌, ◌>>◌}
use dsh_api.Config.{Settings}
use dsh_api.Db.Rows.{ServerRow, is_ready}
use dsh_api.Db.Servers.{get_server, mark_woken}
use dsh_api.Cluster.Status.{StatefulSetStatus, replica_state, server_state, is_failed, is_stopped}
use dsh_api.Cluster.Backend.{ClusterBackend}
use dsh_api.Server.World.{World, query, write, call, log_event}
use dsh_api.Server.Reads.{ServerView, view, owned}

module _ {C : Type 0} (settings : Settings) (B : ClusterBackend C) where
  -- `self.db.get_server(name) or row`
  abbrev pub row_or : ServerRow → Option ServerRow → ServerRow
  row_or row none = row
  row_or row (some now) = now

  abbrev pub scale_up : String → String → Act (World C) (Unit {0})
  scale_up tenant name = do
    call (B.scale_wrapper name 1)
    write (mark_woken name)
    log_event tenant name "wake" ""

  abbrev pub start_game : String → String → Act (World C) (Unit {0})
  start_game tenant name = do
    call (B.start_wrapper name)
    write (mark_woken name)
    log_event tenant name "wake.start" ""

  -- What the `if`s after the failure test do.
  unfoldable pub wake_pod : String → String → StatefulSetStatus → Act (World C) (Unit {0})
  wake_pod tenant name sts = if ltb sts.replicas 1 then scale_up tenant name else (do
    wrapper ← call (B.wrapper_status name)
    λ w. when (is_stopped (server_state sts wrapper w.now)) (start_game tenant name) w)

  abbrev pub wake_ready : String → String → ServerRow → Act (World C) ServerView
  wake_ready tenant name row = do
    sts ← call (B.statefulset_status name)
    if is_failed (replica_state sts) then view settings B row false else (do
      wake_pod tenant name sts
      current ← query (get_server name)
      view settings B (row_or row current) false)

  unfoldable pub wake : String → String → Act (World C) ServerView
  wake tenant name = do
    row ← owned settings B tenant name
    if is_ready row.status then wake_ready tenant name row else view settings B row false

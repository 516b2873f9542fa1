-- ===== src/Server/Safety.antt =====
-- The delete job of src/dsh_api/service.py: a world is not removed before it is backed up.
use dsh_api.Prelude.{
  map, update_where, if◌then◌else◌, String, ◌≡◌, refl, ◌⊎◌, inl, inr, Bool, true, false, Option,
  none, some, List, [], ◌∷◌, ◌++◌, any, arith, reverse, keep, ap, any-reverse, any-keep-and, sym,
  ◌∙◌, ◌&&◌, ◌==◌, Bool-cases,
}
use mathlib.Core.List.{reverse-cons}
use dsh_api.Action.{Result, Error, cluster_error, ok, err}
use dsh_api.Config.{Settings}
use dsh_api.Db.Rows as Rows
use dsh_api.Db.Rows.{Db, ServerRow, is_row, Event, RowStatus, opt_is, now_iso, is_failed}
use dsh_api.Db.Servers.{set_status, delete_server}
use dsh_api.Db.Events.{events, record_event}
use dsh_api.Db.Log.{is_event, any-record_event, record_event-is_event}
use dsh_api.Cluster.Backend.{ClusterBackend}
use dsh_api.Server.World.{World}
use dsh_api.Server.Create.{describe}
use dsh_api.Server.Delete.{
  source_is_gone, is_backup, newest_backup, back_up_for_delete, release_removed, after_backup,
  remove_release, delete_failed, run_remove,
}

-- A backup that the scan of the events finds is on the disk.
newest_backup-on_disk :
    (on_disk : String → Bool) (es : List Event) (path : String)
    → newest_backup on_disk es ≡ some path
    → on_disk path ≡ true
unfolding newest_backup
newest_backup-on_disk on_disk [] path h = cc
newest_backup-on_disk on_disk (e ∷ es) path h =
    ground (arith, newest_backup-on_disk on_disk es path)

-- The last backup of this server in the log, behind whose event no delete of this server stands.
pub record IsLatest (name : String) (log : List Event) (path : String) : Type 0 where
  pub older : List Event
  pub backup : Event
  pub newer : List Event
  pub in_log : log ≡ older ++ backup ∷ newer
  pub of_server : opt_is name backup.server_name ≡ true
  pub kind : is_backup backup.kind ≡ true
  pub at_path : backup.detail ≡ path
  pub none_deleted : any (λ e. opt_is name e.server_name && e.kind == "delete") newer ≡ false

abbrev is_delete : Event → Bool
is_delete e = e.kind == "delete"

-- What the scan finds is in the newer part, or behind it with no delete in between.
scan-append :
    (on_disk : String → Bool) (es fs : List Event) (path : String)
    → newest_backup on_disk (es ++ fs) ≡ some path
    → (newest_backup on_disk es ≡ some path)
      ⊎ ((any is_delete es ≡ false) × (newest_backup on_disk fs ≡ some path))
unfolding newest_backup
scan-append on_disk [] fs path h = inr (refl, h)
scan-append on_disk (e ∷ es) fs path h = ground (arith, scan-append on_disk es fs path)

scan-one :
    (on_disk : String → Bool) (e : Event) (path : String)
    → newest_backup on_disk (e ∷ []) ≡ some path
    → (is_backup e.kind ≡ true) × (e.detail ≡ path)
unfolding newest_backup
scan-one on_disk e path h = (ground (arith, h), ground (arith, h))

-- What the scan of a server's events finds is the last backup of this server.
newest_backup-IsLatest :
    (on_disk : String → Bool) (name : String) (log : List Event) (path : String)
    → newest_backup on_disk (reverse (keep (λ e. opt_is name e.server_name) log)) ≡ some path
    → IsLatest name log path
unfolding newest_backup
newest_backup-IsLatest on_disk name [] path h = absurd (ground (arith, h))
newest_backup-IsLatest on_disk name (e ∷ log) path h =
    elim (Bool-cases (opt_is name e.server_name)) [
      | inr other ↦ behind e (newest_backup-IsLatest on_disk name log path (rw other at h))
      | inl mine ↦
          elim (scan-append on_disk (reverse (keep of_name log)) (e ∷ []) path
            (rw (← reverse-cons e (keep of_name log)) (rw mine at h))) [
              | inl newer ↦ behind e (newest_backup-IsLatest on_disk name log path newer)
              | inr (none_deleted, here) ↦
                  let (kind, at_path) = scan-one on_disk e path here in
                  record {
                    older = [];
                    backup = e;
                    newer = log;
                    in_log = refl;
                    of_server = mine;
                    kind = kind;
                    at_path = at_path;
                    none_deleted =
                        sym (any-keep-and is_delete of_name log)
                        ∙ sym (any-reverse is_delete (keep of_name log))
                        ∙ none_deleted;
                  }
            ]
    ]
  where
    of_name : Event → Bool
    of_name f = opt_is name f.server_name

    behind : (e : Event) → IsLatest name log path → IsLatest name (e ∷ log) path
    behind e l = record {
      older = e ∷ l.older;
      backup = l.backup;
      newer = l.newer;
      in_log = ap (λ (t : List Event). e ∷ t) l.in_log;
      of_server = l.of_server;
      kind = l.kind;
      at_path = l.at_path;
      none_deleted = l.none_deleted;
    }

set_status-servers :
    (name : String) (status : RowStatus) (rows : List ServerRow)
    → update_where (is_row name) (λ r. record r { status = status }) rows
      ≡ map (λ r. if r.name == name then record r { status = status } else r) rows
set_status-servers name status [] = refl
set_status-servers name status (r ∷ rows) =
    ap (λ (t : List ServerRow). (if r.name == name then record r { status = status } else r) ∷ t)
      (set_status-servers name status rows)

-- What the job leaves behind where the cluster was not touched after the failed backup: the
-- server rows are those of before, the server's own row at the status `prior`.
abbrev pub IsUntouched : {C : Type 0} → (name : String) (after : C) (w final : World C) → Type 0
IsUntouched name after w final =
    (final.outside ≡ after)
    × (final.db.servers
        ≡ map (λ r. if r.name == name then record r { status = Rows.ready } else r) w.db.servers)

-- A backup at `path`, which was just taken, or is the last one of this server and still on the
-- disk, and its event.
abbrev pub IsBackedUp :
    {C : Type 0}
    → (B : ClusterBackend C) (name : String) (log : List Event) (taken : Result String) (after : C)
    → World C
    → Type 0
IsBackedUp B name log taken after final =
    (path : String) × (kind : String) × (is_backup kind ≡ true)
    × ((taken ≡ ok path) ⊎ ((B.path_exists path after ≡ true) × IsLatest name log path))
    × (any (is_event name kind path) final.db.events ≡ true)

-- The steps after the backup write events only.
release_removed-keeps :
    {C : Type 0} (settings : Settings) (B : ClusterBackend C) (p : Event → Bool)
    (tenant name : String) (prior : RowStatus) (r : Result (Unit {0})) (w : World C)
    → any p w.db.events ≡ true
    → any p (release_removed settings B tenant name prior r w).1.db.events ≡ true
unfolding delete_failed delete_server set_status
release_removed-keeps settings B p tenant name prior (ok _) w =
    any-record_event p tenant (some name) "delete" "" w.now (delete_server name w.db)
release_removed-keeps settings B p tenant name prior (err e) w =
    any-record_event p tenant (some name) "delete.failed" (describe e) w.now
      (set_status name prior w.db)

remove_release-db :
    {C : Type 0} (settings : Settings) (B : ClusterBackend C) (name : String) (w : World C)
    → (remove_release settings B name w).1.db ≡ w.db
unfolding remove_release
remove_release-db settings B name w = ground arith

after_backup-keeps :
    {C : Type 0} (settings : Settings) (B : ClusterBackend C) (p : Event → Bool)
    (tenant name : String) (prior : RowStatus) (w : World C)
    → any p w.db.events ≡ true
    → any p (after_backup settings B tenant name prior w).1.db.events ≡ true
unfolding after_backup
after_backup-keeps settings B p tenant name prior w h =
    release_removed-keeps settings B p tenant name prior (remove_release settings B name w).0
      (remove_release settings B name w).1 (rw (remove_release-db settings B name w) h)

module _ {C : Type 0} (settings : Settings) (B : ClusterBackend C) (tenant name : String)
    (awake : Bool) (w : World C) where
  abbrev taken : Result String
  taken = (B.backup_world name awake w.outside).0

  abbrev after : C
  after = (B.backup_world name awake w.outside).1

  abbrev earlier : Option String
  earlier = newest_backup (λ p. B.path_exists p after) (reverse (events name w.db))

  abbrev final : World C
  final = (run_remove settings B tenant name Rows.ready awake false w).1

  -- The world in which the rest of the job starts, once the event of a backup is written.
  abbrev noted : String → String → World C
  noted kind path = record w {
    outside = after;
    db = record_event tenant (some name) kind path w.now w.db;
  }

  noted-keeps :
      (kind path : String)
      → any
          (is_event name kind path)
          (after_backup settings B tenant name Rows.ready (noted kind path)).1.db.events
        ≡ true
  noted-keeps kind path =
      after_backup-keeps settings B (is_event name kind path) tenant name Rows.ready
        (noted kind path) (record_event-is_event tenant name kind path w.now w.db)

  -- After a backup, taken now or earlier, the job goes on.
  goes_on :
      (path : String)
      → taken ≡ ok path
      → final ≡ (after_backup settings B tenant name Rows.ready (noted "backup" path)).1
  unfolding run_remove back_up_for_delete
  goes_on path e = ground arith

  goes_on_reused :
      (message path : String)
      → taken ≡ err (cluster_error message)
      → source_is_gone message ≡ true
      → earlier ≡ some path
      → final ≡ (after_backup settings B tenant name Rows.ready (noted "backup.reused" path)).1
  unfolding run_remove back_up_for_delete
  goes_on_reused message path e gone found = ground arith

  -- The rows of a delete that failed.
  reset :
      (error : Error)
      → final.db.servers
        ≡ update_where (is_row name) (λ r. record r { status = Rows.ready }) w.db.servers
      → final.db.servers
        ≡ map (λ r. if r.name == name then record r { status = Rows.ready } else r) w.db.servers
  reset error same = same ∙ set_status-servers name Rows.ready w.db.servers

  untouched :
      (error : Error)
      → taken ≡ err error
      → ((message : String)
          → error ≡ cluster_error message
          → (source_is_gone message ≡ false) ⊎ (earlier ≡ none))
      → IsUntouched name after w final
  unfolding run_remove back_up_for_delete delete_failed record_event set_status
  untouched (cluster_error message) e nothing = elim (nothing message refl) [
    | inl there ↦ (ground arith, reset (cluster_error message) (ground arith))
    | inr none_left ↦ (ground arith, reset (cluster_error message) (ground arith))
  ]
  untouched error e nothing = (ground arith, reset error (ground arith))

  noted-IsBackedUp :
      (kind path : String)
      → is_backup kind ≡ true
      → (taken ≡ ok path) ⊎ ((B.path_exists path after ≡ true) × IsLatest name w.db.events path)
      → final ≡ (after_backup settings B tenant name Rows.ready (noted kind path)).1
      → IsBackedUp B name w.db.events taken after final
  noted-IsBackedUp kind path is known e = (path, kind, is, known, rw e (noted-keeps kind path))

  reused :
      (message : String)
      → taken ≡ err (cluster_error message)
      → source_is_gone message ≡ true
      → (found : Option String) → earlier ≡ found
      → IsUntouched name after w final ⊎ IsBackedUp B name w.db.events taken after final
  unfolding events
  reused message e gone none f = inl (untouched _ e (λ _ _. inr f))
  reused message e gone (some path) f = inr (
      noted-IsBackedUp "backup.reused" path refl
        (inr (
          newest_backup-on_disk _ (reverse (events name w.db)) path f,
          newest_backup-IsLatest _ name w.db.events path f,
        ))
        (goes_on_reused message path e gone f))

  by_backup :
      (r : Result String)
      → taken ≡ r
      → IsUntouched name after w final ⊎ IsBackedUp B name w.db.events taken after final
  by_backup (ok path) e = inr (noted-IsBackedUp "backup" path refl (inl e) (goes_on path e))
  by_backup (err (cluster_error message)) e = elim (Bool-cases (source_is_gone message)) [
    | inl gone ↦ reused message e gone earlier refl
    | inr there ↦ inl (untouched _ e (λ m same. inl (ground arith)))
  ]
  by_backup (err error) e = inl (untouched error e (λ m same. cc))

  -- A delete job without `force`, of a server whose create did not fail, either leaves the
  -- cluster as the failed backup left it and puts the row back to `ready`, every other row as it
  -- was, or the log has the event of a backup at a path that the job has just taken, or that is
  -- still on the disk and in the log, when the job starts, is the path of a backup of this server
  -- with no delete of this server behind it.
  pub world_is_safe :
      IsUntouched name after w final ⊎ IsBackedUp B name w.db.events taken after final
  world_is_safe = by_backup taken refl

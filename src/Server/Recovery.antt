-- ===== src/Server/Recovery.antt =====
-- What a restart does to the jobs that it cut short (src/dsh_api/service.py).
use mathlib.Core.Path.{fun_ext}
use mathlib.Core.List.{append_assoc}
use native.Mathlib.Nat.{le_trans, le_refl}
use dsh_api.Prelude.{
  any-append, count_by-le-count_by, count_by-update_where-le, ◌≤◌, ◌≡◌, refl, Bool, true, false,
  ◌&&◌, ◌||◌, not, List, [], ◌∷◌, ◌++◌, arith, any, keep, count_by, update_where, sort_by, reverse,
  ◌==◌, eq_refl, any-sort_by, any-keep-and, count_by-update_where-imp,
}
use dsh_api.Action.{ok}
use dsh_api.Db.Rows as Rows
use dsh_api.Db.Rows.{
  Db, Event, ServerRow, RowStatus, is_row, is_provisioning, is_deleting, is_ready, is_failed,
  status_text, same_status,
}
use dsh_api.Db.Servers.{list_with_status, set_status, created_le}
use dsh_api.Db.Events.{record_event, events}
use dsh_api.Server.World.{World}
use dsh_api.Server.Delete.{status_before_delete}
use dsh_api.Server.Recover.{fail_creates, restore_deletes, recover_interrupted}

-- The scan of a server's events, newest first, finds the status that the last delete recorded,
-- `ready` or `failed`, whatever was recorded since that is no further delete request.
pub status_before_delete_finds :
    (newer : List Event) (requested : Event) (older : List Event) (prior : RowStatus)
    → any (λ e. e.kind == "delete.requested") newer ≡ false
    → requested.kind ≡ "delete.requested"
    → requested.detail ≡ status_text prior
    → (is_ready prior || is_failed prior) ≡ true
    → status_before_delete (newer ++ requested ∷ older) ≡ prior
unfolding status_before_delete status_text
status_before_delete_finds [] requested older Rows.ready none_newer kind detail is =
    rw (kind, detail)
status_before_delete_finds [] requested older Rows.failed none_newer kind detail is =
    rw (kind, detail)
status_before_delete_finds [] requested older _ none_newer kind detail is = cc
status_before_delete_finds (e ∷ newer) requested older prior none_newer kind detail is =
    ground (arith, status_before_delete_finds newer requested older prior)

-- A restored row is ready or failed.
status_before_delete-settled :
    (es : List Event)
    → (is_provisioning (status_before_delete es) || is_deleting (status_before_delete es)) ≡ false
unfolding status_before_delete
status_before_delete-settled [] = refl
status_before_delete-settled (e ∷ es) = ground (arith, status_before_delete-settled es)

abbrev named : List ServerRow → ServerRow → Bool
named rows r = any (λ q. r.name == q.name) rows

-- The rows at a status whose name is not on the list that is still to be worked off.
abbrev left_out : (ServerRow → Bool) → List ServerRow → ServerRow → Bool
left_out p rows r = p r && not (named rows r)

abbrev pub is_creating_row : ServerRow → Bool
is_creating_row r = is_provisioning r.status

abbrev pub is_deleting_row : ServerRow → Bool
is_deleting_row r = is_deleting r.status

-- One row worked off: what is left out with the shorter list was left out with the longer one.
work_off :
    (p : ServerRow → Bool) (row : ServerRow) (rows servers : List ServerRow) (status : RowStatus)
    → ((r : ServerRow) → p (record r { status = status }) ≡ false)
    → count_by
        (left_out p rows)
        (update_where (is_row row.name) (λ r. record r { status = status }) servers)
      ≤ count_by (left_out p (row ∷ rows)) servers
work_off p row rows servers status settled =
    count_by-update_where-imp (left_out p rows) (left_out p (row ∷ rows)) (is_row row.name)
      (λ r. record r { status = status }) servers (λ r here still. ground (arith, settled r))
      (λ r other still. ground (arith))

-- Every row that passes is named on the list of the rows that pass.
all_named :
    (p : ServerRow → Bool) (before servers : List ServerRow)
    → count_by (λ r. p r && not (any (λ q. p q && r.name == q.name) (before ++ servers))) servers
      ≡ 0
all_named p before [] = refl
all_named p before (r ∷ rs) = ground (
  arith,
  any-append (λ q. p q && r.name == q.name) before (r ∷ rs),
  eq_refl r.name,
  rw append_assoc at (all_named p (before ++ r ∷ []) rs),
)

listed-left_out :
    (p : ServerRow → Bool) (servers : List ServerRow)
    → count_by (left_out p (sort_by created_le (keep p servers))) servers ≡ 0
listed-left_out p servers = rw (fun_ext same) (all_named p [] servers)
  where
    same :
        (r : ServerRow)
        → left_out p (sort_by created_le (keep p servers)) r
          ≡ (p r && not (any (λ q. p q && r.name == q.name) servers))
    same r = rw (
      any-sort_by (λ q. r.name == q.name) created_le (keep p servers),
      any-keep-and (λ q. r.name == q.name) p servers,
    )

module _ {C : Type 0} where
  fail_creates-le :
      (rows : List ServerRow) (w : World C)
      → count_by is_creating_row (fail_creates rows w).1.db.servers
        ≤ count_by (left_out is_creating_row rows) w.db.servers
  unfolding fail_creates record_event set_status
  fail_creates-le [] w = count_by-le-count_by _ _ w.db.servers (λ r h. ground arith)
  fail_creates-le (row ∷ rows) w =
      le_trans (fail_creates-le rows _)
        (work_off is_creating_row row rows w.db.servers Rows.failed (λ r. refl))

  restore_deletes-le :
      (rows : List ServerRow) (w : World C)
      → count_by is_deleting_row (restore_deletes rows w).1.db.servers
        ≤ count_by (left_out is_deleting_row rows) w.db.servers
  unfolding restore_deletes record_event set_status
  restore_deletes-le [] w = count_by-le-count_by _ _ w.db.servers (λ r h. ground arith)
  restore_deletes-le (row ∷ rows) w =
      let restored = status_before_delete (reverse (events row.name w.db)) in
      le_trans (restore_deletes-le rows _) (
        work_off is_deleting_row row rows w.db.servers restored
          (λ r. ground (arith, status_before_delete-settled (reverse (events row.name w.db)))))

  restore_deletes-creating :
      (rows : List ServerRow) (w : World C)
      → count_by is_creating_row (restore_deletes rows w).1.db.servers
        ≤ count_by is_creating_row w.db.servers
  unfolding restore_deletes record_event set_status
  restore_deletes-creating [] w = le_refl _
  restore_deletes-creating (row ∷ rows) w =
      let restored = status_before_delete (reverse (events row.name w.db)) in
      le_trans (restore_deletes-creating rows _) (
        count_by-update_where-le is_creating_row (is_row row.name)
          (λ r. record r { status = restored }) w.db.servers
          (λ r h. ground (arith, status_before_delete-settled (reverse (events row.name w.db)))))

  fail_creates-ok : (rows : List ServerRow) (w : World C) → (fail_creates rows w).0 ≡ ok tt
  unfolding fail_creates
  fail_creates-ok [] w = refl
  fail_creates-ok (row ∷ rows) w = fail_creates-ok rows _

  abbrev failed_creates : World C → World C
  failed_creates w = (fail_creates (list_with_status Rows.provisioning w.db) w).1

  recover_interrupted-parts :
      (w : World C)
      → (recover_interrupted w).1
        ≡ (restore_deletes
            (list_with_status Rows.deleting (failed_creates w).db)
            (failed_creates w)).1
  unfolding recover_interrupted
  recover_interrupted-parts w =
      ground (arith, fail_creates-ok (list_with_status Rows.provisioning w.db) w)

  -- After a restart no server is left at `provisioning` or at `deleting`.
  pub recover_interrupted_settles :
      (w : World C)
      → (count_by is_creating_row (recover_interrupted w).1.db.servers ≡ 0)
        × (count_by is_deleting_row (recover_interrupted w).1.db.servers ≡ 0)
  unfolding list_with_status
  recover_interrupted_settles w =
      let u = failed_creates w in
      let rows = list_with_status Rows.deleting u.db in
      rw (recover_interrupted-parts w) (
        omega (
          arith,
          restore_deletes-creating rows u,
          fail_creates-le (list_with_status Rows.provisioning w.db) w,
          listed-left_out is_creating_row w.db.servers,
        ),
        omega (arith, restore_deletes-le rows u, listed-left_out is_deleting_row u.db.servers),
      )

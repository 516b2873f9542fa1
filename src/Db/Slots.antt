-- ===== src/Db/Slots.antt =====
-- What `reserve_server` guards: names and slots, under every interleaving of the transactions.
use native.Mathlib.Nat.{le_trans}
use dsh_api.Prelude.{
  ℕ, suc, ◌≤◌, ◌<◌, String, ◌≡◌, refl, Bool, true, false, Option, List, [], ◌∷◌, ◌++◌, inl, inr,
  arith, any, count_by, keep, update_where, Bool-cases, count_by-append, count_by-keep-le,
  count_by-update_where-le, count_by_of_any, eq_iff,
}
use dsh_api.Db.Rows.{
  Db, ServerRow, RowStatus, SelectedPlugin, deleting, is_row, is_tenants, is_provisioning,
}
use dsh_api.Db.Servers.{
  ensure_tenant, is_creating, can_reserve, reserve_server, set_status, begin_delete, mark_woken,
  delete_server, still_is,
}
use dsh_api.Db.Reserve.{can_reserve_parts, reserve_server_inserts, reserve_server_refuses}
use dsh_api.Db.Exports.{
  Area, ExportField, reserve_export, update_export, delete_export, delete_exports_of,
}
use dsh_api.Db.Events.{record_event}
use dsh_api.Db.Plugins.{seed_plugins, add_plugins, remove_plugin, set_plugin_hashes}
use dsh_api.Db.Feedback.{reserve_feedback, set_feedback_status}
use dsh_api.Db.Writes.{
  Write, Writes, ensured, reserved, moved, began_delete, woken, deleted, recorded, seeded, added,
  removed, hashed, left_feedback, triaged, export_reserved, export_updated, export_deleted,
  exports_dropped, here, next,
}

-- No name is held twice, no tenant has two creates in flight or more servers than the cap.
pub record SlotsHold (max_servers : ℕ) (servers : List ServerRow) : Type 0 where
  pub one_name : (name : String) → count_by (is_row name) servers ≤ 1
  pub one_create : (tenant : String) → count_by (is_creating tenant) servers ≤ 1
  pub capped : (tenant : String) → count_by (is_tenants tenant) servers ≤ max_servers

-- A rewriting of rows that keeps each name and owner, and starts no create.
record IsMove (f : ServerRow → ServerRow) : Type 0 where
  same_name : (r : ServerRow) → (f r).name ≡ r.name
  same_tenant : (r : ServerRow) → (f r).tenant_id ≡ r.tenant_id
  no_create :
      (r : ServerRow) → is_provisioning (f r).status ≡ true → is_provisioning r.status ≡ true

update_where-SlotsHold :
    {max_servers : ℕ} (p : ServerRow → Bool) {f : ServerRow → ServerRow} (servers : List ServerRow)
    → IsMove f
    → SlotsHold max_servers servers
    → SlotsHold max_servers (update_where p f servers)
update_where-SlotsHold p {f} servers m h = record {
  one_name = λ n.
      le_trans (count_by-update_where-le (is_row n) p f servers (λ r e. rw (← m.same_name r) e))
        (h.one_name n);
  one_create = λ t.
      le_trans
        (count_by-update_where-le (is_creating t) p f servers
          (λ r e. ground (arith, m.same_tenant r, m.no_create r)))
        (h.one_create t);
  capped = λ t.
      le_trans
        (count_by-update_where-le (is_tenants t) p f servers (λ r e. rw (← m.same_tenant r) e))
        (h.capped t);
}

keep-SlotsHold :
    {max_servers : ℕ} (p : ServerRow → Bool) (servers : List ServerRow)
    → SlotsHold max_servers servers
    → SlotsHold max_servers (keep p servers)
keep-SlotsHold p servers h = record {
  one_name = λ n. omega (arith, h.one_name n, count_by-keep-le (is_row n) p servers);
  one_create = λ t. omega (arith, h.one_create t, count_by-keep-le (is_creating t) p servers);
  capped = λ t. omega (arith, h.capped t, count_by-keep-le (is_tenants t) p servers);
}

-- One more row raises only the count of the key `k` that the row has.
count_by_snoc :
    (test : String → ServerRow → Bool) (servers : List ServerRow) (row : ServerRow) (k j : String)
    (bound : ℕ)
    → (test j row ≡ true → k ≡ j)
    → count_by (test j) servers ≤ bound
    → suc (count_by (test k) servers) ≤ bound
    → count_by (test j) (servers ++ row ∷ []) ≤ bound
count_by_snoc test servers row k j bound only old new = elim (Bool-cases (test j row)) [
  | inl e ↦ rw (← only e) (ground (arith, count_by-append (test k) servers (row ∷ [])))
  | inr e ↦ ground (arith, count_by-append (test j) servers (row ∷ []))
]

append-SlotsHold :
    {max_servers : ℕ} (servers : List ServerRow) (row : ServerRow)
    → any (is_creating row.tenant_id) servers ≡ false
    → count_by (is_tenants row.tenant_id) servers < max_servers
    → any (is_row row.name) servers ≡ false
    → SlotsHold max_servers servers
    → SlotsHold max_servers (servers ++ row ∷ [])
append-SlotsHold {max_servers} servers row idle room free h = record {
  one_name = λ n.
      count_by_snoc is_row servers row row.name n 1 (λ e. (eq_iff row.name n).0 e) (h.one_name n)
        (omega (arith, count_by_of_any (is_row row.name) servers free));
  one_create = λ t.
      count_by_snoc is_creating servers row row.tenant_id t 1
        (λ e. (eq_iff row.tenant_id t).0 (ground arith)) (h.one_create t)
        (omega (arith, count_by_of_any (is_creating row.tenant_id) servers idle));
  capped = λ t.
      count_by_snoc is_tenants servers row row.tenant_id t max_servers
        (λ e. (eq_iff row.tenant_id t).0 e) (h.capped t) room;
}

reserve_server-SlotsHold :
    (name tenant hostname motd : String) (operator : Option String) (max_servers now : ℕ) (db : Db)
    → SlotsHold max_servers db.servers
    → SlotsHold max_servers
        (reserve_server name tenant hostname motd operator max_servers now db).1.servers
reserve_server-SlotsHold name tenant hostname motd operator max_servers now db h =
    elim (Bool-cases (can_reserve name tenant max_servers db)) [
      | inl e ↦
          let (idle, room, free) = can_reserve_parts name tenant max_servers db e in
          rw (reserve_server_inserts name tenant hostname motd operator max_servers now db e)
            (append-SlotsHold db.servers _ idle room free h)
      | inr e ↦
          rw (reserve_server_refuses name tenant hostname motd operator max_servers now db e) h
    ]

-- Moving a row to a status that is no `provisioning`, or stamping it.
restatus-IsMove :
    (status : RowStatus)
    → is_provisioning status ≡ false
    → IsMove (λ r. record r { status = status })
restatus-IsMove status h = record {
  same_name = λ r. refl;
  same_tenant = λ r. refl;
  no_create = λ r e. cc;
}

woken-IsMove : (at : Option ℕ) → IsMove (λ r. record r { last_woken_at = at })
woken-IsMove at = record { same_name = λ r. refl; same_tenant = λ r. refl; no_create = λ r e. e }

-- Three more transactions leave the servers as they are.
servers-ensure_tenant :
    (id : String) (now : ℕ) (db : Db) → (ensure_tenant id now db).servers ≡ db.servers
unfolding ensure_tenant
servers-ensure_tenant id now db = ground arith

pub servers-seed_plugins :
    (server : String) (rows : List SelectedPlugin) (now : ℕ) (db : Db)
    → (seed_plugins server rows now db).1.servers ≡ db.servers
unfolding seed_plugins
servers-seed_plugins server rows now db = ground arith

servers-reserve_feedback :
    (username message : String) (page : Option String) (limit window now : ℕ) (db : Db)
    → (reserve_feedback username message page limit window now db).1.servers ≡ db.servers
unfolding reserve_feedback
servers-reserve_feedback username message page limit window now db = ground arith

servers-reserve_export :
    (id server tenant : String) (area : Option Area) (daily_limit window now : ℕ) (db : Db)
    → (reserve_export id server tenant area daily_limit window now db).1.servers ≡ db.servers
unfolding reserve_export record_event
servers-reserve_export id server tenant area daily_limit window now db = ground arith

servers-update_export :
    (id : String) (fields : List ExportField) (db : Db)
    → (update_export id fields db).1.servers ≡ db.servers
unfolding update_export
servers-update_export id [] db = refl
servers-update_export id (f ∷ fields) db = refl

Write-SlotsHold :
    {max_servers : ℕ} {a b : Db}
    → Write max_servers a b
    → SlotsHold max_servers a.servers
    → SlotsHold max_servers b.servers
unfolding set_status begin_delete mark_woken delete_server record_event add_plugins remove_plugin
    set_plugin_hashes set_feedback_status delete_export delete_exports_of
Write-SlotsHold (ensured id now db) h = rw (servers-ensure_tenant id now db) h
Write-SlotsHold (reserved name tenant hostname motd operator now db) h =
    reserve_server-SlotsHold name tenant hostname motd operator _ now db h
Write-SlotsHold (moved name status db p) h =
    update_where-SlotsHold (is_row name) db.servers (restatus-IsMove status p) h
Write-SlotsHold (began_delete name current db) h =
    update_where-SlotsHold (still_is name current) db.servers (restatus-IsMove deleting refl) h
Write-SlotsHold (woken name now db) h =
    update_where-SlotsHold (is_row name) db.servers (woken-IsMove _) h
Write-SlotsHold (deleted name db) h = keep-SlotsHold _ db.servers h
Write-SlotsHold (recorded _ _ _ _ _ db) h = h
Write-SlotsHold (seeded server rows now db) h = rw (servers-seed_plugins server rows now db) h
Write-SlotsHold (added _ _ _ db) h = h
Write-SlotsHold (removed _ _ db) h = h
Write-SlotsHold (hashed _ _ _ db) h = h
Write-SlotsHold (left_feedback name text page limit window now db) h =
    rw (servers-reserve_feedback name text page limit window now db) h
Write-SlotsHold (triaged _ _ db) h = h
Write-SlotsHold (export_reserved id server tenant area limit window now db) h =
    rw (servers-reserve_export id server tenant area limit window now db) h
Write-SlotsHold (export_updated id fields db) h = rw (servers-update_export id fields db) h
Write-SlotsHold (export_deleted _ db) h = h
Write-SlotsHold (exports_dropped _ db) h = h

-- Whatever transactions the requests and jobs make, in whatever order, no name is held twice, no
-- tenant has two creates in flight, and none has more than `max_servers` servers, if that holds
-- at the start.
pub Writes-SlotsHold :
    {max_servers : ℕ} {a b : Db}
    → Writes max_servers a b
    → SlotsHold max_servers a.servers
    → SlotsHold max_servers b.servers
Writes-SlotsHold here h = h
Writes-SlotsHold (next ws w) h = Write-SlotsHold w (Writes-SlotsHold ws h)

-- ===== src/Db/Servers.antt =====
-- The server methods of `Database` (src/dsh_api/db.py). Each method is one transaction; it returns
-- its result beside the database that it leaves.
use dsh_api.Prelude.{
  ℕ, String, Bool, ◌&&◌, not, Option, none, some, List, [], ◌∷◌, ◌++◌, any, find, keep, count_by,
  update_where, sort_by, head?, ltb, ◌==◌, if◌then◌else◌,
}
use dsh_api.Action.{Act, ok, err, other}
use dsh_api.Db.Rows.{
  Db, ServerRow, RowStatus, provisioning, deleting, is_provisioning, same_status, is_row,
  is_tenants, stamp_le, now_iso,
}

-- INSERT OR IGNORE: the id is the primary key.
unfoldable pub ensure_tenant : String → ℕ → Db → Db
unfolding now_iso
ensure_tenant id now db =
    if any (λ t. t.id == id) db.tenants
    then db
    else record db { tenants = db.tenants ++ record { id = id; created_at = now_iso now } ∷ [] }

unfoldable pub get_server : String → Db → Option ServerRow
get_server name db = find (is_row name) db.servers

abbrev pub created_le : ServerRow → ServerRow → Bool
created_le a b = stamp_le a.created_at a.name b.created_at b.name

unfoldable pub list_servers : String → Db → List ServerRow
list_servers tenant db = sort_by created_le (keep (is_tenants tenant) db.servers)

unfoldable pub count_servers : String → Db → ℕ
count_servers tenant db = count_by (is_tenants tenant) db.servers

abbrev pub is_creating : String → ServerRow → Bool
is_creating tenant r = is_tenants tenant r && is_provisioning r.status

-- The tenant's server whose create is still in flight, if any.
unfoldable pub provisioning_server : String → Db → Option ServerRow
provisioning_server tenant db = head? (sort_by created_le (keep (is_creating tenant) db.servers))

unfoldable pub list_with_status : RowStatus → Db → List ServerRow
list_with_status status db = sort_by created_le (keep (λ r. same_status status r.status) db.servers)

-- The row that the statement of `reserve_server` inserts.
abbrev pub reserved_row : String → String → String → String → Option String → ℕ → ServerRow
reserved_row name tenant hostname motd operator at = record {
  name = name;
  tenant_id = tenant;
  hostname = hostname;
  motd = motd;
  operator_username = operator;
  created_at = at;
  last_woken_at = none;
  status = provisioning;
}

-- A second row of the same name breaks the primary key, and the transaction with it.
unfoldable pub insert_server :
    (name tenant hostname motd : String) (operator : Option String) (status : RowStatus) (now : ℕ)
    → Act Db (Option ServerRow)
unfolding get_server now_iso
insert_server name tenant hostname motd operator status now db =
    let row = record (reserved_row name tenant hostname motd operator (now_iso now)) {
      status = status;
    } in
    let after = record db { servers = db.servers ++ row ∷ [] } in
    if any (is_row name) db.servers
    then (err (other "IntegrityError" "UNIQUE constraint failed: servers.name"), db)
    else (ok (get_server name after), after)

-- The two WHERE conditions, and the primary key that makes OR IGNORE skip the insertion.
unfoldable pub can_reserve : String → String → ℕ → Db → Bool
unfolding count_servers
can_reserve name tenant max_servers db =
    not (any (is_creating tenant) db.servers)
    && ltb (count_servers tenant db) max_servers
    && not (any (is_row name) db.servers)

unfoldable pub reserve_server :
    (name tenant hostname motd : String) (operator : Option String) (max_servers now : ℕ)
    → Db
    → Option ServerRow × Db
unfolding can_reserve get_server now_iso
reserve_server name tenant hostname motd operator max_servers now db =
    if can_reserve name tenant max_servers db
    then (let row = reserved_row name tenant hostname motd operator (now_iso now) in
        let after = record db { servers = db.servers ++ row ∷ [] } in
        (get_server name after, after))
    else (none, db)

unfoldable pub set_status : String → RowStatus → Db → Db
set_status name status db = record db {
  servers = update_where (is_row name) (λ r. record r { status = status }) db.servers;
}

-- The row of that name, while its status is the one the request read.
abbrev pub still_is : String → RowStatus → ServerRow → Bool
still_is name current r = is_row name r && same_status current r.status

-- `true` when the UPDATE met a row.
unfoldable pub begin_delete : String → RowStatus → Db → Bool × Db
begin_delete name current db = (
  any (still_is name current) db.servers,
  record db {
    servers = update_where (still_is name current) (λ r. record r { status = deleting }) db.servers;
  },
)

unfoldable pub mark_woken : String → ℕ → Db → Db
unfolding now_iso
mark_woken name now db = record db {
  servers =
      update_where (is_row name) (λ r. record r { last_woken_at = some (now_iso now) }) db.servers;
}

-- The server's plugin selection goes with it.
unfoldable pub delete_server : String → Db → Db
delete_server name db = record db {
  servers = keep (λ r. not (is_row name r)) db.servers;
  plugins = keep (λ p. not (p.server == name)) db.plugins;
  plugin_states = keep (λ s. not (s.server == name)) db.plugin_states;
}

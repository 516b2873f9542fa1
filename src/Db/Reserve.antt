-- ===== src/Db/Reserve.antt =====
-- The guarded insertion `reserve_server` (src/dsh_api/db.py), on both of its branches.
use dsh_api.Prelude.{
  ℕ, ◌<◌, String, ◌≡◌, true, false, Option, none, some, [], ◌∷◌, ◌++◌, arith, any, count_by,
  find-append, find_of_any, eq_refl,
}
use dsh_api.Db.Rows.{Db, is_row, is_tenants, now_iso}
use dsh_api.Db.Servers.{is_creating, can_reserve, reserve_server, reserved_row}

pub can_reserve_parts :
    (name tenant : String) (max_servers : ℕ) (db : Db)
    → can_reserve name tenant max_servers db ≡ true
    → (any (is_creating tenant) db.servers ≡ false)
      × (count_by (is_tenants tenant) db.servers < max_servers)
      × (any (is_row name) db.servers ≡ false)
unfolding can_reserve
can_reserve_parts name tenant max_servers db h = ground arith

-- Where the conditions hold the statement inserts its row, and returns it.
pub reserve_server_inserts :
    (name tenant hostname motd : String) (operator : Option String) (max_servers now : ℕ) (db : Db)
    → can_reserve name tenant max_servers db ≡ true
    → reserve_server name tenant hostname motd operator max_servers now db ≡ (
      some (reserved_row name tenant hostname motd operator (now_iso now)),
      record db {
        servers = db.servers ++ reserved_row name tenant hostname motd operator (now_iso now) ∷ [];
      },
    )
unfolding reserve_server
reserve_server_inserts name tenant hostname motd operator max_servers now db h = ground (
  arith,
  find-append (is_row name) db.servers
      (reserved_row name tenant hostname motd operator (now_iso now) ∷ []),
  find_of_any (is_row name) db.servers,
  eq_refl name,
)

-- Where one fails nothing is inserted.
pub reserve_server_refuses :
    (name tenant hostname motd : String) (operator : Option String) (max_servers now : ℕ) (db : Db)
    → can_reserve name tenant max_servers db ≡ false
    → reserve_server name tenant hostname motd operator max_servers now db ≡ (none, db)
unfolding reserve_server
reserve_server_refuses name tenant hostname motd operator max_servers now db h = ground arith

-- ===== src/Db/Events.antt =====
-- The event log of `Database` (src/dsh_api/db.py).
use dsh_api.Prelude.{ℕ, String, Option, List, [], ◌∷◌, ◌++◌, keep}
use dsh_api.Db.Rows.{Db, Event, opt_is, now_iso}

abbrev pub event_of : String → Option String → String → String → ℕ → Event
event_of tenant server kind detail at = record {
  at = at;
  tenant_id = tenant;
  server_name = server;
  kind = kind;
  detail = detail;
}

-- `record`; `server` is None for feedback.
unfoldable pub record_event : String → Option String → String → String → ℕ → Db → Db
unfolding now_iso
record_event tenant server kind detail now db = record db {
  events = db.events ++ event_of tenant server kind detail (now_iso now) ∷ [];
}

-- The events of a server, oldest first.
unfoldable pub events : String → Db → List Event
events name db = keep (λ e. opt_is name e.server_name) db.events

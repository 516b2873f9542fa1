-- ===== src/Db/Log.antt =====
-- What a written event changes in the log (src/dsh_api/db.py).
use dsh_api.Prelude.{
  ℕ, String, ◌≡◌, refl, Bool, true, false, ◌&&◌, ◌||◌, Option, some, any, ◌==◌, eq_refl, any-append,
}
use dsh_api.Db.Rows.{Db, Event, opt_is}
use dsh_api.Db.Events.{record_event}

abbrev pub is_event : String → String → String → Event → Bool
is_event name kind detail e = opt_is name e.server_name && (e.kind == kind && e.detail == detail)

-- An event stays in the log.
pub any-record_event :
    (p : Event → Bool) (tenant : String) (server : Option String) (kind detail : String) (now : ℕ)
    (db : Db)
    → any p db.events ≡ true
    → any p (record_event tenant server kind detail now db).events ≡ true
unfolding record_event
any-record_event p tenant server kind detail now db h = rw (any-append, h)

true_or : (b : Bool) → (b || (true || false)) ≡ true
true_or true = refl
true_or false = refl

-- The event that is written is in the log.
pub record_event-is_event :
    (tenant name kind detail : String) (now : ℕ) (db : Db)
    → any (is_event name kind detail) (record_event tenant (some name) kind detail now db).events
      ≡ true
unfolding record_event
record_event-is_event tenant name kind detail now db =
    rw (any-append (is_event name kind detail) db.events)
      (simp eq_refl (true_or (any (is_event name kind detail) db.events)))

-- ===== src/Db.antt =====
-- src/dsh_api/db.py: the SQLite state. `Rows` has the tables, the other children one group of the
-- methods of `Database` each, and `Writes` every
-- sequence of them; `Slots`, `Log`, `Reserve` and `ExportLimit` have what holds of them.
pub mod Rows
pub mod Servers
pub mod Events
pub mod Plugins
pub mod Feedback
pub mod Writes
pub mod Slots
pub mod Log
pub mod Reserve
pub mod Exports
pub mod ExportLimit

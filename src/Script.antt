-- ===== src/Script.antt =====
-- export/dsh_world_export.py: the script in the pod of a world export. `Level` reads the name of
-- the world. `Box` has the area and its regions, `Regions` proves which they are. `Snapshot` has the
-- copy of the world, `Ends` the rules for its handlers, and `Copied`, `Picture` and `AtRest` prove.
pub mod Level
pub mod Box
pub mod Regions
pub mod Snapshot
mod Ends
pub mod Copied
pub mod Picture
pub mod AtRest

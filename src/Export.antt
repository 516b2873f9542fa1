-- ===== src/Export.antt =====
-- src/dsh_api/export_pod.py: what comes back from the pod of a world export.
pub mod Names
pub mod Unpack
pub mod Unpacked
pub mod Flat
pub mod Area
pub mod Exporter
pub mod Summary
pub mod Run
pub mod Sweep
pub mod Requests
pub mod Settles
pub mod Swept
pub mod Sweeping
pub mod Interrupted
pub mod Owned
pub mod Starting
pub mod Base64
pub mod Unpadded
pub mod Links
pub mod Linked
pub mod Downloads

-- ===== src/Plugin.antt =====
-- src/dsh_api/plugin_service.py: installing and removing plugins on a tenant's server.
pub mod Resolve
pub mod Closure
pub mod Covering
pub mod Reads
pub mod Listing
pub mod Service
pub mod Choosing
pub mod Changing
pub mod Failing
pub mod Removing
pub mod Restarting

-- ===== src/Tests.antt =====
-- Concrete runs of the models of src/dsh_api, over the cluster in memory.
mod Samples
mod Servers
mod Selections
mod Messages
mod Exports
mod Exporting
mod Routing
mod Copying

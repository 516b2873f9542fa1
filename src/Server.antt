-- ===== src/Server.antt =====
-- src/dsh_api/service.py: the server lifecycle.
pub mod World
pub mod Reads
pub mod Create
pub mod Wake
pub mod Delete
pub mod Recover
pub mod Safety
pub mod Provision
pub mod Admission
pub mod Isolation
pub mod Deleting
pub mod Recovery

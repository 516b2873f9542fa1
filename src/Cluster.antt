-- ===== src/Cluster.antt =====
-- src/dsh_api/cluster.py. `Status` is what the cluster says of a server, `Backend` the interface
-- of the class `ClusterBackend`, and `Memory` and `Fake`
-- the state and the operations of the class `FakeClusterBackend`.
pub mod Status
pub mod Backend
pub mod Memory
pub mod Exports
pub mod Fake
pub mod Reading
pub mod Varint
pub mod Ping

-- ===== src/Etcd.antt =====
-- src/etcd/etcdClient.go. The etcd library and its server are a parameter, `Driver`, over an
-- unknown state of the cluster; `IsLawful` states what etcd documents of the calls that succeed.
pub mod Driver
pub mod Client
pub mod Laws
pub mod Entries
pub mod Memory

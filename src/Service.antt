-- ===== src/Service.antt =====
-- src/service: the service that agents connect to. `State` is the process: the core daemon and the
-- gRPC server share one etcd client and one channel.
pub mod State
pub mod Sends
pub mod Server
pub mod Writes
pub mod Stream
pub mod Core
pub mod Daemon

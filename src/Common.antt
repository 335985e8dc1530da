-- ===== src/Common.antt =====
-- src/common/common.go: the helpers that the daemons share. The conversions between times and texts
-- are not modelled: they go through floating-point numbers and a command's output.
pub mod Match
pub mod Expand
pub mod Network
pub mod Environment

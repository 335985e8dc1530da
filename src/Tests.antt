-- ===== src/Tests.antt =====
-- Runs of the theorems on concrete inputs.
mod OperatorRuns
mod ServiceRuns
mod CoreRuns
mod PolicyRuns
mod StreamRuns
mod ClusterRuns
mod DaemonRuns
mod WatchRuns
mod SharedRuns
mod JointRuns
mod FaultRuns
mod SystemRuns

-- ===== src/Tests.antt =====
-- The theorems at concrete inputs, and what these need.
mod Fixtures
mod Queue
mod Copies
mod Controller
mod Worker
mod Lifecycle
mod Webhook
mod Cluster
mod Monitoring
mod Reconciles
mod Logger
mod LogFile
mod Checks
mod Sidecar
mod Rollout
mod AnalysisTool
mod Generated

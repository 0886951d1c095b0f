-- ===== src/Rollout.antt =====
-- How the parts meet in a deployment that the controller gave a policy: the webhook, then the sidecar, then
-- the collector.
pub mod Injection
pub mod Settings
pub mod Monitoring

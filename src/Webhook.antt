-- ===== src/Webhook.antt =====
-- The mutating admission webhook: `webhook/webhook.go` and `webhook/main.go`.
pub mod Patch
pub mod Mutation
pub mod Server
pub mod Start

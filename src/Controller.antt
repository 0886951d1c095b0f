-- ===== src/Controller.antt =====
-- The operator of `CustomResource/`: `handler.go`, `controller.go` and the event handlers of `main.go`.
pub mod Selector
pub mod Policy
pub mod Handler
pub mod Worker

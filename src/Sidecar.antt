-- ===== src/Sidecar.antt =====
-- `sidecar/sidecar.go`: the program in the injected container.
pub mod Environment
pub mod Health
pub mod Start
pub mod Loop
pub mod Log

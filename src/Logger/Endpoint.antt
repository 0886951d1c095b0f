-- ===== src/Logger/Endpoint.antt =====
-- `logger/endpoint/endpoint.go`: the two handlers of the logger's HTTP server.
pub mod Action
pub mod Request
pub mod Retrieve

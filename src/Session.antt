-- ===== src/Session.antt =====
-- A client session of internal/proxy/session.go: the handshake, the authentication loop and the
-- command loop, over the two byte streams.
pub mod Io
pub mod Forward
pub mod Query
pub mod Commands
pub mod Auth
pub mod Serve
mod Examples

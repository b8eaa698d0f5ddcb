-- ===== src/Link.antt =====
-- link/: the connection state machine of the host's side.
pub mod ConSm
mod Tests

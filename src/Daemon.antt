-- ===== src/Daemon.antt =====
-- The daemon inside each sandbox (internal/daemon).
pub mod Execution
pub mod ExecManager
pub mod Exec

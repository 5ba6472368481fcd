-- ===== src/Runner.antt =====
-- internal/runner: the service on each host that runs the sandboxes.
pub mod Firecracker

-- ===== src/Farm/Supervisor.antt =====
-- experiments/worker_supervisor.py: one worker's processes, its health check and its restarts.
mod Defs
pub mod Health
pub mod Restart
pub mod Budget
unfoldable pub use Defs.*

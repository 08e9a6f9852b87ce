-- ===== src/Agent.antt =====
-- The hub's view of its agents (web/agent): the events queued for them, and their connections and
-- last reports.
pub mod Queue
pub mod Runtime
mod Tests

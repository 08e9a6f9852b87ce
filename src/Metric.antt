-- ===== src/Metric.antt =====
-- The metric store: the points that an agent's report becomes, and the writing of reports
-- (internal/metricstore), and the ladder of rollups and query intervals (pkg/metric).
pub mod Points
pub mod Traffic
pub mod Reports
pub mod Batcher
pub mod Rollup
pub mod Raw
mod Tests
mod RawTests

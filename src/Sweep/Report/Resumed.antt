-- ===== src/Sweep/Report/Resumed.antt =====
-- The loop of `ResumeDue` of internal/sweep/sweep.go and what it reports.
use replenishment_system.Store.Db.{Db}

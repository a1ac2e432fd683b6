-- ===== src/Scheduler.antt =====
-- api/scheduler.py: the resources that runs share, and the queue of the runs.
pub mod Budget
pub mod Queue

-- ===== src/Jobs.antt =====
-- backend/src/jobs: the scheduled jobs, on the tables of the parts that they look after. Times are
-- milliseconds; each job runs alone, and only what it writes is modelled, not its logs.
pub mod Scheduled
pub mod Backlog
pub mod Retention
pub mod RetentionLaws
pub mod Invoices
mod Examples

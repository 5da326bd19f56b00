-- ===== src/Progress.antt =====
-- cli/command/service/progress/progress.go: waiting until a service has converged.
pub mod Monitor
pub mod Start
pub mod Tasks
pub mod Slots
pub mod Global
pub mod Jobs
pub mod Replicated

-- ===== src/Role.antt =====
-- internal/controller/role: the reconcilers of the three roles.
pub mod Ports
pub mod Groups
pub mod Scheduler
pub mod CeleryExecutor
pub mod Webserver
pub mod Registered
pub mod Ready
pub mod Steps
pub mod Ranged
pub mod SchedulerLaws
pub mod CeleryExecutorLaws
pub mod WebserverLaws
pub mod Fresh
pub mod Plan
pub mod Planned
pub mod PlannedRoles
pub mod Every
pub mod Made

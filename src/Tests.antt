-- ===== src/Tests.antt =====
-- Concrete runs, and the theorems at inputs that meet their hypotheses.
mod Samples
mod QueueRuns
mod OrderRuns
mod HostRuns
mod LicensingRuns
mod BillingRuns
mod PointsRuns
mod PermissionRuns
mod MiddlewareRuns
mod MergeRuns
mod RepairRuns
mod SyncRuns

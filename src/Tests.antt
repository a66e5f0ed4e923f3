-- ===== src/Tests.antt =====
-- Concrete runs: a file that is a list of items and never fails, one whose writes fail, and frames
-- that are numbers.
pub mod Fixtures
pub mod Systems
mod Sessions
mod Collecting
mod Reporting
mod Controlling
mod Allocating
mod Exporting
mod Walking
mod Naming
mod Mapping

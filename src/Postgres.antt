-- ===== src/Postgres.antt =====
-- internal/postgres: the admission of a database role, transactions that only read, and the
-- repositories.
pub mod Matching
pub mod Contract
pub mod Admission
pub mod Stages
pub mod Preflight
pub mod ReadOnly
pub mod Pool
pub mod Listing
pub mod Statements
pub mod Repositories
pub mod Catalog

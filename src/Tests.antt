-- ===== src/Tests.antt =====
-- The theorems at concrete inputs.
pub mod Validation
pub mod Database
pub mod Connections
pub mod Requests
pub mod Program
pub mod Settings
pub mod Statements
pub mod Repositories
pub mod Server
pub mod Form

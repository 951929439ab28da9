-- ===== src/HttpApi.antt =====
-- internal/httpapi: sessions, the guards of the JSON routes, the handlers and the router.
pub mod Sessions
pub mod Messages
pub mod Handlers
pub mod Accounts
pub mod Router
pub mod Contract
pub mod Credentials

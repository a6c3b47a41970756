-- ===== src/Rest.antt =====
-- The REST API: predsx/services/api/handlers/rest.go.
pub mod Held
pub mod Params
pub mod Backend
pub mod Market
pub mod Markets
pub mod Scan
pub mod Batch
pub mod Proxy
pub mod History
pub mod Detail
pub mod Search
pub mod Debug
pub mod Example
mod Tests
pub mod Reply
pub mod Query

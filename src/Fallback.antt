-- ===== src/Fallback.antt =====
-- src/fallback.rs: model fallbacks and the failure policy.
pub mod Rules
pub mod Policy
pub mod Scanner
mod Examples

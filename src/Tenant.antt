-- ===== src/Tenant.antt =====
-- internal/tenant: the tenants of a request and the tokens of registered tenants.
pub mod Store
pub mod Session
pub mod Grants
pub mod JarKey
pub mod Tokens
pub mod Uuid
mod Tests

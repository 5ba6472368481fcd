-- ===== src/Api.antt =====
pub mod TenantQuota
pub mod Registry
pub mod Placement
pub mod Store
pub mod IdleSweep
pub mod ApiKeyCache
pub mod Auth
pub mod CreateSandbox
pub mod DeleteSandbox

-- ===== src/CloudVm.antt =====
-- internal/cloudvm: virtual machines at the cloud providers.
pub mod Catalog
pub mod Adapter
pub mod Retry
pub mod Confidential

-- ===== src/Provider.antt =====
-- packages/provider-core/src: what a provider declares, its health, and its errors.
pub mod Health
pub mod Error
pub mod Descriptor

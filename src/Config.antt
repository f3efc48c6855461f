-- ===== src/Config.antt =====
-- clients/config_client: the configuration client; common/filter and common/encryption/handler.go:
-- what its contents pass through; and clients/cache/disk_cache.go: its snapshots.
pub mod Disk
pub mod Filter
pub mod Encryption
pub mod Client
pub mod Publish
pub mod Events
pub mod Base64
pub mod Aes
pub mod Kms
pub mod Listen
pub mod Closing
pub mod Search
pub mod Limiter

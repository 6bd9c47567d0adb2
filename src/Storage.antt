-- ===== src/Storage.antt =====
-- Persistent storage: components/storage/src/storage_hal.c, key_store.c and intent_log.c.
pub mod Hal
pub mod KeyStore
pub mod Identity
pub mod IntentLog

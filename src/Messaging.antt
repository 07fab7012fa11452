-- ===== src/Messaging.antt =====
-- messaging/: backup tasks as messages.
pub mod Json
pub mod BackupTask
pub mod Publisher

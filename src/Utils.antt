-- ===== src/Utils.antt =====
-- src/exo/utils: the resequencing buffers, the backoff, the event log on disk.
pub mod EventBuffer
pub mod KeyedBackoff
pub mod Frames
pub mod DiskEventLog

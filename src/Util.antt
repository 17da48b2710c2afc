-- ===== src/Util.antt =====
-- The classes of the directory util.
pub mod Helpers
pub mod RingBuffer
pub mod TimedSemaphore
pub mod ExtensionList
pub mod UnorderedMap
pub mod Wsialloc
pub mod DrmUtils
pub mod Tests

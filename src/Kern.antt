-- ===== src/Kern.antt =====
-- The kernel of the library: src/kern and include/Xemeiah/kern.
pub mod JournalItem
pub mod Journal
pub mod ArrayMap
pub mod QNameMap
pub mod HashBucket
pub mod Utf8
pub mod Latin1
pub mod Mutex
pub mod KeyCache
pub mod KeyId
pub mod NamespaceAlias
mod Tests

-- ===== src/Content.antt =====
-- The content index: the parts of src/content/store.cpp that need no database.
pub mod Segments
pub mod Agreement
pub mod Cover
pub mod Filter
pub mod Query
pub mod Match
pub mod Terms
pub mod Placeholders
pub mod Sizes
pub mod FreeText
pub mod Index
pub mod Indexer
pub mod Keys
pub mod LiveRows
pub mod Consistency
pub mod Freshness
pub mod Reconcile
pub mod FullPass
pub mod Subtree
pub mod Upkeep

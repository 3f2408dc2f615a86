-- ===== src/Radix.antt =====
-- sglang_mlx/srt/mem_cache/radix_cache.py: the tree, its walks, and the cache over them.
pub mod Tree
pub mod Walk
pub mod View
pub mod MatchView
pub mod MatchWf
pub mod Overlay
pub mod InsertView
pub mod InsertWf
pub mod Policy
pub mod Lock
pub mod Cache
pub mod Evict
pub mod Samples
pub mod LockView
pub mod Refine
pub mod History
pub mod InsertPrefix
pub mod Weights
pub mod Measures
pub mod Tracks
pub mod Balance
pub mod Frequency
pub mod Undo
pub mod Leaves
pub mod LeavesLock
pub mod LeavesMatch
pub mod LeavesInsert
pub mod LeavesStore
pub mod LeavesHistory
pub mod TotalSize
pub mod Print
pub mod HistorySamples
pub mod PopOrder
pub mod EvictSamples
pub mod Found
pub mod Service
pub mod SlotSums
pub mod Extends
pub mod Answers
pub mod AnswerSlots
pub mod BaseCache
pub mod AsBase
pub mod Locks
pub mod ServiceSamples

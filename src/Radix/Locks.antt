-- ===== src/Radix/Locks.antt =====
-- The locks of the nodes against the requests that hold them: `inc_lock_ref` and `dec_lock_ref` of
-- radix_cache.py over the whole life of a request.
pub mod Counts
pub mod Ends
pub mod Matched
pub mod Climb
pub mod Cut
pub mod Calls
pub mod Whole
pub mod Clients
pub mod Owned
pub mod Found
pub mod Served
pub mod History
pub mod Sizes
pub mod Samples

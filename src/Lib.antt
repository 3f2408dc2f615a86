-- ===== src/Lib.antt =====
-- Verification of sglang-mlx: the KV-cache management of an MLX inference server,
-- sglang_mlx/srt/mem_cache, and the runner that drives it, sglang_mlx/model_runner.py.
--
-- A request's tokens have their keys and values in slots of a pool. TokenPoolAllocator hands
-- slots out and takes them back. RadixCache remembers, in a radix tree over token sequences,
-- which slots hold the tokens of which prefix, so that a new request reuses them: match_prefix
-- finds the slots of the longest cached prefix, insert adds a sequence with its slots,
-- inc_lock_ref and dec_lock_ref guard the path of a request in progress, and evict gives the
-- slots of unlocked leaves back to the allocator. MHATokenPool holds the arrays, and a
-- PooledKVCache shows the slots of one request to one attention layer as one array. ModelRunner
-- owns an allocator, a pool and a cache: forward_prefill matches a prompt, allocates slots for
-- the rest, runs the network, inserts the prompt and locks its node; forward_decode allocates a
-- slot for one token, runs the network and inserts the longer sequence; finish_request releases
-- the lock; generate composes the three.
--
-- Files and code:
-- - Prelude and its children: shared names, Boolean tests, lists over the native numbers, lists
--   as bags, signed integers, and Result for Python exceptions.
-- - Allocator: TokenPoolAllocator of sglang_mlx/srt/mem_cache/memory_pool.py. Allocator/Slots
--   has its theorems, with a client as a step relation; Allocator/Samples has runs.
-- - Radix/Tree: TreeNode, _key_match, _split_node and _update_leaf_status of
--   sglang_mlx/srt/mem_cache/radix_cache.py. A node of the heap is a header (TreeNode) with its
--   children (Children, a dictionary in insertion order); the parent pointer is the position in
--   the tree, and a reference to a node is its id, so a reference outlives a split as it does
--   in the source. Supply stands for the class attribute counter and the readings of
--   time.monotonic.
-- - Radix/Walk: the loops of _match_prefix_helper and _insert_helper, as recursions on the
--   tree.
-- - Radix/Policy: sglang_mlx/srt/mem_cache/evict_policy.py, the order of the heap entries, and
--   the choice of a strategy by name.
-- - Radix/Lock: the loops of inc_lock_ref and dec_lock_ref. The climb to the root is a
--   recursion that finds the node and changes the nodes on its way back; it answers none where
--   the node is not in the tree.
-- - Radix/Cache: the state of RadixCache, reset, match_prefix, insert, the lock calls, the
--   sizes and total_size, with the parameter types of base_prefix_cache.py and
--   cache_init_params.py.
-- - Radix/Evict: evict and _delete_leaf. The heap of heapq is the list of its entries. Below
--   it, View has answers that get shorter, LeafSums, Remove and Detach what taking a leaf off
--   changes, Victim and Round one round of the loop, HeapStart the heap it begins with, Loop
--   all rounds, Laws the call, and Promises what a client sees of it.
-- - Radix/Found: lock calls at nodes of the tree have a result. Radix/Service: histories of
--   calls with evictions among them; Radix/ServiceSamples has runs. Radix/SlotSums counts how
--   often the tree holds a slot, Radix/Extends compares the answers to a query and a longer
--   one, and Radix/AnswerSlots an answer's slots with those of the tree.
-- - Radix/View: the abstract view, the slots of the longest cached prefix of a query, and
--   well-formed trees. Radix/Overlay, MatchView, MatchWf, InsertView, InsertWf and LockView
--   carry it through the walks, and Radix/Refine and Radix/History through the public calls.
-- - Radix/Weights, Measures, Tracks and Balance: sums over the nodes, and the two sizes against
--   them. Radix/TotalSize: the loop of total_size. Radix/Print: pretty_print, whose lines are
--   records. Radix/Undo: a lock and its release. Radix/Frequency: what the LFU strategy sees.
--   Radix/PopOrder: the order of the heap.
-- - Radix/Leaves, LeavesMatch, LeavesLock, LeavesInsert, LeavesStore and LeavesHistory: the set
--   evictable_leaves against the tree.
-- - Radix/Answers: answers that grow by an insertion. Radix/Locks: inc_lock_ref and
--   dec_lock_ref against the clients that hold the locks. Counts has the lock count of a node
--   as the number of locks at and below it, Ends the node where a query ends, Matched the node
--   that a match returns, Climb the lock calls, Cut what evictions leave, Calls all calls of
--   the cache, Whole and Owned what a lock guards, Found that a matched node can be locked;
--   Clients has any history of matches, insertions, locks, releases and evictions as a step
--   relation, Served and History carry it, Sizes has the two sizes, and Samples runs.
-- - Radix/BaseCache: BasePrefixCache and the result types of
--   sglang_mlx/srt/mem_cache/base_prefix_cache.py as an interface with laws, and what a user
--   gets from the laws alone; Radix/AsBase fills it with RadixCache.
-- - Radix/InsertPrefix: the result of insert. Radix/Samples, HistorySamples and EvictSamples:
--   runs.
-- - KvPool: MHATokenPool and PooledKVCache of memory_pool.py over a parameter Mlx that stands
--   for the array library; KvPool/Store states the laws on arrays that the code relies on
--   (ArrayLaws) and KvPool/Rows the lists of rows behind them; KvPool/Samples has an instance.
-- - ModelConfig: _extract_model_config of sglang_mlx/model_runner.py; ModelConfig/Sizes has its
--   theorem and ModelConfig/Samples runs.
-- - ModelRunner/State, Prefill, Decode and Generate: RequestState, ForwardResult and
--   ModelRunner of sglang_mlx/model_runner.py with the constructor, forward_prefill,
--   forward_decode, finish_request and generate. ModelRunner/Load has load, with mlx_lm.load as
--   a parameter, and its theorem. An exception leaves the state as it was written before the
--   raise. The network is a parameter (Network), and may raise and write to the pool and the
--   caches.
-- - ModelRunner/Ready, PlanLaws, PrefillLaws, DecodeLaws, GenerateLaws and Enough: the calls
--   one by one. ModelRunner/Slots counts slots over them, and ModelRunner/Lost those of a
--   decode whose tokens are cached already; ModelRunner/Interleaved has any interleaving of
--   calls of several requests as a step relation, and ModelRunner/Pool its invariant.
--   ModelRunner/Turns adds evictions from the runner's cache to the interleavings; Guarded
--   carries the locks of the requests through the calls, Evicting has what they promise,
--   Generates what calls of generate leave of them, Shared the allocator that runner and cache
--   share, and Reclaim the slots when evictions come only while no request in progress has an
--   output. ModelRunner/Samples, Samples/Lost, Samples/Load and Samples/Evicting have runs.
--
-- Bounds and fuel: numbers are natural numbers of any size, and lock counts, priorities and the
-- two sizes are integers, as in Python. The loops over the tree need no fuel. The loops of
-- total_size and pretty_print have the number of nodes as fuel, and that is enough since each
-- round takes one node off the stack. The loop of evict has the number of nodes below the root
-- as fuel, since each round takes one node from the tree; out of fuel with entries left, or at
-- an entry that is not in the tree, the model answers none. The loop of generate is bounded by
-- max_tokens.
--
-- Choices: times are numbers, and clock gives the n-th reading of time.monotonic. Sizes given
-- to the allocator are natural numbers; a negative one takes the branch of zero in the source.
-- Of heapq the model has what the code relies on: the heap is the list of its entries, and
-- heappop takes a least one. Among entries that no comparison tells apart, it takes the first
-- of the list, and heapq may take another. Of str.lower the model has the ASCII letters, which
-- are all that the policy names need.
--
-- Request ids are only compared and stand as numbers; the id that uuid4 draws is an argument of
-- generate. The runner and its cache share one allocator, so with_allocator puts it in both
-- places. A model size that a configuration lacks is None; range and mx.zeros raise TypeError
-- for it, and where there are no layers no size is read. Lock calls are modelled at the root
-- and at the nodes of the tree. The source also climbs from a node that was evicted or stood
-- before a reset, along the parent pointers that it kept; such nodes are not part of the state
-- here, a call at one has no result, and histories with one are not covered. The clients of
-- Radix/Locks and the runner lock the last node of a match, at which a lock call has a result.
--
-- Not modelled: __repr__, which only writes text; the bodies of evictable_size, protected_size
-- and total_size of BasePrefixCache, which RadixCache overrides; sglang_mlx/metal_kernels.py,
-- bindings.cpp and paged_attention, which are calls into GPU kernels and these kernels;
-- packaging, tests and benchmarks.
pub mod Allocator
pub mod KvPool
pub mod ModelConfig
pub mod ModelRunner
pub mod Prelude
pub mod Radix

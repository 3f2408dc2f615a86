-- ===== src/ModelRunner/State.antt =====
-- The state of `ModelRunner` of sglang_mlx/model_runner.py, and of a request in progress. The
-- neural network is a parameter.
use sglang_mlx.Prelude.{ℕ, ◌+◌, false, List, [], length, Result, ok, ◌>>=◌}
use sglang_mlx.Allocator.{TokenPoolAllocator, new_allocator}
use sglang_mlx.KvPool.{Mlx, MhaTokenPool, PooledKvCache, new_pool}
use sglang_mlx.Radix.Tree.{Supply}
use sglang_mlx.Radix.Cache.{CacheInitParams, RadixCache, new_cache, set_allocator}

pub data ForwardMode : Type 0 where
  prefill decode : ForwardMode

-- A request in progress. Request ids are only compared, so they stand as numbers; `radix_node` is
-- a reference to a node of the tree.
pub record RequestState : Type 0 where
  pub request_id : ℕ
  pub prompt_tokens : List ℕ
  pub output_tokens : List ℕ
  pub all_slot_indices : List ℕ
  pub radix_node : ℕ
  pub prefix_len : ℕ
  pub kv_caches : List PooledKvCache

-- `seq_len` and `total_cached_len`.
unfoldable pub seq_len : RequestState → ℕ
seq_len s = length s.prompt_tokens + length s.output_tokens

unfoldable pub total_cached_len : RequestState → ℕ
total_cached_len s = length s.all_slot_indices

-- The network: `self._model(input_ids, cache=…)`, which writes the pool through the caches,
-- `logits[0, -1, :]`, and `mx.argmax(…).item()`.
pub record Network (m : Mlx) : Type 1 where
  pub Logits : Type 0
  pub forward :
      List ℕ
      → List PooledKvCache
      → MhaTokenPool m
      → Result Logits × (List PooledKvCache × MhaTokenPool m)
  pub last_logits : Logits → m.Array
  pub argmax : m.Array → ℕ

-- `Result` stands for the exceptions; an id is in `active_requests` while its state is there.
module _ (m : Mlx) where
  pub record ForwardResult : Type 0 where
    pub logits : m.Array
    pub forward_mode : ForwardMode

  -- The allocator is one object, which the runner and its cache both hold.
  pub record ModelRunner : Type 0 where
    pub num_layers : ℕ
    pub allocator : TokenPoolAllocator
    pub pool : MhaTokenPool m
    pub radix_cache : RadixCache
    pub active_requests : List ℕ

-- `CacheInitParams()`.
abbrev pub default_params : CacheInitParams
default_params = record { disable = false; page_size = 1; eviction_policy = "lru" }

-- `ModelRunner(model, tokenizer, config, pool_size, dtype)`, with the sizes of `config`.
unfoldable pub new_runner : (m : Mlx) → ℕ → ℕ → ℕ → ℕ → m.Dtype → Supply → Result (ModelRunner m)
new_runner m num_layers n_kv_heads head_dim pool_size dtype s = do
  allocator ← new_allocator pool_size
  cache ← new_cache default_params s
  ok (record {
    num_layers = num_layers;
    allocator = allocator;
    pool = new_pool m pool_size num_layers n_kv_heads head_dim dtype;
    radix_cache = set_allocator cache allocator;
    active_requests = [];
  })

-- The runner after a call of its allocator, which is also that of the cache.
abbrev pub with_allocator : (m : Mlx) → ModelRunner m → TokenPoolAllocator → ModelRunner m
with_allocator m r a = record r { allocator = a; radix_cache = set_allocator r.radix_cache a }

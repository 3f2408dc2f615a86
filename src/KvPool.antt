-- ===== src/KvPool.antt =====
-- `MHATokenPool` and `PooledKVCache` of sglang_mlx/srt/mem_cache/memory_pool.py. The arrays of mlx
-- and what the code calls on them are a parameter.
use sglang_mlx.Prelude.{
  ℕ, suc, ◌+◌, Option, none, some, List, [], ◌∷◌, ◌++◌, take, drop, length, set, zero, replicate,
  Result, ok, raise, index_error, ◌>>=◌, Bool, true, false,
}
pub mod Rows
pub mod Store
pub mod Samples

-- `mlx.core`: arrays, element types and attention masks, with the calls of the pool.
pub record Mlx : Type 1 where
  pub Array : Type 0
  pub Dtype : Type 0
  pub Mask : Type 0
  -- `mx.zeros(shape, dtype=…)`.
  pub zeros : List ℕ → Dtype → Array
  -- `a[0]`.
  pub first : Array → Array
  -- `mx.transpose(a, axes=(1, 0, 2))`.
  pub transpose : Array → Array
  -- `mx.expand_dims(a, axis=0)`.
  pub expand_dims : Array → Array
  -- `a[idx]` and `a[idx] = b` for a list of indices along the first axis.
  pub gather : Array → List ℕ → Array
  pub scatter : Array → List ℕ → Array → Array
  -- `a.shape[2]`.
  pub tokens : Array → ℕ
  -- `create_attention_mask` of mlx-lm: N, offset, return_array and window_size.
  pub create_attention_mask : ℕ → ℕ → Bool → Option ℕ → Option Mask

module _ (m : Mlx) where
  pub record MhaTokenPool : Type 0 where
    pub pool_size : ℕ
    pub num_layers : ℕ
    pub n_kv_heads : ℕ
    pub head_dim : ℕ
    pub dtype : m.Dtype
    pub k_buffer : List m.Array
    pub v_buffer : List m.Array

-- A buffer of the list, or `IndexError`.
abbrev pub nth : {A : Type 0} → List A → ℕ → Result A
nth [] i = raise index_error
nth (x ∷ xs) zero = ok x
nth (x ∷ xs) (suc i) = nth xs i

-- `MHATokenPool(pool_size, num_layers, n_kv_heads, head_dim, dtype)`.
unfoldable pub new_pool : (m : Mlx) → ℕ → ℕ → ℕ → ℕ → m.Dtype → MhaTokenPool m
new_pool m pool_size num_layers n_kv_heads head_dim dtype =
    let buffer = m.zeros (suc pool_size ∷ n_kv_heads ∷ head_dim ∷ []) dtype in
    record {
      pool_size = pool_size;
      num_layers = num_layers;
      n_kv_heads = n_kv_heads;
      head_dim = head_dim;
      dtype = dtype;
      k_buffer = replicate num_layers buffer;
      v_buffer = replicate num_layers buffer;
    }

-- `store`: the new tokens go to the slots `indices` of one layer.
unfoldable pub store :
    (m : Mlx) → MhaTokenPool m → ℕ → List ℕ → m.Array → m.Array → Result (MhaTokenPool m)
store m p layer_idx indices keys values = do
  k_buffer ← nth p.k_buffer layer_idx
  v_buffer ← nth p.v_buffer layer_idx
  let k = m.scatter k_buffer indices (m.transpose (m.first keys))
  let v = m.scatter v_buffer indices (m.transpose (m.first values))
  ok (record p { k_buffer = set p.k_buffer layer_idx k; v_buffer = set p.v_buffer layer_idx v })

-- `fetch`.
unfoldable pub fetch : (m : Mlx) → MhaTokenPool m → ℕ → List ℕ → Result (m.Array × m.Array)
fetch m p layer_idx indices = do
  k_buffer ← nth p.k_buffer layer_idx
  v_buffer ← nth p.v_buffer layer_idx
  ok (
    m.expand_dims (m.transpose (m.gather k_buffer indices)),
    m.expand_dims (m.transpose (m.gather v_buffer indices)),
  )

-- The pool is shared, so it is passed to the calls.
pub record PooledKvCache : Type 0 where
  pub layer_idx : ℕ
  pub prefix_indices : List ℕ
  pub new_indices : List ℕ
  pub store_offset : ℕ

-- `PooledKVCache(pool, layer_idx)`.
unfoldable pub new_kv_cache : ℕ → PooledKvCache
new_kv_cache layer_idx = record {
  layer_idx = layer_idx;
  prefix_indices = [];
  new_indices = [];
  store_offset = 0;
}

-- `set_indices`.
unfoldable pub set_indices : PooledKvCache → List ℕ → List ℕ → PooledKvCache
set_indices c prefix_indices new_indices = record c {
  prefix_indices = prefix_indices;
  new_indices = new_indices;
  store_offset = 0;
}

-- `offset`.
unfoldable pub offset : PooledKvCache → ℕ
offset c = length c.prefix_indices

-- The slots of the prefix and of the new tokens that are stored.
unfoldable pub all_indices : PooledKvCache → List ℕ
all_indices c = c.prefix_indices ++ take c.store_offset c.new_indices

-- `update_and_fetch`: the arrays for the attention layer, the cache and the pool.
unfoldable pub update_and_fetch :
    (m : Mlx)
    → MhaTokenPool m
    → PooledKvCache
    → m.Array
    → m.Array
    → Result ((m.Array × m.Array) × (PooledKvCache × MhaTokenPool m))
unfolding store fetch all_indices
update_and_fetch m p c keys values =
    let n_new = m.tokens keys in
    let store_indices = take n_new (drop c.store_offset c.new_indices) in
    let c' = record c { store_offset = c.store_offset + n_new } in
    do
      p' ← store m p c.layer_idx store_indices keys values
      kv ← fetch m p' c.layer_idx (all_indices c')
      ok (kv, (c', p'))

abbrev pub is_none : List ℕ → Bool
is_none [] = true
is_none (x ∷ xs) = false

-- `state`: `(None, None)` where no slot is set.
unfoldable pub state :
    (m : Mlx) → MhaTokenPool m → PooledKvCache → Result (Option (m.Array × m.Array))
unfolding fetch all_indices
state m p c = elim (is_none (all_indices c)) [
  | true ↦ ok none
  | false ↦ fetch m p c.layer_idx (all_indices c) >>= (λ kv. ok (some kv))
]

-- `make_mask`.
unfoldable pub make_mask : (m : Mlx) → PooledKvCache → ℕ → Bool → Option ℕ → Option m.Mask
unfolding offset
make_mask m c n return_array window_size =
    m.create_attention_mask n (offset c) return_array window_size

-- ===== src/ModelRunner/Load.antt =====
-- `ModelRunner.load`: the configuration of a model that mlx-lm loads, and the runner made from it.
-- `mlx_lm.load` is a parameter; the tokenizer that it returns is never read.
use Prim.Native.Nat.{◌*◌}
use Prim.Native.String.{String}
use sglang_mlx.Prelude.{
  ℕ, zero, suc, Option, none, some, List, [], ◌≡◌, refl, ◌∙◌, arith, Result, ok, raise, ◌>>=◌,
  type_error, length, false, leb,
}
use sglang_mlx.ModelRunner.Pool.{before_reset}
use sglang_mlx.Allocator.{TokenPoolAllocator, new_allocator, available_size, range_down}
use sglang_mlx.KvPool.{Mlx, new_pool}
use sglang_mlx.Radix.Tree.{Supply}
use sglang_mlx.Radix.Policy.{choose_strategy, same}
use sglang_mlx.Radix.View.{cached_children}
use sglang_mlx.Radix.Refine.{cached}
use sglang_mlx.Radix.Cache.{reset, new_cache, set_allocator}
use sglang_mlx.ModelConfig.{
  hidden_size, num_attention_heads, head_dim, num_key_value_heads, Model, ModelConfig, get, entries,
  extract_model_config,
}
use sglang_mlx.ModelConfig.Sizes.{extract_model_config-sizes}
use sglang_mlx.ModelRunner.State.{ModelRunner, new_runner}

-- A size that is read only where there are layers.
abbrev size_or_zero : Option ℕ → ℕ
size_or_zero none = zero
size_or_zero (some n) = n

-- The sizes of the buffers of `MHATokenPool`. `range` and `mx.zeros` raise `TypeError` for `None`;
-- where there are no layers, no buffer is made.
unfoldable pub pool_sizes : Option ℕ → Option ℕ → Option ℕ → Result (ℕ × ℕ × ℕ)
pool_sizes none heads dim = raise type_error
pool_sizes (some zero) heads dim = ok (zero, size_or_zero heads, size_or_zero dim)
pool_sizes (some (suc n)) none dim = raise type_error
pool_sizes (some (suc n)) (some h) none = raise type_error
pool_sizes (some (suc n)) (some h) (some d) = ok (suc n, h, d)

-- `cls(model, tokenizer, config, pool_size, dtype)`: the allocator is made before the pool.
unfoldable pub configured : (m : Mlx) → ModelConfig → ℕ → m.Dtype → Supply → Result (ModelRunner m)
unfolding pool_sizes
configured m config pool_size dtype s = do
  allocator ← new_allocator pool_size
  (num_layers, n_kv_heads, dim) ← pool_sizes config.num_layers config.n_kv_heads config.head_dim
  new_runner m num_layers n_kv_heads dim pool_size dtype s

-- `load`.
unfoldable pub load :
    (m : Mlx) → (String → Result Model) → String → ℕ → m.Dtype → Supply → Result (ModelRunner m)
unfolding configured
load m mlx_load model_path pool_size dtype s = do
  model ← mlx_load model_path
  configured m (extract_model_config model none) pool_size dtype s

length-range_down : (n : ℕ) → length (range_down n) ≡ n
unfolding range_down
length-range_down zero = refl
length-range_down (suc n) = omega (arith, length-range_down n)

new_allocator-positive :
    (n : ℕ)
    → new_allocator (suc n) ≡ ok (record { pool_size = suc n; free_slots = range_down (suc n) })
unfolding new_allocator
new_allocator-positive n = let e : leb (suc n) 0 ≡ false = ground arith in rw e refl

configured-sizes :
    (m : Mlx) (config : ModelConfig) (n h d pool_size : ℕ) (dtype : m.Dtype) (s : Supply)
    → config.num_layers ≡ some (suc n)
    → config.n_kv_heads ≡ some h
    → config.head_dim ≡ some d
    → configured m config (suc pool_size) dtype s ≡ new_runner m (suc n) h d (suc pool_size) dtype s
unfolding configured pool_sizes
configured-sizes m config n h d pool_size dtype s el eh ed =
    rw (el, eh, ed, new_allocator-positive pool_size) refl

made-sizes :
    (m : Mlx) (n h d pool_size : ℕ) (dtype : m.Dtype) (s : Supply)
    → (r : ModelRunner m) × (new_runner m n h d (suc pool_size) dtype s ≡ ok r)
      × (r.num_layers ≡ n)
      × (r.pool ≡ new_pool m (suc pool_size) n h d dtype)
      × (available_size r.allocator ≡ suc pool_size)
      × ((q : List ℕ) → cached r.radix_cache q ≡ [])
unfolding new_runner new_cache choose_strategy same set_allocator reset cached_children
    available_size
made-sizes m n h d pool_size dtype s =
    let allocator : TokenPoolAllocator = record {
      pool_size = suc pool_size;
      free_slots = range_down (suc pool_size);
    } in
    let r : ModelRunner m = record {
      num_layers = n;
      allocator = allocator;
      pool = new_pool m (suc pool_size) n h d dtype;
      radix_cache = set_allocator (reset (before_reset s)) allocator;
      active_requests = [];
    } in
    (
      r,
      rw (new_allocator-positive pool_size) refl,
      refl,
      refl,
      length-range_down (suc pool_size),
      λ q. refl,
    )

-- For a model with layers whose `args` give `h > 0` heads and a hidden size of `d * h > 0`, but no
-- head size and no number of key-value heads, and a positive pool size: `load` returns a runner
-- with the layers of the model and buffers for `h` heads of size `d`, all slots of which are free,
-- and whose cache has no answers.
pub load-sizes :
    (m : Mlx) (mlx_load : String → Result Model) (model_path : String) (model : Model)
    (n d h pool_size : ℕ) (dtype : m.Dtype) (s : Supply)
    → mlx_load model_path ≡ ok model
    → model.layers ≡ some (suc n)
    → let read = get model.args (entries none) in
      read num_attention_heads ≡ some (suc h)
      → read hidden_size ≡ some (suc d * suc h)
      → read head_dim ≡ none
      → read num_key_value_heads ≡ none
      → (r : ModelRunner m) × (load m mlx_load model_path (suc pool_size) dtype s ≡ ok r)
        × (r.num_layers ≡ suc n)
        × (r.pool ≡ new_pool m (suc pool_size) (suc n) (suc h) (suc d) dtype)
        × (available_size r.allocator ≡ suc pool_size)
        × ((q : List ℕ) → cached r.radix_cache q ≡ [])
unfolding load
load-sizes m mlx_load model_path model n d h pool_size dtype s loads el eh es ed ek =
    let config = extract_model_config model none in
    let (dim, kv) = extract_model_config-sizes model none d h eh es ed ek in
    let layers : config.num_layers ≡ some (suc n) = unfold extract_model_config in rw el refl in
    let (r, made, layered, pooled, free, empty) =
      made-sizes m (suc n) (suc h) (suc d) pool_size dtype s in
    (
      r,
      rw loads (configured-sizes m config n (suc h) (suc d) pool_size dtype s layers kv dim) ∙ made,
      layered,
      pooled,
      free,
      empty,
    )

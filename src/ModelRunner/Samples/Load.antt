-- ===== src/ModelRunner/Samples/Load.antt =====
-- A model that is loaded, and models that cannot be.
use sglang_mlx.Prelude.{ℕ, ◌≡◌, refl, List, [], none, some, ok, raise, type_error, value_error}
use sglang_mlx.Allocator.{available_size, new_allocator}
use sglang_mlx.KvPool.{new_pool}
use sglang_mlx.Radix.Refine.{cached}
use sglang_mlx.Radix.Samples.{one_leaf}
use sglang_mlx.ModelConfig.{Model, get, extract_model_config}
use sglang_mlx.ModelConfig.Samples.{model}
use sglang_mlx.ModelRunner.State.{ModelRunner}
use sglang_mlx.ModelRunner.Load.{pool_sizes, configured, load, load-sizes}
use sglang_mlx.ModelRunner.Samples.{lists}

-- Layers, and no attributes.
abbrev bare : Model
bare = record { layers = some 2; args = none }

no_heads : load lists (λ path. ok bare) "bare" 5 tt one_leaf.supply ≡ raise type_error
unfolding load configured pool_sizes new_allocator extract_model_config get
no_heads = refl

-- The pool size is looked at first.
no_slots : load lists (λ path. ok bare) "bare" 0 tt one_leaf.supply ≡ raise value_error
unfolding load configured new_allocator
no_slots = refl

load-sizes_example :
    (r : ModelRunner lists) × (load lists (λ path. ok model) "model" 5 tt one_leaf.supply ≡ ok r)
    × (r.num_layers ≡ 2)
    × (r.pool ≡ new_pool lists 5 2 4 3 tt)
    × (available_size r.allocator ≡ 5)
    × ((q : List ℕ) → cached r.radix_cache q ≡ [])
unfolding get
load-sizes_example =
    load-sizes lists (λ path. ok model) "model" model 1 2 3 4 tt one_leaf.supply refl refl refl refl
      refl refl

-- ===== src/KvPool/Samples.antt =====
-- A pool whose arrays are lists of numbers up to 255, one for each token, and the theorem on it.
use sglang_mlx.Prelude.{
  map, min, ℕ, List, [], ◌∷◌, ◌++◌, ◌≡◌, refl, length, none, ok, raise, index_error, ◌≢◌, get_elem?,
  count, arith, replicate,
}
use sglang_mlx.KvPool.{
  Mlx, MhaTokenPool, PooledKvCache, new_kv_cache, set_indices, fetch, all_indices, update_and_fetch,
}
use sglang_mlx.KvPool.Rows.{IsWithin, AreApart, read, write}
use sglang_mlx.KvPool.Store.{
  ArrayLaws, token_rows, stored_rows, in_slots, next_slots, update_and_fetch_lem,
}

-- The token axis comes first in every list, so the axes need no exchange.
abbrev list_size : List ℕ → ℕ
list_size [] = 0
list_size (n ∷ shape) = n

abbrev lists : Mlx
unfolding read write
lists = record {
  Array = List ℕ;
  Dtype = Unit {0};
  Mask = Unit {0};
  zeros = λ shape dtype. replicate (list_size shape) 0;
  first = λ a. a;
  transpose = λ a. a;
  expand_dims = λ a. a;
  gather = λ a idx. read 0 a idx;
  scatter = λ a idx b. write a idx (map (λ x. min x 255) b);
  tokens = λ a. length a;
  create_attention_mask = λ n o r w. none;
}

lists-laws : ArrayLaws lists
unfolding lists
lists-laws = record {
  Row = ℕ;
  pad = 0;
  rows = λ a. a;
  dtype = λ a. tt;
  cast = λ d x. min x 255;
  rows-gather = λ a idx some_index w. refl;
  rows-scatter = λ a b idx some_index once w e. refl;
  transpose-transpose = λ a. refl;
  first-expand_dims = λ a. refl;
  tokens-rows = λ a. refl;
}

-- Two layers with the slots 0 to 3; slot 3 holds a token of a prefix.
abbrev pool : MhaTokenPool lists
unfolding lists
pool = record {
  pool_size = 3;
  num_layers = 2;
  n_kv_heads = 1;
  head_dim = 1;
  dtype = tt;
  k_buffer = (0 ∷ 0 ∷ 0 ∷ 7 ∷ []) ∷ (0 ∷ 0 ∷ 0 ∷ 0 ∷ []) ∷ [];
  v_buffer = (0 ∷ 0 ∷ 0 ∷ 8 ∷ []) ∷ (0 ∷ 0 ∷ 0 ∷ 0 ∷ []) ∷ [];
}

abbrev cache : PooledKvCache
cache = record {
  layer_idx = 0;
  prefix_indices = 3 ∷ [];
  new_indices = 1 ∷ 2 ∷ [];
  store_offset = 0;
}

cache_set : set_indices (new_kv_cache 0) (3 ∷ []) (1 ∷ 2 ∷ []) ≡ cache
unfolding set_indices new_kv_cache
cache_set = refl

no_layer : fetch lists pool 2 (3 ∷ []) ≡ raise index_error
unfolding fetch lists pool
no_layer = refl

cache-AreApart : AreApart cache.prefix_indices cache.new_indices
unfolding count
cache-AreApart i = ground arith

cache-IsWithin : IsWithin 4 (3 ∷ 1 ∷ 2 ∷ [])
unfolding count
cache-IsWithin i h = ground arith

abbrev first_key : List ℕ
first_key = 500 ∷ []

abbrev first_value : List ℕ
first_value = 6 ∷ []

abbrev Fetches : List ℕ → List ℕ → List ℕ → List ℕ → Type 0
unfolding lists pool
Fetches keys values kb vb =
    (k : lists.Array) × (v : lists.Array) × (d : PooledKvCache) × (q : MhaTokenPool lists)
    × (update_and_fetch lists pool cache keys values ≡ ok ((k, v), (d, q)))
    × (token_rows lists lists-laws k
        ≡ in_slots lists lists-laws kb (all_indices cache) ++ stored_rows lists lists-laws kb keys)
    × (token_rows lists lists-laws v
        ≡ in_slots lists lists-laws vb (all_indices cache)
          ++ stored_rows lists lists-laws vb values)
    × (all_indices d ≡ all_indices cache ++ next_slots lists lists-laws cache keys)
    × ((j : ℕ)
        → 0 ≢ j
        → (get_elem? q.k_buffer j ≡ get_elem? pool.k_buffer j)
          × (get_elem? q.v_buffer j ≡ get_elem? pool.v_buffer j))

update_and_fetch_lem_example :
    Fetches first_key first_value (0 ∷ 0 ∷ 0 ∷ 7 ∷ []) (0 ∷ 0 ∷ 0 ∷ 8 ∷ [])
unfolding Fetches lists pool lists-laws
update_and_fetch_lem_example =
    update_and_fetch_lem lists lists-laws pool cache first_key first_value (0 ∷ 0 ∷ 0 ∷ 7 ∷ [])
      (0 ∷ 0 ∷ 0 ∷ 8 ∷ []) refl refl cache-AreApart cache-IsWithin cache-IsWithin (omega arith) refl
      (omega arith)

-- ===== src/ModelRunner/Decode.antt =====
-- `forward_decode` and `finish_request` of `ModelRunner`.
use sglang_mlx.Prelude.{ℕ, some, List, [], ◌∷◌, ◌++◌, map, Result, ok, raise, pos}
use sglang_mlx.Allocator.{TokenPoolAllocator, alloc}
use sglang_mlx.KvPool.{Mlx, MhaTokenPool, PooledKvCache, set_indices}
use sglang_mlx.Radix.Tree.{discard}
use sglang_mlx.Radix.Cache.{InsertParams, insert, dec_lock_ref}
use sglang_mlx.ModelRunner.State.{
  decode, RequestState, Network, ForwardResult, ModelRunner, with_allocator,
}
use sglang_mlx.ModelRunner.Prefill.{locked_cache}

-- Steps 4 and 5 of `forward_decode`.
unfoldable pub finish_decode :
    (m : Mlx) → ModelRunner m → RequestState → ℕ → List ℕ → RequestState × ModelRunner m
finish_decode m r state token new_slot =
    let output_tokens = state.output_tokens ++ (token ∷ []) in
    let all_slot_indices = state.all_slot_indices ++ new_slot in
    let all_tokens = state.prompt_tokens ++ output_tokens in
    let entry : InsertParams = record {
      key = all_tokens;
      value = some all_slot_indices;
      priority = pos 0;
    } in
    (
      record state { output_tokens = output_tokens; all_slot_indices = all_slot_indices },
      record r { radix_cache = (insert r.radix_cache entry).1 },
    )

abbrev pub decode_ran :
    (m : Mlx) (n : Network m)
    → ModelRunner m
    → RequestState
    → ℕ
    → List ℕ
    → Result n.Logits × (List PooledKvCache × MhaTokenPool m)
    → Result (ForwardResult m) × (RequestState × ModelRunner m)
decode_ran m n r state token new_slot (raise e, (kv_caches, pool)) =
    (raise e, (record state { kv_caches = kv_caches }, record r { pool = pool }))
decode_ran m n r state token new_slot (ok logits, (kv_caches, pool)) = (
  ok (record { logits = n.last_logits logits; forward_mode = decode }),
  finish_decode m (record r { pool = pool }) (record state { kv_caches = kv_caches }) token
      new_slot,
)

abbrev pub decode_allocated :
    (m : Mlx) (n : Network m)
    → ModelRunner m
    → RequestState
    → ℕ
    → Result (List ℕ × TokenPoolAllocator)
    → Result (ForwardResult m) × (RequestState × ModelRunner m)
decode_allocated m n r state token (raise e) = (raise e, (state, r))
decode_allocated m n r state token (ok (new_slot, a)) =
    let kv_caches = map (λ c. set_indices c state.all_slot_indices new_slot) state.kv_caches in
    decode_ran m n (with_allocator m r a) state token new_slot
      (n.forward (token ∷ []) kv_caches r.pool)

-- `forward_decode`, which changes the state of the request.
unfoldable pub forward_decode :
    (m : Mlx) (n : Network m)
    → ModelRunner m
    → RequestState
    → ℕ
    → Result (ForwardResult m) × (RequestState × ModelRunner m)
unfolding finish_decode
forward_decode m n r state token = decode_allocated m n r state token (alloc r.allocator 1)

-- `finish_request`.
unfoldable pub finish_request : (m : Mlx) → ModelRunner m → RequestState → ModelRunner m
finish_request m r state = record r {
  radix_cache = locked_cache r.radix_cache (dec_lock_ref r.radix_cache state.radix_node);
  active_requests = discard state.request_id r.active_requests;
}

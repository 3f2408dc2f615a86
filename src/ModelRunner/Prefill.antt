-- ===== src/ModelRunner/Prefill.antt =====
-- `forward_prefill` of `ModelRunner`. A call returns its result or an exception, with the runner
-- after it: what was written before a raise stays written.
use sglang_mlx.Prelude.{
  ℕ, zero, suc, ◌-◌, ◌&&◌, Option, none, some, List, [], ◌∷◌, ◌++◌, map, length, take, drop, get_or,
  ltb, leb, if◌then◌else◌, Result, ok, raise, ℤ, pos,
}
use sglang_mlx.Allocator.{TokenPoolAllocator, alloc}
use sglang_mlx.KvPool.{Mlx, MhaTokenPool, PooledKvCache, new_kv_cache, set_indices}
use sglang_mlx.Radix.Tree.{add_once}
use sglang_mlx.Radix.Cache.{InsertParams, RadixCache, match_prefix, insert, inc_lock_ref}
use sglang_mlx.ModelRunner.State.{
  prefill, RequestState, Network, ForwardResult, ModelRunner, with_allocator,
}

-- What step 2 of `forward_prefill` settles.
pub record Plan : Type 0 where
  pub prefix_indices : List ℕ
  pub prefix_len : ℕ
  pub new_tokens : List ℕ
  pub new_slot_indices : List ℕ

abbrev pub plan_allocated :
    (m : Mlx)
    → ModelRunner m
    → List ℕ
    → List ℕ
    → Result (List ℕ × TokenPoolAllocator)
    → Result Plan × ModelRunner m
plan_allocated m r prompt prefix (raise e) = (raise e, r)
plan_allocated m r prompt prefix (ok (slots, a)) = (
  ok (record {
    prefix_indices = prefix;
    prefix_len = length prefix;
    new_tokens = drop (length prefix) prompt;
    new_slot_indices = slots;
  }),
  with_allocator m r a,
)

-- Where the whole prompt is cached, its last token is processed again in its slot.
unfoldable pub plan_prefill :
    (m : Mlx) → ModelRunner m → List ℕ → List ℕ → Result Plan × ModelRunner m
plan_prefill m r prompt prefix =
    let n = length prefix in
    if leb (length prompt) n && ltb 0 n
    then (
      ok (record {
        prefix_indices = take (n - 1) prefix;
        prefix_len = n - 1;
        new_tokens = drop (n - 1) prompt;
        new_slot_indices = get_or prefix (n - 1) 0 ∷ [];
      }),
      r,
    )
    else plan_allocated m r prompt prefix (alloc r.allocator (length (drop n prompt)))

-- `range(n)`, for the layers.
unfoldable pub range_from : ℕ → ℕ → List ℕ
range_from i zero = []
range_from i (suc n) = i ∷ range_from (suc i) n

-- A `PooledKVCache` for each layer, with the slots of the plan.
unfoldable pub plan_caches : ℕ → Plan → List PooledKvCache
unfolding range_from
plan_caches num_layers plan =
    map (λ i. set_indices (new_kv_cache i) plan.prefix_indices plan.new_slot_indices)
      (range_from 0 num_layers)

-- A lock call at a node that a match returned or a request holds. These are in the tree.
abbrev pub locked_cache : RadixCache → Option (ℤ × RadixCache) → RadixCache
locked_cache c none = c
locked_cache c (some (delta, d)) = d

-- Steps 5 to 7 of `forward_prefill`.
unfoldable pub finish_prefill :
    (m : Mlx)
    → ModelRunner m
    → ℕ
    → List ℕ
    → Plan
    → List PooledKvCache
    → m.Array
    → (RequestState × ForwardResult m) × ModelRunner m
finish_prefill m r request_id prompt plan kv_caches logits =
    let all_slot_indices = plan.prefix_indices ++ plan.new_slot_indices in
    let entry : InsertParams = record {
      key = prompt;
      value = some all_slot_indices;
      priority = pos 0;
    } in
    let inserted = (insert r.radix_cache entry).1 in
    let (match_after, matched) = match_prefix inserted prompt in
    let node = match_after.last_node in
    let held = locked_cache matched (inc_lock_ref matched node) in
    (
      (
        record {
          request_id = request_id;
          prompt_tokens = prompt;
          output_tokens = [];
          all_slot_indices = all_slot_indices;
          radix_node = node;
          prefix_len = plan.prefix_len;
          kv_caches = kv_caches;
        },
        record { logits = logits; forward_mode = prefill },
      ),
      record r { radix_cache = held; active_requests = add_once request_id r.active_requests },
    )

-- What `forward_prefill` makes of the network's result.
abbrev pub prefill_ran :
    (m : Mlx) (n : Network m)
    → ModelRunner m
    → ℕ
    → List ℕ
    → Plan
    → Result n.Logits × (List PooledKvCache × MhaTokenPool m)
    → Result (RequestState × ForwardResult m) × ModelRunner m
prefill_ran m n r request_id prompt plan (raise e, (kv_caches, pool)) =
    (raise e, record r { pool = pool })
prefill_ran m n r request_id prompt plan (ok logits, (kv_caches, pool)) =
    let (result, after) =
      finish_prefill m (record r { pool = pool }) request_id prompt plan kv_caches
        (n.last_logits logits) in
    (ok result, after)

abbrev pub prefill_planned :
    (m : Mlx) (n : Network m)
    → ℕ
    → List ℕ
    → Result Plan × ModelRunner m
    → Result (RequestState × ForwardResult m) × ModelRunner m
prefill_planned m n request_id prompt (raise e, r) = (raise e, r)
prefill_planned m n request_id prompt (ok plan, r) =
    prefill_ran m n r request_id prompt plan
      (n.forward plan.new_tokens (plan_caches r.num_layers plan) r.pool)

-- `forward_prefill`.
unfoldable pub forward_prefill :
    (m : Mlx) (n : Network m)
    → ModelRunner m
    → ℕ
    → List ℕ
    → Result (RequestState × ForwardResult m) × ModelRunner m
unfolding plan_prefill plan_caches finish_prefill
forward_prefill m n r request_id prompt =
    let (found, c) = match_prefix r.radix_cache prompt in
    prefill_planned m n request_id prompt
      (plan_prefill m (record r { radix_cache = c }) prompt found.device_indices)

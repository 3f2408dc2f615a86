-- ===== src/ModelRunner/PrefillLaws.antt =====
-- What a request has after `forward_prefill`.
use sglang_mlx.Prelude.{
  ℕ, ◌+◌, ◌-◌, ◌<◌, some, List, [], ◌++◌, ◌≡◌, refl, sym, ◌∙◌, ap, ap₂, arith, length, drop, inl,
  inr, Result, ok, raise, pos, memory_error, ◌⊎◌,
}
use sglang_mlx.Allocator.{available_size}
use sglang_mlx.KvPool.{Mlx, MhaTokenPool, PooledKvCache}
use sglang_mlx.Radix.Cache.{RadixCache, InsertParams, match_prefix, insert}
use sglang_mlx.Radix.Refine.{cached, match_prefix-cached, cached-match_prefix, cached-insert}
use sglang_mlx.Radix.InsertPrefix.{prefix_len-insert, match_prefix-insert}
use sglang_mlx.ModelRunner.State.{
  RequestState, Network, ForwardResult, ModelRunner, seq_len, total_cached_len,
}
use sglang_mlx.ModelRunner.Prefill.{
  Plan, plan_prefill, plan_caches, finish_prefill, prefill_ran, prefill_planned, forward_prefill,
}
use sglang_mlx.Radix.Evict.View.{IsPrefix}
use sglang_mlx.Radix.Answers.{overlay-grows}
use sglang_mlx.ModelRunner.Ready.{IsReady, match-IsReady, insert-IsReady, inc-IsReady}
use sglang_mlx.ModelRunner.PlanLaws.{HasSlots, IsPlan, Planned, plan_prefill_lem, drop-append}

-- The request that `forward_prefill` returns, and the runner after it.
pub record Prefilled (prompt : List ℕ) (s : RequestState) (c0 c : RadixCache) : Type 0 where
  pub ready : IsReady c
  pub same_prompt : s.prompt_tokens ≡ prompt
  pub no_output : s.output_tokens ≡ []
  pub slots : HasSlots s
  pub found : cached c prompt ≡ s.all_slot_indices
  pub grows : (q : List ℕ) → IsPrefix (cached c0 q) (cached c q)

-- The cache that the plan is inserted into answers the prompt with the plan's slots.
pub insert-stored :
    (m : Mlx) (r : ModelRunner m) (c : RadixCache) (prompt rest : List ℕ) (plan : Plan)
    → IsReady r.radix_cache
    → IsPlan c prompt plan rest
    → ((q : List ℕ) → cached r.radix_cache q ≡ cached c q)
    → let value = plan.prefix_indices ++ plan.new_slot_indices in
      cached
        (insert r.radix_cache (record { key = prompt; value = some value; priority = pos 0 })).1
        prompt
      ≡ value
insert-stored m r c prompt rest plan v p same =
    let value = plan.prefix_indices ++ plan.new_slot_indices in
    let entry : InsertParams = record { key = prompt; value = some value; priority = pos 0 } in
    let d = (insert r.radix_cache entry).1 in
    let w = insert-IsReady r.radix_cache prompt value p.paired v in
    let n : (insert r.radix_cache entry).0 ≡ length (cached c prompt) =
      prefix_len-insert r.radix_cache entry (v.kept.leaves 0).shape v.enabled
      ∙ ap length (same prompt) in
    let tail : drop (insert r.radix_cache entry).0 value ≡ rest =
      ap (λ k. drop k value) n
      ∙ ap (drop (length (cached c prompt))) p.cached_first
      ∙ drop-append (cached c prompt) rest in
    sym (match_prefix-cached d prompt (w.kept.leaves 0).shape w.enabled)
    ∙ (match_prefix-insert r.radix_cache entry (v.kept.leaves 0).shape v.enabled p.paired).0
    ∙ ap₂ ◌++◌ (same prompt) tail
    ∙ sym p.cached_first

finish_prefill_lem :
    (m : Mlx) (r : ModelRunner m) (c : RadixCache) (request_id : ℕ) (prompt rest : List ℕ)
    (plan : Plan) (kv_caches : List PooledKvCache) (logits : m.Array)
    → IsReady r.radix_cache
    → IsPlan c prompt plan rest
    → ((q : List ℕ) → cached r.radix_cache q ≡ cached c q)
    → let result = finish_prefill m r request_id prompt plan kv_caches logits in
      Prefilled prompt result.0.0 c result.1.radix_cache
unfolding finish_prefill seq_len total_cached_len
finish_prefill_lem m r c request_id prompt rest plan kv_caches logits v p same =
    let value = plan.prefix_indices ++ plan.new_slot_indices in
    let entry : InsertParams = record { key = prompt; value = some value; priority = pos 0 } in
    let d = (insert r.radix_cache entry).1 in
    let w = insert-IsReady r.radix_cache prompt value p.paired v in
    let u = match-IsReady d prompt w in
    let node = (match_prefix d prompt).0.last_node in
    let last = inc-IsReady (match_prefix d prompt).1 node u in
    let stored = insert-stored m r c prompt rest plan v p same in
    record {
      ready = last.0;
      same_prompt = refl;
      no_output = refl;
      slots = omega (arith, p.paired);
      found =
          last.1 prompt ∙ (cached-match_prefix d prompt (w.kept.leaves 0).shape).1 prompt ∙ stored;
      grows = λ q.
          rw
            (
              last.1 q,
              (cached-match_prefix d prompt (w.kept.leaves 0).shape).1 q,
              (cached-insert r.radix_cache entry (v.kept.leaves 0).shape v.enabled p.paired).1 q,
              same q,
            )
            (overlay-grows prompt value (cached c q) q);
    }

abbrev pub PrefillLem :
    (m : Mlx)
    → ModelRunner m
    → List ℕ
    → Result (RequestState × ForwardResult m) × ModelRunner m
    → Type 0
PrefillLem m r prompt (raise e, after) =
    IsReady after.radix_cache × ((q : List ℕ) → cached after.radix_cache q ≡ cached r.radix_cache q)
PrefillLem m r prompt (ok (s, f), after) = Prefilled prompt s r.radix_cache after.radix_cache

ran_lem :
    (m : Mlx) (n : Network m) (r0 r : ModelRunner m) (request_id : ℕ) (prompt rest : List ℕ)
    (plan : Plan) (result : Result n.Logits × (List PooledKvCache × MhaTokenPool m))
    → IsReady r.radix_cache
    → IsPlan r0.radix_cache prompt plan rest
    → ((q : List ℕ) → cached r.radix_cache q ≡ cached r0.radix_cache q)
    → PrefillLem m r0 prompt (prefill_ran m n r request_id prompt plan result)
ran_lem m n r0 r request_id prompt rest plan (raise e, (kv_caches, pool)) v p same = (v, same)
ran_lem m n r0 r request_id prompt rest plan (ok logits, (kv_caches, pool)) v p same =
    finish_prefill_lem m (record r { pool = pool }) r0.radix_cache request_id prompt rest plan
      kv_caches (n.last_logits logits) v p same

planned_lem :
    (m : Mlx) (n : Network m) (r0 r : ModelRunner m) (request_id : ℕ) (prompt : List ℕ)
    (planned : Result Plan × ModelRunner m)
    → IsReady r.radix_cache
    → ((q : List ℕ) → cached r.radix_cache q ≡ cached r0.radix_cache q)
    → Planned m r r.radix_cache prompt planned
    → PrefillLem m r0 prompt (prefill_planned m n request_id prompt planned)
planned_lem m n r0 r request_id prompt (raise e, after) v same (still, _, _) = rw still (v, same)
planned_lem m n r0 r request_id prompt (ok plan, after) v same (rest, w, p, kept, _, _) =
    ran_lem m n r0 after request_id prompt rest plan _ w
      (record {
        paired = p.paired;
        cached_first = p.cached_first ∙ ap (λ l. l ++ rest) (same prompt);
      })
      (λ q. kept q ∙ same q)

-- On a runner whose cache is in order, whatever the network does: `forward_prefill` leaves the
-- cache in order. With a result, the request has the prompt, no output and a slot for each token,
-- and these slots are what the cache answers to the prompt, and every answer of the cache is the
-- one before or goes on behind it. With an exception, the cache answers every query as before.
pub forward_prefill_lem :
    (m : Mlx) (n : Network m) (r : ModelRunner m) (request_id : ℕ) (prompt : List ℕ)
    → IsReady r.radix_cache
    → PrefillLem m r prompt (forward_prefill m n r request_id prompt)
unfolding forward_prefill
forward_prefill_lem m n r request_id prompt v =
    let c = r.radix_cache in
    let shape = (v.kept.leaves 0).shape in
    let found = match_prefix-cached c prompt shape v.enabled in
    let after = (match_prefix c prompt).1 in
    let same = (cached-match_prefix c prompt shape).1 in
    let r1 = record r { radix_cache = after } in
    let w = match-IsReady c prompt v in
    planned_lem m n r r1 request_id prompt
      (plan_prefill m r1 prompt (match_prefix c prompt).0.device_indices) w same
      (rw (found ∙ sym (same prompt)) (plan_prefill_lem m r1 prompt w))

-- A network that raises no exception.
abbrev pub Runs : (m : Mlx) → Network m → Type 0
Runs m n =
    (tokens : List ℕ) (kv_caches : List PooledKvCache) (pool : MhaTokenPool m)
    → (logits : n.Logits) × (after : List PooledKvCache × MhaTokenPool m) × (n.forward tokens
          kv_caches pool
        ≡ (ok logits, after))

MemoryLem :
    (m : Mlx)
    → ModelRunner m
    → List ℕ
    → Result (RequestState × ForwardResult m) × ModelRunner m
    → Type 0
MemoryLem m r prompt result =
    ((result.0 ≡ raise memory_error)
      × (result.1.allocator ≡ r.allocator)
      × (available_size r.allocator < length prompt - length (cached r.radix_cache prompt)))
    ⊎ ((s : RequestState × ForwardResult m) × (result.0 ≡ ok s)
        × (available_size result.1.allocator
              + (length prompt - length (cached r.radix_cache prompt))
            ≡ available_size r.allocator))

memory-Planned :
    (m : Mlx) (n : Network m) (r0 r : ModelRunner m) (request_id : ℕ) (prompt : List ℕ)
    (planned : Result Plan × ModelRunner m)
    → Runs m n
    → r.allocator ≡ r0.allocator
    → cached r.radix_cache prompt ≡ cached r0.radix_cache prompt
    → Planned m r r.radix_cache prompt planned
    → MemoryLem m r0 prompt (prefill_planned m n request_id prompt planned)
unfolding MemoryLem finish_prefill
memory-Planned m n r0 r request_id prompt (raise e, after) runs a same (still, err, few) =
    inl (ap raise err, ap (λ (s : ModelRunner m). s.allocator) still ∙ a, rw (← a, ← same) few)
memory-Planned m n r0 r request_id prompt (ok plan, after) runs a same
      (rest, w, p, kept, enough, _) =
    let (logits, next, e) = runs plan.new_tokens (plan_caches after.num_layers plan) after.pool in
    inr (
      (finish_prefill m (record after { pool = next.1 }) request_id prompt plan next.0
          (n.last_logits logits)).0,
      rw e refl,
      rw (e, ← a, ← same) enough,
    )

-- On a runner whose cache is in order, with a network that raises no exception: `forward_prefill`
-- raises `MemoryError` exactly if the allocator has fewer slots than the prompt has tokens that
-- are not cached, and then takes none. With a result, it took as many slots as these tokens are.
pub forward_prefill-memory :
    (m : Mlx) (n : Network m) (r : ModelRunner m) (request_id : ℕ) (prompt : List ℕ)
    → IsReady r.radix_cache
    → Runs m n
    → let result = forward_prefill m n r request_id prompt in
      ((result.0 ≡ raise memory_error)
        × (result.1.allocator ≡ r.allocator)
        × (available_size r.allocator < length prompt - length (cached r.radix_cache prompt)))
      ⊎ ((s : RequestState × ForwardResult m) × (result.0 ≡ ok s)
          × (available_size result.1.allocator
                + (length prompt - length (cached r.radix_cache prompt))
              ≡ available_size r.allocator))
unfolding forward_prefill MemoryLem
forward_prefill-memory m n r request_id prompt v runs =
    let c = r.radix_cache in
    let shape = (v.kept.leaves 0).shape in
    let found = match_prefix-cached c prompt shape v.enabled in
    let same = (cached-match_prefix c prompt shape).1 in
    let r1 = record r { radix_cache = (match_prefix c prompt).1 } in
    memory-Planned m n r r1 request_id prompt
      (plan_prefill m r1 prompt (match_prefix c prompt).0.device_indices) runs refl (same prompt)
      (rw (found ∙ sym (same prompt)) (plan_prefill_lem m r1 prompt (match-IsReady c prompt v)))

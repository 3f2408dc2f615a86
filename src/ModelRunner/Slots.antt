-- ===== src/ModelRunner/Slots.antt =====
-- The slots of the pool over the calls of the runner: none comes to stand twice.
use sglang_mlx.Prelude.{
  ℕ, zero, suc, ◌+◌, ◌≤◌, Option, none, some, List, [], ◌∷◌, ◌++◌, ◌≡◌, refl, sym, ◌∙◌, ap, arith,
  length, map, drop, count, count-append, count-take-drop, inl, inr, Result, ok, raise,
  length-append, append_assoc, ℤ, pos,
}
use sglang_mlx.Allocator.Slots.{alloc_lem}
use sglang_mlx.KvPool.{Mlx, MhaTokenPool, PooledKvCache, set_indices}
use sglang_mlx.Radix.Cache.{
  RadixCache, InsertParams, match_prefix, insert, inc_lock_ref, dec_lock_ref, climb, set_allocator,
}
use sglang_mlx.Radix.Lock.{Body, inc_node, dec_node}
use sglang_mlx.Radix.LockView.{Keeps, inc_node-Keeps, dec_node-Keeps}
use sglang_mlx.Radix.Refine.{cached, match_prefix-cached, cached-match_prefix}
use sglang_mlx.Radix.SlotSums.{held, held-match, held-insert, held-climb}
use sglang_mlx.Radix.Extends.{length-cached_children-append}
use sglang_mlx.ModelRunner.State.{
  RequestState, Network, ModelRunner, with_allocator, seq_len, total_cached_len,
}
use sglang_mlx.ModelRunner.Prefill.{
  Plan, locked_cache, finish_prefill, prefill_ran, prefill_planned, plan_prefill, forward_prefill,
}
use sglang_mlx.ModelRunner.Decode.{finish_decode, decode_ran, forward_decode, finish_request}
use sglang_mlx.ModelRunner.Ready.{IsReady, match-IsReady, set_allocator-IsReady}
use sglang_mlx.ModelRunner.PlanLaws.{IsPlan, Planned, HasSlots, plan_prefill_lem, drop-append}

-- How often a slot is free or in the tree.
abbrev pub all_slots : (m : Mlx) → ℕ → ModelRunner m → ℕ
all_slots m i r = count i r.allocator.free_slots + held i r.radix_cache

held-locked :
    (i : ℕ) (body : Body) (c : RadixCache) (node : ℕ) (r : Option (ℤ × RadixCache))
    → Keeps body
    → climb body c node ≡ r
    → held i (locked_cache c r) ≡ held i c
held-locked i body c node none k e = refl
held-locked i body c node (some (delta, d)) k e = held-climb i body c d node delta k e

finish_prefill-slots :
    (m : Mlx) (i : ℕ) (r : ModelRunner m) (c : RadixCache) (request_id : ℕ) (prompt rest : List ℕ)
    (plan : Plan) (kv_caches : List PooledKvCache) (logits : m.Array)
    → IsReady r.radix_cache
    → IsPlan c prompt plan rest
    → cached r.radix_cache prompt ≡ cached c prompt
    → all_slots m i (finish_prefill m r request_id prompt plan kv_caches logits).1
      ≡ all_slots m i r + count i rest
unfolding finish_prefill inc_lock_ref
finish_prefill-slots m i r c request_id prompt rest plan kv_caches logits v p same =
    let value = plan.prefix_indices ++ plan.new_slot_indices in
    let entry : InsertParams = record { key = prompt; value = some value; priority = pos 0 } in
    let d = (insert r.radix_cache entry).1 in
    let after = match_prefix d prompt in
    let tail : drop (length (cached r.radix_cache prompt)) value ≡ rest =
      ap (λ l. drop (length l) value) same
      ∙ ap (drop (length (cached c prompt))) p.cached_first
      ∙ drop-append (cached c prompt) rest in
    omega (
      arith,
      held-locked i inc_node after.1 after.0.last_node _ inc_node-Keeps refl,
      held-match i d prompt,
      held-insert i r.radix_cache entry (v.kept.leaves 0).shape v.enabled p.paired,
      ap (count i) tail,
    )

prefill_ran-slots :
    (m : Mlx) (n : Network m) (i : ℕ) (r : ModelRunner m) (c : RadixCache) (request_id : ℕ)
    (prompt rest : List ℕ) (plan : Plan)
    (result : Result n.Logits × (List PooledKvCache × MhaTokenPool m))
    → IsReady r.radix_cache
    → IsPlan c prompt plan rest
    → cached r.radix_cache prompt ≡ cached c prompt
    → all_slots m i (prefill_ran m n r request_id prompt plan result).1
      ≤ all_slots m i r + count i rest
prefill_ran-slots m n i r c request_id prompt rest plan (raise e, (kv_caches, pool)) v p same =
    omega arith
prefill_ran-slots m n i r c request_id prompt rest plan (ok logits, (kv_caches, pool)) v p same =
    let e =
      finish_prefill-slots m i (record r { pool = pool }) c request_id prompt rest plan kv_caches
        (n.last_logits logits) v p same in
    omega (arith, e)

prefill_planned-slots :
    (m : Mlx) (n : Network m) (i : ℕ) (r : ModelRunner m) (request_id : ℕ) (prompt : List ℕ)
    (planned : Result Plan × ModelRunner m)
    → Planned m r r.radix_cache prompt planned
    → all_slots m i (prefill_planned m n request_id prompt planned).1 ≤ all_slots m i r
prefill_planned-slots m n i r request_id prompt (raise e, after) (still, _, _) =
    rw still (omega arith)
prefill_planned-slots m n i r request_id prompt (ok plan, after) (rest, w, p, same, _, k) = omega (
  arith,
  prefill_ran-slots m n i after r.radix_cache request_id prompt rest plan _ w p (same prompt),
  (k i).0,
  (k i).1,
)

-- A prefill, also one that raises, brings no slot to a second place.
pub forward_prefill-slots :
    (m : Mlx) (n : Network m) (i : ℕ) (r : ModelRunner m) (request_id : ℕ) (prompt : List ℕ)
    → IsReady r.radix_cache
    → all_slots m i (forward_prefill m n r request_id prompt).1 ≤ all_slots m i r
unfolding forward_prefill
forward_prefill-slots m n i r request_id prompt v =
    let c = r.radix_cache in
    let shape = (v.kept.leaves 0).shape in
    let found = match_prefix-cached c prompt shape v.enabled in
    let same = (cached-match_prefix c prompt shape).1 in
    let r1 = record r { radix_cache = (match_prefix c prompt).1 } in
    omega (
      arith,
      held-match i c prompt,
      prefill_planned-slots m n i r1 request_id prompt
          (plan_prefill m r1 prompt (match_prefix c prompt).0.device_indices)
          (rw (found ∙ sym (same prompt))
            (plan_prefill_lem m r1 prompt (match-IsReady c prompt v))),
    )

count-drop_le : (i n : ℕ) (a b : List ℕ) → length a ≤ n → count i (drop n (a ++ b)) ≤ count i b
count-drop_le i n [] b h = omega (arith, count-take-drop i n b)
count-drop_le i zero (x ∷ a) b h = absurd (omega (arith, h))
count-drop_le i (suc n) (x ∷ a) b h = count-drop_le i n a b (omega (arith, h))

-- A request all of whose tokens are cached.
abbrev pub IsWhole : RequestState → RadixCache → Type 0
IsWhole s c = length (cached c (s.prompt_tokens ++ s.output_tokens)) ≡ seq_len s

decode_ran-slots :
    (m : Mlx) (n : Network m) (i : ℕ) (r : ModelRunner m) (s : RequestState) (token : ℕ)
    (slots : List ℕ) (result : Result n.Logits × (List PooledKvCache × MhaTokenPool m))
    → IsReady r.radix_cache
    → HasSlots s
    → IsWhole s r.radix_cache
    → length slots ≡ 1
    → all_slots m i (decode_ran m n r s token slots result).1.1 ≤ all_slots m i r + count i slots
unfolding finish_decode seq_len total_cached_len
decode_ran-slots m n i r s token slots (raise e, (kv_caches, pool)) v h whole one = omega arith
decode_ran-slots m n i r s token slots (ok logits, (kv_caches, pool)) v h whole one =
    let key = s.prompt_tokens ++ (s.output_tokens ++ (token ∷ [])) in
    let value = s.all_slot_indices ++ slots in
    let paired : length value ≡ length key = omega (
      arith,
      length-append s.all_slot_indices slots,
      length-append s.prompt_tokens (s.output_tokens ++ (token ∷ [])),
      length-append s.output_tokens (token ∷ []),
      one,
      h,
    ) in
    let there : length s.all_slot_indices ≤ length (cached r.radix_cache key) = omega (
      arith,
      h,
      whole,
      length-cached_children-append r.radix_cache.children (s.prompt_tokens ++ s.output_tokens)
          (token ∷ []),
      ap (λ q. length (cached r.radix_cache q))
          (append_assoc s.prompt_tokens s.output_tokens (token ∷ [])),
    ) in
    omega (
      arith,
      held-insert i r.radix_cache (record { key = key; value = some value; priority = pos 0 })
          (v.kept.leaves 0).shape v.enabled paired,
      count-drop_le i (length (cached r.radix_cache key)) s.all_slot_indices slots there,
    )

-- A decode, also one that raises, brings no slot to a second place, if the tokens of its request
-- are cached.
pub forward_decode-slots :
    (m : Mlx) (n : Network m) (i : ℕ) (r : ModelRunner m) (s : RequestState) (token : ℕ)
    → IsReady r.radix_cache
    → HasSlots s
    → IsWhole s r.radix_cache
    → all_slots m i (forward_decode m n r s token).1.1 ≤ all_slots m i r
unfolding forward_decode set_allocator count held
forward_decode-slots m n i r s token v h whole = elim (alloc_lem r.allocator 1) [
  | inl (slots, b, e, _, size, parts, _) ↦
      let ran =
        decode_ran-slots m n i (with_allocator m r b) s token slots
          (n.forward (token ∷ []) (map (λ c. set_indices c s.all_slot_indices slots) s.kv_caches)
            r.pool)
          (set_allocator-IsReady r.radix_cache b v) h whole size in
      rw e (omega (arith, ran, ap (count i) parts, count-append i b.free_slots slots))
  | inr (e, few) ↦ rw e (omega arith)
]

pub finish_request-slots :
    (m : Mlx) (i : ℕ) (r : ModelRunner m) (s : RequestState)
    → all_slots m i (finish_request m r s) ≡ all_slots m i r
unfolding finish_request dec_lock_ref
finish_request-slots m i r s =
    ap (λ k. count i r.allocator.free_slots + k)
      (held-locked i dec_node r.radix_cache s.radix_node _ dec_node-Keeps refl)

-- ===== src/ModelRunner/Shared.antt =====
-- The runner and its cache have one allocator: each call that changes it changes it for both.
use sglang_mlx.Prelude.{
  ℕ, ◌&&◌, ◌||◌, ◌==◌, Option, none, some, List, [], ◌∷◌, ◌++◌, pos, ◌≡◌, refl, ◌∙◌, length, drop,
  Result, ok, raise, arith, subst, Bool-cases, inl, inr, ltb, leb,
}
use sglang_mlx.Allocator.{TokenPoolAllocator, alloc}
use sglang_mlx.KvPool.{Mlx, MhaTokenPool, PooledKvCache}
use sglang_mlx.Radix.Tree.{Children}
use sglang_mlx.Radix.Lock.{Body, Books, inc_node, dec_node, climb_children}
use sglang_mlx.Radix.Cache.{
  RadixCache, InsertParams, match_prefix, insert, climb, inc_lock_ref, dec_lock_ref, after_climb,
  books, set_allocator,
}
use sglang_mlx.ModelRunner.State.{RequestState, Network, ModelRunner, with_allocator}
use sglang_mlx.ModelRunner.Prefill.{
  Plan, plan_allocated, plan_prefill, finish_prefill, prefill_ran, prefill_planned, forward_prefill,
  locked_cache,
}
use sglang_mlx.ModelRunner.Decode.{
  finish_decode, decode_ran, decode_allocated, forward_decode, finish_request,
}
use sglang_mlx.ModelRunner.Interleaved.{
  Serving, Step, prefills, prefill_raises, decodes, decode_raises, finishes,
}

abbrev pub IsShared : (m : Mlx) → ModelRunner m → Type 0
IsShared m r = r.radix_cache.allocator ≡ some r.allocator

allocator-match : (c : RadixCache) (q : List ℕ) → (match_prefix c q).1.allocator ≡ c.allocator
unfolding match_prefix
allocator-match c q = ground arith

allocator-insert : (c : RadixCache) (p : InsertParams) → (insert c p).1.allocator ≡ c.allocator
unfolding insert
allocator-insert c p = ground arith

climbed-allocator :
    (c : RadixCache) (r : Option (Children × Books))
    → (locked_cache c (after_climb c r)).allocator ≡ c.allocator
climbed-allocator c none = refl
climbed-allocator c (some (f, b)) = refl

climb-allocator :
    (body : Body) (c : RadixCache) (i : ℕ)
    → (locked_cache c (climb body c i)).allocator ≡ c.allocator
unfolding climb
climb-allocator body c i = elim (Bool-cases (c.disable || c.root.id == i)) [
  | inl skip ↦ rw skip refl
  | inr run ↦ rw run (climbed-allocator c (climb_children body i c.children (books c)))
]

finish_prefill-IsShared :
    (m : Mlx) (r : ModelRunner m) (request_id : ℕ) (prompt : List ℕ) (plan : Plan)
    (kv_caches : List PooledKvCache) (logits : m.Array)
    → IsShared m r
    → IsShared m (finish_prefill m r request_id prompt plan kv_caches logits).1
unfolding finish_prefill inc_lock_ref
finish_prefill-IsShared m r request_id prompt plan kv_caches logits v =
    let entry : InsertParams = record {
      key = prompt;
      value = some (plan.prefix_indices ++ plan.new_slot_indices);
      priority = pos 0;
    } in
    let inserted = (insert r.radix_cache entry).1 in
    let (found, matched) = match_prefix inserted prompt in
    climb-allocator inc_node matched found.last_node
    ∙ allocator-match inserted prompt
    ∙ allocator-insert r.radix_cache entry
    ∙ v

prefill_ran-IsShared :
    (m : Mlx) (n : Network m) (r : ModelRunner m) (request_id : ℕ) (prompt : List ℕ) (plan : Plan)
    (result : Result n.Logits × (List PooledKvCache × MhaTokenPool m))
    → IsShared m r
    → IsShared m (prefill_ran m n r request_id prompt plan result).1
prefill_ran-IsShared m n r request_id prompt plan (raise e, (kv_caches, pool)) v = v
prefill_ran-IsShared m n r request_id prompt plan (ok logits, (kv_caches, pool)) v =
    finish_prefill-IsShared m (record r { pool = pool }) request_id prompt plan kv_caches
      (n.last_logits logits) v

prefill_planned-IsShared :
    (m : Mlx) (n : Network m) (request_id : ℕ) (prompt : List ℕ)
    (planned : Result Plan × ModelRunner m)
    → IsShared m planned.1
    → IsShared m (prefill_planned m n request_id prompt planned).1
prefill_planned-IsShared m n request_id prompt (raise e, r) v = v
prefill_planned-IsShared m n request_id prompt (ok plan, r) v =
    prefill_ran-IsShared m n r request_id prompt plan _ v

plan_allocated-IsShared :
    (m : Mlx) (r : ModelRunner m) (prompt prefix : List ℕ)
    (result : Result (List ℕ × TokenPoolAllocator))
    → IsShared m r
    → IsShared m (plan_allocated m r prompt prefix result).1
unfolding set_allocator
plan_allocated-IsShared m r prompt prefix (raise e) v = v
plan_allocated-IsShared m r prompt prefix (ok (slots, a)) v = refl

plan_prefill-IsShared :
    (m : Mlx) (r : ModelRunner m) (prompt prefix : List ℕ)
    → IsShared m r
    → IsShared m (plan_prefill m r prompt prefix).1
unfolding plan_prefill
plan_prefill-IsShared m r prompt prefix v =
    elim (Bool-cases (leb (length prompt) (length prefix) && ltb 0 (length prefix))) [
      | inl hit ↦ rw hit v
      | inr miss ↦ rw miss (
          plan_allocated-IsShared m r prompt prefix
            (alloc r.allocator (length (drop (length prefix) prompt))) v)
    ]

forward_prefill-IsShared :
    (m : Mlx) (n : Network m) (r : ModelRunner m) (request_id : ℕ) (prompt : List ℕ)
    → IsShared m r
    → IsShared m (forward_prefill m n r request_id prompt).1
unfolding forward_prefill
forward_prefill-IsShared m n r request_id prompt v =
    let (found, c) = match_prefix r.radix_cache prompt in
    let r1 : ModelRunner m = record r { radix_cache = c } in
    prefill_planned-IsShared m n request_id prompt (plan_prefill m r1 prompt found.device_indices) (
      plan_prefill-IsShared m r1 prompt found.device_indices
        (allocator-match r.radix_cache prompt ∙ v))

decode_ran-IsShared :
    (m : Mlx) (n : Network m) (r : ModelRunner m) (s : RequestState) (token : ℕ) (slots : List ℕ)
    (result : Result n.Logits × (List PooledKvCache × MhaTokenPool m))
    → IsShared m r
    → IsShared m (decode_ran m n r s token slots result).1.1
unfolding finish_decode
decode_ran-IsShared m n r s token slots (raise e, (kv_caches, pool)) v = v
decode_ran-IsShared m n r s token slots (ok logits, (kv_caches, pool)) v =
    allocator-insert r.radix_cache (record {
      key = s.prompt_tokens ++ (s.output_tokens ++ (token ∷ []));
      value = some (s.all_slot_indices ++ slots);
      priority = pos 0;
    })
    ∙ v

decode_allocated-IsShared :
    (m : Mlx) (n : Network m) (r : ModelRunner m) (s : RequestState) (token : ℕ)
    (result : Result (List ℕ × TokenPoolAllocator))
    → IsShared m r
    → IsShared m (decode_allocated m n r s token result).1.1
unfolding set_allocator
decode_allocated-IsShared m n r s token (raise e) v = v
decode_allocated-IsShared m n r s token (ok (slots, a)) v =
    decode_ran-IsShared m n (with_allocator m r a) s token slots _ refl

forward_decode-IsShared :
    (m : Mlx) (n : Network m) (r : ModelRunner m) (s : RequestState) (token : ℕ)
    → IsShared m r
    → IsShared m (forward_decode m n r s token).1.1
unfolding forward_decode
forward_decode-IsShared m n r s token v =
    decode_allocated-IsShared m n r s token (alloc r.allocator 1) v

pub Step-IsShared :
    (m : Mlx) (n : Network m) (w x : Serving m)
    → Step m n w x
    → IsShared m w.runner
    → IsShared m x.runner
unfolding finish_request dec_lock_ref
Step-IsShared m n _ _ (prefills r after l request_id prompt s f e) v =
    subst (λ t. IsShared m t.1) e (forward_prefill-IsShared m n r request_id prompt v)
Step-IsShared m n _ _ (prefill_raises r after l request_id prompt x e) v =
    subst (λ t. IsShared m t.1) e (forward_prefill-IsShared m n r request_id prompt v)
Step-IsShared m n _ _ (decodes r after before behind token s s' f e) v =
    subst (λ t. IsShared m t.1.1) e (forward_decode-IsShared m n r s token v)
Step-IsShared m n _ _ (decode_raises r after before behind token s s' x e) v =
    subst (λ t. IsShared m t.1.1) e (forward_decode-IsShared m n r s token v)
Step-IsShared m n _ _ (finishes r before behind s) v =
    climb-allocator dec_node r.radix_cache s.radix_node ∙ v

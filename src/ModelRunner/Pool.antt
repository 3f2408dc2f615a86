-- ===== src/ModelRunner/Pool.antt =====
-- The slots of the pool over any interleaving of calls, from a new runner.
use sglang_mlx.Prelude.{
  ℕ, count, ◌+◌, ◌+◌, ◌≤◌, List, [], ◌∷◌, ◌++◌, ◌≡◌, refl, sym, ◌∙◌, ap, ap₂, arith, length, Result,
  ok, raise, append-nil, subst, Bool-cases, inl, inr, leb, pos, none, false,
}
use sglang_mlx.Allocator.{new_allocator}
use sglang_mlx.Allocator.Slots.{once_within, count-range_down}
use sglang_mlx.KvPool.{Mlx}
use sglang_mlx.Radix.Tree.{Supply, nil}
use sglang_mlx.Radix.Cache.{RadixCache, root_node, match_prefix, reset, set_allocator, new_cache}
use sglang_mlx.Radix.Policy.{choose_strategy, same, lru}
use sglang_mlx.Radix.Weights.{sum_children}
use sglang_mlx.Radix.SlotSums.{held}
use sglang_mlx.Radix.Refine.{cached, match_prefix-cached}
use sglang_mlx.Radix.AnswerSlots.{count-cached_children}
use sglang_mlx.Radix.Service.{reset-IsKept}
use sglang_mlx.Radix.Evict.View.{IsPrefix}
use sglang_mlx.ModelRunner.State.{
  RequestState, Network, ModelRunner, seq_len, total_cached_len, new_runner,
}
use sglang_mlx.ModelRunner.Decode.{finish_request}
use sglang_mlx.ModelRunner.Ready.{IsReady, set_allocator-IsReady}
use sglang_mlx.ModelRunner.PlanLaws.{HasSlots}
use sglang_mlx.ModelRunner.PrefillLaws.{Prefilled, PrefillLem, forward_prefill_lem}
use sglang_mlx.ModelRunner.DecodeLaws.{DecodeLem, forward_decode_lem, finish_request_lem}
use sglang_mlx.ModelRunner.Slots.{
  all_slots, forward_prefill-slots, forward_decode-slots, finish_request-slots,
}
use sglang_mlx.ModelRunner.Interleaved.{
  Serving, Step, prefills, prefill_raises, decodes, decode_raises, finishes, Reaches, done, more,
  IsHeld, AreHeld, AreHeld-grows, AreHeld-at, AreHeld-put, AreHeld-remove,
}

-- The cache is in order, each request in progress has a slot for each of its tokens, all of which
-- are cached, and no slot is free or in the tree more often than `bound` says.
pub record IsServing (m : Mlx) (bound : ℕ → ℕ) (w : Serving m) : Type 0 where
  pub ready : IsReady w.runner.radix_cache
  pub live : AreHeld w.runner.radix_cache w.requests
  pub counted : (i : ℕ) → all_slots m i w.runner ≤ bound i

IsHeld-Prefilled :
    (prompt : List ℕ) (s : RequestState) (c0 c : RadixCache) → Prefilled prompt s c0 c → IsHeld c s
IsHeld-Prefilled prompt s c0 c p = (
  p.slots,
  ap (λ q. length (cached c q)) (ap₂ ◌++◌ p.same_prompt p.no_output ∙ append-nil prompt)
      ∙ ap length p.found
      ∙ unfold total_cached_len in p.slots,
)

same-grows :
    (c d : RadixCache)
    → ((q : List ℕ) → cached d q ≡ cached c q)
    → (q : List ℕ) → IsPrefix (cached c q) (cached d q)
same-grows c d same q = ([], append-nil (cached c q) ∙ sym (same q))

IsHeld-raised :
    (c d : RadixCache) (s s' : RequestState)
    → HasSlots s'
    → s'.prompt_tokens ≡ s.prompt_tokens
    → s'.output_tokens ≡ s.output_tokens
    → ((q : List ℕ) → cached d q ≡ cached c q)
    → IsHeld c s
    → IsHeld d s'
unfolding seq_len
IsHeld-raised c d s s' h p o same v = (
  h,
  ap length (same (s'.prompt_tokens ++ s'.output_tokens))
      ∙ ap (λ q. length (cached c q)) (ap₂ ◌++◌ p o)
      ∙ v.1
      ∙ sym (ap₂ (λ a b. length a + length b) p o),
)

pub Step-IsServing :
    (m : Mlx) (n : Network m) (bound : ℕ → ℕ) (w x : Serving m)
    → Step m n w x
    → IsServing m bound w
    → IsServing m bound x
Step-IsServing m n bound _ _ (prefills r after l request_id prompt s f e) v =
    let p = subst (PrefillLem m r prompt) e (forward_prefill_lem m n r request_id prompt v.ready) in
    record {
      ready = p.ready;
      live = (
        IsHeld-Prefilled prompt s r.radix_cache after.radix_cache p,
        AreHeld-grows r.radix_cache after.radix_cache l p.ready p.grows v.live,
      );
      counted = λ i. omega (
        arith,
        v.counted i,
        subst (λ t. all_slots m i t.1 ≤ all_slots m i r) e
            (forward_prefill-slots m n i r request_id prompt v.ready),
      );
    }
Step-IsServing m n bound _ _ (prefill_raises r after l request_id prompt x e) v =
    let p = subst (PrefillLem m r prompt) e (forward_prefill_lem m n r request_id prompt v.ready) in
    record {
      ready = p.0;
      live =
          AreHeld-grows r.radix_cache after.radix_cache l p.0
            (same-grows r.radix_cache after.radix_cache p.1) v.live;
      counted = λ i. omega (
        arith,
        v.counted i,
        subst (λ t. all_slots m i t.1 ≤ all_slots m i r) e
            (forward_prefill-slots m n i r request_id prompt v.ready),
      );
    }
Step-IsServing m n bound _ _ (decodes r after before behind token s s' f e) v =
    let (h, whole) = AreHeld-at r.radix_cache before behind s v.live in
    let d = subst (DecodeLem m r s token) e (forward_decode_lem m n r s token v.ready h) in
    record {
      ready = d.ready;
      live =
          AreHeld-put after.radix_cache before behind s s' (d.slots, d.whole)
            (AreHeld-grows r.radix_cache after.radix_cache (before ++ (s ∷ behind)) d.ready d.grows
              v.live);
      counted = λ i. omega (
        arith,
        v.counted i,
        subst (λ t. all_slots m i t.1.1 ≤ all_slots m i r) e
            (forward_decode-slots m n i r s token v.ready h whole),
      );
    }
Step-IsServing m n bound _ _ (decode_raises r after before behind token s s' x e) v =
    let (h, whole) = AreHeld-at r.radix_cache before behind s v.live in
    let d = subst (DecodeLem m r s token) e (forward_decode_lem m n r s token v.ready h) in
    let (ready, slots, _, p, o, same) = d in
    record {
      ready = ready;
      live =
          AreHeld-put after.radix_cache before behind s s'
            (IsHeld-raised r.radix_cache after.radix_cache s s' slots p o same (h, whole))
            (AreHeld-grows r.radix_cache after.radix_cache (before ++ (s ∷ behind)) ready
              (same-grows r.radix_cache after.radix_cache same) v.live);
      counted = λ i. omega (
        arith,
        v.counted i,
        subst (λ t. all_slots m i t.1.1 ≤ all_slots m i r) e
            (forward_decode-slots m n i r s token v.ready h whole),
      );
    }
Step-IsServing m n bound _ _ (finishes r before behind s) v =
    let (ready, same) = finish_request_lem m r s v.ready in
    let after = (finish_request m r s).radix_cache in
    record {
      ready = ready;
      live =
          AreHeld-grows r.radix_cache after (before ++ behind) ready
            (same-grows r.radix_cache after same)
            (AreHeld-remove r.radix_cache before behind s v.live);
      counted = λ i. omega (arith, v.counted i, finish_request-slots m i r s);
    }

Reaches-IsServing :
    (m : Mlx) (n : Network m) (bound : ℕ → ℕ) (w x : Serving m)
    → Reaches m n w x
    → IsServing m bound w
    → IsServing m bound x
Reaches-IsServing m n bound _ _ (done w) v = v
Reaches-IsServing m n bound _ _ (more w x y s rest) v =
    Reaches-IsServing m n bound x y rest (Step-IsServing m n bound w x s v)

abbrev pub Starts : (m : Mlx) → (ℕ → ℕ) → Result (ModelRunner m) → Type 0
Starts m bound (raise e) = Unit
Starts m bound (ok r) = IsServing m bound (record { runner = r; requests = [] })

-- The cache of a new runner before its `reset`.
abbrev pub before_reset : Supply → RadixCache
before_reset s = record {
  disable = false;
  page_size = 1;
  eviction_strategy = lru;
  allocator = none;
  root = root_node s;
  children = nil;
  evictable_size_ = pos 0;
  protected_size_ = pos 0;
  evictable_leaves = [];
  supply = s;
}

pub new_runner-IsServing :
    (m : Mlx) (num_layers n_kv_heads head_dim pool_size : ℕ) (dtype : m.Dtype) (s : Supply)
    → Starts m
        (once_within pool_size)
        (new_runner m num_layers n_kv_heads head_dim pool_size dtype s)
unfolding new_runner new_allocator new_cache choose_strategy same held set_allocator sum_children
new_runner-IsServing m num_layers n_kv_heads head_dim pool_size dtype s =
    elim (Bool-cases (leb pool_size 0)) [
      | inl e ↦ rw e tt
      | inr e ↦ rw e (record {
        ready =
            set_allocator-IsReady (reset (before_reset s)) _
              (record { kept = reset-IsKept (before_reset s); enabled = unfold reset in refl });
        live = tt;
        counted = λ i. unfold reset in omega (arith, count-range_down pool_size i);
      })
    ]

-- From a new runner, after any interleaving of prefills, decodes and ends of requests, also calls
-- that raised: the cache is in order; each request in progress has a slot for each of its tokens,
-- all of which are cached; and each slot from 1 to `pool_size` is free or in the tree once at most,
-- and no other number is.
pub Reaches-new_runner :
    (m : Mlx) (n : Network m) (num_layers n_kv_heads head_dim pool_size : ℕ) (dtype : m.Dtype)
    (s : Supply) (r : ModelRunner m) (w : Serving m)
    → new_runner m num_layers n_kv_heads head_dim pool_size dtype s ≡ ok r
    → Reaches m n (record { runner = r; requests = [] }) w
    → IsServing m (once_within pool_size) w
Reaches-new_runner m n num_layers n_kv_heads head_dim pool_size dtype s r w e steps =
    Reaches-IsServing m n (once_within pool_size) (record { runner = r; requests = [] }) w steps
      (subst (Starts m (once_within pool_size)) e
        (new_runner-IsServing m num_layers n_kv_heads head_dim pool_size dtype s))

-- From a new runner, after any interleaving of prefills, decodes and ends of requests, also calls
-- that raised: the slots that a match returns are numbers from 1 to `pool_size`, no two of them are
-- the same, and none of them is free.
pub Reaches-match_prefix :
    (m : Mlx) (n : Network m) (num_layers n_kv_heads head_dim pool_size : ℕ) (dtype : m.Dtype)
    (s : Supply) (r : ModelRunner m) (w : Serving m) (q : List ℕ) (i : ℕ)
    → new_runner m num_layers n_kv_heads head_dim pool_size dtype s ≡ ok r
    → Reaches m n (record { runner = r; requests = [] }) w
    → count i (match_prefix w.runner.radix_cache q).0.device_indices
        + count i w.runner.allocator.free_slots
      ≤ once_within pool_size i
unfolding held
Reaches-match_prefix m n num_layers n_kv_heads head_dim pool_size dtype s r w q i e steps =
    let v = Reaches-new_runner m n num_layers n_kv_heads head_dim pool_size dtype s r w e steps in
    let c = w.runner.radix_cache in
    omega (
      arith,
      ap (count i) (match_prefix-cached c q (v.ready.kept.leaves 0).shape v.ready.enabled),
      v.counted i,
      count-cached_children i c.children q,
    )

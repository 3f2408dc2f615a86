-- ===== src/ModelRunner/Enough.antt =====
-- `generate` returns when there are enough slots.
use mathlib.Core.Option
use sglang_mlx.Prelude.{
  ℕ, zero, suc, ◌+◌, ◌-◌, ◌≤◌, Option, List, [], ◌∷◌, ◌≡◌, refl, ap, arith, length, map, Bool-cases,
  inl, inr, Result, ok, raise, length-append,
}
use sglang_mlx.Allocator.{available_size}
use sglang_mlx.Allocator.Slots.{alloc_lem}
use sglang_mlx.KvPool.{Mlx, set_indices}
use sglang_mlx.Radix.Tree.{contains}
use sglang_mlx.Radix.Refine.{cached}
use sglang_mlx.ModelRunner.State.{RequestState, Network, ForwardResult, ModelRunner}
use sglang_mlx.ModelRunner.Prefill.{forward_prefill}
use sglang_mlx.ModelRunner.Decode.{finish_decode, forward_decode}
use sglang_mlx.ModelRunner.Generate.{
  Generated, put_token, continue, generate_loop, finished, generate_from, generate,
}
use sglang_mlx.ModelRunner.Ready.{IsReady}
use sglang_mlx.ModelRunner.PrefillLaws.{Runs, forward_prefill-memory}

-- A decode with a free slot returns, and takes this slot.
Stepped :
    (m : Mlx) → ModelRunner m → Result (ForwardResult m) × (RequestState × ModelRunner m) → Type 0
Stepped m r result =
    (f : ForwardResult m) × (result.0 ≡ ok f)
    × (suc (available_size result.1.1.allocator) ≡ available_size r.allocator)

decode_returns :
    (m : Mlx) (n : Network m) (r : ModelRunner m) (s : RequestState) (token : ℕ)
    → Runs m n
    → 1 ≤ available_size r.allocator
    → Stepped m r (forward_decode m n r s token)
unfolding forward_decode finish_decode Stepped available_size
decode_returns m n r s token runs some_left = elim (alloc_lem r.allocator 1) [
  | inl (slots, b, e, _, size, parts, _) ↦
      let (logits, next, k) =
        runs (token ∷ []) (map (λ c. set_indices c s.all_slot_indices slots) s.kv_caches) r.pool in
      rw (e, k) (_, refl, omega (arith, ap length parts, length-append b.free_slots slots, size))
  | inr (e, few) ↦ absurd (omega (arith, few, some_left))
]

-- A loop that ends with tokens.
Returns : (m : Mlx) → Generated m → Type 0
Returns m result = (tokens : List ℕ) × (result.0 ≡ ok tokens)

put_token-Returns :
    (m : Mlx) (token : ℕ) (result : Generated m)
    → Returns m result
    → Returns m (put_token m token result)
unfolding Returns
put_token-Returns m token (raise e, after) (tokens, k) = (token ∷ tokens, cc)
put_token-Returns m token (ok rest, after) v = (token ∷ rest, refl)

continue-Returns :
    (m : Mlx) (r : ModelRunner m) (next : RequestState → m.Array → ModelRunner m → Generated m)
    (result : Result (ForwardResult m) × (RequestState × ModelRunner m))
    → Stepped m r result
    → ((s : RequestState) (logits : m.Array) (after : ModelRunner m)
        → suc (available_size after.allocator) ≡ available_size r.allocator
        → Returns m (next s logits after))
    → Returns m (continue m next result)
unfolding Stepped
continue-Returns m r next (raise e, after) (f, k, size) v = cc
continue-Returns m r next (ok result, (s, after)) (f, k, size) v = v s result.logits after size

loop-Returns :
    (m : Mlx) (n : Network m) (sampler : m.Array → ℕ) (stop : List ℕ) (rounds : ℕ)
    (s : RequestState) (logits : m.Array) (r : ModelRunner m)
    → Runs m n
    → rounds ≤ available_size r.allocator
    → Returns m (generate_loop m n sampler stop rounds s logits r)
unfolding generate_loop
loop-Returns m n sampler stop zero s logits r runs enough = unfold Returns in ([], refl)
loop-Returns m n sampler stop (suc rounds) s logits r runs enough =
    let rest = loop-Returns m n sampler stop rounds in
    elim (Bool-cases (contains (sampler logits) stop)) [
      | inl e ↦ rw e (unfold Returns in (_, refl))
      | inr e ↦ rw e (
          put_token-Returns m (sampler logits) _ (
            continue-Returns m r _ _
              (decode_returns m n r s (sampler logits) runs (omega (arith, enough)))
              (λ s' l after size. rest s' l after runs (omega (arith, size, enough)))))
    ]

finished-Returns :
    (m : Mlx) (result : Generated m)
    → Returns m result
    → (tokens : List ℕ) × ((finished m result).0 ≡ ok tokens)
unfolding Returns
finished-Returns m (raise e, after) (tokens, k) = cc
finished-Returns m (ok tokens, (s, r)) v = (tokens, refl)

generate_from-Returns :
    (m : Mlx) (n : Network m) (sampler : m.Array → ℕ) (stop : List ℕ) (max_tokens : ℕ)
    (result : Result (RequestState × ForwardResult m) × ModelRunner m)
    (s : RequestState × ForwardResult m)
    → Runs m n
    → result.0 ≡ ok s
    → max_tokens ≤ available_size result.1.allocator
    → (tokens : List ℕ) × ((generate_from m n sampler stop max_tokens result).0 ≡ ok tokens)
generate_from-Returns m n sampler stop max_tokens (raise e, r) s runs k enough = cc
generate_from-Returns m n sampler stop max_tokens (ok (s', f), r) s runs k enough =
    finished-Returns m _ (loop-Returns m n sampler stop max_tokens s' f.logits r runs enough)

-- On a runner whose cache is in order, with a network that raises no exception: `generate` returns
-- if the allocator has a slot for each token of the prompt that is not cached and for each token
-- that may be generated.
pub generate-enough :
    (m : Mlx) (n : Network m) (r : ModelRunner m) (request_id : ℕ) (prompt : List ℕ)
    (max_tokens : ℕ) (sampler : Option (m.Array → ℕ)) (stop_tokens : Option (List ℕ))
    → IsReady r.radix_cache
    → Runs m n
    → (length prompt - length (cached r.radix_cache prompt)) + max_tokens
      ≤ available_size r.allocator
    → (tokens : List ℕ) × ((generate m n r request_id prompt max_tokens sampler stop_tokens).0
        ≡ ok tokens)
unfolding generate
generate-enough m n r request_id prompt max_tokens sampler stop_tokens v runs enough =
    elim (forward_prefill-memory m n r request_id prompt v runs) [
      | inl (e, _, few) ↦ absurd (omega (arith, few, enough))
      | inr (s, e, size) ↦
          generate_from-Returns m n (Option.get_or sampler n.argmax) (Option.get_or stop_tokens [])
            max_tokens (forward_prefill m n r request_id prompt) s runs e
            (omega (arith, size, enough))
    ]

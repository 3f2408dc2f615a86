-- ===== src/ModelRunner/DecodeLaws.antt =====
-- What a request has after `forward_decode` and `finish_request`.
use sglang_mlx.Prelude.{
  ℕ, some, List, [], ◌∷◌, ◌++◌, ◌≡◌, refl, ◌∙◌, ap, arith, length, inl, inr, Result, ok, raise, pos,
  length-append,
}
use sglang_mlx.Allocator.Slots.{alloc_lem}
use sglang_mlx.KvPool.{Mlx, MhaTokenPool, PooledKvCache}
use sglang_mlx.Radix.Cache.{RadixCache, set_allocator}
use sglang_mlx.Radix.Refine.{cached, cached-insert}
use sglang_mlx.Radix.InsertPrefix.{length-cached_children-le}
use sglang_mlx.ModelRunner.State.{
  RequestState, Network, ForwardResult, ModelRunner, with_allocator, seq_len, total_cached_len,
}
use sglang_mlx.ModelRunner.Decode.{finish_decode, decode_ran, forward_decode, finish_request}
use sglang_mlx.ModelRunner.Ready.{IsReady, set_allocator-IsReady, insert-IsReady, dec-IsReady}
use sglang_mlx.ModelRunner.PlanLaws.{HasSlots}
use sglang_mlx.Radix.Evict.View.{IsPrefix}
use sglang_mlx.Radix.Answers.{overlay-grows, overlay_whole}

-- The request after a decode that returned.
pub record Decoded (s : RequestState) (token : ℕ) (s' : RequestState) (c c' : RadixCache)
    : Type 0 where
  pub ready : IsReady c'
  pub slots : HasSlots s'
  pub same_prompt : s'.prompt_tokens ≡ s.prompt_tokens
  pub one_token : s'.output_tokens ≡ s.output_tokens ++ (token ∷ [])
  pub slot : ℕ
  pub one_slot : s'.all_slot_indices ≡ s.all_slot_indices ++ (slot ∷ [])
  pub same_node : s'.radix_node ≡ s.radix_node
  pub whole : length (cached c' (s'.prompt_tokens ++ s'.output_tokens)) ≡ seq_len s'
  pub grows : (q : List ℕ) → IsPrefix (cached c q) (cached c' q)

abbrev pub DecodeLem :
    (m : Mlx)
    → ModelRunner m
    → RequestState
    → ℕ
    → Result (ForwardResult m) × (RequestState × ModelRunner m)
    → Type 0
DecodeLem m r s token (raise e, (s', after)) =
    IsReady after.radix_cache
    × HasSlots s'
    × (s'.all_slot_indices ≡ s.all_slot_indices)
    × (s'.prompt_tokens ≡ s.prompt_tokens)
    × (s'.output_tokens ≡ s.output_tokens)
    × ((q : List ℕ) → cached after.radix_cache q ≡ cached r.radix_cache q)
DecodeLem m r s token (ok f, (s', after)) = Decoded s token s' r.radix_cache after.radix_cache

pub one_of : (l : List ℕ) → length l ≡ 1 → (x : ℕ) × (l ≡ x ∷ [])
one_of [] e = absurd (omega (arith, e))
one_of (x ∷ []) e = (x, refl)
one_of (x ∷ y ∷ l) e = absurd (omega (arith, e))

decode_ran_lem :
    (m : Mlx) (n : Network m) (r0 r : ModelRunner m) (s : RequestState) (token : ℕ) (slots : List ℕ)
    (result : Result n.Logits × (List PooledKvCache × MhaTokenPool m))
    → IsReady r.radix_cache
    → HasSlots s
    → length slots ≡ 1
    → ((q : List ℕ) → cached r.radix_cache q ≡ cached r0.radix_cache q)
    → DecodeLem m r0 s token (decode_ran m n r s token slots result)
unfolding finish_decode seq_len total_cached_len
decode_ran_lem m n r0 r s token slots (raise e, (kv_caches, pool)) v h one same =
    (v, h, refl, refl, refl, same)
decode_ran_lem m n r0 r s token slots (ok logits, (kv_caches, pool)) v h one same =
    let key = s.prompt_tokens ++ (s.output_tokens ++ (token ∷ [])) in
    let value = s.all_slot_indices ++ slots in
    let paired : length value ≡ length key = omega (
      arith,
      length-append s.all_slot_indices slots,
      length-append s.prompt_tokens (s.output_tokens ++ (token ∷ [])),
      length-append s.output_tokens (token ∷ []),
      one,
      h,
    ) in
    let (slot, single) = one_of slots one in
    let after =
      cached-insert r.radix_cache (record { key = key; value = some value; priority = pos 0 })
        (v.kept.leaves 0).shape v.enabled paired in
    record {
      ready = insert-IsReady r.radix_cache key value paired v;
      slots = omega (
        arith,
        length-append s.all_slot_indices slots,
        length-append s.output_tokens (token ∷ []),
        one,
        h,
      );
      same_prompt = refl;
      one_token = refl;
      slot = slot;
      one_slot = ap (λ l. s.all_slot_indices ++ l) single;
      same_node = refl;
      whole =
          ap length (after.1 key)
          ∙ overlay_whole key value (cached r.radix_cache key) paired
              (length-cached_children-le r.radix_cache.children key (v.kept.leaves 0).shape)
          ∙ length-append s.prompt_tokens (s.output_tokens ++ (token ∷ []));
      grows = λ q. rw (after.1 q, same q) (overlay-grows key value (cached r0.radix_cache q) q);
    }

-- On a runner whose cache is in order, for a request with a slot for each of its tokens, whatever
-- the network does: `forward_decode` leaves the cache in order and the request with a slot for each
-- of its tokens. With a result, the token and one slot were appended to the request, the
-- cache has an answer for all its tokens, and every answer of the cache is the one before or goes
-- on behind it; with an exception, the request's
-- tokens and slots and the cache's answers are as before.
pub forward_decode_lem :
    (m : Mlx) (n : Network m) (r : ModelRunner m) (s : RequestState) (token : ℕ)
    → IsReady r.radix_cache
    → HasSlots s
    → DecodeLem m r s token (forward_decode m n r s token)
unfolding forward_decode
forward_decode_lem m n r s token v h = elim (alloc_lem r.allocator 1) [
  | inl (slots, b, e, _, size, _, _) ↦ rw e (
      decode_ran_lem m n r (with_allocator m r b) s token slots _
        (set_allocator-IsReady r.radix_cache b v) h size (λ q. unfold set_allocator in refl))
  | inr (e, few) ↦ rw e (v, h, refl, refl, refl, λ q. refl)
]

-- On a runner whose cache is in order: the end of a request leaves the cache in order, with the
-- answers that it had.
pub finish_request_lem :
    (m : Mlx) (r : ModelRunner m) (s : RequestState)
    → IsReady r.radix_cache
    → let after = finish_request m r s in
      IsReady after.radix_cache
      × ((q : List ℕ) → cached after.radix_cache q ≡ cached r.radix_cache q)
unfolding finish_request
finish_request_lem m r s v = dec-IsReady r.radix_cache s.radix_node v

-- ===== src/ModelRunner/Lost.antt =====
-- The slot of a token that is cached already.
use sglang_mlx.Prelude.{
  ok, ◌≢◌, ℕ, suc, ◌+◌, ◌≤◌, some, List, [], ◌∷◌, ◌++◌, ◌≡◌, refl, ap, arith, length, map, drop,
  count, count-append, inl, inr, length-append, length-drop, pos,
}
use sglang_mlx.Allocator.{available_size}
use sglang_mlx.Allocator.Slots.{alloc_lem}
use sglang_mlx.KvPool.{Mlx, set_indices}
use sglang_mlx.Radix.Cache.{InsertParams, insert, set_allocator}
use sglang_mlx.Radix.Refine.{cached}
use sglang_mlx.Radix.SlotSums.{held, held-insert}
use sglang_mlx.ModelRunner.State.{
  decode, ForwardResult, RequestState, Network, ModelRunner, seq_len, total_cached_len,
}
use sglang_mlx.ModelRunner.Decode.{finish_decode, forward_decode}
use sglang_mlx.ModelRunner.Ready.{IsReady}
use sglang_mlx.ModelRunner.PlanLaws.{HasSlots}
use sglang_mlx.ModelRunner.PrefillLaws.{Runs}
use sglang_mlx.ModelRunner.DecodeLaws.{one_of}
use sglang_mlx.ModelRunner.Slots.{all_slots}

count-empty : (i : ℕ) (l : List ℕ) → length l ≡ 0 → count i l ≡ 0
unfolding count
count-empty i [] e = refl
count-empty i (x ∷ l) e = absurd (omega (arith, e))

-- On a runner whose cache is in order, that has a free slot, and where no slot is free or in the
-- tree twice, with a network that raises no exception, for a request with a slot for each of its
-- tokens: if its tokens with the new one are all cached before the decode, the decode returns; the
-- slot that it adds to the request was free before, and is neither free nor in the tree afterwards;
-- and every other slot is free, and in the tree, as often as before.
pub forward_decode-all_slots :
    (m : Mlx) (n : Network m) (r : ModelRunner m) (s : RequestState) (token : ℕ)
    → IsReady r.radix_cache
    → HasSlots s
    → Runs m n
    → 1 ≤ available_size r.allocator
    → length (cached r.radix_cache (s.prompt_tokens ++ (s.output_tokens ++ (token ∷ []))))
      ≡ suc (seq_len s)
    → ((i : ℕ) → all_slots m i r ≤ 1)
    → let (result, (s', after)) = forward_decode m n r s token in
      (f : ForwardResult m) × (slot : ℕ) × (result ≡ ok f)
      × (s'.all_slot_indices ≡ s.all_slot_indices ++ (slot ∷ []))
      × (count slot r.allocator.free_slots ≡ 1)
      × (count slot after.allocator.free_slots ≡ 0)
      × (held slot after.radix_cache ≡ 0)
      × ((i : ℕ)
          → i ≢ slot
          → (count i after.allocator.free_slots ≡ count i r.allocator.free_slots)
            × (held i after.radix_cache ≡ held i r.radix_cache))
unfolding forward_decode finish_decode set_allocator held count seq_len total_cached_len
forward_decode-all_slots m n r s token v h runs some_left whole once =
    elim (alloc_lem r.allocator 1) [
      | inl (slots, b, e, _, size, parts, _) ↦
          let key = s.prompt_tokens ++ (s.output_tokens ++ (token ∷ [])) in
          let value = s.all_slot_indices ++ slots in
          let (slot, single) = one_of slots size in
          let (logits, next, k) =
            runs (token ∷ []) (map (λ c. set_indices c s.all_slot_indices slots) s.kv_caches)
              r.pool in
          let long : length value ≡ suc (length s.prompt_tokens + length s.output_tokens) =
            omega (arith, length-append s.all_slot_indices slots, size, h) in
          let paired : length value ≡ length key = omega (
            arith,
            long,
            length-append s.prompt_tokens (s.output_tokens ++ (token ∷ [])),
            length-append s.output_tokens (token ∷ []),
          ) in
          let none_left = λ (i : ℕ).
            count-empty i (drop (length (cached r.radix_cache key)) value)
              (omega (arith, length-drop (length (cached r.radix_cache key)) value, long, whole)) in
          let entry : InsertParams = record { key = key; value = some value; priority = pos 0 } in
          let d = (insert (set_allocator r.radix_cache b) entry).1 in
          let taken : (i : ℕ)
              → count i b.free_slots + count i (slot ∷ []) ≡ count i r.allocator.free_slots =
            λ i.
              omega (
                arith,
                ap (count i) parts,
                count-append i b.free_slots slots,
                ap (count i) single,
              ) in
          let kept : (i : ℕ) → held i d ≡ held i r.radix_cache = λ i. omega (
            arith,
            held-insert i (set_allocator r.radix_cache b) entry (v.kept.leaves 0).shape v.enabled
                paired,
            none_left i,
          ) in
          rw (e, k)
            (
              record { logits = n.last_logits logits; forward_mode = decode },
              slot,
              refl,
              ap (λ l. s.all_slot_indices ++ l) single,
              ground (arith, taken slot, kept slot, once slot),
              ground (arith, taken slot, kept slot, once slot),
              ground (arith, taken slot, kept slot, once slot),
              λ i other. (ground (arith, taken i, other), kept i),
            )
      | inr (e, few) ↦ absurd (omega (arith, few, some_left))
    ]

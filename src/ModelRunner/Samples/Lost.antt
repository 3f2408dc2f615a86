-- ===== src/ModelRunner/Samples/Lost.antt =====
-- A second request with tokens that the first one has cached.
use sglang_mlx.Prelude.{◌≢◌, ◌++◌, ℕ, [], ◌∷◌, ◌≡◌, refl, ok, length, ◌≤◌, subst, suc, count, arith}
use sglang_mlx.Allocator.{available_size}
use sglang_mlx.Radix.View.{cached_children, along}
use sglang_mlx.Radix.Refine.{cached}
use sglang_mlx.ModelRunner.State.{
  prefill, seq_len, total_cached_len, RequestState, ForwardResult, ModelRunner,
}
use sglang_mlx.ModelRunner.Prefill.{forward_prefill}
use sglang_mlx.ModelRunner.Decode.{forward_decode}
use sglang_mlx.ModelRunner.Ready.{IsReady}
use sglang_mlx.ModelRunner.PrefillLaws.{PrefillLem, forward_prefill_lem}
use sglang_mlx.ModelRunner.DecodeLaws.{DecodeLem, forward_decode_lem}
use sglang_mlx.ModelRunner.Slots.{all_slots}
use sglang_mlx.Radix.SlotSums.{held}
use sglang_mlx.Radix.Samples.{one_leaf}
use sglang_mlx.Allocator.Slots.{once_within}
use sglang_mlx.ModelRunner.Interleaved.{prefills, decodes, done, more}
use sglang_mlx.ModelRunner.Pool.{IsServing, Reaches-new_runner}
use sglang_mlx.ModelRunner.Lost.{forward_decode-all_slots}
use sglang_mlx.ModelRunner.Samples.{
  runs, lists, echo, small, asked, served, served-IsReady, decoded, answered, made, ask,
}

decoded-IsReady : IsReady decoded.1.radix_cache
decoded-IsReady =
    let d = subst (DecodeLem lists served asked 9) answered (
      forward_decode_lem lists echo served asked 9 served-IsReady
        (unfold seq_len total_cached_len in refl)) in
    d.ready

-- The same prompt again, all of which is cached.
abbrev asked_again : RequestState
asked_again = record asked {
  request_id = 8;
  prefix_len = 1;
  kv_caches =
      record { layer_idx = 0; prefix_indices = 2 ∷ []; new_indices = 1 ∷ []; store_offset = 0 }
      ∷ [];
}

second : ModelRunner lists
unfolding runs small served decoded
second = (forward_prefill lists echo decoded.1 8 (1 ∷ 2 ∷ [])).1

ask_again :
    forward_prefill lists echo decoded.1 8 (1 ∷ 2 ∷ [])
    ≡ (ok (asked_again, record { logits = 2 ∷ []; forward_mode = prefill }), second)
unfolding runs small served decoded second
ask_again = refl

second-IsReady : IsReady second.radix_cache
second-IsReady =
    let p =
      subst (PrefillLem lists decoded.1 (1 ∷ 2 ∷ [])) ask_again
        (forward_prefill_lem lists echo decoded.1 8 (1 ∷ 2 ∷ []) decoded-IsReady) in
    p.ready

all_cached : length (cached second.radix_cache (1 ∷ 2 ∷ 9 ∷ [])) ≡ suc (seq_len asked_again)
unfolding runs small served decoded second cached_children along seq_len
all_cached = refl

some_left : 1 ≤ available_size second.allocator
unfolding runs small served decoded second available_size
some_left = omega arith

in_order :
    IsServing lists
      (once_within 6)
      (record { runner = second; requests = asked_again ∷ decoded.0 ∷ [] })
in_order =
    Reaches-new_runner lists echo 1 1 1 6 tt one_leaf.supply small
      (record { runner = second; requests = asked_again ∷ decoded.0 ∷ [] }) made
      (more _ _ _ (prefills small served [] 7 (1 ∷ 2 ∷ []) asked _ ask) (
        more _ _ _ (decodes served decoded.1 [] [] 9 asked decoded.0 _ answered) (
          more _ _ _
            (prefills decoded.1 second (decoded.0 ∷ []) 8 (1 ∷ 2 ∷ []) asked_again _ ask_again)
            (done _))))

once : (i : ℕ) → all_slots lists i second ≤ 1
once i = ground (arith, in_order.counted i)

forward_decode-all_slots_example :
    let (result, (s', after)) = forward_decode lists echo second asked_again 9 in
    (f : ForwardResult lists) × (slot : ℕ) × (result ≡ ok f)
    × (s'.all_slot_indices ≡ asked_again.all_slot_indices ++ (slot ∷ []))
    × (count slot second.allocator.free_slots ≡ 1)
    × (count slot after.allocator.free_slots ≡ 0)
    × (held slot after.radix_cache ≡ 0)
    × ((i : ℕ)
        → i ≢ slot
        → (count i after.allocator.free_slots ≡ count i second.allocator.free_slots)
          × (held i after.radix_cache ≡ held i second.radix_cache))
unfolding seq_len total_cached_len
forward_decode-all_slots_example =
    forward_decode-all_slots lists echo second asked_again 9 second-IsReady refl
      (λ tokens kv_caches pool. (tokens, (kv_caches, pool), refl)) some_left all_cached once

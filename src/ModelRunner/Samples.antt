-- ===== src/ModelRunner/Samples.antt =====
-- Runs of a runner with a network that answers with its input, and the theorems at them.
pub mod Load
pub mod Lost
pub mod Evicting
use sglang_mlx.Prelude.{
  ℕ, ◌+◌, ◌+◌, ◌-◌, ◌<◌, none, some, List, [], ◌∷◌, ◌≡◌, refl, get_or, ok, raise, ◌+ℤ◌, ◌-ℤ◌,
  length, memory_error, ◌≤◌, subst, suc, count, ◌⊎◌, arith,
}
use sglang_mlx.Allocator.{TokenPoolAllocator, new_allocator, alloc, range_down, available_size}
use sglang_mlx.Allocator.Slots.{once_within}
use sglang_mlx.KvPool.{Mlx, new_pool, set_indices, new_kv_cache}
use sglang_mlx.Radix.Tree.{
  key_match, upper_half, update_leaf_status, is_evictable_leaf, discard, add_once, contains,
  has_live_child, split_node, append_child,
}
use sglang_mlx.Radix.Walk.{match_tree, insert_tree, add_leaf, leaf_node}
use sglang_mlx.Radix.Policy.{choose_strategy, same}
use sglang_mlx.Radix.Lock.{climb_tree, inc_node, dec_node}
use sglang_mlx.Radix.View.{cached_children, along}
use sglang_mlx.Radix.Cache.{
  reset, match_prefix, insert, inc_lock_ref, dec_lock_ref, climb, set_allocator, new_cache,
}
use sglang_mlx.Radix.Refine.{cached}
use sglang_mlx.Radix.Service.{reset-IsKept}
use sglang_mlx.Radix.Samples.{one_leaf}
use sglang_mlx.ModelRunner.State.{
  prefill, decode, seq_len, total_cached_len, RequestState, Network, ForwardResult, ModelRunner,
  new_runner,
}
use sglang_mlx.ModelRunner.Prefill.{
  plan_prefill, range_from, plan_caches, finish_prefill, forward_prefill,
}
use sglang_mlx.ModelRunner.Decode.{finish_decode, forward_decode, finish_request}
use sglang_mlx.ModelRunner.Generate.{generate_loop, generate}
use sglang_mlx.ModelRunner.Ready.{IsReady, set_allocator-IsReady}
use sglang_mlx.ModelRunner.PrefillLaws.{PrefillLem, forward_prefill_lem, forward_prefill-memory}
use sglang_mlx.ModelRunner.DecodeLaws.{DecodeLem, forward_decode_lem, finish_request_lem}
use sglang_mlx.ModelRunner.GenerateLaws.{GenerateLem, generate_lem}
use sglang_mlx.ModelRunner.Enough.{generate-enough}
use sglang_mlx.ModelRunner.Interleaved.{prefills, decodes, finishes, done, more}
use sglang_mlx.ModelRunner.Slots.{all_slots}
use sglang_mlx.ModelRunner.Lost.{forward_decode-all_slots}
use sglang_mlx.ModelRunner.Pool.{IsServing, Reaches-new_runner, Reaches-match_prefix}

-- What a run of the runner looks into.
runs : Unit {0}
unfolding match_prefix insert reset insert_tree match_tree add_leaf key_match upper_half climb
    climb_tree inc_lock_ref dec_lock_ref inc_node dec_node ◌-ℤ◌ ◌+ℤ◌ update_leaf_status
    is_evictable_leaf discard add_once contains has_live_child leaf_node split_node append_child
    set_allocator new_cache choose_strategy same new_allocator alloc range_down new_pool set_indices
    new_kv_cache new_runner plan_prefill range_from plan_caches finish_prefill forward_prefill
    finish_decode forward_decode finish_request generate_loop generate
runs = tt

-- Arrays without content.
abbrev lists : Mlx
lists = record {
  Array = List ℕ;
  Dtype = Unit {0};
  Mask = Unit {0};
  zeros = λ shape dtype. [];
  first = λ a. a;
  transpose = λ a. a;
  expand_dims = λ a. a;
  gather = λ a idx. a;
  scatter = λ a idx b. a;
  tokens = λ a. length a;
  create_attention_mask = λ n o r w. none;
}

-- A network whose logits are its tokens, and which samples the first one.
abbrev echo : Network lists
echo = record {
  Logits = List ℕ;
  forward = λ tokens kv_caches pool. (ok tokens, (kv_caches, pool));
  last_logits = λ l. l;
  argmax = λ l. get_or l 0 0;
}

abbrev six_slots : TokenPoolAllocator
six_slots = record { pool_size = 6; free_slots = 6 ∷ 5 ∷ 4 ∷ 3 ∷ 2 ∷ 1 ∷ [] }

small : ModelRunner lists
small = record {
  num_layers = 1;
  allocator = six_slots;
  pool = new_pool lists 6 1 1 1 tt;
  radix_cache = set_allocator (reset one_leaf) six_slots;
  active_requests = [];
}

small-IsReady : IsReady small.radix_cache
unfolding small reset
small-IsReady =
    set_allocator-IsReady (reset one_leaf) six_slots
      (record { kept = reset-IsKept one_leaf; enabled = refl })

made : new_runner lists 1 1 1 6 tt one_leaf.supply ≡ ok small
unfolding runs small
made = refl

forward_prefill_lem_example :
    PrefillLem lists small (1 ∷ 2 ∷ []) (forward_prefill lists echo small 7 (1 ∷ 2 ∷ []))
forward_prefill_lem_example = forward_prefill_lem lists echo small 7 (1 ∷ 2 ∷ []) small-IsReady

-- More tokens than there are slots.
abbrev seven : List ℕ
seven = 1 ∷ 2 ∷ 3 ∷ 4 ∷ 5 ∷ 6 ∷ 7 ∷ []

forward_prefill-memory_example :
    let result = forward_prefill lists echo small 7 seven in
    ((result.0 ≡ raise memory_error)
      × (result.1.allocator ≡ small.allocator)
      × (available_size small.allocator < length seven - length (cached small.radix_cache seven)))
    ⊎ ((s : RequestState × ForwardResult lists) × (result.0 ≡ ok s)
        × (available_size result.1.allocator
              + (length seven - length (cached small.radix_cache seven))
            ≡ available_size small.allocator))
forward_prefill-memory_example =
    forward_prefill-memory lists echo small 7 seven small-IsReady
      (λ tokens kv_caches pool. (tokens, (kv_caches, pool), refl))

-- The request of the prompt 1, 2.
abbrev asked : RequestState
asked = record {
  request_id = 7;
  prompt_tokens = 1 ∷ 2 ∷ [];
  output_tokens = [];
  all_slot_indices = 2 ∷ 1 ∷ [];
  radix_node = 3;
  prefix_len = 0;
  kv_caches =
      record { layer_idx = 0; prefix_indices = []; new_indices = 2 ∷ 1 ∷ []; store_offset = 0 }
      ∷ [];
}

served : ModelRunner lists
unfolding runs small
served = (forward_prefill lists echo small 7 (1 ∷ 2 ∷ [])).1

ask :
    forward_prefill lists echo small 7 (1 ∷ 2 ∷ [])
    ≡ (ok (asked, record { logits = 1 ∷ 2 ∷ []; forward_mode = prefill }), served)
unfolding runs small served
ask = refl

served-IsReady : IsReady served.radix_cache
served-IsReady =
    let p =
      subst (PrefillLem lists small (1 ∷ 2 ∷ [])) ask
        (forward_prefill_lem lists echo small 7 (1 ∷ 2 ∷ []) small-IsReady) in
    p.ready

forward_decode_lem_example :
    DecodeLem lists served asked 9 (forward_decode lists echo served asked 9)
unfolding seq_len total_cached_len
forward_decode_lem_example = forward_decode_lem lists echo served asked 9 served-IsReady refl

generate_lem_example :
    GenerateLem lists small
      (9 ∷ [])
      (1 ∷ 2 ∷ [])
      3
      (generate lists echo small 7 (1 ∷ 2 ∷ []) 3 none (some (9 ∷ [])))
generate_lem_example =
    generate_lem lists echo small 7 (1 ∷ 2 ∷ []) 3 none (some (9 ∷ [])) small-IsReady

no_tokens : length (cached small.radix_cache (1 ∷ 2 ∷ [])) ≡ 0
unfolding small reset set_allocator cached_children
no_tokens = refl

generate-enough_example :
    (tokens : List ℕ) × ((generate lists echo small 7 (1 ∷ 2 ∷ []) 3 none (some (9 ∷ []))).0
      ≡ ok tokens)
generate-enough_example =
    generate-enough lists echo small 7 (1 ∷ 2 ∷ []) 3 none (some (9 ∷ [])) small-IsReady
      (λ tokens kv_caches pool. (tokens, (kv_caches, pool), refl))
      (unfold small available_size in omega (arith, no_tokens))

-- Three tokens are generated: the first of the last logits each time.
three : (generate lists echo small 7 (1 ∷ 2 ∷ []) 3 none none).0 ≡ ok (1 ∷ 1 ∷ 1 ∷ [])
unfolding runs small
three = refl

stopped : (generate lists echo small 7 (1 ∷ 2 ∷ []) 3 none (some (1 ∷ []))).0 ≡ ok (1 ∷ [])
unfolding runs small
stopped = refl

decoded : RequestState × ModelRunner lists
unfolding runs small served
decoded = (forward_decode lists echo served asked 9).1

answered :
    forward_decode lists echo served asked 9
    ≡ (ok (record { logits = 9 ∷ []; forward_mode = decode }), (decoded.0, decoded.1))
unfolding runs small served decoded
answered = refl

Reaches-match_prefix_example :
    count 2 (match_prefix served.radix_cache (1 ∷ 2 ∷ [])).0.device_indices
      + count 2 served.allocator.free_slots
    ≤ once_within 6 2
Reaches-match_prefix_example =
    Reaches-match_prefix lists echo 1 1 1 6 tt one_leaf.supply small
      (record { runner = served; requests = asked ∷ [] }) (1 ∷ 2 ∷ []) 2 made
      (more _ _ _ (prefills small served [] 7 (1 ∷ 2 ∷ []) asked _ ask) (done _))

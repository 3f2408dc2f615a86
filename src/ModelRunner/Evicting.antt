-- ===== src/ModelRunner/Evicting.antt =====
-- What the locks of the requests in progress promise, whenever evictions come.
use mathlib.Core.List.{map-append}
use sglang_mlx.Prelude.{
  ℕ, ◌≤◌, List, [], ◌∷◌, ◌++◌, ◌≡◌, ◌∙◌, ap, length, take, some, ok, pos, subst, ◌⊎◌,
}
use sglang_mlx.KvPool.{Mlx}
use sglang_mlx.Radix.Tree.{Supply, nil}
use sglang_mlx.Radix.Evict.{evict}
use sglang_mlx.Radix.Cache.{RadixCache, match_prefix, protected_size, evictable_size}
use sglang_mlx.Radix.Locks.Clients.{nodes}
use sglang_mlx.Radix.Locks.History.{AreServed-match_prefix}
use sglang_mlx.Radix.Locks.Sizes.{
  guarded_children, guarded-none, idle_children, idle-evict, IsHeld-sizes,
}
use sglang_mlx.ModelRunner.State.{RequestState, Network, ModelRunner, new_runner}
use sglang_mlx.ModelRunner.Interleaved.{Serving}
use sglang_mlx.ModelRunner.Guarded.{lock_of, Guards}
use sglang_mlx.ModelRunner.Turns.{Turns, locks_of, after_turns}

-- From a new runner, after any interleaving of prefills, decodes, ends of requests and evictions
-- from its cache, whenever these may come, also calls that raised: for a request in progress, a match of its prompt returns
-- the request's own slots of the prompt, one for each token.
pub Turns-match_prefix :
    (m : Mlx) (may : List RequestState → Type 0) (n : Network m)
    (num_layers n_kv_heads head_dim pool_size : ℕ) (dtype : m.Dtype) (s : Supply)
    (r after : ModelRunner m) (before behind : List RequestState) (x : RequestState)
    → new_runner m num_layers n_kv_heads head_dim pool_size dtype s ≡ ok r
    → Turns m may n
        (record { runner = r; requests = [] })
        (record { runner = after; requests = before ++ (x ∷ behind) })
    → ((match_prefix after.radix_cache x.prompt_tokens).0.device_indices
        ≡ take (length x.prompt_tokens) x.all_slot_indices)
      × (length (take (length x.prompt_tokens) x.all_slot_indices) ≡ length x.prompt_tokens)
Turns-match_prefix m may n num_layers n_kv_heads head_dim pool_size dtype s r after before behind x
      e turns =
    let v =
      after_turns m may n num_layers n_kv_heads head_dim pool_size dtype s r
        (record { runner = after; requests = before ++ (x ∷ behind) }) e turns in
    AreServed-match_prefix after.radix_cache (locks_of before) (locks_of behind) (lock_of x)
      (subst (Guards after.radix_cache) (map-append lock_of before (x ∷ behind)) v.served)

-- From a new runner, after any interleaving of prefills, decodes, ends of requests and evictions
-- from its cache, whenever these may come, also calls that raised: the protected size of the cache counts the tokens of the
-- nodes at which or below which a request in progress has its lock, and the evictable size those of
-- all others.
pub Turns-sizes :
    (m : Mlx) (may : List RequestState → Type 0) (n : Network m)
    (num_layers n_kv_heads head_dim pool_size : ℕ) (dtype : m.Dtype) (s : Supply)
    (r : ModelRunner m) (w : Serving m)
    → new_runner m num_layers n_kv_heads head_dim pool_size dtype s ≡ ok r
    → Turns m may n (record { runner = r; requests = [] }) w
    → let c = w.runner.radix_cache in
      let held = nodes (locks_of w.requests) in
      (protected_size c ≡ pos (guarded_children held c.children))
      × (evictable_size c ≡ pos (idle_children held c.children))
Turns-sizes m may n num_layers n_kv_heads head_dim pool_size dtype s r w e turns =
    let v = after_turns m may n num_layers n_kv_heads head_dim pool_size dtype s r w e turns in
    IsHeld-sizes (nodes (locks_of w.requests)) w.runner.radix_cache v.served.held

-- From a new runner, after any interleaving of prefills, decodes, ends of requests and evictions
-- from its cache, whenever these may come, also calls that raised, when no request is in progress: nothing is protected, and
-- an eviction evicts as many tokens as asked for, or leaves no node below the root.
pub Turns-evict :
    (m : Mlx) (may : List RequestState → Type 0) (n : Network m)
    (num_layers n_kv_heads head_dim pool_size : ℕ) (dtype : m.Dtype) (s : Supply)
    (r after : ModelRunner m) (num_tokens k : ℕ) (d : RadixCache)
    → new_runner m num_layers n_kv_heads head_dim pool_size dtype s ≡ ok r
    → Turns m may n
        (record { runner = r; requests = [] })
        (record { runner = after; requests = [] })
    → evict after.radix_cache num_tokens ≡ some (k, d)
    → (protected_size after.radix_cache ≡ pos 0) × ((num_tokens ≤ k) ⊎ (d.children ≡ nil))
Turns-evict m may n num_layers n_kv_heads head_dim pool_size dtype s r after num_tokens k d e turns
      ran =
    let v =
      after_turns m may n num_layers n_kv_heads head_dim pool_size dtype s r
        (record { runner = after; requests = [] }) e turns in
    let c = after.radix_cache in
    (
      (IsHeld-sizes [] c v.served.held).0 ∙ ap pos (guarded-none c.children),
      idle-evict c d num_tokens k v.served.held ran,
    )

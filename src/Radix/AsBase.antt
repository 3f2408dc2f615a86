-- ===== src/Radix/AsBase.antt =====
-- `RadixCache` as a `BasePrefixCache`: `class RadixCache(BasePrefixCache)`.
use mathlib.Core.Option
use sglang_mlx.Prelude.{subst, ℕ, false, none, some, List, [], ◌≡◌, refl, ◌∙◌, ap, ℤ, pos, ◌+ℤ◌}
use sglang_mlx.Radix.Tree.{Supply, nil}
use sglang_mlx.Radix.Policy.{lru}
use sglang_mlx.Radix.Lock.{Body, inc_node, dec_node}
use sglang_mlx.Radix.LockView.{Keeps, inc_node-Keeps, dec_node-Keeps}
use sglang_mlx.Radix.View.{cached_children}
use sglang_mlx.Radix.Cache.{
  RadixCache, root_node, reset, match_prefix, insert, climb, inc_lock_ref, dec_lock_ref,
  evictable_size, protected_size, total_size,
}
use sglang_mlx.Radix.Refine.{
  cached, match_prefix-cached, cached-match_prefix, cached-insert, cached-climb_cache,
  disable-match, disable-insert,
}
use sglang_mlx.Radix.InsertPrefix.{length-cached_children-le, prefix_len-insert}
use sglang_mlx.Radix.History.{matches, stores, locks, unlocks, step, IfAny, locked_at}
use sglang_mlx.Radix.Tracks.{IsTracking, inc_node-IsTracking, dec_node-IsTracking}
use sglang_mlx.Radix.Balance.{climb-IsBalanced}
use sglang_mlx.Radix.Locks.Found.{match_prefix-lockable}
use sglang_mlx.Radix.Evict.View.{IsPrefix}
use sglang_mlx.Radix.Evict.{evict}
use sglang_mlx.Radix.Evict.Laws.{IsKept, evict_lem}
use sglang_mlx.Radix.Evict.Promises.{evict-sizes}
use sglang_mlx.Radix.Service.{reset-IsKept, step-IsKept}
use sglang_mlx.Radix.TotalSize.{total_size-sum}
use sglang_mlx.Radix.BaseCache.{BasePrefixCache, IsPrefixCache}

-- The methods that the class overrides.
abbrev pub radix_cache : BasePrefixCache
radix_cache = record {
  Cache = RadixCache;
  reset = reset;
  match_prefix = match_prefix;
  insert = λ c params. (record { prefix_len = (insert c params).0 }, (insert c params).1);
  evict = λ c params.
      Option.map (λ x. (record { num_tokens_evicted = x.0 }, x.1)) (evict c params.num_tokens);
  inc_lock_ref = inc_lock_ref;
  dec_lock_ref = dec_lock_ref;
  evictable_size = evictable_size;
  protected_size = protected_size;
  total_size = total_size;
}

-- An enabled cache in order.
abbrev pub IsEnabled : RadixCache → Type 0
IsEnabled c = IsKept c × (c.disable ≡ false)

locked-IsEnabled :
    (body : Body) (c d : RadixCache) (node : ℕ) (delta : ℤ)
    → Keeps body
    → IsTracking body
    → IfAny IsKept (locked_at (climb body c node))
    → IsEnabled c
    → climb body c node ≡ some (delta, d)
    → IsEnabled d
      × ((q : List ℕ) → cached d q ≡ cached c q)
      × (evictable_size d ≡ evictable_size c +ℤ delta)
unfolding evictable_size
locked-IsEnabled body c d node delta k tracking kept v e =
    let (_, same, switch) = cached-climb_cache body c d node delta k (v.0.leaves 0).shape e in
    (
      (subst (λ r. IfAny IsKept (locked_at r)) e kept, switch ∙ v.1),
      same,
      (climb-IsBalanced body c d node delta tracking e v.0.balanced).1,
    )

evict-cuts :
    (c : RadixCache) (n : ℕ)
    → IsEnabled c
    → (k : ℕ) × (d : RadixCache) × (evict c n ≡ some (k, d))
      × IsEnabled d
      × ((q : List ℕ) → IsPrefix (cached d q) (cached c q))
      × (evictable_size d +ℤ pos k ≡ evictable_size c)
      × (protected_size d ≡ protected_size c)
evict-cuts c n (v, on) =
    let (k, d, e, x) = evict_lem c n v on in
    let (less, same) = evict-sizes c d n k v on e in
    (k, d, e, (x.kept, x.same_switch ∙ on), x.view, less, same)

-- Some enabled cache.
abbrev blank : RadixCache
blank =
    let s : Supply = record { counter = 0; ticks = 0; clock = λ n. n } in
    record {
      disable = false;
      page_size = 1;
      eviction_strategy = lru;
      allocator = none;
      root = root_node s;
      children = nil;
      evictable_size_ = pos 0;
      protected_size_ = pos 0;
      evictable_leaves = [];
      supply = s;
    }

-- `RadixCache` does what a prefix cache promises, on the enabled caches in order, with the slots of
-- the longest cached prefix as the answer to a query: one such cache has no answers; a match returns
-- the answer, changes none, and returns a node that can be locked; an insertion of a key with a slot
-- for each token reports how long the answer to the key was, and lays the new slots behind the
-- answers; an eviction returns, cuts answers off from behind, takes the number it reports off the
-- evictable size and keeps the protected size; a lock call that has a result changes no answer and
-- returns the change of the evictable size; `reset` leaves no answers; `total_size` returns; and the
-- cache is enabled and in order after each of these.
pub radix_cache-IsPrefixCache : IsPrefixCache radix_cache IsEnabled cached
unfolding step inc_lock_ref dec_lock_ref
radix_cache-IsPrefixCache = record {
  starts = (
    reset blank,
    (reset-IsKept blank, unfold reset in refl),
    λ q. unfold reset cached_children in refl,
  );
  answers_bound = λ c q v. length-cached_children-le c.children q (v.0.leaves 0).shape;
  reset_empties =
      λ c v. ((reset-IsKept c, unfold reset in v.1), λ q. unfold reset cached_children in refl);
  match_prefix_answers = λ c key v. (
    (step-IsKept c (matches key) tt v.0, disable-match c key ∙ v.1),
    match_prefix-cached c key (v.0.leaves 0).shape v.1,
    (cached-match_prefix c key (v.0.leaves 0).shape).1,
  );
  match_prefix_lockable = λ c key v. match_prefix-lockable c key (v.0.leaves 0).shape v.1;
  insert_adds = λ c key value p v paired. (
    (step-IsKept c (stores key value p) paired v.0, disable-insert c _ ∙ v.1),
    prefix_len-insert c (record { key = key; value = some value; priority = p })
        (v.0.leaves 0).shape v.1,
    (cached-insert c (record { key = key; value = some value; priority = p }) (v.0.leaves 0).shape
        v.1 paired).1,
  );
  evict_cuts = λ c params v.
      let (k, d, e, w, view, less, same) = evict-cuts c params.num_tokens v in
      (
        record { num_tokens_evicted = k },
        d,
        ap (Option.map (λ x. (record { num_tokens_evicted = x.0 }, x.1))) e,
        w,
        view,
        less,
        same,
      );
  inc_lock_ref_keeps = λ c d node delta v e.
      locked-IsEnabled inc_node c d node delta inc_node-Keeps inc_node-IsTracking
        (step-IsKept c (locks node) tt v.0) v e;
  dec_lock_ref_keeps = λ c d node delta v e.
      locked-IsEnabled dec_node c d node delta dec_node-Keeps dec_node-IsTracking
        (step-IsKept c (unlocks node) tt v.0) v e;
  total_size_returns = λ c v. (_, total_size-sum c (v.0.leaves 0).shape);
}

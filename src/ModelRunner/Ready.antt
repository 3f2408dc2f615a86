-- ===== src/ModelRunner/Ready.antt =====
-- That the runner keeps its cache in order.
use sglang_mlx.Prelude.{ℕ, false, Option, none, some, List, ◌≡◌, refl, ◌∙◌, length, ℤ, pos}
use sglang_mlx.Allocator.{TokenPoolAllocator}
use sglang_mlx.Radix.Cache.{
  RadixCache, set_allocator, match_prefix, insert, inc_lock_ref, dec_lock_ref, climb,
}
use sglang_mlx.Radix.Lock.{Body, inc_node, dec_node}
use sglang_mlx.Radix.LockView.{inc_node-Keeps, dec_node-Keeps, Keeps}
use sglang_mlx.Radix.Refine.{cached, cached-climb_cache, disable-match, disable-insert}
use sglang_mlx.Radix.History.{matches, stores, locks, unlocks, step}
use sglang_mlx.Radix.Locks.Calls.{left_by, IsKept-left_by}
use sglang_mlx.Radix.Evict.Laws.{IsKept}
use sglang_mlx.Radix.Service.{step-IsKept}
use sglang_mlx.ModelRunner.Prefill.{locked_cache}

-- The cache of a runner: kept by its calls, and enabled.
pub record IsReady (c : RadixCache) : Type 0 where
  pub kept : IsKept c
  pub enabled : c.disable ≡ false

pub set_allocator-IsReady :
    (c : RadixCache) (a : TokenPoolAllocator) → IsReady c → IsReady (set_allocator c a)
unfolding set_allocator
set_allocator-IsReady c a v = record {
  kept = record {
    leaves = λ i.
        let x = v.kept.leaves i in
        record {
          shape = x.shape;
          rooted = x.rooted;
          exact = x.exact;
          one = x.one;
          fresh = x.fresh;
        };
    balanced = record { free = v.kept.balanced.free; taken = v.kept.balanced.taken };
    alive = v.kept.alive;
  };
  enabled = v.enabled;
}

pub match-IsReady : (c : RadixCache) (q : List ℕ) → IsReady c → IsReady (match_prefix c q).1
unfolding step
match-IsReady c q v = record {
  kept = step-IsKept c (matches q) tt v.kept;
  enabled = disable-match c q ∙ v.enabled;
}

pub insert-IsReady :
    (c : RadixCache) (key value : List ℕ)
    → length value ≡ length key
    → IsReady c
    → IsReady (insert c (record { key = key; value = some value; priority = pos 0 })).1
unfolding step
insert-IsReady c key value paired v = record {
  kept = step-IsKept c (stores key value (pos 0)) paired v.kept;
  enabled = disable-insert c _ ∙ v.enabled;
}

pub locked_cache-same :
    (c : RadixCache) (r : Option (ℤ × RadixCache)) → locked_cache c r ≡ left_by c r
locked_cache-same c none = refl
locked_cache-same c (some (delta, d)) = refl

-- A lock call keeps the switch and every answer.
climb-still :
    (body : Body) (c : RadixCache) (node : ℕ) (r : Option (ℤ × RadixCache))
    → Keeps body
    → IsKept c
    → climb body c node ≡ r
    → ((locked_cache c r).disable ≡ c.disable)
      × ((q : List ℕ) → cached (locked_cache c r) q ≡ cached c q)
climb-still body c node none k v e = (refl, λ q. refl)
climb-still body c node (some (delta, d)) k v e =
    let after = cached-climb_cache body c d node delta k (v.leaves 0).shape e in (after.2, after.1)

pub inc-IsReady :
    (c : RadixCache) (node : ℕ)
    → IsReady c
    → IsReady (locked_cache c (inc_lock_ref c node))
      × ((q : List ℕ) → cached (locked_cache c (inc_lock_ref c node)) q ≡ cached c q)
unfolding step inc_lock_ref
inc-IsReady c node v =
    let same = locked_cache-same c (inc_lock_ref c node) in
    let still = climb-still inc_node c node _ inc_node-Keeps v.kept refl in
    (
      record {
        kept =
            rw same (
              IsKept-left_by c (inc_lock_ref c node) v.kept (step-IsKept c (locks node) tt v.kept));
        enabled = still.0 ∙ v.enabled;
      },
      still.1,
    )

pub dec-IsReady :
    (c : RadixCache) (node : ℕ)
    → IsReady c
    → IsReady (locked_cache c (dec_lock_ref c node))
      × ((q : List ℕ) → cached (locked_cache c (dec_lock_ref c node)) q ≡ cached c q)
unfolding step dec_lock_ref
dec-IsReady c node v =
    let same = locked_cache-same c (dec_lock_ref c node) in
    let still = climb-still dec_node c node _ dec_node-Keeps v.kept refl in
    (
      record {
        kept = rw same (
            IsKept-left_by c (dec_lock_ref c node) v.kept (step-IsKept c (unlocks node) tt v.kept));
        enabled = still.0 ∙ v.enabled;
      },
      still.1,
    )

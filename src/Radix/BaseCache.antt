-- ===== src/Radix/BaseCache.antt =====
-- `BasePrefixCache` of base_prefix_cache.py, with its result types: what the users of a prefix
-- cache call, and the laws that they rely on.
use sglang_mlx.Prelude.{ℕ, ◌≤◌, Option, some, List, [], ◌≡◌, ◌∙◌, ap, ℤ, pos, ◌+ℤ◌, length}
use sglang_mlx.Radix.Cache.{InsertParams, MatchResult}
use sglang_mlx.Radix.View.{overlay}
use sglang_mlx.Radix.Answers.{overlay_whole}
use sglang_mlx.Radix.Evict.View.{IsPrefix}

pub record InsertResult : Type 0 where
  pub prefix_len : ℕ

pub record EvictParams : Type 0 where
  pub num_tokens : ℕ

pub record EvictResult : Type 0 where
  pub num_tokens_evicted : ℕ

-- The methods, with the cache after a call. `Cache` is the state of an object of the class, a node
-- is given by its id, and `none` stands for a call that does not return.
pub record BasePrefixCache : Type 1 where
  pub Cache : Type 0
  pub reset : Cache → Cache
  pub match_prefix : Cache → List ℕ → MatchResult × Cache
  pub insert : Cache → InsertParams → InsertResult × Cache
  pub evict : Cache → EvictParams → Option (EvictResult × Cache)
  pub inc_lock_ref : Cache → ℕ → Option (ℤ × Cache)
  pub dec_lock_ref : Cache → ℕ → Option (ℤ × Cache)
  pub evictable_size : Cache → ℤ
  pub protected_size : Cache → ℤ
  pub total_size : Cache → Option ℕ

-- What it is for `b` to be a prefix cache on the states `IsValid`, with `answers` for the slots that
-- a state has for a query: insertions add to the answers, evictions cut them off from behind, and
-- nothing else but `reset` changes them.
pub record IsPrefixCache (b : BasePrefixCache) (IsValid : b.Cache → Type 0)
    (answers : b.Cache → List ℕ → List ℕ) : Type 0 where
  pub starts : (c : b.Cache) × IsValid c × ((q : List ℕ) → answers c q ≡ [])
  pub answers_bound : (c : b.Cache) (q : List ℕ) → IsValid c → length (answers c q) ≤ length q
  pub reset_empties :
      (c : b.Cache) → IsValid c → IsValid (b.reset c) × ((q : List ℕ) → answers (b.reset c) q ≡ [])
  pub match_prefix_answers :
      (c : b.Cache) (key : List ℕ)
      → IsValid c
      → let (found, d) = b.match_prefix c key in
        IsValid d
        × (found.device_indices ≡ answers c key)
        × ((q : List ℕ) → answers d q ≡ answers c q)
  -- The node that a match returns can be locked.
  pub match_prefix_lockable :
      (c : b.Cache) (key : List ℕ)
      → IsValid c
      → let (found, d) = b.match_prefix c key in
        (delta : ℤ) × (e : b.Cache) × (b.inc_lock_ref d found.last_node ≡ some (delta, e))
  pub insert_adds :
      (c : b.Cache) (key value : List ℕ) (p : ℤ)
      → IsValid c
      → length value ≡ length key
      → let (result, d) = b.insert c (record { key = key; value = some value; priority = p }) in
        IsValid d
        × (result.prefix_len ≡ length (answers c key))
        × ((q : List ℕ) → answers d q ≡ overlay key value (answers c q) q)
  pub evict_cuts :
      (c : b.Cache) (params : EvictParams)
      → IsValid c
      → (result : EvictResult) × (d : b.Cache) × (b.evict c params ≡ some (result, d))
        × IsValid d
        × ((q : List ℕ) → IsPrefix (answers d q) (answers c q))
        × (b.evictable_size d +ℤ pos result.num_tokens_evicted ≡ b.evictable_size c)
        × (b.protected_size d ≡ b.protected_size c)
  pub inc_lock_ref_keeps :
      (c d : b.Cache) (node : ℕ) (delta : ℤ)
      → IsValid c
      → b.inc_lock_ref c node ≡ some (delta, d)
      → IsValid d
        × ((q : List ℕ) → answers d q ≡ answers c q)
        × (b.evictable_size d ≡ b.evictable_size c +ℤ delta)
  pub dec_lock_ref_keeps :
      (c d : b.Cache) (node : ℕ) (delta : ℤ)
      → IsValid c
      → b.dec_lock_ref c node ≡ some (delta, d)
      → IsValid d
        × ((q : List ℕ) → answers d q ≡ answers c q)
        × (b.evictable_size d ≡ b.evictable_size c +ℤ delta)
  pub total_size_returns : (c : b.Cache) → IsValid c → (n : ℕ) × (b.total_size c ≡ some n)

module _ (b : BasePrefixCache) (IsValid : b.Cache → Type 0) (answers : b.Cache → List ℕ → List ℕ)
    (laws : IsPrefixCache b IsValid answers) where
  -- After an insertion of a key with a slot for each token: a match of the key returns that many
  -- slots, and so does a further insertion of the key report it as known.
  pub insert-again :
      (c : b.Cache) (key value value' : List ℕ) (p p' : ℤ)
      → IsValid c
      → length value ≡ length key
      → length value' ≡ length key
      → let d = (b.insert c (record { key = key; value = some value; priority = p })).1 in
        (length (b.match_prefix d key).0.device_indices ≡ length key)
        × ((b.insert d (record { key = key; value = some value'; priority = p' })).0.prefix_len
            ≡ length key)
  insert-again c key value value' p p' v paired paired' =
      let d = (b.insert c (record { key = key; value = some value; priority = p })).1 in
      let (w, _, after) = laws.insert_adds c key value p v paired in
      let whole : length (answers d key) ≡ length key =
        ap length (after key)
        ∙ overlay_whole key value (answers c key) paired (laws.answers_bound c key v) in
      let (_, found, _) = laws.match_prefix_answers d key w in
      let (_, known, _) = laws.insert_adds d key value' p' w paired' in
      (ap length found ∙ whole, known ∙ whole)

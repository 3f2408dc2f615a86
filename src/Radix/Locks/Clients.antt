-- ===== src/Radix/Locks/Clients.antt =====
-- Clients of the cache that hold locks: each step is a call, and evictions come between.
use sglang_mlx.Prelude.{ℕ, some, List, [], ◌∷◌, ◌++◌, ◌≡◌, length, take, ℤ, ◌⊎◌, map}
use sglang_mlx.Radix.Refine.{cached}
use sglang_mlx.Radix.Evict.{evict}
use sglang_mlx.Radix.Cache.{
  MatchResult, RadixCache, match_prefix, insert, inc_lock_ref, dec_lock_ref,
}
use sglang_mlx.Radix.Locks.Calls.{ends}

-- A lock that a client holds: the node, its tokens from the root on, and their slots.
pub record Lock : Type 0 where
  pub node : ℕ
  pub key : List ℕ
  pub slots : List ℕ

pub record Clients : Type 0 where
  pub cache : RadixCache
  pub locks : List Lock

abbrev pub nodes : List Lock → List ℕ
nodes l = map (λ x. x.node) l

-- The lock at the last node of a match.
abbrev pub lock_at : MatchResult → List ℕ → Lock
lock_at found q = record {
  node = found.last_node;
  key = take (length found.device_indices) q;
  slots = found.device_indices;
}

-- One call. A client locks the last node of a match, and releases what it holds.
pub data Step : Clients → Clients → Type 0 where
  matches :
      (c : RadixCache) (l : List Lock) (q : List ℕ)
      → Step (record { cache = c; locks = l }) (record { cache = (match_prefix c q).1; locks = l })
  stores :
      (c : RadixCache) (l : List Lock) (key value : List ℕ) (p : ℤ)
      → length value ≡ length key
      → Step
          (record { cache = c; locks = l })
          (record {
            cache = (insert c (record { key = key; value = some value; priority = p })).1;
            locks = l;
          })
  takes :
      (c d : RadixCache) (l : List Lock) (q : List ℕ) (delta : ℤ)
      → inc_lock_ref (match_prefix c q).1 (match_prefix c q).0.last_node ≡ some (delta, d)
      → Step
          (record { cache = c; locks = l })
          (record { cache = d; locks = lock_at (match_prefix c q).0 q ∷ l })
  releases :
      (c d : RadixCache) (before behind : List Lock) (x : Lock) (delta : ℤ)
      → dec_lock_ref c x.node ≡ some (delta, d)
      → Step
          (record { cache = c; locks = before ++ (x ∷ behind) })
          (record { cache = d; locks = before ++ behind })
  evicts :
      (c d : RadixCache) (l : List Lock) (n k : ℕ)
      → evict c n ≡ some (k, d)
      → Step (record { cache = c; locks = l }) (record { cache = d; locks = l })

pub data Reach (w : Clients) : Clients → Type 0 where
  here : Reach w w
  next : {x y : Clients} → Reach w x → Step x y → Reach w y

-- The node of a lock is where its tokens end, or the root where it has none, and the tokens have
-- these slots.
pub record Owns (c : RadixCache) (x : Lock) : Type 0 where
  pub place : (x.key ≡ []) ⊎ (ends c x.key ≡ some x.node)
  pub slots : cached c x.key ≡ x.slots

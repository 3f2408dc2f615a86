-- ===== src/Radix/Service.antt =====
-- Histories of the cache with evictions between the other calls.
use sglang_mlx.Prelude.{
  ◌≤◌, ◌⊎◌, ℤ, subst, ℕ, Bool, true, false, Bool-cases, inl, inr, Option, none, some, List, [], ◌∷◌,
  ◌≡◌, refl, ◌∙◌, ap, arith,
}
use sglang_mlx.Radix.Tree.{TreeNode, evicted}
use sglang_mlx.Radix.Cache.{RadixCache, reset, climb, inc_lock_ref, dec_lock_ref}
use sglang_mlx.Radix.History.{
  Call, matches, stores, locks, unlocks, locked_at, step, IsPaired, after, IfAny, after-IfAny,
}
use sglang_mlx.Radix.Leaves.{ids}
use sglang_mlx.Radix.Lock.{inc_node, dec_node}
use sglang_mlx.Radix.Found.{Returns, climb-Returns}
use sglang_mlx.Radix.Balance.{IsBalanced, reset-IsBalanced, step-IsBalanced}
use sglang_mlx.Radix.LeavesHistory.{IsExact, reset-IsExact, step-IsExact}
use sglang_mlx.Radix.TotalSize.{Rests, step-Rests}
use sglang_mlx.Radix.Evict.{evict}
use sglang_mlx.Radix.Evict.Laws.{IsKept, evict_lem}

-- A call of a history, or an eviction of so many tokens.
pub data Action : Type 0 where
  calls : Call → Action
  evicts : ℕ → Action

-- The cache after an eviction that returned.
abbrev pub evicted_from : Option (ℕ × RadixCache) → Option RadixCache
evicted_from none = none
evicted_from (some (k, d)) = some d

unfoldable pub act : RadixCache → Action → Option RadixCache
act c (calls call) = step c call
act c (evicts n) = evicted_from (evict c n)

unfoldable pub serve : RadixCache → List Action → Option RadixCache
serve c [] = some c
serve c (action ∷ actions) = after (act c action) (λ d. serve d actions)

abbrev pub IsPairedAction : Action → Type 0
IsPairedAction (calls call) = IsPaired call
IsPairedAction (evicts n) = Unit

abbrev pub ArePairedActions : List Action → Type 0
ArePairedActions [] = Unit
ArePairedActions (action ∷ actions) = IsPairedAction action × ArePairedActions actions

pub reset-IsKept : (c : RadixCache) → IsKept (reset c)
reset-IsKept c = record {
  leaves = λ i. reset-IsExact i c;
  balanced = reset-IsBalanced c;
  alive = unfold reset in refl;
}

evicted-same : (h k : TreeNode) → k.value ≡ h.value → evicted h ≡ false → evicted k ≡ false
evicted-same h k e live = ap value_evicted e ∙ live
  where
    value_evicted : Option (List ℕ) → Bool
    value_evicted v = elim v [ none ↦ true | some w ↦ false ]

parts-IsKept :
    (c : RadixCache) (r : Option RadixCache)
    → evicted c.root ≡ false
    → ((i : ℕ) → IfAny (IsExact i) r)
    → IfAny IsBalanced r
    → IfAny (Rests c) r
    → IfAny IsKept r
unfolding Rests
parts-IsKept c none live leaves balanced rests = tt
parts-IsKept c (some d) live leaves balanced rests = record {
  leaves = leaves;
  balanced = balanced;
  alive = evicted-same c.root d.root rests live;
}

pub step-IsKept :
    (c : RadixCache) (call : Call) → IsPaired call → IsKept c → IfAny IsKept (step c call)
step-IsKept c call paired v =
    parts-IsKept c (step c call) v.alive (λ i. step-IsExact i c call paired (v.leaves i))
      (step-IsBalanced c call v.balanced) (step-Rests c call)

evict_off : (c : RadixCache) (n : ℕ) → c.disable ≡ true → evict c n ≡ some (0, c)
unfolding evict
evict_off c n off = ground arith

evict-IsKept : (c : RadixCache) (n : ℕ) → IsKept c → IfAny IsKept (evicted_from (evict c n))
evict-IsKept c n v = elim (Bool-cases c.disable) [
  | inl off ↦ rw (evict_off c n off) v
  | inr on ↦ let (k, d, q, x) = evict_lem c n v on in rw q x.kept
]

-- Lock calls are at the root or at nodes of the tree.
abbrev pub IsPlaced : RadixCache → Action → Type 0
IsPlaced c (calls (matches key)) = Unit
IsPlaced c (calls (stores key value p)) = Unit
IsPlaced c (calls (locks node)) = (node ≡ c.root.id) ⊎ (1 ≤ ids node c.children)
IsPlaced c (calls (unlocks node)) = (node ≡ c.root.id) ⊎ (1 ≤ ids node c.children)
IsPlaced c (evicts n) = Unit

locked_at-some :
    (r : Option (ℤ × RadixCache)) → Returns r → (d : RadixCache) × (locked_at r ≡ some d)
locked_at-some r (delta, d, e) = (d, ap locked_at e)

act-IsPlaced :
    (c : RadixCache) (action : Action)
    → IsKept c
    → IsPlaced c action
    → (d : RadixCache) × (act c action ≡ some d)
unfolding act step inc_lock_ref dec_lock_ref
act-IsPlaced c (calls (matches key)) v p = (_, refl)
act-IsPlaced c (calls (stores key value q)) v p = (_, refl)
act-IsPlaced c (calls (locks node)) v p =
    locked_at-some (climb inc_node c node) (climb-Returns inc_node c node p)
act-IsPlaced c (calls (unlocks node)) v p =
    locked_at-some (climb dec_node c node) (climb-Returns dec_node c node p)
act-IsPlaced c (evicts n) v p = elim (Bool-cases c.disable) [
  | inl off ↦ (c, ap evicted_from (evict_off c n off))
  | inr on ↦ let (k, d, q, x) = evict_lem c n v on in (d, ap evicted_from q)
]

-- After `reset` and any matches, paired stores and evictions, and any locks and unlocks of nodes of
-- the tree, also unlocks without a lock: the tree is well formed, ids are unique,
-- `evictable_leaves` holds the evictable leaves, and the two sizes count the unlocked and the
-- locked tokens below the root; and any further match, store or eviction, and any lock or unlock of
-- the root or of a node of the tree, returns.
pub serve-IsKept :
    (c d : RadixCache) (actions : List Action)
    → ArePairedActions actions
    → serve (reset c) actions ≡ some d
    → IsKept d
      × ((action : Action) → IsPlaced d action → (e : RadixCache) × (act d action ≡ some e))
unfolding serve act
serve-IsKept c d actions paired ran =
    let v = subst (IfAny IsKept) ran (go (reset c) actions paired (reset-IsKept c)) in
    (v, λ action p. act-IsPlaced d action v p)
  where
    go :
        (c : RadixCache) (actions : List Action)
        → ArePairedActions actions
        → IsKept c
        → IfAny IsKept (serve c actions)
    go c [] paired v = v
    go c (calls call ∷ actions) paired v =
        after-IfAny IsKept IsKept (step c call) (λ d. serve d actions)
          (step-IsKept c call paired.0 v) (λ d w. go d actions paired.1 w)
    go c (evicts n ∷ actions) paired v =
        after-IfAny IsKept IsKept (evicted_from (evict c n)) (λ d. serve d actions)
          (evict-IsKept c n v) (λ d w. go d actions paired.1 w)

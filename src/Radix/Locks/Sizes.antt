-- ===== src/Radix/Locks/Sizes.antt =====
-- The two sizes and evictions against the locks that are held.
use sglang_mlx.Prelude.{
  ℕ, ◌+◌, ◌≤◌, false, some, List, [], ◌≡◌, refl, sym, ◌∙◌, ap, arith, count, length, pos, inl, inr,
  ◌⊎◌, if◌then◌else◌, ltb_ℤ, ltb,
}
use sglang_mlx.Radix.Tree.{
  TreeNode, Tree, tree, Children, nil, child, is_evictable_leaf, has_live_child,
}
use sglang_mlx.Radix.View.{WfChildren, WfTree}
use sglang_mlx.Radix.Weights.{sum_children, sum_tree}
use sglang_mlx.Radix.Measures.{unlocked, locked}
use sglang_mlx.Radix.Leaves.{is_id, own, leaves_children, leaves_tree}
use sglang_mlx.Radix.Evict.{evict}
use sglang_mlx.Radix.Evict.Round.{negative}
use sglang_mlx.Radix.Evict.Laws.{evict-Eviction}
use sglang_mlx.Radix.Cache.{RadixCache, reset, evictable_size, protected_size}
use sglang_mlx.Radix.Locks.Counts.{held_at, LockedChildren, LockedTree}
use sglang_mlx.Radix.Locks.Calls.{IsHeld, evict-IsHeld}
use sglang_mlx.Radix.Locks.Clients.{Clients, nodes, Reach}
use sglang_mlx.Radix.Locks.History.{Reach-AreServed}

-- The tokens of the nodes at which or below which a lock is held, and of the others.
unfoldable mutual
  pub guarded_children : List ℕ → Children → ℕ
  guarded_children held nil = 0
  guarded_children held (child c t f) = guarded_tree held t + guarded_children held f

  pub guarded_tree : List ℕ → Tree → ℕ
  guarded_tree held (tree h f) =
      (if ltb 0 (held_at held h + sum_children (held_at held) f) then length h.key else 0)
      + guarded_children held f

unfoldable mutual
  pub idle_children : List ℕ → Children → ℕ
  idle_children held nil = 0
  idle_children held (child c t f) = idle_tree held t + idle_children held f

  pub idle_tree : List ℕ → Tree → ℕ
  idle_tree held (tree h f) =
      (if ltb 0 (held_at held h + sum_children (held_at held) f) then 0 else length h.key)
      + idle_children held f

lock-cases :
    (h : TreeNode) (n : ℕ)
    → h.lock_ref ≡ pos n
    → (ltb_ℤ (pos 0) h.lock_ref ≡ ltb 0 n) × (ltb_ℤ h.lock_ref (pos 0) ≡ false)
lock-cases h n e = rw e (ground arith, ground arith)

-- The lock counts tell the guarded nodes from the others, and none is negative.
mutual
  unfolding LockedChildren guarded_children idle_children sum_children locked unlocked

  sizes-children :
      (held : List ℕ) (f : Children)
      → LockedChildren held f
      → (sum_children locked f ≡ guarded_children held f)
        × (sum_children unlocked f ≡ idle_children held f)
        × (sum_children negative f ≡ 0)
  sizes-children held nil u = (refl, refl, refl)
  sizes-children held (child c t f) u =
      let (l, n, z) = sizes-tree held t u.0 in
      let (l', n', z') = sizes-children held f u.1 in
      (omega (arith, l, l'), omega (arith, n, n'), omega (arith, z, z'))

  sizes-tree :
      (held : List ℕ) (t : Tree)
      → LockedTree held t
      → (sum_tree locked t ≡ guarded_tree held t)
        × (sum_tree unlocked t ≡ idle_tree held t)
        × (sum_tree negative t ≡ 0)
  sizes-tree held (tree h f) u =
      let (l, n, z) = sizes-children held f u.1 in
      let (hot, cold) = lock-cases h (held_at held h + sum_children (held_at held) f) u.0 in
      rw (hot, cold) (omega (arith, l), omega (arith, n), omega (arith, z))

pub IsHeld-sizes :
    (held : List ℕ) (c : RadixCache)
    → IsHeld held c
    → (protected_size c ≡ pos (guarded_children held c.children))
      × (evictable_size c ≡ pos (idle_children held c.children))
unfolding protected_size evictable_size
IsHeld-sizes held c v =
    let (l, n, z) = sizes-children held c.children v.counted in
    (v.kept.balanced.taken ∙ ap pos l, v.kept.balanced.free ∙ ap pos n)

-- After `reset` of an enabled cache, whatever matches, paired stores and evictions there were, and
-- whatever locks were taken at the last nodes of matches and released once each: the protected size
-- counts the tokens of the nodes at which or below which a lock is held, and the evictable size
-- those of all others.
pub Reach-sizes :
    (c : RadixCache) (w : Clients)
    → c.disable ≡ false
    → Reach (record { cache = reset c; locks = [] }) w
    → (protected_size w.cache ≡ pos (guarded_children (nodes w.locks) w.cache.children))
      × (evictable_size w.cache ≡ pos (idle_children (nodes w.locks) w.cache.children))
Reach-sizes c w on r = IsHeld-sizes (nodes w.locks) w.cache (Reach-AreServed c w on r).held

-- A node without locks and children is an evictable leaf.
own-leaf : (h : TreeNode) (v : List ℕ) → h.value ≡ some v → h.lock_ref ≡ pos 0 → own h.id h nil ≡ 1
unfolding own is_evictable_leaf is_id has_live_child
own-leaf h v e k = ground arith

-- A tree without locks has an evictable leaf.
leaf_of_tree : (c : ℕ) (t : Tree) → WfTree c t → LockedTree [] t → (i : ℕ) × (1 ≤ leaves_tree i t)
unfolding leaves_tree LockedTree sum_children held_at count
leaf_of_tree c (tree h nil) w u =
    (h.id, omega (arith, own-leaf h w.0.indices w.0.held (u.0 ∙ ap pos (omega arith))))
leaf_of_tree c (tree h (child d t f)) w u =
    let (i, some_leaf) = leaf_of_tree d t w.1.0 u.1.0 in (i, omega (arith, some_leaf))

no_leaves-nil :
    (f : Children)
    → WfChildren f
    → LockedChildren [] f
    → ((i : ℕ) → leaves_children i f ≡ 0)
    → f ≡ nil
unfolding leaves_children LockedChildren
no_leaves-nil nil w u none_left = refl
no_leaves-nil (child c t f) w u none_left =
    let (i, some_leaf) = leaf_of_tree c t w.0 u.0 in absurd (omega (arith, some_leaf, none_left i))

emptied : (d : RadixCache) → IsHeld [] d → d.evictable_leaves ≡ [] → d.children ≡ nil
unfolding count
emptied d v e =
    no_leaves-nil d.children (v.kept.leaves 0).shape v.counted
      (λ i. sym (v.kept.leaves i).exact ∙ ap (count i) e)

-- Where no lock is held, an eviction evicts what is asked for or all there is.
pub idle-evict :
    (d e : RadixCache) (n k : ℕ)
    → IsHeld [] d
    → evict d n ≡ some (k, e)
    → (n ≤ k) ⊎ (e.children ≡ nil)
idle-evict d e n k v ran =
    let z = (sizes-children [] d.children v.counted).2 in
    elim (evict-Eviction d e n k v.kept v.enabled ran).enough [
      | inl enough ↦ inl enough
      | inr rest ↦ inr (emptied e (evict-IsHeld [] d e n k ran v).0 (rest z))
    ]

mutual
  unfolding sum_children held_at count

  held-none : (f : Children) → sum_children (held_at []) f ≡ 0
  held-none nil = refl
  held-none (child c t f) = omega (arith, held_tree-none t, held-none f)

  held_tree-none : (t : Tree) → sum_tree (held_at []) t ≡ 0
  held_tree-none (tree h f) = omega (arith, held-none f)

mutual
  unfolding guarded_children held_at count

  pub guarded-none : (f : Children) → guarded_children [] f ≡ 0
  guarded-none nil = refl
  guarded-none (child c t f) = omega (arith, guarded_tree-none t, guarded-none f)

  guarded_tree-none : (t : Tree) → guarded_tree [] t ≡ 0
  guarded_tree-none (tree h f) = ground (arith, guarded-none f, held-none f)

-- After such a history, when every lock is released: an eviction evicts as many tokens as asked
-- for, or leaves no node below the root.
pub Reach-evict :
    (c d e : RadixCache) (n k : ℕ)
    → c.disable ≡ false
    → Reach (record { cache = reset c; locks = [] }) (record { cache = d; locks = [] })
    → evict d n ≡ some (k, e)
    → (n ≤ k) ⊎ (e.children ≡ nil)
Reach-evict c d e n k on r ran =
    idle-evict d e n k (Reach-AreServed c (record { cache = d; locks = [] }) on r).held ran

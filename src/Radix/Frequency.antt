-- ===== src/Radix/Frequency.antt =====
-- `hit_count` is read by the LFU strategy and never written after a node is made.
use sglang_mlx.Prelude.{
  ℕ, ◌≤◌, some, List, ◌≡◌, refl, ◌∙◌, ℤ, arith, Bool-cases, Option-cases, inl, inr, ◌||◌, subst,
}
use sglang_mlx.Radix.Tree.{TreeNode, Tree, tree, Children, nil, child, upper_half, monotonic, tick}
use sglang_mlx.Radix.Walk.{leaf_node}
use sglang_mlx.Radix.Weights.{
  IsAdditive, sum_children, sum_tree, sum-match_children, sum-insert_children,
}
use sglang_mlx.Radix.Measures.{gain_none}
use sglang_mlx.Radix.Lock.{Body, Books, climb_children, climb_induction, inc_node, dec_node}
use sglang_mlx.Radix.Policy.{lru, lfu, get_priority, ltb_entry}
use sglang_mlx.Radix.Cache.{
  RadixCache, InsertParams, reset, match_prefix, insert, is_empty, climb, books, touched_root,
  stored_value, inc_lock_ref, dec_lock_ref,
}
use sglang_mlx.Radix.Refine.{climb_cases}
use sglang_mlx.Radix.Evict.{find_children, find_tree, entry}
use sglang_mlx.Radix.History.{
  Call, matches, stores, locks, unlocks, step, run, IfAny, locked_at-IfAny, run-IfAny,
}

abbrev hits : TreeNode → ℕ
hits h = h.hit_count

hits-IsAdditive : IsAdditive hits gain_none
unfolding upper_half leaf_node
hits-IsAdditive = record {
  touch = λ h t. refl;
  raise = λ h p. refl;
  cut = λ s h n lt. omega arith;
  leaf = λ s k key value p. refl;
  nothing = λ value. refl;
}

-- A body that leaves the count alone.
abbrev KeepsHits : Body → Type 0
KeepsHits body = (h : TreeNode) (f : Children) (b : Books) → hits (body h f b).0 ≡ hits h

hits-climb :
    (body : Body)
    → KeepsHits body
    → (i : ℕ) (f : Children) (b : Books) (f' : Children) (b' : Books)
    → climb_children body i f b ≡ some (f', b')
    → sum_children hits f' ≡ sum_children hits f
unfolding sum_children
hits-climb body keep =
    climb_induction body (λ f b f' b'. sum_children hits f' ≡ sum_children hits f)
      (λ t b t' b'. sum_tree hits t' ≡ sum_tree hits t) (λ h f b. rw (keep h f b))
      (λ h f b f' b' ih. rw (keep h f' b', ih)) (λ c t f b t' b' ih. rw ih)
      (λ c t f b f' b' ih. rw ih)

abbrev AreUncounted : RadixCache → Type 0
AreUncounted c = sum_children hits c.children ≡ 0

climb-uncounted :
    (body : Body) (c : RadixCache) (node : ℕ)
    → KeepsHits body
    → AreUncounted c
    → (d : RadixCache) (delta : ℤ) → climb body c node ≡ some (delta, d)
    → AreUncounted d
climb-uncounted body c node keep v d delta e = elim (climb_cases body c d node delta e) [
  | inl (same, _) ↦ rw same v
  | inr (f, b, found, place, _) ↦
      rw place (hits-climb body keep node c.children (books c) f b found ∙ v)
]

match-uncounted :
    (c : RadixCache) (key : List ℕ) → AreUncounted c → AreUncounted (match_prefix c key).1
unfolding match_prefix
match-uncounted c key v = elim (Bool-cases (c.disable || is_empty key)) [
  | inl skip ↦ rw skip v
  | inr on ↦ rw on (sum-match_children hits gain_none hits-IsAdditive _ c.children key _ _ ∙ v)
]

insert-uncounted :
    (c : RadixCache) (p : InsertParams) → AreUncounted c → AreUncounted (insert c p).1
unfolding insert
insert-uncounted c p v = elim (Bool-cases c.disable) [
  | inl off ↦ rw off v
  | inr on ↦ rw on (elim (Bool-cases (is_empty p.key)) [
    | inl skip ↦ rw skip v
    | inr more ↦ rw more (
        omega (
          arith,
          v,
          sum-insert_children hits gain_none hits-IsAdditive (touched_root c p.priority) c.children
              c.children p.key (stored_value p) p.priority (monotonic c.supply) (tick c.supply)
              c.evictable_leaves,
        ))
  ])
]

step-uncounted : (c : RadixCache) (call : Call) → AreUncounted c → IfAny AreUncounted (step c call)
unfolding step inc_lock_ref dec_lock_ref
step-uncounted c (matches key) v = match-uncounted c key v
step-uncounted c (stores key value p) v = insert-uncounted c _ v
step-uncounted c (locks node) v =
    locked_at-IfAny AreUncounted inc_node c node _ refl
      (climb-uncounted inc_node c node (unfold inc_node in λ h f b. refl) v)
step-uncounted c (unlocks node) v =
    locked_at-IfAny AreUncounted dec_node c node _ refl
      (climb-uncounted dec_node c node (unfold dec_node in λ h f b. refl) v)

-- A node of the tree weighs at most as much as the tree.
mutual
  unfolding find_children sum_children

  find_children-le :
      (weight : TreeNode → ℕ) (i : ℕ) (f : Children) (x : TreeNode)
      → find_children i f ≡ some x
      → weight x ≤ sum_children weight f
  find_children-le weight i nil x e = cc
  find_children-le weight i (child c t f) x e = elim (Option-cases (find_tree i t)) [
    | inl missing ↦ omega (arith, find_children-le weight i f x (ground arith))
    | inr (y, found) ↦ omega (arith, find_tree-le weight i t x (ground arith))
  ]

  find_tree-le :
      (weight : TreeNode → ℕ) (i : ℕ) (t : Tree) (x : TreeNode)
      → find_tree i t ≡ some x
      → weight x ≤ sum_tree weight t
  find_tree-le weight i (tree h f) x e = ground (arith, find_children-le weight i f x)

-- After `reset` and any matches and stores, and any locks and unlocks of nodes of the tree, the LFU
-- strategy orders the nodes of the tree as the LRU strategy does: no node was ever counted.
pub lfu-lru :
    (c d : RadixCache) (calls : List Call) (i j : ℕ) (x y : TreeNode)
    → run (reset c) calls ≡ some d
    → find_children i d.children ≡ some x
    → find_children j d.children ≡ some y
    → ltb_entry (entry lfu x) (entry lfu y) ≡ ltb_entry (entry lru x) (entry lru y)
unfolding entry get_priority ltb_entry
lfu-lru c d calls i j x y ran ex ey =
    let none_counted =
      subst (IfAny AreUncounted) ran (
        run-IfAny AreUncounted step-uncounted (reset c) calls
          (unfold reset sum_children in refl)) in
    let x0 : x.hit_count ≡ 0 = omega (arith, none_counted, find_children-le hits i _ x ex) in
    let y0 : y.hit_count ≡ 0 = omega (arith, none_counted, find_children-le hits j _ y ey) in
    rw (x0, y0)

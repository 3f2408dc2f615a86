-- ===== src/Radix/Balance.antt =====
-- The books: `evictable_size_` and `protected_size_` are the unlocked and the locked tokens.
use sglang_mlx.Prelude.{
  subst, ℕ, some, List, [], ◌∷◌, ◌≡◌, refl, ap, length, ltb, drop, ℤ, pos, ◌+ℤ◌, int_laws,
  Bool-cases, inl, inr, ◌||◌, pos_part, neg_part,
}
use sglang_mlx.Radix.Tree.{
  TreeNode, Tree, tree, Children, nil, child, Supply, key_match, monotonic, tick,
}
use sglang_mlx.Radix.Walk.{leads, raised, add_leaf, insert_children, insert_tree}
use sglang_mlx.Radix.Weights.{sum_children, sum-match_children, sum-insert_children, drop-drop}
use sglang_mlx.Radix.Measures.{
  unlocked, locked, gain_tokens, gain_none, unlocked-IsAdditive, locked-IsAdditive,
}
use sglang_mlx.Radix.Lock.{Body, inc_node, dec_node}
use sglang_mlx.Radix.Refine.{climb_cases}
use sglang_mlx.Radix.History.{
  Call, matches, stores, locks, unlocks, step, run, IfAny, locked_at-IfAny, run-IfAny,
}
use sglang_mlx.Radix.Cache.{
  RadixCache, InsertParams, reset, match_prefix, insert, climb, inc_lock_ref, dec_lock_ref,
  is_empty, books, touched_root, stored_value,
}
use sglang_mlx.Radix.Tracks.{IsTracking, inc_node-IsTracking, dec_node-IsTracking, climb-Tracks}

-- The two sizes count the tokens below the root that no lock holds, and those that one holds.
pub record IsBalanced (c : RadixCache) : Type 0 where
  pub free : c.evictable_size_ ≡ pos (sum_children unlocked c.children)
  pub taken : c.protected_size_ ≡ pos (sum_children locked c.children)

pub reset-IsBalanced : (c : RadixCache) → IsBalanced (reset c)
unfolding reset sum_children
reset-IsBalanced c = record { free = refl; taken = refl }

pub match_prefix-IsBalanced :
    (c : RadixCache) (key : List ℕ) → IsBalanced c → IsBalanced (match_prefix c key).1
unfolding match_prefix
match_prefix-IsBalanced c key v = elim (Bool-cases (c.disable || is_empty key)) [
  | inl skip ↦ rw skip v
  | inr run ↦ rw run (record {
    free = rw (sum-match_children unlocked _ unlocked-IsAdditive _ c.children key _ _) v.free;
    taken = rw (sum-match_children locked _ locked-IsAdditive _ c.children key _ _) v.taken;
  })
]

added-add_leaf :
    (node : TreeNode) (all : Children) (key value : List ℕ) (p : ℤ) (s : Supply) (l : List ℕ)
    → let r = add_leaf node all key value p s l in r.added ≡ length (drop r.prefix_len key)
unfolding add_leaf
added-add_leaf node all [] value p s l = refl
added-add_leaf node all (k ∷ key) value p s l = refl

added-split :
    (node : TreeNode) (all : Children) (key value : List ℕ) (p : ℤ) (s : Supply) (l : List ℕ)
    → (add_leaf node all key value p s l).added ≡ length key
unfolding add_leaf
added-split node all [] value p s l = refl
added-split node all (k ∷ key) value p s l = refl

-- What an insertion counts as added is the length of what was left of the key.
mutual
  unfolding insert_tree

  added-insert_children :
      (node : TreeNode) (all f : Children) (key value : List ℕ) (p : ℤ) (now : ℕ) (s : Supply)
      (l : List ℕ)
      → let r = insert_children node all f key value p now s l in
        r.added ≡ length (drop r.prefix_len key)
  added-insert_children node all nil key value p now s l = added-add_leaf node all key value p s l
  added-insert_children node all (child c t f) key value p now s l =
      elim (Bool-cases (leads c key)) [
        | inl hit ↦ rw hit (added-insert_tree t key value p now s l)
        | inr miss ↦ rw miss (added-insert_children node all f key value p now s l)
      ]

  added-insert_tree :
      (t : Tree) (key value : List ℕ) (p : ℤ) (now : ℕ) (s : Supply) (l : List ℕ)
      → let r = insert_tree t key value p now s l in r.added ≡ length (drop r.prefix_len key)
  added-insert_tree (tree h f) key value p now s l =
      let n = key_match h.key key in
      let node = raised (record h { last_access_time = now }) p in
      let rest = insert_children node f f (drop n key) (drop n value) p now s l in
      elim (Bool-cases (ltb n (length h.key))) [
        | inl part ↦ rw part (added-split _ _ (drop n key) (drop n value) p _ l)
        | inr whole ↦
            rw (whole, ← drop-drop rest.prefix_len n key)
              (added-insert_children node f f (drop n key) (drop n value) p now s l)
      ]

pub insert-IsBalanced :
    (c : RadixCache) (params : InsertParams) → IsBalanced c → IsBalanced (insert c params).1
unfolding insert
insert-IsBalanced c params v = elim (Bool-cases c.disable) [
  | inl off ↦ rw off (record { free = v.free; taken = v.taken })
  | inr on ↦ rw on (elim (Bool-cases (is_empty params.key)) [
    | inl skip ↦ rw skip (record { free = v.free; taken = v.taken })
    | inr run ↦
        let root = touched_root c params.priority in
        let value = stored_value params in
        let now = monotonic c.supply in
        let s = tick c.supply in
        rw run (record {
          free = omega (
            int_laws,
            ap pos_part v.free,
            ap neg_part v.free,
            added-insert_children root c.children c.children params.key value params.priority now s
                c.evictable_leaves,
            sum-insert_children unlocked gain_tokens unlocked-IsAdditive root c.children c.children
                params.key value params.priority now s c.evictable_leaves,
          );
          taken = omega (
            int_laws,
            ap pos_part v.taken,
            ap neg_part v.taken,
            sum-insert_children locked gain_none locked-IsAdditive root c.children c.children
                params.key value params.priority now s c.evictable_leaves,
          );
        })
  ])
]

-- A lock call keeps the books balanced, and returns the change of the evictable size.
pub climb-IsBalanced :
    (body : Body) (c d : RadixCache) (node : ℕ) (delta : ℤ)
    → IsTracking body
    → climb body c node ≡ some (delta, d)
    → IsBalanced c
    → IsBalanced d × (d.evictable_size_ ≡ c.evictable_size_ +ℤ delta)
climb-IsBalanced body c d node delta tracking e v = elim (climb_cases body c d node delta e) [
  | inl (same, still) ↦ rw (same, still) ((v, omega int_laws))
  | inr (f, b, found, place, moved) ↦
      let t = climb-Tracks body tracking node c.children (books c) f b found in
      rw (place, moved)
        ((
          record {
            free = omega (
              int_laws,
              ap pos_part t.free,
              ap neg_part t.free,
              ap pos_part v.free,
              ap neg_part v.free,
            );
            taken = omega (
              int_laws,
              ap pos_part t.taken,
              ap neg_part t.taken,
              ap pos_part v.taken,
              ap neg_part v.taken,
            );
          },
          omega (int_laws, ap pos_part t.change, ap neg_part t.change),
        ))
]

pub step-IsBalanced : (c : RadixCache) (call : Call) → IsBalanced c → IfAny IsBalanced (step c call)
unfolding step inc_lock_ref dec_lock_ref
step-IsBalanced c (matches key) v = match_prefix-IsBalanced c key v
step-IsBalanced c (stores key value p) v = insert-IsBalanced c _ v
step-IsBalanced c (locks node) v =
    locked_at-IfAny IsBalanced inc_node c node _ refl
      (λ d delta e. (climb-IsBalanced inc_node c d node delta inc_node-IsTracking e v).0)
step-IsBalanced c (unlocks node) v =
    locked_at-IfAny IsBalanced dec_node c node _ refl
      (λ d delta e. (climb-IsBalanced dec_node c d node delta dec_node-IsTracking e v).0)

-- After `reset` and any matches and stores, and any locks and unlocks of nodes of the tree, also
-- unlocks without a lock, `evictable_size_` is the number of tokens in unlocked nodes below the
-- root, and `protected_size_` of those in locked nodes.
pub run-IsBalanced :
    (c d : RadixCache) (calls : List Call) → run (reset c) calls ≡ some d → IsBalanced d
run-IsBalanced c d calls ran =
    subst (IfAny IsBalanced) ran
      (run-IfAny IsBalanced step-IsBalanced (reset c) calls (reset-IsBalanced c))

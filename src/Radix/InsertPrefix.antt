-- ===== src/Radix/InsertPrefix.antt =====
-- What `insert` returns, and what a match right after it finds.
use sglang_mlx.Prelude.{
  ℕ, ◌≤◌, false, List, [], ◌∷◌, ◌++◌, ◌≡◌, refl, sym, ◌∙◌, ap, length, ltb, drop, ℤ, arith,
  Bool-cases, inl, inr, length-append, length-take, length-drop,
}
use sglang_mlx.Radix.Tree.{TreeNode, Tree, tree, Children, nil, child, Supply, key_match}
use sglang_mlx.Radix.Walk.{leads, insert_children, insert_tree}
use sglang_mlx.Radix.View.{overlay, cached_children, cached_tree, WfChildren, WfTree}
use sglang_mlx.Radix.MatchView.{along_part, along_whole}
use sglang_mlx.Radix.Weights.{prefix_len-add_leaf}
use sglang_mlx.Radix.Cache.{RadixCache, InsertParams, insert, match_prefix, stored_value, is_empty}
use sglang_mlx.Radix.Refine.{
  cached, IsWellFormed, match_prefix-cached, cached-insert, cached_children-nil, disable-insert,
}

key_match-le : (key q : List ℕ) → (key_match key q ≤ length key) × (key_match key q ≤ length q)
unfolding key_match
key_match-le [] q = omega arith
key_match-le (a ∷ key) [] = omega arith
key_match-le (a ∷ key) (b ∷ q) = ground (arith, key_match-le key q)

pub key_match_whole :
    (key q : List ℕ) → ltb (key_match key q) (length key) ≡ false → key_match key q ≡ length key
key_match_whole key q h = ground (arith, key_match-le key q)

mutual
  unfolding insert_tree cached_tree

  prefix_len-insert_children :
      (node : TreeNode) (all f : Children) (key value : List ℕ) (p : ℤ) (now : ℕ) (s : Supply)
      (l : List ℕ)
      → WfChildren f
      → (insert_children node all f key value p now s l).prefix_len ≡ length (cached_children f key)
  prefix_len-insert_children node all nil key value p now s l w =
      prefix_len-add_leaf node all key value p s l
  prefix_len-insert_children node all (child c t f) key value p now s l w =
      elim (Bool-cases (leads c key)) [
        | inl hit ↦ rw hit (prefix_len-insert_tree c t key value p now s l w.0)
        | inr miss ↦ rw miss (prefix_len-insert_children node all f key value p now s l w.2)
      ]

  prefix_len-insert_tree :
      (c : ℕ) (t : Tree) (key value : List ℕ) (p : ℤ) (now : ℕ) (s : Supply) (l : List ℕ)
      → WfTree c t
      → (insert_tree t key value p now s l).prefix_len ≡ length (cached_tree t key)
  prefix_len-insert_tree c (tree h f) key value p now s l w =
      let n = key_match h.key key in
      elim (Bool-cases (ltb n (length h.key))) [
        | inl part ↦
            rw (part, w.0.held)
              (omega (
                arith,
                ap length (along_part h.key w.0.indices (cached_children f) key part w.0.paired),
                length-take n w.0.indices,
                w.0.paired,
                key_match-le h.key key,
              ))
        | inr whole ↦
            rw (whole, w.0.held)
              (omega (
                arith,
                ap length (along_whole h.key w.0.indices (cached_children f) key whole w.0.paired),
                length-append w.0.indices (cached_children f (drop n key)),
                w.0.paired,
                key_match_whole h.key key whole,
                prefix_len-insert_children _ f f (drop n key) (drop n value) p now s l w.1,
              ))
      ]

-- `insert` returns the number of leading tokens of the key that were cached before.
pub prefix_len-insert :
    (c : RadixCache) (params : InsertParams)
    → IsWellFormed c
    → c.disable ≡ false
    → (insert c params).0 ≡ length (cached c params.key)
unfolding insert
prefix_len-insert c params w on = elim (Bool-cases (is_empty params.key)) [
  | inl skip ↦ rw (on, skip) (sym (ap length (cached_children-nil c.children params.key skip)))
  | inr run ↦ rw (on, run) (prefix_len-insert_children _ _ c.children params.key _ _ _ _ _ w)
]

pub overlay_self :
    (key value old : List ℕ)
    → length value ≡ length key
    → length old ≤ length key
    → overlay key value old key ≡ old ++ drop (length old) value
unfolding overlay
overlay_self [] [] [] e h = refl
overlay_self [] (y ∷ value) old e h = absurd (omega arith)
overlay_self [] value (x ∷ old) e h = absurd (omega arith)
overlay_self (a ∷ key) [] old e h = absurd (omega arith)
overlay_self (a ∷ key) (y ∷ value) [] e h = ground (arith, overlay_self key value [])
overlay_self (a ∷ key) (y ∷ value) (x ∷ old) e h = ground (arith, overlay_self key value old)

mutual
  unfolding cached_tree

  pub length-cached_children-le :
      (f : Children) (q : List ℕ) → WfChildren f → length (cached_children f q) ≤ length q
  length-cached_children-le nil q w = omega arith
  length-cached_children-le (child c t f) q w = elim (Bool-cases (leads c q)) [
    | inl hit ↦ rw hit (length-cached_tree-le c t q w.0)
    | inr miss ↦ rw miss (length-cached_children-le f q w.2)
  ]

  length-cached_tree-le :
      (c : ℕ) (t : Tree) (q : List ℕ) → WfTree c t → length (cached_tree t q) ≤ length q
  length-cached_tree-le c (tree h f) q w =
      let n = key_match h.key q in
      elim (Bool-cases (ltb n (length h.key))) [
        | inl part ↦ rw w.0.held (
            omega (
              arith,
              ap length (along_part h.key w.0.indices (cached_children f) q part w.0.paired),
              length-take n w.0.indices,
              key_match-le h.key q,
            ))
        | inr whole ↦ rw w.0.held (
            omega (
              arith,
              ap length (along_whole h.key w.0.indices (cached_children f) q whole w.0.paired),
              length-append w.0.indices (cached_children f (drop n q)),
              w.0.paired,
              key_match_whole h.key q whole,
              key_match-le h.key q,
              length-drop n q,
              length-cached_children-le f (drop n q) w.1,
            ))
      ]

-- Right after an insertion into an enabled well-formed cache, of a key with a slot for each token, a
-- match of the same key finds a slot for every token: those that were cached before, and behind
-- them the slots of the entry.
pub match_prefix-insert :
    (c : RadixCache) (params : InsertParams)
    → IsWellFormed c
    → c.disable ≡ false
    → length (stored_value params) ≡ length params.key
    → ((match_prefix (insert c params).1 params.key).0.device_indices
        ≡ cached c params.key ++ drop (insert c params).0 (stored_value params))
      × (length (match_prefix (insert c params).1 params.key).0.device_indices ≡ length params.key)
match_prefix-insert c params w on paired =
    let after = cached-insert c params w on paired in
    let n = prefix_len-insert c params w on in
    let small = length-cached_children-le c.children params.key w in
    let found : (match_prefix (insert c params).1 params.key).0.device_indices
        ≡ cached c params.key ++ drop (insert c params).0 (stored_value params) =
      match_prefix-cached (insert c params).1 params.key after.0 (disable-insert c params ∙ on)
      ∙ after.1 params.key
      ∙ rw n (overlay_self params.key (stored_value params) (cached c params.key) paired small) in
    (
      found,
      omega (
        arith,
        ap length found,
        length-append (cached c params.key) (drop (insert c params).0 (stored_value params)),
        length-drop (insert c params).0 (stored_value params),
        n,
        paired,
        small,
      ),
    )

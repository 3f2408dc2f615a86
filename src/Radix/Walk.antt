-- ===== src/Radix/Walk.antt =====
-- The loops of `_match_prefix_helper` and `_insert_helper` of radix_cache.py. A loop goes down the
-- tree, one node an iteration: it is a recursion on the tree that rebuilds the nodes it passes.
use sglang_mlx.Prelude.{
  ℕ, ◌+◌, Bool, false, Option, some, List, [], ◌∷◌, ◌++◌, ◌==◌, ltb, length, if◌then◌else◌, ℤ,
  max_ℤ, drop, get_or,
}
use sglang_mlx.Radix.Tree.{
  TreeNode, Tree, tree, Children, nil, child, Supply, new_node, after_new, key_match, split_node,
  slots, upper_half, lower_half, append_child, update_leaf_status,
}

-- What a walk for a match leaves: the part of the tree that it went through, the values of the
-- matched nodes, the last node, and the supply.
pub record Matched (A : Type 0) : Type 0 where
  pub out : A
  pub values : List (Option (List ℕ))
  pub last_node : ℕ
  pub supply : Supply

-- The indices of `match_prefix`: `indices.extend(v)` for each matched value.
abbrev pub join : List (Option (List ℕ)) → List ℕ
join [] = []
join (v ∷ vs) = slots v ++ join vs

-- `child_key in node.children`, for the first token of the key that is left.
abbrev pub leads : ℕ → List ℕ → Bool
leads c [] = false
leads c (k ∷ key) = c == k

unfoldable mutual
  -- The loop test at `node`, over its dictionary of children.
  pub match_children : ℕ → Children → List ℕ → ℕ → Supply → Matched Children
  match_children node nil key now s = record {
    out = nil;
    values = [];
    last_node = node;
    supply = s;
  }
  match_children node (child c t f) key now s =
      let hit = match_tree t key now s in
      let miss = match_children node f key now s in
      if leads c key
      then record {
        out = child c hit.out f;
        values = hit.values;
        last_node = hit.last_node;
        supply = hit.supply;
      }
      else record {
        out = child c t miss.out;
        values = miss.values;
        last_node = miss.last_node;
        supply = miss.supply;
      }

  -- The body of the loop at the child that was found.
  pub match_tree : Tree → List ℕ → ℕ → Supply → Matched Tree
  match_tree (tree h f) key now s =
      let n = key_match h.key key in
      let h' = record h { last_access_time = now } in
      let rest = match_children h.id f (drop n key) now s in
      if ltb n (length h.key)
      then record {
        out = split_node s h' f n;
        values = (upper_half s h' n).value ∷ [];
        last_node = (upper_half s h' n).id;
        supply = after_new s;
      }
      else record {
        out = tree h' rest.out;
        values = h.value ∷ rest.values;
        last_node = rest.last_node;
        supply = rest.supply;
      }

-- What a walk for an insertion leaves: also `total_prefix_length`, the set of evictable leaves and
-- the number of tokens that were added to the tree.
pub record Inserted (A : Type 0) : Type 0 where
  pub out : A
  pub prefix_len : ℕ
  pub added : ℕ
  pub leaves : List ℕ
  pub supply : Supply

-- `max(node.priority, priority)`.
abbrev pub raised : TreeNode → ℤ → TreeNode
raised h p = record h { priority = max_ℤ h.priority p }

-- The new leaf of `_insert_helper`.
unfoldable pub leaf_node : Supply → List ℕ → List ℕ → ℤ → TreeNode
unfolding new_node
leaf_node s key value p = record (new_node s p) { key = key; value = some value }

-- The end of `_insert_helper`: what is left of the key becomes a leaf below `node`, whose
-- children are `all`. `out` is what is put behind them.
unfoldable pub add_leaf :
    TreeNode → Children → List ℕ → List ℕ → ℤ → Supply → List ℕ → Inserted Children
unfolding leaf_node
add_leaf node all [] value p s l = record {
  out = nil;
  prefix_len = 0;
  added = 0;
  leaves = l;
  supply = s;
}
add_leaf node all (k ∷ key) value p s l =
    let leaf = leaf_node s (k ∷ key) value p in
    record {
      out = child k (tree leaf nil) nil;
      prefix_len = 0;
      added = length (k ∷ key);
      leaves =
          update_leaf_status leaf nil
            (update_leaf_status node (append_child all k (tree leaf nil)) l);
      supply = after_new s;
    }

unfoldable mutual
  -- The loop test at `node`, over its dictionary of children; `all` is the whole dictionary.
  pub insert_children :
      TreeNode → Children → Children → List ℕ → List ℕ → ℤ → ℕ → Supply → List ℕ → Inserted Children
  insert_children node all nil key value p now s l = add_leaf node all key value p s l
  insert_children node all (child c t f) key value p now s l =
      let hit = insert_tree t key value p now s l in
      let miss = insert_children node all f key value p now s l in
      if leads c key
      then record {
        out = child c hit.out f;
        prefix_len = hit.prefix_len;
        added = hit.added;
        leaves = hit.leaves;
        supply = hit.supply;
      }
      else record {
        out = child c t miss.out;
        prefix_len = miss.prefix_len;
        added = miss.added;
        leaves = miss.leaves;
        supply = miss.supply;
      }

  -- The body of the loop at the child that was found. After a split the next token of the key is
  -- not that of the only child, so the loop ends (`key_match-stops`).
  pub insert_tree : Tree → List ℕ → List ℕ → ℤ → ℕ → Supply → List ℕ → Inserted Tree
  insert_tree (tree h f) key value p now s l =
      let n = key_match h.key key in
      let h' = record h { last_access_time = now } in
      let upper = raised (upper_half s h' n) p in
      let below = child (get_or h.key n 0) (tree (lower_half h' n) f) nil in
      let split = add_leaf upper below (drop n key) (drop n value) p (after_new s) l in
      let node = raised h' p in
      let rest = insert_children node f f (drop n key) (drop n value) p now s l in
      if ltb n (length h.key)
      then record {
        out = tree upper (child (get_or h.key n 0) (tree (lower_half h' n) f) split.out);
        prefix_len = n;
        added = split.added;
        leaves = split.leaves;
        supply = split.supply;
      }
      else record {
        out = tree node rest.out;
        prefix_len = n + rest.prefix_len;
        added = rest.added;
        leaves = rest.leaves;
        supply = rest.supply;
      }

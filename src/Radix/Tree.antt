-- ===== src/Radix/Tree.antt =====
-- `TreeNode` of sglang_mlx/srt/mem_cache/radix_cache.py and what the walks do at one node.
-- A node of the heap is a header with its children: `parent` is the position in the tree, and a
-- reference to a node is its `id`, so a reference survives a split as it does in the source.
use mathlib.Core.Option
use sglang_mlx.Prelude.{
  ℕ, suc, Bool, true, false, not, ◌||◌, Option, none, some, List, [], ◌∷◌, ◌==◌, if◌then◌else◌, ℤ,
  pos, ltb_ℤ, take, drop, get_or,
}

pub record TreeNode : Type 0 where
  pub id : ℕ
  pub key : List ℕ
  pub value : Option (List ℕ)
  pub lock_ref : ℤ
  pub last_access_time : ℕ
  pub creation_time : ℕ
  pub hit_count : ℕ
  pub priority : ℤ

-- `children` is a dictionary from the first token of a child's key, in insertion order.
mutual
  pub data Tree : Type 0 where
    tree : TreeNode → Children → Tree

  pub data Children : Type 0 where
    nil : Children
    child : ℕ → Tree → Children → Children

-- The class attribute `TreeNode.counter`, and the readings of `time.monotonic`: the n-th call
-- returns `clock n`, and `ticks` calls were made so far.
pub record Supply : Type 0 where
  pub counter : ℕ
  pub ticks : ℕ
  pub clock : ℕ → ℕ

-- `time.monotonic()`.
abbrev pub monotonic : Supply → ℕ
monotonic s = s.clock s.ticks

abbrev pub tick : Supply → Supply
tick s = record s { ticks = suc s.ticks }

-- `TreeNode(priority=…)`: the constructor reads the clock twice and takes the next id.
unfoldable pub new_node : Supply → ℤ → TreeNode
new_node s p = record {
  id = s.counter;
  key = [];
  value = none;
  lock_ref = pos 0;
  last_access_time = monotonic s;
  creation_time = monotonic (tick s);
  hit_count = 0;
  priority = p;
}

-- The supply after one `TreeNode(…)`.
abbrev pub after_new : Supply → Supply
after_new s = record s { counter = suc s.counter; ticks = suc (suc s.ticks) }

-- The property `evicted`.
abbrev pub evicted : TreeNode → Bool
evicted h = elim h.value [ none ↦ true | some _ ↦ false ]

-- The indices of a node, where it has any.
abbrev pub slots : Option (List ℕ) → List ℕ
slots none = []
slots (some v) = v

-- `_key_match`: the length of the common prefix.
unfoldable pub key_match : List ℕ → List ℕ → ℕ
key_match [] key1 = 0
key_match (k0 ∷ key0) [] = 0
key_match (k0 ∷ key0) (k1 ∷ key1) = if k0 == k1 then suc (key_match key0 key1) else 0

-- The lower half of a split: the child, which keeps its identity.
abbrev pub lower_half : TreeNode → ℕ → TreeNode
lower_half h n = record h { key = drop n h.key; value = Option.map (drop n) h.value }

-- The upper half of a split: a new node with the child's priority and locks.
unfoldable pub upper_half : Supply → TreeNode → ℕ → TreeNode
unfolding new_node
upper_half s h n = record (new_node s h.priority) {
  key = take n h.key;
  value = Option.map (take n) h.value;
  lock_ref = h.lock_ref;
}

-- `_split_node`: the new node that stands in the child's place, with the child below it.
unfoldable pub split_node : Supply → TreeNode → Children → ℕ → Tree
split_node s h f n =
    tree (upper_half s h n) (child (get_or h.key n 0) (tree (lower_half h n) f) nil)

-- `children[c] = t` for a token `c` that is not a key of the dictionary.
unfoldable pub append_child : Children → ℕ → Tree → Children
append_child nil c t = child c t nil
append_child (child d u f) c t = child d u (append_child f c t)

-- Membership, removal and insertion of the set `evictable_leaves`, which holds node ids.
unfoldable pub contains : ℕ → List ℕ → Bool
contains i [] = false
contains i (j ∷ l) = i == j || contains i l

unfoldable pub discard : ℕ → List ℕ → List ℕ
discard i [] = []
discard i (j ∷ l) = if i == j then discard i l else j ∷ discard i l

unfoldable pub add_once : ℕ → List ℕ → List ℕ
add_once i l = if contains i l then l else i ∷ l

-- Whether some child is not evicted.
unfoldable pub has_live_child : Children → Bool
has_live_child nil = false
has_live_child (child c (tree h g) f) = not (evicted h) || has_live_child f

-- The tests of `_update_leaf_status`: an unlocked node with no live child.
unfoldable pub is_evictable_leaf : TreeNode → Children → Bool
is_evictable_leaf h f =
    if evicted h || ltb_ℤ (pos 0) h.lock_ref then false else not (has_live_child f)

-- `_update_leaf_status`.
unfoldable pub update_leaf_status : TreeNode → Children → List ℕ → List ℕ
update_leaf_status h f leaves =
    if is_evictable_leaf h f then add_once h.id leaves else discard h.id leaves

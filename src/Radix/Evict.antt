-- ===== src/Radix/Evict.antt =====
-- `evict` of radix_cache.py. The heap of `heapq` is the list of its entries, and `heappop` takes
-- the first of its least entries: among entries that no comparison tells apart the choice of
-- `heapq` may be another one.
pub mod View
pub mod LeafSums
pub mod Remove
pub mod Detach
pub mod Victim
pub mod Round
pub mod HeapStart
pub mod Loop
pub mod Laws
pub mod Promises
use mathlib.Core.Option
use sglang_mlx.Prelude.{
  ℕ, zero, suc, ◌+◌, Bool, true, false, Option, none, some, List, [], ◌∷◌, ◌==◌, ltb, length,
  if◌then◌else◌, ℤ, pos, ◌-ℤ◌, ◌&&◌, eqb_ℤ,
}
use sglang_mlx.Allocator.{TokenPoolAllocator, free}
use sglang_mlx.Radix.Tree.{
  TreeNode, Tree, tree, Children, nil, child, slots, discard, update_leaf_status,
}
use sglang_mlx.Radix.Policy.{Strategy, get_priority, ltb_entry}
use sglang_mlx.Radix.Cache.{RadixCache, nodes_children}

-- A heap entry `(priority, node)`. No call of `evict` changes a header, so the entry holds it.
abbrev pub Entry : Type 0
Entry = List ℤ × TreeNode

unfoldable pub entry : Strategy → TreeNode → Entry
entry st h = (get_priority st h, h)

-- `heapq.heappop` of the standard library: a least entry, and the others.
unfoldable pub heappop : List Entry → Option (Entry × List Entry)
unfolding ltb_entry
heappop [] = none
heappop (e ∷ l) = elim (heappop l) [
  | none ↦ some (e, [])
  | some (m, rest) ↦ if ltb_entry m e then some (m, e ∷ rest) else some (e, l)
]

abbrev pub or_find : Option TreeNode → Option TreeNode → Option TreeNode
or_find none r = r
or_find (some h) r = some h

-- The node of a reference, anywhere below the root.
unfoldable mutual
  pub find_children : ℕ → Children → Option TreeNode
  find_children i nil = none
  find_children i (child c t f) = or_find (find_tree i t) (find_children i f)

  pub find_tree : ℕ → Tree → Option TreeNode
  find_tree i (tree h f) = if h.id == i then some h else find_children i f

abbrev pub or_skip : Strategy → Option TreeNode → List Entry → List Entry
or_skip st none l = l
or_skip st (some h) l = entry st h ∷ l

-- `list(self.evictable_leaves)` with the nodes of the references, as heap entries.
unfoldable pub leaf_entries : Strategy → Children → List ℕ → List Entry
unfolding find_children entry
leaf_entries st f [] = []
leaf_entries st f (i ∷ l) = or_skip st (find_children i f) (leaf_entries st f l)

-- A dictionary without the child `i`, where it has it.
unfoldable pub remove_child : ℕ → Children → Option Children
remove_child i nil = none
remove_child i (child c (tree h g) f) =
    if h.id == i then some f else Option.map (child c (tree h g)) (remove_child i f)

-- The parent of a node after the node has been taken from it.
abbrev pub Parent : Type 0
Parent = TreeNode × Children

abbrev pub put_tree :
    ℕ → Children → Option (Tree × Parent) → Option (Children × Parent) → Option (Children × Parent)
put_tree c f none r = r
put_tree c f (some (t, p)) r = some (child c t f, p)

abbrev pub keep_tree : ℕ → Tree → Option (Children × Parent) → Option (Children × Parent)
keep_tree c t none = none
keep_tree c t (some (f, p)) = some (child c t f, p)

abbrev pub under : TreeNode → Option (Children × Parent) → Option (Tree × Parent)
under h none = none
under h (some (f, p)) = some (tree h f, p)

abbrev pub removed : TreeNode → Option Children → Option (Tree × Parent) → Option (Tree × Parent)
removed h none r = r
removed h (some f) r = some (tree h f, (h, f))

-- `node.parent.children.pop(key)` of `_delete_leaf`: the tree without the node, and its parent.
unfoldable mutual
  pub detach_tree : ℕ → Tree → Option (Tree × Parent)
  detach_tree i (tree h f) = removed h (remove_child i f) (under h (detach_children i f))

  pub detach_children : ℕ → Children → Option (Children × Parent)
  detach_children i nil = none
  detach_children i (child c t f) =
      put_tree c f (detach_tree i t) (keep_tree c t (detach_children i f))

-- The state of the loop of `evict`.
pub record Evicting : Type 0 where
  pub root : TreeNode
  pub children : Children
  pub evictable_size_ : ℤ
  pub evictable_leaves : List ℕ
  pub allocator : Option TokenPoolAllocator
  pub num_evicted : ℕ
  pub heap : List Entry

abbrev pub is_nil : Children → Bool
is_nil nil = true
is_nil (child c t f) = false

-- `_delete_leaf` and the test on the parent that follows it.
unfoldable pub delete_leaf : Strategy → Evicting → TreeNode → Tree → Parent → Evicting
unfolding entry
delete_leaf st e x (tree r f) (p, g) = record e {
  root = r;
  children = f;
  evictable_size_ = e.evictable_size_ -ℤ pos (length x.key);
  evictable_leaves = update_leaf_status p g (discard x.id e.evictable_leaves);
  heap = if is_nil g && eqb_ℤ p.lock_ref (pos 0) then entry st p ∷ e.heap else e.heap;
}

-- The body of the loop of `evict`, after `heappop`: `none` where the node is not in the tree.
unfoldable pub evict_one : Strategy → Evicting → TreeNode → Option Evicting
unfolding delete_leaf
evict_one st e x =
    let freed = record e {
      allocator = Option.map (λ a. free a (slots x.value)) e.allocator;
      num_evicted = e.num_evicted + length (slots x.value);
    } in
    elim (detach_tree x.id (tree e.root e.children)) [
      | none ↦ none
      | some (t, p) ↦ some (delete_leaf st freed x t p)
    ]

-- The loop of `evict`. Each round takes a node from the tree, so the fuel is their number.
unfoldable pub evict_loop : ℕ → Strategy → ℕ → Evicting → Option Evicting
unfolding evict_one heappop
evict_loop zero st n e =
    if ltb e.num_evicted n then elim e.heap [ [] ↦ some e | _ ∷ _ ↦ none ] else some e
evict_loop (suc fuel) st n e = elim (ltb e.num_evicted n) [
  | false ↦ some e
  | true ↦ elim (heappop e.heap) [
    | none ↦ some e
    | some (x, rest) ↦ elim (evict_one st (record e { heap = rest }) x.1) [
      | none ↦ none
      | some e' ↦ evict_loop fuel st n e'
    ]
  ]
]

-- The state in which the loop begins.
unfoldable pub evicting : RadixCache → Evicting
unfolding leaf_entries
evicting c = record {
  root = c.root;
  children = c.children;
  evictable_size_ = c.evictable_size_;
  evictable_leaves = c.evictable_leaves;
  allocator = c.allocator;
  num_evicted = 0;
  heap = leaf_entries c.eviction_strategy c.children c.evictable_leaves;
}

abbrev pub after_evict : RadixCache → Option Evicting → Option (ℕ × RadixCache)
after_evict c none = none
after_evict c (some e) = some (
  e.num_evicted,
  record c {
    root = e.root;
    children = e.children;
    evictable_size_ = e.evictable_size_;
    evictable_leaves = e.evictable_leaves;
    allocator = e.allocator;
  },
)

-- `evict`: the number of evicted tokens.
unfoldable pub evict : RadixCache → ℕ → Option (ℕ × RadixCache)
unfolding evicting evict_loop
evict c num_tokens =
    let run = evict_loop (nodes_children c.children) c.eviction_strategy num_tokens (evicting c) in
    if c.disable then some (0, c) else after_evict c run

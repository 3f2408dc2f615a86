-- ===== src/Radix/Evict/Round.antt =====
-- One round of the loop of `evict`: what it takes from the tree, and what the state keeps.
use mathlib.Core.Option
use sglang_mlx.Prelude.{
  ℕ, ◌+◌, ◌≤◌, false, Option, none, some, List, ◌∷◌, ◌≡◌, refl, ◌∙◌, ap, arith, ◌&&◌, if◌then◌else◌,
  Bool-cases, inl, inr, pos, ltb_ℤ, eqb_ℤ, length, count, int_laws, pos_part, neg_part,
}
use sglang_mlx.Allocator.{free}
use sglang_mlx.Radix.Tree.{
  TreeNode, Tree, tree, Children, nil, child, is_evictable_leaf, has_live_child, evicted, slots,
  update_leaf_status, discard,
}
use sglang_mlx.Radix.Evict.View.{Shrinks}
use sglang_mlx.Radix.View.{cached_children, WfChildren}
use sglang_mlx.Radix.Weights.{sum_children, sum_tree}
use sglang_mlx.Radix.Measures.{unlocked}
use sglang_mlx.Radix.Leaves.{is_id, ids, own, count-discard, count-update_leaf_status}
use sglang_mlx.Radix.LeavesMatch.{has_live_child-occupied}
use sglang_mlx.Radix.Evict.LeafSums.{
  leaf_weight, leaf_sum_children, leaf_sum_tree, leaf_sum_children-le,
}
use sglang_mlx.Radix.Policy.{Strategy}
use sglang_mlx.Radix.PopOrder.{total, AreRanked}
use sglang_mlx.Radix.Evict.Detach.{Cut, detach_tree_lem, DetachTree}
use sglang_mlx.Radix.Evict.{
  Entry, entry, Evicting, evict_one, delete_leaf, is_nil, detach_tree, Parent,
}
use sglang_mlx.Radix.Evict.Victim.{victim, is_id_self}

-- The weight of the nodes in the heap.
abbrev pub heap_sum : (TreeNode → ℕ) → List Entry → ℕ
heap_sum w l = total (λ e. w e.1) l

abbrev pub negative : TreeNode → ℕ
negative h = if ltb_ℤ h.lock_ref (pos 0) then 1 else 0

-- Whether a node is locked, as a number.
abbrev pub hot : TreeNode → ℕ
hot h = if ltb_ℤ (pos 0) h.lock_ref then 1 else 0

-- The state between two rounds: the tree is well formed, with one node for an id; the set holds
-- the evictable leaves and the size counts the unlocked tokens; the heap holds evictable leaves,
-- each at most once.
pub record IsSound (e : Evicting) : Type 0 where
  pub shape : WfChildren e.children
  pub rooted : e.root.lock_ref ≡ pos 1
  pub alive : evicted e.root ≡ false
  pub one : (i : ℕ) → is_id i e.root + ids i e.children ≤ 1
  pub exact : (i : ℕ) → count i e.evictable_leaves ≡ leaf_sum_children (is_id i) e.children
  pub free : e.evictable_size_ ≡ pos (sum_children unlocked e.children)
  pub heap_leaves : (w : TreeNode → ℕ) → heap_sum w e.heap ≤ leaf_sum_children w e.children

-- No lock count is negative, and the heap holds every evictable leaf, with its priority.
pub record IsFull (st : Strategy) (e : Evicting) : Type 0 where
  pub locks : sum_children negative e.children ≡ 0
  pub heap_all : (w : TreeNode → ℕ) → leaf_sum_children w e.children ≤ heap_sum w e.heap
  pub ranked : AreRanked st e.heap

-- A round: the state after it, and the node that it took.
pub record Round (st : Strategy) (rest : List Entry) (e e' : Evicting) (x : TreeNode) : Type 0 where
  pub sound : IsSound e'
  pub full : AreRanked st rest → IsFull st e → IsFull st e'
  pub taken :
      (p : Parent) × (detach_tree x.id (tree e.root e.children) ≡ some (tree e.root e'.children, p))
  pub same_root : e'.root ≡ e.root
  pub sums : (w : TreeNode → ℕ) → sum_children w e.children ≡ sum_children w e'.children + w x
  pub view : Shrinks (cached_children e'.children) (cached_children e.children)
  pub loose : ltb_ℤ (pos 0) x.lock_ref ≡ false
  pub paired : length (slots x.value) ≡ length x.key
  pub counted : e'.num_evicted ≡ e.num_evicted + length x.key
  pub freed : e'.allocator ≡ Option.map (λ a. free a (slots x.value)) e.allocator

leaf_weight-locked :
    (w : TreeNode → ℕ) (h : TreeNode) (f : Children) → h.lock_ref ≡ pos 1 → leaf_weight w h f ≡ 0
unfolding leaf_weight is_evictable_leaf
leaf_weight-locked w h f e = ground arith

negative-locked : (h : TreeNode) → h.lock_ref ≡ pos 1 → negative h ≡ 0
negative-locked h e = ground arith

-- The set after `_delete_leaf`, which counts the leaves of the tree again.
exact-delete :
    (i : ℕ) (l : List ℕ) (x p : TreeNode) (g : Children) (before after : ℕ)
    → count i l ≡ before
    → before ≤ 1
    → before + leaf_weight (is_id i) p g ≡ after + is_id i x
    → before + is_id i p ≤ 1
    → after + is_id i x ≤ 1
    → is_id i p + is_id i x ≤ 1
    → count i (update_leaf_status p g (discard x.id l)) ≡ after
unfolding leaf_weight is_id own
exact-delete i l x p g before after e small moved busy room apart =
    ground (arith, count-update_leaf_status i p g (discard x.id l), count-discard i x.id l)

-- The heap after the parent was pushed, where it became a leaf.
pushed : Strategy → TreeNode → Children → List Entry → List Entry
unfolding entry
pushed st p g rest = if is_nil g && eqb_ℤ p.lock_ref (pos 0) then entry st p ∷ rest else rest

heap_sum-pushed :
    (st : Strategy) (p : TreeNode) (g : Children) (rest : List Entry)
    → WfChildren g
    → evicted p ≡ false
    → ((w : TreeNode → ℕ) → heap_sum w (pushed st p g rest) ≤ heap_sum w rest + leaf_weight w p g)
      × (negative p ≡ 0
          → (w : TreeNode → ℕ)
          → heap_sum w rest + leaf_weight w p g ≤ heap_sum w (pushed st p g rest))
unfolding pushed leaf_weight is_evictable_leaf total has_live_child
heap_sum-pushed st p nil rest v live = (λ w. ground arith, λ n w. ground arith)
heap_sum-pushed st p (child c t g) rest v live =
    let busy = has_live_child-occupied (child c t g) v in (λ w. ground arith, λ n w. ground arith)

unlocked-loose : (h : TreeNode) → ltb_ℤ (pos 0) h.lock_ref ≡ false → unlocked h ≡ length h.key
unfolding unlocked
unlocked-loose h e = ground arith

pushed-AreRanked :
    (st : Strategy) (p : TreeNode) (g : Children) (rest : List Entry)
    → AreRanked st rest
    → AreRanked st (pushed st p g rest)
unfolding pushed
pushed-AreRanked st p g rest v = elim (Bool-cases (is_nil g && eqb_ℤ p.lock_ref (pos 0))) [
  | inl e ↦ rw e (refl, v)
  | inr e ↦ rw e v
]

-- The state before `_delete_leaf`.
abbrev after_pop : Evicting → TreeNode → List Entry → Evicting
after_pop e x rest = record e {
  heap = rest;
  allocator = Option.map (λ a. free a (slots x.value)) e.allocator;
  num_evicted = e.num_evicted + length (slots x.value);
}

-- The state that a round leaves is sound again.
delete_leaf-IsSound :
    (st : Strategy) (e : Evicting) (x p : TreeNode) (rest : List Entry) (f' g : Children)
    → IsSound e
    → ((w : TreeNode → ℕ) → heap_sum w e.heap ≡ w x + heap_sum w rest)
    → detach_tree x.id (tree e.root e.children) ≡ some (tree e.root f', (p, g))
    → WfChildren f'
    → Shrinks (cached_children f') (cached_children e.children)
    → Cut x.id p g
        (λ w. sum_tree w (tree e.root e.children))
        (λ w. sum_tree w (tree e.root f'))
        (λ w. leaf_sum_tree w (tree e.root e.children))
        (λ w. leaf_sum_tree w (tree e.root f'))
    → Round st rest e (delete_leaf st (after_pop e x rest) x (tree e.root f') (p, g)) x
unfolding delete_leaf pushed sum_tree leaf_sum_tree
delete_leaf-IsSound st e x p rest f' g s popped q shape view k =
    let v =
      victim x e.root p e.children f' g s.one (λ w. omega (arith, popped w, s.heap_leaves w)) k in
    let root_leaf = λ (w : TreeNode → ℕ). leaf_weight-locked w e.root e.children s.rooted in
    let root_leaf' = λ (w : TreeNode → ℕ). leaf_weight-locked w e.root f' s.rooted in
    let root_lock = negative-locked e.root s.rooted in
    let push = heap_sum-pushed st p g rest k.rest_shape k.live in
    record {
      sound = record {
        shape = shape;
        rooted = s.rooted;
        alive = s.alive;
        one = λ i. omega (arith, s.one i, v.sums (is_id i));
        exact = λ i.
            exact-delete i e.evictable_leaves x p g (leaf_sum_children (is_id i) e.children)
              (leaf_sum_children (is_id i) f') (s.exact i)
              (omega (arith, s.one i, leaf_sum_children-le (is_id i) e.children))
              (omega (arith, v.leaf_sums (is_id i), root_leaf (is_id i), root_leaf' (is_id i)))
              (omega (arith, k.busy (is_id i), s.one i, root_leaf (is_id i)))
              (omega (arith, v.sums (is_id i), s.one i, leaf_sum_children-le (is_id i) f'))
              (omega (arith, k.inside (is_id i), v.sums (is_id i), s.one i));
        free = omega (
          int_laws,
          ap pos_part s.free,
          ap neg_part s.free,
          v.sums unlocked,
          unlocked-loose x v.loose,
        );
        heap_leaves = λ w.
            omega (
              arith,
              push.0 w,
              popped w,
              s.heap_leaves w,
              v.leaf_sums w,
              root_leaf w,
              root_leaf' w,
            );
      };
      taken = ((p, g), q);
      full = λ v' u. record {
        locks = omega (arith, u.locks, v.sums negative);
        heap_all = λ w. omega (
          arith,
          push.1 (omega (arith, k.inside negative, v.sums negative, u.locks, root_lock)) w,
          popped w,
          u.heap_all w,
          v.leaf_sums w,
          root_leaf w,
          root_leaf' w,
        );
        ranked = pushed-AreRanked st p g rest v';
      };
      same_root = refl;
      sums = λ w. omega (arith, v.sums w);
      view = view;
      loose = v.loose;
      paired = v.paired;
      counted = omega (arith, v.paired);
      freed = refl;
    }

evict_one-found :
    (st : Strategy) (e : Evicting) (x : TreeNode) (rest : List Entry) (r : Option (Tree × Parent))
    → detach_tree x.id (tree e.root e.children) ≡ r
    → DetachTree x.id e.root e.children r
    → IsSound e
    → ((w : TreeNode → ℕ) → heap_sum w e.heap ≡ w x + heap_sum w rest)
    → (e' : Evicting) × (evict_one st (record e { heap = rest }) x ≡ some e') × Round st rest e e' x
unfolding evict_one
evict_one-found st e x rest none q lost s popped = absurd (
    omega (
      arith,
      lost,
      popped (is_id x.id),
      s.heap_leaves (is_id x.id),
      leaf_sum_children-le (is_id x.id) e.children,
      is_id_self x x refl,
    ))
evict_one-found st e x rest (some (t, (p, g))) q (f', same, shape, view, k) s popped = (
  delete_leaf st (after_pop e x rest) x (tree e.root f') (p, g),
  rw (q, evict_one, same) refl,
  delete_leaf-IsSound st e x p rest f' g s popped (q ∙ ap (λ t. some (t, (p, g))) same) shape view
      k,
)

-- A round at a heap entry finds its node and takes it.
pub evict_one_lem :
    (st : Strategy) (e : Evicting) (x : TreeNode) (rest : List Entry)
    → IsSound e
    → ((w : TreeNode → ℕ) → heap_sum w e.heap ≡ w x + heap_sum w rest)
    → (e' : Evicting) × (evict_one st (record e { heap = rest }) x ≡ some e') × Round st rest e e' x
evict_one_lem st e x rest s popped =
    evict_one-found st e x rest (detach_tree x.id (tree e.root e.children)) refl
      (detach_tree_lem x.id e.root e.children s.alive s.shape) s popped

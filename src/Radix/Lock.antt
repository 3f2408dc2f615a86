-- ===== src/Radix/Lock.antt =====
-- `inc_lock_ref` and `dec_lock_ref` of radix_cache.py. The loop climbs from a node to the root; it
-- is a recursion on the tree that finds the node and changes the nodes on the way back.
use sglang_mlx.Prelude.{
  ℕ, Option, none, some, List, ◌==◌, if◌then◌else◌, length, ℤ, pos, ◌+ℤ◌, ◌-ℤ◌, eqb_ℤ, ◌≡◌, subst,
  inl, inr, Bool-cases,
}
use sglang_mlx.Radix.Tree.{TreeNode, Tree, tree, Children, nil, child, update_leaf_status}

-- The fields of the cache that the loops keep, and their result.
pub record Books : Type 0 where
  pub evictable_size_ : ℤ
  pub protected_size_ : ℤ
  pub evictable_leaves : List ℕ
  pub delta : ℤ

-- What a body of the loop does to one node and the books.
abbrev pub Body : Type 0
Body = TreeNode → Children → Books → TreeNode × Books

-- The body of the loop of `inc_lock_ref`.
unfoldable pub inc_node : Body
inc_node h f b =
    let n = pos (length h.key) in
    let h' = record h { lock_ref = h.lock_ref +ℤ pos 1 } in
    let free = eqb_ℤ h.lock_ref (pos 0) in
    (
      h',
      record {
        evictable_size_ = if free then b.evictable_size_ -ℤ n else b.evictable_size_;
        protected_size_ = if free then b.protected_size_ +ℤ n else b.protected_size_;
        evictable_leaves = update_leaf_status h' f b.evictable_leaves;
        delta = if free then b.delta -ℤ n else b.delta;
      },
    )

-- The body of the loop of `dec_lock_ref`.
unfoldable pub dec_node : Body
dec_node h f b =
    let n = pos (length h.key) in
    let h' = record h { lock_ref = h.lock_ref -ℤ pos 1 } in
    let last = eqb_ℤ h.lock_ref (pos 1) in
    (
      h',
      record {
        evictable_size_ = if last then b.evictable_size_ +ℤ n else b.evictable_size_;
        protected_size_ = if last then b.protected_size_ -ℤ n else b.protected_size_;
        evictable_leaves = update_leaf_status h' f b.evictable_leaves;
        delta = if last then b.delta +ℤ n else b.delta;
      },
    )

-- One iteration, at a node with children `f`.
abbrev pub visit : Body → TreeNode → Children → Books → Tree × Books
visit body h f b = (tree (body h f b).0 f, (body h f b).1)

abbrev pub visit_above : Body → TreeNode → Option (Children × Books) → Option (Tree × Books)
visit_above body h none = none
visit_above body h (some (f, b)) = some (visit body h f b)

abbrev pub put_child :
    ℕ → Children → Option (Tree × Books) → Option (Children × Books) → Option (Children × Books)
put_child c f none r = r
put_child c f (some (t, b)) r = some (child c t f, b)

abbrev pub keep_child : ℕ → Tree → Option (Children × Books) → Option (Children × Books)
keep_child c t none = none
keep_child c t (some (f, b)) = some (child c t f, b)

-- The loop from the node `i` up to the top of the tree; `none` where the node is not there.
unfoldable mutual
  pub climb_tree : Body → ℕ → Tree → Books → Option (Tree × Books)
  climb_tree body i (tree h f) b =
      let above = visit_above body h (climb_children body i f b) in
      if h.id == i then some (visit body h f b) else above

  pub climb_children : Body → ℕ → Children → Books → Option (Children × Books)
  climb_children body i nil b = none
  climb_children body i (child c t f) b =
      put_child c f (climb_tree body i t b) (keep_child c t (climb_children body i f b))

-- Induction along a climb that finds its node: the node itself, a node above it, and the position
-- among the children.
module _ (body : Body) (PC : Children → Books → Children → Books → Type 0)
    (PT : Tree → Books → Tree → Books → Type 0)
    (here : (h : TreeNode) (f : Children) (b : Books)
      → PT (tree h f) b (visit body h f b).0 (visit body h f b).1)
    (above : (h : TreeNode) (f : Children) (b : Books) (f' : Children) (b' : Books)
      → PC f b f' b'
      → PT (tree h f) b (visit body h f' b').0 (visit body h f' b').1)
    (first : (c : ℕ) (t : Tree) (f : Children) (b : Books) (t' : Tree) (b' : Books)
      → PT t b t' b'
      → PC (child c t f) b (child c t' f) b')
    (later : (c : ℕ) (t : Tree) (f : Children) (b : Books) (f' : Children) (b' : Books)
      → PC f b f' b'
      → PC (child c t f) b (child c t f') b') where
  abbrev HoldsC : Children → Books → Option (Children × Books) → Type 0
  HoldsC f b none = Unit
  HoldsC f b (some (f', b')) = PC f b f' b'

  abbrev HoldsT : Tree → Books → Option (Tree × Books) → Type 0
  HoldsT t b none = Unit
  HoldsT t b (some (t', b')) = PT t b t' b'

  HoldsT-above :
      (h : TreeNode) (f : Children) (b : Books) (r : Option (Children × Books))
      → HoldsC f b r
      → HoldsT (tree h f) b (visit_above body h r)
  HoldsT-above h f b none p = tt
  HoldsT-above h f b (some (f', b')) p = above h f b f' b' p

  HoldsC-put :
      (c : ℕ) (t : Tree) (f : Children) (b : Books) (r : Option (Tree × Books))
      (r' : Option (Children × Books))
      → HoldsT t b r
      → HoldsC f b r'
      → HoldsC (child c t f) b (put_child c f r (keep_child c t r'))
  HoldsC-put c t f b none none p p' = tt
  HoldsC-put c t f b none (some (f', b')) p p' = later c t f b f' b' p'
  HoldsC-put c t f b (some (t', b')) r' p p' = first c t f b t' b' p

  mutual
    unfolding climb_tree

    climb_tree-Holds : (i : ℕ) (t : Tree) (b : Books) → HoldsT t b (climb_tree body i t b)
    climb_tree-Holds i (tree h f) b = elim (Bool-cases (h.id == i)) [
      | inl e ↦ rw e (here h f b)
      | inr e ↦ rw e (HoldsT-above h f b _ (climb_children-Holds i f b))
    ]

    climb_children-Holds :
        (i : ℕ) (f : Children) (b : Books) → HoldsC f b (climb_children body i f b)
    climb_children-Holds i nil b = tt
    climb_children-Holds i (child c t f) b =
        HoldsC-put c t f b _ _ (climb_tree-Holds i t b) (climb_children-Holds i f b)

  pub climb_induction :
      (i : ℕ) (f : Children) (b : Books) (f' : Children) (b' : Books)
      → climb_children body i f b ≡ some (f', b')
      → PC f b f' b'
  climb_induction i f b f' b' e = subst (HoldsC f b) e (climb_children-Holds i f b)

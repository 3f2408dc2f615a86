-- ===== src/Radix/Locks/Climb.antt =====
-- A climb moves the count of every node on its way by one, and with it the locks that are held.
use sglang_mlx.Prelude.{
  ℕ, ◌+◌, ◌≤◌, true, false, Option, none, some, List, ◌∷◌, ◌==◌, ◌≡◌, refl, ◌∙◌, ap, arith, count,
  pos, int_laws, Bool-cases, inl, inr,
}
use sglang_mlx.Radix.Tree.{TreeNode, Tree, tree, Children, nil, child}
use sglang_mlx.Radix.Weights.{sum_children, sum_tree}
use sglang_mlx.Radix.Leaves.{is_id, ids}
use sglang_mlx.Radix.Lock.{
  Body, Books, visit, visit_above, put_child, keep_child, climb_tree, climb_children,
  climb_induction, inc_node, dec_node,
}
use sglang_mlx.Radix.LockView.{Keeps}
use sglang_mlx.Radix.Locks.Ends.{Stays, Stays-refl, tree-Stays, child-Stays, end_children, end_tree}
use sglang_mlx.Radix.Locks.Counts.{held_at, LockedChildren, LockedTree}

-- Two lists of locks that differ at the node `i` only, and a body that follows them: `up` locks
-- come and `down` go.
pub record Moves (body : Body) (i up down : ℕ) (held held' : List ℕ) : Type 0 where
  pub keeps : Keeps body
  pub here : count i held' + down ≡ count i held + up
  pub others : (j : ℕ) → j == i ≡ false → count j held' ≡ count j held
  pub lock :
      (h : TreeNode) (f : Children) (b : Books) (n n' : ℕ)
      → h.lock_ref ≡ pos n
      → n' + down ≡ n + up
      → (body h f b).0.lock_ref ≡ pos n'

pub inc_node-Moves : (i : ℕ) (held : List ℕ) → Moves inc_node i 1 0 held (i ∷ held)
unfolding inc_node count
inc_node-Moves i held = record {
  keeps = record { key = λ h f b. refl; value = λ h f b. refl; id = λ h f b. refl };
  here = ground arith;
  others = λ j e. rw e (omega arith);
  lock = λ h f b n n' e k. rw e (omega (int_laws, k));
}

pub dec_node-Moves :
    (i : ℕ) (held held' : List ℕ)
    → ((j : ℕ) → count j held ≡ count j (i ∷ held'))
    → Moves dec_node i 0 1 held held'
unfolding dec_node count
dec_node-Moves i held held' same = record {
  keeps = record { key = λ h f b. refl; value = λ h f b. refl; id = λ h f b. refl };
  here = ground (arith, same i);
  others = λ j e. ground (arith, same j);
  lock = λ h f b n n' e k. rw e (omega (int_laws, k));
}

module _ (body : Body) (i up down : ℕ) (held held' : List ℕ)
    (v : Moves body i up down held held') where
  held_at_other : (h : TreeNode) → h.id == i ≡ false → held_at held' h ≡ held_at held h
  unfolding held_at
  held_at_other h e = v.others h.id e

  -- Where the node is not, as many locks are held as before.
  mutual
    unfolding LockedChildren sum_children is_id

    pub absent-Counts :
        (f : Children)
        → ids i f ≡ 0
        → LockedChildren held f
        → LockedChildren held' f × (sum_children (held_at held') f ≡ sum_children (held_at held) f)
    absent-Counts nil z u = (tt, refl)
    absent-Counts (child c t f) z u =
        let (w, e) = absent-Counts_tree t (omega (arith, z)) u.0 in
        let (w', e') = absent-Counts f (omega (arith, z)) u.1 in ((w, w'), omega (arith, e, e'))

    absent-Counts_tree :
        (t : Tree)
        → sum_tree (is_id i) t ≡ 0
        → LockedTree held t
        → LockedTree held' t × (sum_tree (held_at held') t ≡ sum_tree (held_at held) t)
    absent-Counts_tree (tree h f) z u =
        let (w, e) = absent-Counts f (omega (arith, z)) u.1 in
        let other = held_at_other h (ground arith) in
        ((u.0 ∙ ap pos (omega (arith, e, other)), w), omega (arith, e, other))

  -- What a climb leaves.
  abbrev pub Moved : Children → Option (Children × Books) → Type 0
  Moved f none = ids i f ≡ 0
  Moved f (some (f', b)) =
      (1 ≤ ids i f)
      × LockedChildren held' f'
      × (sum_children (held_at held') f' + down ≡ sum_children (held_at held) f + up)

  abbrev MovedTree : Tree → Option (Tree × Books) → Type 0
  MovedTree t none = sum_tree (is_id i) t ≡ 0
  MovedTree t (some (t', b)) =
      (1 ≤ sum_tree (is_id i) t)
      × LockedTree held' t'
      × (sum_tree (held_at held') t' + down ≡ sum_tree (held_at held) t + up)

  Moved-here :
      (h : TreeNode) (f : Children) (b : Books)
      → h.id == i ≡ true
      → ids i f ≡ 0
      → LockedTree held (tree h f)
      → MovedTree (tree h f) (some (visit body h f b))
  unfolding LockedTree sum_tree held_at is_id
  Moved-here h f b e z u =
      let (w, k) = absent-Counts f z u.1 in
      let same : h.id ≡ i = ground arith in
      let counted : count h.id held' + down ≡ count h.id held + up = rw same v.here in
      rw (v.keeps.id h f b) (
        ground arith,
        (v.lock h f b _ _ u.0 (omega (arith, k, counted)), w),
        omega (arith, k, counted),
      )

  Moved-above :
      (h : TreeNode) (f : Children) (r : Option (Children × Books))
      → h.id == i ≡ false
      → LockedTree held (tree h f)
      → Moved f r
      → MovedTree (tree h f) (visit_above body h r)
  unfolding LockedTree sum_tree is_id
  Moved-above h f none e u z = ground arith
  Moved-above h f (some (f', b)) e u (present, w, k) =
      let other = held_at_other h e in
      let same : held_at held' (body h f' b).0 ≡ held_at held' h =
        unfold held_at in ap (λ j. count j held') (v.keeps.id h f' b) in
      (
        omega (arith, present),
        (v.lock h f' b _ _ u.0 (omega (arith, k, other, same)), w),
        omega (arith, k, other, same),
      )

  Moved-put :
      (c : ℕ) (t : Tree) (f : Children) (r : Option (Tree × Books)) (r' : Option (Children × Books))
      → ids i (child c t f) ≤ 1
      → LockedChildren held (child c t f)
      → MovedTree t r
      → Moved f r'
      → Moved (child c t f) (put_child c f r (keep_child c t r'))
  unfolding LockedChildren sum_children
  Moved-put c t f none none one u z z' = omega (arith, z, z')
  Moved-put c t f none (some (f', b)) one u z (present, w, k) =
      let (w', e) = absent-Counts_tree t z u.0 in
      (omega (arith, present), (w', w), omega (arith, k, e))
  Moved-put c t f (some (t', b)) r' one u (present, w, k) z' =
      let (w', e) = absent-Counts f (omega (arith, one, present)) u.1 in
      (omega (arith, present), (w, w'), omega (arith, k, e))

  mutual
    unfolding climb_tree LockedChildren sum_children is_id

    climb_tree-Moved :
        (t : Tree) (b : Books)
        → sum_tree (is_id i) t ≤ 1
        → LockedTree held t
        → MovedTree t (climb_tree body i t b)
    climb_tree-Moved (tree h f) b one u = elim (Bool-cases (h.id == i)) [
      | inl e ↦ rw e (Moved-here h f b e (ground arith) u)
      | inr e ↦ rw e (Moved-above h f _ e u (climb_children-Moved f b (omega (arith, one)) u.1))
    ]

    pub climb_children-Moved :
        (f : Children) (b : Books)
        → ids i f ≤ 1
        → LockedChildren held f
        → Moved f (climb_children body i f b)
    climb_children-Moved nil b one u = refl
    climb_children-Moved (child c t f) b one u =
        Moved-put c t f _ _ one u (climb_tree-Moved t b (omega (arith, one)) u.0)
          (climb_children-Moved f b (omega (arith, one)) u.1)

-- A climb changes no key and no id, so every end stays.
pub climb-Stays :
    (body : Body)
    → Keeps body
    → (i : ℕ) (f : Children) (b : Books) (f' : Children) (b' : Books)
    → climb_children body i f b ≡ some (f', b')
    → Stays (end_children f') (end_children f)
climb-Stays body k =
    climb_induction body (λ f b f' b'. Stays (end_children f') (end_children f))
      (λ t b t' b'. Stays (end_tree t') (end_tree t))
      (λ h f b.
        tree-Stays h (body h f b).0 f f (k.key h f b) (k.id h f b) (Stays-refl (end_children f)))
      (λ h f b f' b' s. tree-Stays h (body h f' b').0 f f' (k.key h f' b') (k.id h f' b') s)
      (λ c t f b t' b' s. child-Stays c t t' f f s (Stays-refl (end_children f)))
      (λ c t f b f' b' s. child-Stays c t t f f' (Stays-refl (end_tree t)) s)

-- ===== src/Radix/Locks/Counts.antt =====
-- The lock count of a node is the number of locks that are held at it or below it; matches and
-- insertions keep this.
use sglang_mlx.Prelude.{
  ℕ, ◌+◌, ◌≤◌, List, [], ◌∷◌, ◌≡◌, refl, ◌∙◌, ap, arith, count, ltb, length, drop, get_or, ℤ, pos,
  Bool-cases, inl, inr,
}
use sglang_mlx.Radix.Tree.{
  TreeNode, Tree, tree, Children, nil, child, Supply, after_new, key_match, split_node, upper_half,
  lower_half,
}
use sglang_mlx.Radix.Walk.{
  leads, raised, leaf_node, add_leaf, match_children, match_tree, insert_children, insert_tree,
}
use sglang_mlx.Radix.Weights.{sum_children, sum_tree}

-- How many of the locks are at a node; `held` has the id of a node for each lock.
unfoldable pub held_at : List ℕ → TreeNode → ℕ
held_at held h = count h.id held

unfoldable mutual
  pub LockedChildren : List ℕ → Children → Type 0
  LockedChildren held nil = Unit
  LockedChildren held (child c t f) = LockedTree held t × LockedChildren held f

  pub LockedTree : List ℕ → Tree → Type 0
  LockedTree held (tree h f) =
      (h.lock_ref ≡ pos (held_at held h + sum_children (held_at held) f)) × LockedChildren held f

-- No lock is at an id that is not given out yet.
abbrev pub AreOld : List ℕ → Supply → Type 0
AreOld held s = (i : ℕ) → s.counter ≤ i → count i held ≡ 0

-- A dictionary after a walk: its locks count again, and as many are held in it.
abbrev pub Counts : List ℕ → Children → Children → Type 0
Counts held f f' =
    LockedChildren held f' × (sum_children (held_at held) f' ≡ sum_children (held_at held) f)

abbrev pub CountsTree : List ℕ → Tree → Tree → Type 0
CountsTree held t t' = LockedTree held t' × (sum_tree (held_at held) t' ≡ sum_tree (held_at held) t)

-- A new upper half has the count of the node, which is all held below it.
upper-lock :
    (held : List ℕ) (s : Supply) (h : TreeNode) (n m : ℕ)
    → AreOld held s
    → h.lock_ref ≡ pos m
    → (held_at held (upper_half s h n) ≡ 0) × ((upper_half s h n).lock_ref ≡ pos m)
unfolding upper_half held_at
upper-lock held s h n m old e = (old s.counter (omega arith), e)

mutual
  unfolding match_tree split_node LockedChildren sum_children held_at upper_half

  pub match_children-Counts :
      (held : List ℕ) (node : ℕ) (f : Children) (key : List ℕ) (now : ℕ) (s : Supply)
      → AreOld held s
      → LockedChildren held f
      → Counts held f (match_children node f key now s).out
  match_children-Counts held node nil key now s old v = (tt, refl)
  match_children-Counts held node (child c t f) key now s old v = elim (Bool-cases (leads c key)) [
    | inl hit ↦ rw hit (
        let (w, e) = match_tree-Counts held t key now s old v.0 in
        ((w, v.1), ap (λ k. k + sum_children (held_at held) f) e))
    | inr miss ↦ rw miss (
        let (w, e) = match_children-Counts held node f key now s old v.1 in
        ((v.0, w), ap (λ k. sum_tree (held_at held) t + k) e))
  ]

  pub match_tree-Counts :
      (held : List ℕ) (t : Tree) (key : List ℕ) (now : ℕ) (s : Supply)
      → AreOld held s
      → LockedTree held t
      → CountsTree held t (match_tree t key now s).out
  match_tree-Counts held (tree h f) key now s old v =
      let n = key_match h.key key in
      let h' = record h { last_access_time = now } in
      elim (Bool-cases (ltb n (length h.key))) [
        | inl part ↦ rw part (
            let u = upper-lock held s h' n _ old v.0 in
            ((u.1 ∙ ap pos (omega (arith, u.0)), (v, tt)), omega (arith, u.0)))
        | inr whole ↦ rw whole (
            let (w, e) = match_children-Counts held h.id f (drop n key) now s old v.1 in
            ((v.0 ∙ ap pos (omega (arith, e)), w), omega (arith, e)))
      ]

add_leaf-Counts :
    (held : List ℕ) (node : TreeNode) (all : Children) (key value : List ℕ) (p : ℤ) (s : Supply)
    (l : List ℕ)
    → AreOld held s
    → Counts held nil (add_leaf node all key value p s l).out
unfolding add_leaf leaf_node LockedChildren sum_children held_at
add_leaf-Counts held node all [] value p s l old = (tt, refl)
add_leaf-Counts held node all (k ∷ key) value p s l old =
    let none_held = old s.counter (omega arith) in
    ((((ap pos (omega (arith, none_held)), tt), tt)), omega (arith, none_held))

mutual
  unfolding insert_tree LockedChildren sum_children held_at upper_half

  pub insert_children-Counts :
      (held : List ℕ) (node : TreeNode) (all f : Children) (key value : List ℕ) (p : ℤ) (now : ℕ)
      (s : Supply) (l : List ℕ)
      → AreOld held s
      → LockedChildren held f
      → Counts held f (insert_children node all f key value p now s l).out
  insert_children-Counts held node all nil key value p now s l old v =
      add_leaf-Counts held node all key value p s l old
  insert_children-Counts held node all (child c t f) key value p now s l old v =
      elim (Bool-cases (leads c key)) [
        | inl hit ↦ rw hit (
            let (w, e) = insert_tree-Counts held t key value p now s l old v.0 in
            ((w, v.1), ap (λ k. k + sum_children (held_at held) f) e))
        | inr miss ↦ rw miss (
            let (w, e) = insert_children-Counts held node all f key value p now s l old v.1 in
            ((v.0, w), ap (λ k. sum_tree (held_at held) t + k) e))
      ]

  pub insert_tree-Counts :
      (held : List ℕ) (t : Tree) (key value : List ℕ) (p : ℤ) (now : ℕ) (s : Supply) (l : List ℕ)
      → AreOld held s
      → LockedTree held t
      → CountsTree held t (insert_tree t key value p now s l).out
  insert_tree-Counts held (tree h f) key value p now s l old v =
      let n = key_match h.key key in
      let h' = record h { last_access_time = now } in
      let upper = raised (upper_half s h' n) p in
      let below = child (get_or h.key n 0) (tree (lower_half h' n) f) nil in
      let node = raised h' p in
      elim (Bool-cases (ltb n (length h.key))) [
        | inl part ↦ rw part (
            let u = upper-lock held s h' n _ old v.0 in
            let (w, e) =
              add_leaf-Counts held upper below (drop n key) (drop n value) p (after_new s) l
                (λ i later. old i (omega (arith, later))) in
            ((u.1 ∙ ap pos (omega (arith, u.0, e)), (v, w)), omega (arith, u.0, e)))
        | inr whole ↦ rw whole (
            let (w, e) =
              insert_children-Counts held node f f (drop n key) (drop n value) p now s l old v.1 in
            ((v.0 ∙ ap pos (omega (arith, e)), w), omega (arith, e)))
      ]

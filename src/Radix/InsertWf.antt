-- ===== src/Radix/InsertWf.antt =====
-- An insertion keeps the tree well formed.
use sglang_mlx.Prelude.{
  ℕ, true, false, List, [], ◌∷◌, ◌≡◌, refl, length, ltb, drop, get_or, ℤ, arith, ltb→lt, Bool-cases,
  inl, inr,
}
use sglang_mlx.Radix.Tree.{TreeNode, Tree, tree, Children, nil, child, Supply, key_match}
use sglang_mlx.Radix.Walk.{leads, add_leaf, insert_children, insert_tree}
use sglang_mlx.Radix.View.{IsFilled, has_child, WfChildren, WfTree}
use sglang_mlx.Radix.Overlay.{paired-drop}
use sglang_mlx.Radix.MatchWf.{key_match_pos, upper_half-IsFilled, lower_half-IsFilled}

add_leaf-Wf :
    (node : TreeNode) (all : Children) (key value : List ℕ) (p : ℤ) (s : Supply) (l : List ℕ)
    → length value ≡ length key
    → WfChildren (add_leaf node all key value p s l).out
unfolding add_leaf has_child
add_leaf-Wf node all [] value p s l e = tt
add_leaf-Wf node all (k ∷ key) value p s l e =
    ((record { first = ground arith; indices = value; held = refl; paired = e }, tt), refl, tt)

-- A new leaf has the first token of what is left of the key.
has_child-add_leaf :
    (node : TreeNode) (all : Children) (key value : List ℕ) (p : ℤ) (s : Supply) (l : List ℕ)
    (d : ℕ)
    → leads d key ≡ false
    → has_child d (add_leaf node all key value p s l).out ≡ false
unfolding add_leaf has_child
has_child-add_leaf node all [] value p s l d h = refl
has_child-add_leaf node all (k ∷ key) value p s l d h = ground arith

has_child-insert :
    (node : TreeNode) (all f : Children) (key value : List ℕ) (p : ℤ) (now : ℕ) (s : Supply)
    (l : List ℕ) (d : ℕ)
    → leads d key ≡ false
    → has_child d f ≡ false
    → has_child d (insert_children node all f key value p now s l).out ≡ false
unfolding insert_children has_child
has_child-insert node all nil key value p now s l d h k =
    has_child-add_leaf node all key value p s l d h
has_child-insert node all (child c t f) key value p now s l d h k =
    ground (arith, has_child-insert node all f key value p now s l d h)

-- After a match inside a node the next token of the key is not the next token of the node: the
-- loop of `_insert_helper` ends after a split, since the only child does not lead on.
pub key_match-stops :
    (key q : List ℕ)
    → ltb (key_match key q) (length key) ≡ true
    → leads (get_or key (key_match key q) 0) (drop (key_match key q) q) ≡ false
unfolding key_match
key_match-stops [] q h = absurd (ground arith)
key_match-stops (a ∷ key) [] h = refl
key_match-stops (a ∷ key) (b ∷ q) h = ground (arith, key_match-stops key q)

mutual
  unfolding insert_tree has_child

  pub insert_children-Wf :
      (node : TreeNode) (all f : Children) (key value : List ℕ) (p : ℤ) (now : ℕ) (s : Supply)
      (l : List ℕ)
      → WfChildren f
      → length value ≡ length key
      → WfChildren (insert_children node all f key value p now s l).out
  insert_children-Wf node all nil key value p now s l w e = add_leaf-Wf node all key value p s l e
  insert_children-Wf node all (child c t f) key value p now s l w e =
      elim (Bool-cases (leads c key)) [
        | inl hit ↦ rw hit ((insert_tree-Wf c t key value p now s l hit w.0 e, w.1, w.2))
        | inr miss ↦ rw miss (
            (
              w.0,
              has_child-insert node all f key value p now s l c miss w.1,
              insert_children-Wf node all f key value p now s l w.2 e,
            ))
      ]

  pub insert_tree-Wf :
      (c : ℕ) (t : Tree) (key value : List ℕ) (p : ℤ) (now : ℕ) (s : Supply) (l : List ℕ)
      → leads c key ≡ true
      → WfTree c t
      → length value ≡ length key
      → WfTree c (insert_tree t key value p now s l).out
  insert_tree-Wf c (tree h f) key value p now s l hit w e =
      let h' = record h { last_access_time = now } in
      let n = key_match h.key key in
      let w' : IsFilled c h' = record {
        first = w.0.first;
        indices = w.0.indices;
        held = w.0.held;
        paired = w.0.paired;
      } in
      elim (Bool-cases (ltb n (length h.key))) [
        | inl part ↦
            let u = upper_half-IsFilled c s h' n w' (key_match_pos c h.key key w.0.first hit) in
            rw part (
              (
                record { first = u.first; indices = u.indices; held = u.held; paired = u.paired },
                (
                  (lower_half-IsFilled c h' n w' (ltb→lt _ _ part), w.1),
                  has_child-add_leaf _ _ (drop n key) (drop n value) p _ l _
                      (key_match-stops h.key key part),
                  add_leaf-Wf _ _ (drop n key) (drop n value) p _ l (paired-drop n key value e),
                ),
              ))
        | inr whole ↦ rw whole (
            (
              record {
                first = w.0.first;
                indices = w.0.indices;
                held = w.0.held;
                paired = w.0.paired;
              },
              insert_children-Wf _ f f (drop n key) (drop n value) p now s l w.1
                  (paired-drop n key value e),
            ))
      ]

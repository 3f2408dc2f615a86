-- ===== src/Radix/MatchWf.antt =====
-- A match keeps the tree well formed: both halves of a split node are filled.
use sglang_mlx.Prelude.{
  ℕ, zero, suc, ◌<◌, true, List, [], ◌∷◌, ◌≡◌, refl, length, ltb, take, drop, get_or, arith, ltb→lt,
  Bool-cases, inl, inr, length-take, length-drop,
}
use sglang_mlx.Radix.Tree.{
  TreeNode, Tree, tree, Children, nil, child, Supply, key_match, split_node, upper_half, lower_half,
}
use sglang_mlx.Radix.Walk.{leads, match_children, match_tree}
use sglang_mlx.Radix.View.{IsFilled, has_child, WfChildren, WfTree}

-- Tokens that begin alike match somewhere.
pub key_match_pos :
    (c : ℕ) (key q : List ℕ) → leads c key ≡ true → leads c q ≡ true → 0 < key_match key q
unfolding key_match
key_match_pos c [] q h k = absurd (ground arith)
key_match_pos c (a ∷ key) [] h k = absurd (ground arith)
key_match_pos c (a ∷ key) (b ∷ q) h k = ground arith

leads-take : (c n : ℕ) (key : List ℕ) → 0 < n → leads c (take n key) ≡ leads c key
leads-take c zero key h = absurd (omega arith)
leads-take c (suc n) [] h = refl
leads-take c (suc n) (a ∷ key) h = refl

leads-drop : (n : ℕ) (key : List ℕ) → n < length key → leads (get_or key n 0) (drop n key) ≡ true
leads-drop n [] h = absurd (omega arith)
leads-drop zero (a ∷ key) h = ground arith
leads-drop (suc n) (a ∷ key) h = leads-drop n key (omega arith)

-- The halves of a filled node that is cut inside are filled.
pub upper_half-IsFilled :
    (c : ℕ) (s : Supply) (h : TreeNode) (n : ℕ)
    → IsFilled c h
    → 0 < n
    → IsFilled c (upper_half s h n)
unfolding upper_half
upper_half-IsFilled c s h n w p = record {
  first = rw (leads-take c n h.key p) w.first;
  indices = take n w.indices;
  held = rw w.held;
  paired = omega (arith, length-take n w.indices, length-take n h.key, w.paired);
}

pub lower_half-IsFilled :
    (c : ℕ) (h : TreeNode) (n : ℕ)
    → IsFilled c h
    → n < length h.key
    → IsFilled (get_or h.key n 0) (lower_half h n)
lower_half-IsFilled c h n w p = record {
  first = leads-drop n h.key p;
  indices = drop n w.indices;
  held = rw w.held;
  paired = omega (arith, length-drop n w.indices, length-drop n h.key, w.paired);
}

pub has_child-match :
    (node : ℕ) (f : Children) (key : List ℕ) (now : ℕ) (s : Supply) (d : ℕ)
    → has_child d (match_children node f key now s).out ≡ has_child d f
unfolding match_children has_child
has_child-match node nil key now s d = refl
has_child-match node (child c t f) key now s d = elim (Bool-cases (leads c key)) [
  | inl hit ↦ rw hit
  | inr miss ↦ rw (miss, has_child-match node f key now s d)
]

mutual
  unfolding match_tree split_node has_child

  pub match_children-Wf :
      (node : ℕ) (f : Children) (key : List ℕ) (now : ℕ) (s : Supply)
      → WfChildren f
      → WfChildren (match_children node f key now s).out
  match_children-Wf node nil key now s w = tt
  match_children-Wf node (child c t f) key now s w = elim (Bool-cases (leads c key)) [
    | inl hit ↦ rw hit ((match_tree-Wf c t key now s hit w.0, w.1, w.2))
    | inr miss ↦
        rw miss (
          (
            w.0,
            rw (has_child-match node f key now s c) w.1,
            match_children-Wf node f key now s w.2,
          ))
  ]

  pub match_tree-Wf :
      (c : ℕ) (t : Tree) (key : List ℕ) (now : ℕ) (s : Supply)
      → leads c key ≡ true
      → WfTree c t
      → WfTree c (match_tree t key now s).out
  match_tree-Wf c (tree h f) key now s hit w =
      let h' = record h { last_access_time = now } in
      let n = key_match h.key key in
      let w' : IsFilled c h' = record {
        first = w.0.first;
        indices = w.0.indices;
        held = w.0.held;
        paired = w.0.paired;
      } in
      elim (Bool-cases (ltb n (length h.key))) [
        | inl part ↦ rw part (
            (
              upper_half-IsFilled c s h' n w' (key_match_pos c h.key key w.0.first hit),
              ((lower_half-IsFilled c h' n w' (ltb→lt _ _ part), w.1), refl, tt),
            ))
        | inr whole ↦ rw whole ((w', match_children-Wf h.id f (drop n key) now s w.1))
      ]

-- ===== src/Radix/Locks/Matched.antt =====
-- The last node of a match is where its matched tokens end.
use sglang_mlx.Prelude.{
  ℕ, zero, suc, ◌+◌, ◌≤◌, true, false, Option, none, some, List, [], ◌∷◌, ◌==◌, ◌≡◌, refl, ◌∙◌, ap,
  arith, ltb, length, take, drop, get_or, Bool-cases, inl, inr, ◌⊎◌, length-append, length-take,
}
use sglang_mlx.Radix.Tree.{
  TreeNode, Tree, tree, Children, nil, child, Supply, slots, key_match, split_node, upper_half,
  lower_half,
}
use sglang_mlx.Radix.Walk.{leads, match_children, match_tree}
use sglang_mlx.Radix.View.{along, cached_children, cached_tree, WfChildren, WfTree}
use sglang_mlx.Radix.MatchView.{along_part, along_whole}
use sglang_mlx.Radix.InsertPrefix.{key_match_whole}
use sglang_mlx.Radix.Locks.Ends.{strip, end_or, end_children, end_tree}

leads-take : (c m : ℕ) (key : List ℕ) → leads c key ≡ true → 1 ≤ m → leads c (take m key) ≡ true
leads-take c zero key e h = absurd (omega (arith, h))
leads-take c (suc m) [] e h = cc
leads-take c (suc m) (a ∷ key) e h = e

leads-take_off : (c m : ℕ) (key : List ℕ) → leads c key ≡ false → leads c (take m key) ≡ false
leads-take_off c zero key e = refl
leads-take_off c (suc m) [] e = refl
leads-take_off c (suc m) (a ∷ key) e = e

-- Up to where a key and a query agree, the query has the key.
strip_part :
    (key q : List ℕ) → strip (take (key_match key q) key) (take (key_match key q) q) ≡ some []
unfolding strip key_match
strip_part [] q = refl
strip_part (a ∷ key) [] = refl
strip_part (a ∷ key) (b ∷ q) = elim (Bool-cases (a == b)) [
  | inl e ↦ rw (e, e) (strip_part key q)
  | inr e ↦ rw e refl
]

strip_whole :
    (key q : List ℕ) (m : ℕ)
    → ltb (key_match key q) (length key) ≡ false
    → strip key (take (length key + m) q) ≡ some (take m (drop (key_match key q) q))
unfolding strip key_match
strip_whole [] q m e = let z : 0 + m ≡ m = omega arith in rw z refl
strip_whole (a ∷ key) [] m e = absurd (ground arith)
strip_whole (a ∷ key) (b ∷ q) m e = elim (Bool-cases (a == b)) [
  | inl k ↦
      let z : suc (length key) + m ≡ suc (length key + m) = omega arith in
      rw (z, k) (strip_whole key q m (ground arith))
  | inr k ↦ absurd (ground arith)
]

key_match_first :
    (c : ℕ) (key q : List ℕ) → leads c key ≡ true → leads c q ≡ true → 1 ≤ key_match key q
unfolding key_match
key_match_first c [] q e k = absurd cc
key_match_first c (a ∷ key) [] e k = absurd cc
key_match_first c (a ∷ key) (b ∷ q) e k = ground arith

end_children-nil : (f : Children) → end_children f [] ≡ none
unfolding end_children
end_children-nil nil = refl
end_children-nil (child c t f) = end_children-nil f

end_or-below :
    (id : ℕ) (f : Children) (r : List ℕ) (i : ℕ)
    → end_children f r ≡ some i
    → end_or id (end_children f) (some r) ≡ some i
end_or-below id f [] i e = let k = end_children-nil f in absurd cc
end_or-below id f (b ∷ r) i e = e

-- Either nothing was matched, or the last node is where the matched tokens end.
abbrev pub EndsAt : ℕ → ℕ → ℕ → List ℕ → (List ℕ → Option ℕ) → Type 0
EndsAt node m last key ends =
    ((m ≡ 0) × (last ≡ node)) ⊎ ((1 ≤ m) × (ends (take m key) ≡ some last))

EndsAt-part :
    (h upper : TreeNode) (below : Children) (key : List ℕ)
    → upper.key ≡ take (key_match h.key key) h.key
    → end_tree (tree upper below) (take (key_match h.key key) key) ≡ some upper.id
unfolding end_tree
EndsAt-part h upper below key e = rw (e, strip_part h.key key) refl

EndsAt-whole :
    (h : TreeNode) (f : Children) (m last : ℕ) (key : List ℕ)
    → ltb (key_match h.key key) (length h.key) ≡ false
    → EndsAt h.id m last (drop (key_match h.key key) key) (end_children f)
    → end_tree (tree h f) (take (length h.key + m) key) ≡ some last
unfolding end_tree
EndsAt-whole h f m last key whole (inl (none_left, e)) =
    rw (strip_whole h.key key m whole, none_left, e) refl
EndsAt-whole h f m last key whole (inr (some_left, e)) =
    rw (strip_whole h.key key m whole)
      (end_or-below h.id f (take m (drop (key_match h.key key) key)) last e)

child-EndsAt :
    (c node m last : ℕ) (t : Tree) (f : Children) (key : List ℕ)
    → leads c key ≡ true
    → 1 ≤ m
    → end_tree t (take m key) ≡ some last
    → EndsAt node m last key (end_children (child c t f))
unfolding end_children
child-EndsAt c node m last t f key e h k = inr (h, rw (leads-take c m key e h) k)

child-EndsAt_off :
    (c node m last : ℕ) (t : Tree) (f : Children) (key : List ℕ)
    → leads c key ≡ false
    → EndsAt node m last key (end_children f)
    → EndsAt node m last key (end_children (child c t f))
unfolding end_children
child-EndsAt_off c node m last t f key e (inl v) = inl v
child-EndsAt_off c node m last t f key e (inr (h, k)) = inr (h, rw (leads-take_off c m key e) k)

mutual
  unfolding match_tree cached_tree split_node upper_half

  pub match_children-EndsAt :
      (node : ℕ) (f : Children) (key : List ℕ) (now : ℕ) (s : Supply)
      → WfChildren f
      → let r = match_children node f key now s in
        EndsAt node (length (cached_children f key)) r.last_node key (end_children r.out)
  match_children-EndsAt node nil key now s w = inl (refl, refl)
  match_children-EndsAt node (child c t f) key now s w = elim (Bool-cases (leads c key)) [
    | inl hit ↦
        let (some_matched, e) = match_tree-EndsAt c t key now s hit w.0 in
        rw hit (child-EndsAt c node _ _ (match_tree t key now s).out f key hit some_matched e)
    | inr miss ↦ rw miss (
        child-EndsAt_off c node _ _ t (match_children node f key now s).out key miss
          (match_children-EndsAt node f key now s w.2))
  ]

  pub match_tree-EndsAt :
      (c : ℕ) (t : Tree) (key : List ℕ) (now : ℕ) (s : Supply)
      → leads c key ≡ true
      → WfTree c t
      → let r = match_tree t key now s in
        let m = length (cached_tree t key) in
        (1 ≤ m) × (end_tree r.out (take m key) ≡ some r.last_node)
  match_tree-EndsAt c (tree h f) key now s on w =
      let n = key_match h.key key in
      let h' = record h { last_access_time = now } in
      let first = key_match_first c h.key key w.0.first on in
      elim (Bool-cases (ltb n (length h.key))) [
        | inl part ↦
            let m : length (along h.key (slots h.value) (cached_children f) key) ≡ n =
              ap (λ v. length (along h.key (slots v) (cached_children f) key)) w.0.held
              ∙ ap length (along_part h.key w.0.indices (cached_children f) key part w.0.paired)
              ∙ ground (arith, length-take n w.0.indices, w.0.paired) in
            rw (part, m)
              (
                first,
                EndsAt-part h (upper_half s h' n)
                    (child (get_or h.key n 0) (tree (lower_half h' n) f) nil) key refl,
              )
        | inr whole ↦
            let rest = match_children h.id f (drop n key) now s in
            let m : length (along h.key (slots h.value) (cached_children f) key)
                ≡ length h.key + length (cached_children f (drop n key)) =
              ap (λ v. length (along h.key (slots v) (cached_children f) key)) w.0.held
              ∙ ap length (along_whole h.key w.0.indices (cached_children f) key whole w.0.paired)
              ∙ omega
                  (arith, length-append w.0.indices (cached_children f (drop n key)), w.0.paired) in
            rw (whole, m)
              (
                omega (arith, first, key_match_whole h.key key whole),
                EndsAt-whole h' rest.out (length (cached_children f (drop n key))) rest.last_node
                    key whole (match_children-EndsAt h.id f (drop n key) now s w.1),
              )
      ]
